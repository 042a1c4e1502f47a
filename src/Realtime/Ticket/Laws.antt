-- ===== src/Realtime/Ticket/Laws.antt =====
-- What a ticket is good for (ticket.go).
use skyward.Base.{
  ◌≡◌, ◌≢◌, ◌⊎◌, inl, inr, true, false, if◌then◌else◌, none, some, List, [], ◌∷◌, String, arith,
  All, ◌==◌, string_eq, Option-cases, subst, Bool-cases,
}
use skyward.Base.Int.{ℤ, ◌+ℤ◌, ltb_ℤ, ◌≤ℤ◌}
use skyward.Base.Dict.{
  lookup, sweep, IsMap, lookup-insert, lookup-erase, lookup-sweep, insert-IsMap, erase-IsMap,
  sweep-IsMap,
}
use skyward.Realtime.Ticket.{
  Ticket, TicketStore, new_ticket_store, set_ttl, expired_at, issue, redeem, Call, issues, redeems,
  sets_ttl, step, run,
}

pub step-IsMap : (s : TicketStore) (c : Call) → IsMap s.tickets → IsMap (step s c).tickets
unfolding step issue redeem set_ttl
step-IsMap s (issues none u swept now) h = h
step-IsMap s (issues (some tok) u swept now) h =
    insert-IsMap tok _ _ (sweep-IsMap (expired_at swept) s.tickets h)
step-IsMap s (redeems token now) h = ground (arith, erase-IsMap token s.tickets h)
step-IsMap s (sets_ttl d) h = h

-- A ticket that a call leaves in the store was there before, or the call issued it.
abbrev Issues : String → String → Call → Type 0
Issues tok u (issues raw user_id swept now) = (raw ≡ some tok) × (user_id ≡ u)
Issues tok u (redeems token now) = ⊥
Issues tok u (sets_ttl d) = ⊥

origin_step :
    (s : TicketStore) (c : Call) (tok : String) (t : Ticket)
    → IsMap s.tickets
    → lookup tok (step s c).tickets ≡ some t
    → (lookup tok s.tickets ≡ some t) ⊎ Issues tok t.user_id c
unfolding step issue redeem set_ttl
origin_step s (issues none u swept now) tok t h e = inl e
origin_step s (issues (some new) u swept now) tok t h e = ground (
  arith,
  string_eq.equal_iff new tok,
  lookup-insert new tok (record { user_id = u; expires = now +ℤ s.ttl })
      (sweep (expired_at swept) s.tickets),
  lookup-sweep (expired_at swept) tok s.tickets h,
)
origin_step s (redeems token now) tok t h e = ground (arith, lookup-erase token tok s.tickets)
origin_step s (sets_ttl d) tok t h e = inl e

abbrev pub Issued : String → String → List Call → Type 0
Issued tok u [] = ⊥
Issued tok u (c ∷ cs) = Issues tok u c ⊎ Issued tok u cs

pub origin_run :
    (s : TicketStore) (cs : List Call) (tok : String) (t : Ticket)
    → IsMap s.tickets
    → lookup tok (run s cs).tickets ≡ some t
    → (lookup tok s.tickets ≡ some t) ⊎ Issued tok t.user_id cs
unfolding run
origin_run s [] tok t h e = inl e
origin_run s (c ∷ cs) tok t h e = elim (origin_run (step s c) cs tok t (step-IsMap s c h) e) [
  | inl here ↦ elim (origin_step s c tok t h here) [ inl old ↦ inl old | inr new ↦ inr (inl new) ]
  | inr later ↦ inr (inr later)
]

redeem_found_user :
    (s : TicketStore) (tok u : String) (now : ℤ)
    → (redeem s tok now).0 ≡ some u
    → (t : Ticket) × (lookup tok s.tickets ≡ some t) × (t.user_id ≡ u)
unfolding redeem
redeem_found_user s tok u now e = elim (Option-cases (lookup tok s.tickets)) [
  | inl missing ↦ ground arith
  | inr (t, found) ↦ (t, found, ground arith)
]

-- Whoever redeems a token gets the user that the token was issued for: from a new store, after any
-- calls, a token that redeems to a user was issued to that user by one of these calls.
pub redeem_provenance :
    (cs : List Call) (tok u : String) (now : ℤ)
    → (redeem (run new_ticket_store cs) tok now).0 ≡ some u
    → Issued tok u cs
unfolding new_ticket_store
redeem_provenance cs tok u now e =
    let (t, found, same) = redeem_found_user (run new_ticket_store cs) tok u now e in
    elim (origin_run new_ticket_store cs tok t tt found) [
      | inl none_yet ↦ cc
      | inr issued ↦ subst (λ v. Issued tok v cs) same issued
    ]

redeem_empty :
    (s : TicketStore) (tok : String) (now : ℤ) → (tok == "") ≡ true → redeem s tok now ≡ (none, s)
unfolding redeem
redeem_empty s tok now e = rw e

redeem_missing :
    (s : TicketStore) (tok : String) (now : ℤ)
    → lookup tok s.tickets ≡ none
    → redeem s tok now ≡ (none, s)
unfolding redeem
redeem_missing s tok now e = ground arith

redeem_forgets :
    (s : TicketStore) (tok : String) (now : ℤ)
    → (tok == "") ≡ false
    → lookup tok (step s (redeems tok now)).tickets ≡ none
unfolding step redeem
redeem_forgets s tok now h =
    ground (arith, string_eq.equal_iff tok tok, lookup-erase tok tok s.tickets)

stays_gone :
    (s : TicketStore) (tok : String) (cs : List Call)
    → IsMap s.tickets
    → lookup tok s.tickets ≡ none
    → ((u : String) → ¬ Issued tok u cs)
    → lookup tok (run s cs).tickets ≡ none
stays_gone s tok cs h gone quiet = elim (Option-cases (lookup tok (run s cs).tickets)) [
  | inl e ↦ e
  | inr (t, e) ↦ elim (origin_run s cs tok t h e) [
    | inl old ↦ cc
    | inr new ↦ absurd (quiet t.user_id new)
  ]
]

-- A ticket is good for one redemption: once its token was tried, whatever came of it, every later
-- attempt is refused and changes nothing, as long as no call in between issues the same token again.
-- The store keeps each token once (`IsMap`).
pub redeem_once :
    (s : TicketStore) (tok : String) (now later : ℤ) (cs : List Call)
    → IsMap s.tickets
    → ((u : String) → ¬ Issued tok u cs)
    → let s' = run (step s (redeems tok now)) cs in redeem s' tok later ≡ (none, s')
redeem_once s tok now later cs h quiet = elim (Bool-cases (tok == "")) [
  | inl e ↦ redeem_empty _ tok later e
  | inr ne ↦
      redeem_missing _ tok later
        (stays_gone _ tok cs (step-IsMap s (redeems tok now) h) (redeem_forgets s tok now ne) quiet)
]

-- What a call may do without touching the ticket `tok`, which is good until `deadline`: it neither
-- issues nor redeems this token, and an issue sweeps no later than the deadline.
abbrev pub Spares : String → ℤ → Call → Type 0
Spares tok deadline (issues raw u swept now) = (raw ≢ some tok) × (swept ≤ℤ deadline)
Spares tok deadline (redeems token now) = token ≢ tok
Spares tok deadline (sets_ttl d) = Unit

Spares-step :
    (s : TicketStore) (c : Call) (tok : String) (t : Ticket)
    → IsMap s.tickets
    → Spares tok t.expires c
    → lookup tok s.tickets ≡ some t
    → lookup tok (step s c).tickets ≡ some t
unfolding step issue redeem set_ttl
Spares-step s (issues none u swept now) tok t h q e = e
Spares-step s (issues (some new) u swept now) tok t h q e = ground (
  arith,
  string_eq.equal_iff new tok,
  lookup-insert new tok (record { user_id = u; expires = now +ℤ s.ttl })
      (sweep (expired_at swept) s.tickets),
  lookup-sweep (expired_at swept) tok s.tickets h,
)
Spares-step s (redeems token now) tok t h q e =
    ground (arith, string_eq.equal_iff token tok, lookup-erase token tok s.tickets)
Spares-step s (sets_ttl d) tok t h q e = e

Spares-run :
    (s : TicketStore) (cs : List Call) (tok : String) (t : Ticket)
    → IsMap s.tickets
    → All (Spares tok t.expires) cs
    → lookup tok s.tickets ≡ some t
    → lookup tok (run s cs).tickets ≡ some t
unfolding run
Spares-run s [] tok t h q e = e
Spares-run s (c ∷ cs) tok t h q e =
    Spares-run (step s c) cs tok t (step-IsMap s c h) q.1 (Spares-step s c tok t h q.0 e)

redeem_stored :
    (s : TicketStore) (tok : String) (t : Ticket) (now : ℤ)
    → tok ≢ ""
    → lookup tok s.tickets ≡ some t
    → (redeem s tok now).0 ≡ (if expired_at now t then none else some t.user_id)
unfolding redeem
redeem_stored s tok t now ne e = ground (arith, string_eq.equal_iff tok "")

issue_stores :
    (s : TicketStore) (tok u : String) (swept now : ℤ)
    → lookup tok (step s (issues (some tok) u swept now)).tickets
      ≡ some (record { user_id = u; expires = now +ℤ s.ttl })
unfolding step issue
issue_stores s tok u swept now = ground (
  arith,
  string_eq.equal_iff tok tok,
  lookup-insert tok tok (record { user_id = u; expires = now +ℤ s.ttl })
      (sweep (expired_at swept) s.tickets),
)

-- A ticket lives exactly as long as the TTL at its issue: it redeems to its user up to and at its
-- deadline, and to nobody after it. The token is not empty, the store keeps each token once, and the
-- calls in between neither issue nor redeem this token nor sweep after its deadline; they may change
-- the TTL.
pub issue_redeem :
    (s : TicketStore) (tok u : String) (swept now later : ℤ) (cs : List Call)
    → tok ≢ ""
    → IsMap s.tickets
    → All (Spares tok (now +ℤ s.ttl)) cs
    → (redeem (run (step s (issues (some tok) u swept now)) cs) tok later).0
      ≡ (if ltb_ℤ (now +ℤ s.ttl) later then none else some u)
issue_redeem s tok u swept now later cs ne h q = redeem_stored _ tok fresh later ne (
    Spares-run _ cs tok fresh (step-IsMap s (issues (some tok) u swept now) h) q
      (issue_stores s tok u swept now))
  where
    fresh : Ticket
    fresh = record { user_id = u; expires = now +ℤ s.ttl }

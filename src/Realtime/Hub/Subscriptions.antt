-- ===== src/Realtime/Hub/Subscriptions.antt =====
-- Who is subscribed to what (hub.go).
use skyward.Base.{
  ℕ, ◌≡◌, refl, sym, inl, inr, Bool, true, false, ◌&&◌, if◌then◌else◌, Option, none, some, List, [],
  ◌∷◌, String, arith, ◌==◌, string_eq, nat_eq, fun_ext, Option-cases,
}
use skyward.Base.Dict.{Dict, lookup, lookup-insert, lookup-erase}
use skyward.Base.Set.{mem, add, remove, mem-add, mem-remove}
use skyward.Realtime.Hub.{
  Bytes, Client, Hub, Event, new_hub, try_send, close_locked, close, register, leave, leave_all,
  names, unregister, members, subscribe, unsubscribe, send_each, broadcast, broadcast_all, Call,
  registers, unregisters, closes, subscribes, unsubscribes, broadcasts, broadcasts_all, sends, step,
  run, write, put_set, drop_name, broadcast_to,
}

-- `c` is in the hub's set for the channel.
abbrev pub listed : Dict String (List ℕ) → ℕ → String → Bool
listed m c ch = mem c (members m ch)

listed-put_set :
    (m : Dict String (List ℕ)) (set : List ℕ) (x : ℕ) (ch ch' : String)
    → listed (put_set ch set m) x ch' ≡ (if ch == ch' then mem x set else listed m x ch')
unfolding put_set
listed-put_set m [] x ch ch' = ground (arith, lookup-erase ch ch' m)
listed-put_set m (c ∷ set) x ch ch' = ground (arith, lookup-insert ch ch' (c ∷ set) m)

listed-leave :
    (m : Dict String (List ℕ)) (c x : ℕ) (ch ch' : String)
    → listed (leave c ch m) x ch'
      ≡ (if ch == ch' then (if c == x then false else listed m x ch') else listed m x ch')
unfolding leave
listed-leave m c x ch ch' = elim (Option-cases (lookup ch m)) [
  | inl e ↦ ground (arith, string_eq.equal_iff ch ch')
  | inr (set, e) ↦ ground (
    arith,
    string_eq.equal_iff ch ch',
    mem-remove c x set,
    listed-put_set m (remove c set) x ch ch',
  )
]

listed-leave_all :
    (m : Dict String (List ℕ)) (c x : ℕ) (chs : List String) (ch : String)
    → listed (leave_all c chs m) x ch
      ≡ (if c == x then (if mem ch chs then false else listed m x ch) else listed m x ch)
unfolding leave_all
listed-leave_all m c x [] ch = ground arith
listed-leave_all m c x (k ∷ chs) ch =
    ground (arith, listed-leave_all (leave c k m) c x chs ch, listed-leave m c x k ch)

-- The hub's sets and the clients' own sets say the same.
abbrev pub IsLinked : Hub → Type 0
IsLinked h = (c : ℕ) (ch : String) → listed h.channels c ch ≡ mem ch (names (h.object c).channels)

close_locked-channels : (c : Client) → (close_locked c).channels ≡ c.channels
unfolding close_locked
close_locked-channels c = ground arith

try_send-channels : (c : Client) (msg : Bytes) → (try_send c msg).0.channels ≡ c.channels
unfolding try_send
try_send-channels c msg = ground arith

unregister-IsLinked : (h : Hub) (c : ℕ) → IsLinked h → IsLinked (unregister h c)
unfolding unregister
unregister-IsLinked h c l x ch = ground (
  arith,
  l x ch,
  nat_eq.equal_iff c x,
  listed-leave_all h.channels c x (names (h.object c).channels) ch,
  close_locked-channels (record (h.object c) { channels = none }),
)

subscribe-IsLinked : (h : Hub) (c : ℕ) (k : String) → IsLinked h → IsLinked (subscribe h c k)
unfolding subscribe
subscribe-IsLinked h c k l x ch = ground (
  arith,
  l x ch,
  nat_eq.equal_iff c x,
  l c ch,
  string_eq.equal_iff k ch,
  lookup-insert k ch (add c (members h.channels k)) h.channels,
  mem-add c x (members h.channels k),
  mem-add k ch (names (h.object c).channels),
)

mem-drop_name :
    (k ch : String) (o : Option (List String))
    → mem ch (names (drop_name k o)) ≡ (if k == ch then false else mem ch (names o))
mem-drop_name k ch none = ground arith
mem-drop_name k ch (some s) = mem-remove k ch s

unsubscribe-IsLinked : (h : Hub) (c : ℕ) (k : String) → IsLinked h → IsLinked (unsubscribe h c k)
unfolding unsubscribe
unsubscribe-IsLinked h c k l x ch = ground (
  arith,
  l x ch,
  nat_eq.equal_iff c x,
  string_eq.equal_iff k ch,
  listed-leave h.channels c x k ch,
  mem-drop_name k ch (h.object c).channels,
)

send_each-channels :
    (set : List ℕ) (msg : Bytes) (object : ℕ → Client) (c : ℕ)
    → (send_each set msg object c).channels ≡ (object c).channels
unfolding send_each
send_each-channels set msg object c = ground (arith, try_send-channels (object c) msg)

-- A method that sends or closes leaves every client's own set of channels.
write-channels :
    (object : ℕ → Client) (k c : ℕ) (o : Client)
    → o.channels ≡ (object k).channels
    → (write k o object c).channels ≡ (object c).channels
write-channels object k c o e = ground (arith, nat_eq.equal_iff k c)

-- What each call does to who is subscribed to what.
abbrev pub wants_step : Call → (ℕ → String → Bool) → ℕ → String → Bool
wants_step (unregisters c) r x ch = if c == x then false else r x ch
wants_step (subscribes c k) r x ch = if c == x && k == ch then true else r x ch
wants_step (unsubscribes c k) r x ch = if c == x && k == ch then false else r x ch
wants_step _ r x ch = r x ch

abbrev pub wants : List Call → (ℕ → String → Bool) → ℕ → String → Bool
wants [] r = r
wants (c ∷ cs) r = wants cs (wants_step c r)

module _ (marshal : Event → Option Bytes) where
  broadcast_to-same :
      (h : Hub) (k event : String) (set : List ℕ) (c : ℕ)
      → ((broadcast_to marshal h k event set).channels ≡ h.channels)
        × (((broadcast_to marshal h k event set).object c).channels ≡ (h.object c).channels)
  unfolding broadcast_to
  broadcast_to-same h k event [] c = (refl, refl)
  broadcast_to-same h k event (x ∷ set) c =
      elim (marshal (record { type = "change"; channel = k; event = event; at = "" }))
        as (λ o.
          let h' : Hub = elim o [
            | none ↦ h
            | some msg ↦ record h { object = send_each (x ∷ set) msg h.object }
          ] in
          (h'.channels ≡ h.channels) × ((h'.object c).channels ≡ (h.object c).channels)) [
            | none ↦ (refl, refl)
            | some msg ↦ (refl, send_each-channels (x ∷ set) msg h.object c)
          ]

  pub step-IsLinked : (h : Hub) (c : Call) → IsLinked h → IsLinked (step marshal h c)
  unfolding step register close broadcast broadcast_all
  step-IsLinked h (registers c) l x ch = l x ch
  step-IsLinked h (unregisters c) l x ch = unregister-IsLinked h c l x ch
  step-IsLinked h (closes c) l x ch =
      rw
        (write-channels h.object c x (close_locked (h.object c))
          (close_locked-channels (h.object c)))
        (l x ch)
  step-IsLinked h (subscribes c k) l x ch = subscribe-IsLinked h c k l x ch
  step-IsLinked h (unsubscribes c k) l x ch = unsubscribe-IsLinked h c k l x ch
  step-IsLinked h (broadcasts k event) l x ch =
      ground (arith, l x ch, broadcast_to-same h k event (members h.channels k) x)
  step-IsLinked h (broadcasts_all event) l x ch =
      rw (send_each-channels h.clients _ h.object x) (l x ch)
  step-IsLinked h (sends c msg) l x ch =
      rw
        (write-channels h.object c x (try_send (h.object c) msg).0
          (try_send-channels (h.object c) msg))
        (l x ch)

  step-wants :
      (h : Hub) (c : Call) (x : ℕ) (ch : String)
      → IsLinked h
      → listed (step marshal h c).channels x ch ≡ wants_step c (listed h.channels) x ch
  unfolding step register close broadcast broadcast_all unregister subscribe unsubscribe
  step-wants h (registers c) x ch l = refl
  step-wants h (unregisters c) x ch l = ground (
    arith,
    l x ch,
    nat_eq.equal_iff c x,
    listed-leave_all h.channels c x (names (h.object c).channels) ch,
  )
  step-wants h (closes c) x ch l = refl
  step-wants h (subscribes c k) x ch l = ground (
    arith,
    string_eq.equal_iff k ch,
    lookup-insert k ch (add c (members h.channels k)) h.channels,
    mem-add c x (members h.channels k),
  )
  step-wants h (unsubscribes c k) x ch l =
      ground (arith, listed-leave h.channels c x k ch, string_eq.equal_iff k ch)
  step-wants h (broadcasts k event) x ch l =
      ground (arith, broadcast_to-same h k event (members h.channels k) x)
  step-wants h (broadcasts_all event) x ch l = refl
  step-wants h (sends c msg) x ch l = refl

  -- The hub refines a plain table of who wants what: after any calls, a client is in a channel's set
  -- exactly if its subscriptions, unsubscriptions and unregistrations so far say so, and then the
  -- client's own set has the channel too. At the start the two sides agree (`IsLinked`).
  pub run-wants :
      (h : Hub) (cs : List Call) (x : ℕ) (ch : String)
      → IsLinked h
      → (listed (run marshal h cs).channels x ch ≡ wants cs (listed h.channels) x ch)
        × (mem ch (names ((run marshal h cs).object x).channels)
            ≡ wants cs (listed h.channels) x ch)
  unfolding run
  run-wants h [] x ch l = (refl, sym (l x ch))
  run-wants h (c ∷ cs) x ch l =
      let once : listed (step marshal h c).channels ≡ wants_step c (listed h.channels) =
        fun_ext (λ y. fun_ext (λ k. step-wants h c y k l)) in
      rw (← once) (run-wants (step marshal h c) cs x ch (step-IsLinked h c l))

pub new_hub-IsLinked :
    (object : ℕ → Client) → ((c : ℕ) → names (object c).channels ≡ []) → IsLinked (new_hub object)
unfolding new_hub
new_hub-IsLinked object empty c ch = rw (empty c)

-- ===== src/Realtime/Ticket.antt =====
-- apps/api/internal/realtime/ticket.go. A call of the clock is an argument, one for each call that
-- the code makes; so is the token that crypto/rand and base64 give, `none` where rand fails. Times
-- and durations are integers of nanoseconds that do not overflow. The mutex makes each method one
-- step.
pub mod Laws
mod Tests
use skyward.Base.{
  ℕ, ◌≡◌, Bool, true, false, if◌then◌else◌, Option, none, some, List, [], ◌∷◌, String, length, ◌==◌,
  string_eq,
}
use skyward.Base.Int.{ℤ, pos, ◌+ℤ◌, ltb_ℤ}
use skyward.Base.Dict.{Dict, lookup, insert, erase, sweep}

pub record Ticket : Type 0 where
  pub user_id : String
  pub expires : ℤ

pub record TicketStore : Type 0 where
  pub tickets : Dict String Ticket
  pub ttl : ℤ

-- 30 seconds
abbrev pub ticket_ttl_default : ℤ
ticket_ttl_default = pos 30_000_000_000

unfoldable pub new_ticket_store : TicketStore
new_ticket_store = record { tickets = []; ttl = ticket_ttl_default }

unfoldable pub set_ttl : TicketStore → ℤ → TicketStore
set_ttl s d = record s { ttl = d }

-- `now.After(t.expires)`
abbrev pub expired_at : ℤ → Ticket → Bool
expired_at now t = ltb_ℤ t.expires now

unfoldable pub sweep_locked : TicketStore → ℤ → TicketStore
sweep_locked s now = record s { tickets = sweep (expired_at now) s.tickets }

-- `swept` and `now` are the two readings of the clock, by the sweep and for the expiry.
unfoldable pub issue : TicketStore → Option String → String → ℤ → ℤ → Option String × TicketStore
unfolding sweep_locked
issue s none user_id swept now = (none, s)
issue s (some tok) user_id swept now =
    let s' = sweep_locked s swept in
    let t : Ticket = record { user_id = user_id; expires = now +ℤ s'.ttl } in
    (some tok, record s' { tickets = insert tok t s'.tickets })

-- The ticket is deleted whatever comes of it.
redeem_found : TicketStore → String → Option Ticket → ℤ → Option String × TicketStore
redeem_found s token none now = (none, s)
redeem_found s token (some t) now =
    let s' = record s { tickets = erase token s.tickets } in
    if expired_at now t then (none, s') else (some t.user_id, s')

-- `none` is `ok = false`.
unfoldable pub redeem : TicketStore → String → ℤ → Option String × TicketStore
unfolding redeem_found
redeem s token now =
    if token == "" then (none, s) else redeem_found s token (lookup token s.tickets) now

unfoldable pub len : TicketStore → ℕ
len s = length s.tickets

-- The calls of a store's methods, with what the environment gives each.
pub data Call : Type 0 where
  issues : Option String → String → ℤ → ℤ → Call
  redeems : String → ℤ → Call
  sets_ttl : ℤ → Call

unfoldable pub step : TicketStore → Call → TicketStore
step s (issues raw user_id swept now) = (issue s raw user_id swept now).1
step s (redeems token now) = (redeem s token now).1
step s (sets_ttl d) = set_ttl s d

unfoldable pub run : TicketStore → List Call → TicketStore
run s [] = s
run s (c ∷ cs) = run (step s c) cs

-- ===== src/Middleware/RateLimit.antt =====
-- `RateLimit` of apps/api/internal/middleware/middleware.go: the counter of requests for each IP,
-- and the goroutine that cleans the counters up. Times are Unix seconds.
pub mod Cleanup
mod Tests
use skyward.Base.{
  ℕ, suc, Bool, true, false, if◌then◌else◌, Option, none, some, List, [], ◌∷◌, String, ltb,
  string_eq,
}
use skyward.Base.Int.{ℤ, pos, ◌+ℤ◌, ◌-ℤ◌, ltb_ℤ, leb_ℤ}
use skyward.Base.Dict.{Dict, lookup, insert, sweep}

pub record Slot : Type 0 where
  pub count : ℕ
  pub reset : ℤ

abbrev pub States : Type 0
States = Dict String Slot

abbrev pub stale : ℤ → Slot → Bool
stale now s = ltb_ℤ s.reset now

-- The slot that a request at `now` counts in.
unfoldable pub slot_at : Option Slot → ℤ → Slot
slot_at none now = record { count = 0; reset = now +ℤ pos 60 }
slot_at (some s) now = if stale now s then record { count = 0; reset = now +ℤ pos 60 } else s

-- Whether the request goes on to the next handler; if not it is answered 429.
unfoldable pub request : ℤ → States → String → ℤ → Bool × States
unfolding slot_at
request per_min states ip now =
    if leb_ℤ per_min (pos 0)
    then (true, states)
    else let s = slot_at (lookup ip states) now in
      let counted : Slot = record s { count = suc s.count } in
      (leb_ℤ (pos counted.count) per_min, insert ip counted states)

-- One tick of the cleaning goroutine.
unfoldable pub clean : States → ℤ → States
clean states now = sweep (stale (now -ℤ pos 60)) states

pub data Event : Type 0 where
  requests : String → ℤ → Event
  cleans : ℤ → Event

-- What the requests among the events are answered.
unfoldable pub answers : ℤ → States → List Event → List Bool
answers per_min states [] = []
answers per_min states (requests ip now ∷ es) =
    let (passed, states') = request per_min states ip now in passed ∷ answers per_min states' es
answers per_min states (cleans now ∷ es) = answers per_min (clean states now) es

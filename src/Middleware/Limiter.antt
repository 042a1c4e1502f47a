-- ===== src/Middleware/Limiter.antt =====
-- apps/api/internal/middleware/limiter.go. The reading of the clock is an argument of each call.
-- Times and durations are integers of nanoseconds that do not overflow; a counter starts at 0 and
-- grows by one a call, so it is a natural number.
pub mod Laws
mod Tests
use skyward.Base.{
  ℕ, suc, Bool, true, false, ◌||◌, not, if◌then◌else◌, Option, none, some, List, [], ◌∷◌, String,
  length, leb, ◌+◌, string_eq, ◌&&◌, zero,
}
use skyward.Base.Int.{ℤ, pos, ◌+ℤ◌, ◌-ℤ◌, ltb_ℤ, leb_ℤ}
use skyward.Base.Dict.{Dict, lookup, insert, erase, sweep}

pub record LimiterWindow : Type 0 where
  pub count : ℕ
  pub reset_at : ℤ

pub record WindowLimiter : Type 0 where
  pub window : ℤ
  pub hits : Dict String LimiterWindow
  pub max_keys : ℤ

unfoldable pub new_window_limiter : ℤ → ℤ → WindowLimiter
new_window_limiter window max_keys = record {
  window = window;
  hits = [];
  max_keys = if leb_ℤ max_keys (pos 0) then pos 8192 else max_keys;
}

-- `now.After(w.resetAt)`
abbrev pub passed : ℤ → LimiterWindow → Bool
passed now w = ltb_ℤ w.reset_at now

sweep_locked : WindowLimiter → ℤ → WindowLimiter
sweep_locked l now = record l { hits = sweep (passed now) l.hits }

-- The window that the attempt counts in, and the limiter after the sweep that a new key may cause.
open_window : WindowLimiter → ℤ → Option LimiterWindow → LimiterWindow × WindowLimiter
unfolding sweep_locked
open_window l now none = (
  record { count = 0; reset_at = now +ℤ l.window },
  if leb_ℤ l.max_keys (pos (length l.hits)) then sweep_locked l now else l,
)
open_window l now (some w) =
    (if passed now w then record { count = 0; reset_at = now +ℤ l.window } else w, l)

unfoldable pub allow : WindowLimiter → String → ℕ → ℤ → Bool × WindowLimiter
unfolding open_window
allow l key max now =
    let (w, l') = open_window l now (lookup key l.hits) in
    let counted : LimiterWindow = record w { count = suc w.count } in
    (leb counted.count max, record l' { hits = insert key counted l'.hits })

unfoldable pub clear : WindowLimiter → String → WindowLimiter
clear l key = record l { hits = erase key l.hits }

-- What is left of the key's window.
unfoldable pub left_of : Option LimiterWindow → ℤ → ℤ
left_of none now = pos 0
left_of (some w) now = if passed now w then pos 0 else w.reset_at -ℤ now

unfoldable pub retry_after : WindowLimiter → String → ℤ → ℤ
unfolding left_of
retry_after l key now = left_of (lookup key l.hits) now

pub data Call : Type 0 where
  attempts : String → ℕ → ℤ → Call
  clears : String → Call

unfoldable pub step : WindowLimiter → Call → WindowLimiter
step l (attempts key max now) = (allow l key max now).1
step l (clears key) = clear l key

unfoldable pub run : WindowLimiter → List Call → WindowLimiter
run l [] = l
run l (c ∷ cs) = run (step l c) cs

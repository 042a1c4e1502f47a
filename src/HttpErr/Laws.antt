-- ===== src/HttpErr/Laws.antt =====
-- What an error response tells the client (httperr.go).
use skyward.Base.{
  ℕ, zero, suc, ◌*◌, ◌≤◌, ◌≡◌, refl, ap, true, Option, none, some, String, arith, leb,
}
use mathlib.Core.Option.{some-injective}
use skyward.Base.Int.{ℤ, pos, negsuc, ◌+ℤ◌, ◌≤ℤ◌, ◌<ℤ◌, +ℤ_parts}
use skyward.HttpErr.{
  GoError, http, wraps, as_error, is_server_side, second, retry_seconds, too_many_requests_after,
  write_error, internal,
}
use skyward.Middleware.Limiter.{WindowLimiter, allow, retry_after}
use skyward.Middleware.Limiter.Laws.{retry_after_suffices}

abbrev pub wraps_times : ℕ → GoError → GoError
wraps_times zero e = e
wraps_times (suc n) e = wraps (wraps_times n e)

as_error-wraps_times : (n : ℕ) (e : GoError) → as_error (some (wraps_times n e)) ≡ as_error (some e)
unfolding as_error
as_error-wraps_times zero e = refl
as_error-wraps_times (suc n) e = as_error-wraps_times n e

-- An error wrapped any number of times is answered like the error itself.
pub write_error-wraps_times :
    (n : ℕ) (e : GoError) → write_error (some (wraps_times n e)) ≡ write_error (some e)
unfolding write_error
write_error-wraps_times n e = rw (as_error-wraps_times n e)

-- If the answer's code is internal or database, its message is the fixed one and its status 500,
-- whatever the error was; and every error in which no `*Error` is found is answered with the code
-- internal.
pub write_error_hides :
    (err : Option GoError)
    → let r = write_error err in
      (is_server_side r.code ≡ true → (r.message ≡ "internal error") × (r.status ≡ 500))
      × (as_error err ≡ none → r.code ≡ internal)
unfolding write_error
write_error_hides err = ground arith

-- Every answer has a status from 400 to 503.
pub write_error_status :
    (err : Option GoError) → let r = write_error err in (400 ≤ r.status) × (r.status ≤ 503)
unfolding write_error
write_error_status err = ground arith

le_seconds : (d : ℤ) → d ≤ℤ pos (retry_seconds d * second)
unfolding retry_seconds
le_seconds (pos d) = ground arith
le_seconds (negsuc d) = omega arith

seconds_lt : (d : ℤ) → pos 0 <ℤ d → pos (retry_seconds d * second) <ℤ d +ℤ pos second
unfolding retry_seconds
seconds_lt (pos d) h = ground (arith, +ℤ_parts (pos d) (pos second))
seconds_lt (negsuc d) h = absurd (omega arith)

-- A 429 with a positive time to wait has a header with that time in seconds, rounded up: no less
-- than the time, and by less than a second more.
pub retry_header :
    (message : String) (d : ℤ)
    → pos 0 <ℤ d
    → (secs : ℕ) × ((write_error (some (http (too_many_requests_after message d)))).retry_after
        ≡ some secs)
      × (d ≤ℤ pos (secs * second))
      × (pos (secs * second) <ℤ d +ℤ pos second)
unfolding write_error too_many_requests_after
retry_header message d h = (retry_seconds d, refl, (le_seconds d), seconds_lt d h)

-- A client that is answered 429 with the limiter's time, and whose next attempt comes later than the
-- header's seconds with no call in between, is let through by any limit but 0.
pub retry_header_suffices :
    (l : WindowLimiter) (key message : String) (max : ℕ) (now later : ℤ) (secs : ℕ)
    → (write_error
        (some (http (too_many_requests_after message (retry_after l key now))))).retry_after
      ≡ some secs
    → now +ℤ pos (secs * second) <ℤ later
    → (allow l key max later).0 ≡ leb 1 max
unfolding write_error too_many_requests_after
retry_header_suffices l key message max now later secs e wait =
    retry_after_suffices l key max now later (
      omega (
        arith,
        le_seconds (retry_after l key now),
        ap (λ n. n * second) (some-injective _ _ e),
        +ℤ_parts now (retry_after l key now),
        +ℤ_parts now (pos (secs * second)),
      ))

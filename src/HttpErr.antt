-- ===== src/HttpErr.antt =====
-- apps/api/internal/httperr/httperr.go. Logging is left out, and so is `Err`, which only the log
-- reads. A response is its status, its Retry-After header and the two texts of its JSON body.
pub mod Laws
mod Tests
use skyward.Base.{
  ℕ, ◌+◌, ◌/◌, Bool, true, false, if◌then◌else◌, Option, none, some, String, ltb, ◌-◌,
}
use skyward.Base.Int.{ℤ, pos, negsuc}

pub data Code : Type 0 where
  not_found conflict validation unavailable internal database unauthorized too_many : Code
  other : String → Code

-- `*Error`
pub record HttpError : Type 0 where
  pub code : Code
  pub message : String
  pub retry_after : ℤ

-- Go errors by how they unwrap: `joins` is `fmt.Errorf` with two `%w`, whose `Unwrap` gives a slice.
pub data GoError : Type 0 where
  http : HttpError → GoError
  wraps : GoError → GoError
  joins : GoError → GoError → GoError
  plain : GoError

unfoldable pub new : Code → String → HttpError
new code message = record { code = code; message = message; retry_after = pos 0 }

unfoldable pub too_many_requests_after : String → ℤ → HttpError
unfolding new
too_many_requests_after message d = let e = new too_many message in record e { retry_after = d }

-- `statusByCode`, which gives 0 for a code that it does not have
unfoldable pub status_by_code : Code → ℕ
status_by_code not_found = 404
status_by_code conflict = 409
status_by_code validation = 400
status_by_code unauthorized = 401
status_by_code unavailable = 503
status_by_code internal = 500
status_by_code database = 500
status_by_code too_many = 429
status_by_code (other c) = 0

as_error_from : GoError → Option HttpError
as_error_from (http e) = some e
as_error_from (wraps e) = as_error_from e
as_error_from (joins e f) = none
as_error_from plain = none

-- `none` is the nil error.
unfoldable pub as_error : Option GoError → Option HttpError
unfolding as_error_from
as_error none = none
as_error (some e) = as_error_from e

pub record Response : Type 0 where
  pub status : ℕ
  pub retry_after : Option ℕ
  pub code : Code
  pub message : String

abbrev pub is_server_side : Code → Bool
is_server_side internal = true
is_server_side database = true
is_server_side _ = false

abbrev is_too_many : Code → Bool
is_too_many too_many = true
is_too_many _ = false

abbrev pub second : ℕ
second = 1_000_000_000

-- The header's whole seconds, rounded up; 1 where no time is given.
retry_seconds : ℤ → ℕ
retry_seconds (pos d) = if ltb 0 d then (d + second - 1) / second else 1
retry_seconds (negsuc d) = 1

respond : HttpError → Response
unfolding status_by_code retry_seconds
respond e = record {
  status = let s = status_by_code e.code in if ltb 0 s then s else 500;
  retry_after = if is_too_many e.code then some (retry_seconds e.retry_after) else none;
  code = e.code;
  message = if is_server_side e.code then "internal error" else e.message;
}

or_internal : Option HttpError → HttpError
unfolding new
or_internal none = new internal "internal error"
or_internal (some e) = e

unfoldable pub write_error : Option GoError → Response
unfolding as_error respond or_internal
write_error err = respond (or_internal (as_error err))

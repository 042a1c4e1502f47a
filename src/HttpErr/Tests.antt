-- ===== src/HttpErr/Tests.antt =====
-- Responses to particular errors (httperr.go), and the theorems at concrete inputs.
use skyward.Base.{◌≡◌, refl, none, some, true, arith, string_eq}
use skyward.Base.Int.{pos, ◌+ℤ◌, ◌-ℤ◌}
use skyward.Middleware.Limiter.{
  WindowLimiter, new_window_limiter, allow, step, attempts, retry_after,
}
use skyward.HttpErr.{
  http, write_error, new, too_many_requests_after, is_server_side, internal, database, as_error,
}
use skyward.HttpErr.Laws.{write_error_hides, retry_header_suffices}

write_error_hides_example :
    let r = write_error (some (http (new database "relation users"))) in
    (is_server_side r.code ≡ true → (r.message ≡ "internal error") × (r.status ≡ 500))
    × (as_error (some (http (new database "relation users"))) ≡ none → r.code ≡ internal)
write_error_hides_example = write_error_hides (some (http (new database "relation users")))

abbrev used : WindowLimiter
used = step (new_window_limiter (pos 1_500_000_000) (pos 0)) (attempts "a" 0 (pos 0))

retry_header_suffices_example : (allow used "a" 1 (pos 2_000_000_002)).0 ≡ true
unfolding new_window_limiter step allow retry_after write_error too_many_requests_after ◌+ℤ◌ ◌-ℤ◌
retry_header_suffices_example =
    retry_header_suffices used "a" "wait" 1 (pos 1) (pos 2_000_000_002) 2 refl (omega arith)

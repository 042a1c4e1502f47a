-- ===== src/Middleware/Limiter/Tests.antt =====
-- Runs of the limiter (limiter.go), and its theorems at concrete inputs.
use skyward.Base.{◌≡◌, refl, List, [], ◌∷◌, arith, inl, false, ne_of_beq, string_eq}
use skyward.Base.Int.{pos, ◌+ℤ◌}
use skyward.Middleware.Limiter.{
  WindowLimiter, new_window_limiter, allow, clear, Call, attempts, clears, step, run,
}
use skyward.Middleware.Limiter.Laws.{allow_nth}

abbrev logins : WindowLimiter
logins = new_window_limiter (pos 900) (pos 0)

abbrev others : List Call
others = attempts "b" 10 (pos 5) ∷ attempts "a" 2 (pos 6) ∷ clears "b" ∷ []

third_refused : (allow (run logins (attempts "a" 2 (pos 1) ∷ others)) "a" 2 (pos 7)).0 ≡ false
unfolding new_window_limiter run step allow clear ◌+ℤ◌
third_refused = refl

allow_nth_example :
    (allow (run (step logins (attempts "a" 2 (pos 1))) others) "a" 2 (pos 7)).0 ≡ false
unfolding new_window_limiter ◌+ℤ◌
allow_nth_example =
    allow_nth logins "a" 2 2 (pos 1) (pos 7) others tt (inl refl)
      (omega arith, (omega arith, (ne_of_beq "b" "a" refl, tt))) (omega arith)

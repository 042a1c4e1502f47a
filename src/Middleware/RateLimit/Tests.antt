-- ===== src/Middleware/RateLimit/Tests.antt =====
-- Runs of the rate limit (middleware.go), and its theorem at a concrete input.
use skyward.Base.{◌≡◌, refl, List, [], ◌∷◌, true, false, arith, string_eq}
use skyward.Base.Int.{pos, ◌+ℤ◌, ◌-ℤ◌}
use skyward.Middleware.RateLimit.{Event, requests, cleans, answers, request, clean}
use skyward.Middleware.RateLimit.Cleanup.{requests_only, clean_invisible}

abbrev traffic : List Event
traffic =
    requests "a" (pos 100)
    ∷ requests "a" (pos 101)
    ∷ cleans (pos 130)
    ∷ requests "a" (pos 160)
    ∷ requests "b" (pos 160)
    ∷ cleans (pos 230)
    ∷ requests "a" (pos 231)
    ∷ []

answers-traffic : answers (pos 2) [] traffic ≡ true ∷ true ∷ false ∷ true ∷ true ∷ []
unfolding answers request clean ◌+ℤ◌ ◌-ℤ◌
answers-traffic = refl

clean_invisible_example : answers (pos 2) [] traffic ≡ answers (pos 2) [] (requests_only traffic)
clean_invisible_example = clean_invisible (pos 2) (pos 0) [] traffic tt (omega arith)

-- ===== src/Base/Set.antt =====
-- Go's `map[K]bool` used as a set: a list with a membership test.
use mathlib.Core.Path.{◌≡◌}
use mathlib.Core.Bool.{Bool, false, ◌||◌}
use mathlib.Core.List.{List, [], ◌∷◌}
use native.Mathlib.Omega.{arith}
use skyward.Base.Tests.{Eq, ◌==◌, if◌then◌else◌}

module _ {ℓ} {K : Type ℓ} ⦃e : Eq K⦄ where
  abbrev pub mem : K → List K → Bool
  mem k [] = false
  mem k (j ∷ s) = j == k || mem k s

  -- `s[k] = true`
  abbrev pub add : K → List K → List K
  add k s = if mem k s then s else k ∷ s

  -- `delete(s, k)`
  abbrev pub remove : K → List K → List K
  remove k [] = []
  remove k (j ∷ s) = let rest = remove k s in if j == k then rest else j ∷ rest

  pub mem-add : (k j : K) (s : List K) → mem j (add k s) ≡ (k == j || mem j s)
  mem-add k j s = ground (arith, e.equal_iff k j)

  pub mem-remove : (k j : K) (s : List K) → mem j (remove k s) ≡ (if k == j then false else mem j s)
  mem-remove k j [] = ground arith
  mem-remove k j (i ∷ s) =
      ground (arith, e.equal_iff k j, e.equal_iff i k, e.equal_iff i j, mem-remove k j s)

-- ===== src/Base/Dict.antt =====
-- Go's maps as association lists. Every key is kept once (`IsMap`), as in the map itself.
use Prim.Native.Nat.{◌+◌, ◌≤◌}
use mathlib.Core.Path.{◌≡◌, refl}
use mathlib.Core.Bool.{Bool, false, ◌||◌}
use mathlib.Core.Logic.{inl, inr}
use mathlib.Core.Option
use mathlib.Core.Option.{Option, none, some}
use mathlib.Core.List.{List, [], ◌∷◌}
use native.Mathlib.Omega.{arith}
use skyward.Base.Lists.{length}
use skyward.Base.Tests.{Eq, Bool-cases, ◌==◌, if◌then◌else◌}

abbrev pub Dict {ℓ κ} : Type ℓ → Type κ → Type (ℓ ⊔ κ)
Dict K V = List (K × V)

-- A value that is to be dropped is gone.
abbrev pub unless {κ} : {V : Type κ} → (V → Bool) → Option V → Option V
unless drop none = none
unless drop (some v) = if drop v then none else some v

module _ {ℓ κ} {K : Type ℓ} {V : Type κ} ⦃e : Eq K⦄ where
  -- `m[k]` with its `ok`
  abbrev pub lookup : K → Dict K V → Option V
  lookup k [] = none
  lookup k ((j, v) ∷ m) = if j == k then some v else lookup k m

  -- `m[k] = v`
  abbrev pub insert : K → V → Dict K V → Dict K V
  insert k v [] = (k, v) ∷ []
  insert k v ((j, w) ∷ m) = if j == k then (j, v) ∷ m else (j, w) ∷ insert k v m

  -- `delete(m, k)`
  abbrev pub erase : K → Dict K V → Dict K V
  erase k [] = []
  erase k ((j, w) ∷ m) = let rest = erase k m in if j == k then rest else (j, w) ∷ rest

  -- `for k, v := range m { if drop(v) { delete(m, k) } }`
  abbrev pub sweep : (V → Bool) → Dict K V → Dict K V
  sweep drop [] = []
  sweep drop ((j, w) ∷ m) = let rest = sweep drop m in if drop w then rest else (j, w) ∷ rest

  -- EXISTS(SELECT 1 FROM m WHERE …)
  abbrev pub any_row : (K → V → Bool) → Dict K V → Bool
  any_row p [] = false
  any_row p ((j, w) ∷ m) = p j w || any_row p m

  -- UPDATE m SET … on every row.
  abbrev pub each_row : (V → V) → Dict K V → Dict K V
  each_row f [] = []
  each_row f ((j, w) ∷ m) = (j, f w) ∷ each_row f m

  abbrev pub IsMap : Dict K V → Type κ
  IsMap [] = Unit
  IsMap ((j, w) ∷ m) = (lookup j m ≡ none) × IsMap m

  pub lookup-insert :
      (k j : K) (v : V) (m : Dict K V)
      → lookup j (insert k v m) ≡ (if k == j then some v else lookup j m)
  lookup-insert k j v [] = refl
  lookup-insert k j v ((i, w) ∷ m) =
      ground (arith, e.equal_iff k j, e.equal_iff i k, e.equal_iff i j, lookup-insert k j v m)

  pub lookup-erase :
      (k j : K) (m : Dict K V) → lookup j (erase k m) ≡ (if k == j then none else lookup j m)
  lookup-erase k j [] = ground arith
  lookup-erase k j ((i, w) ∷ m) =
      ground (arith, e.equal_iff k j, e.equal_iff i k, e.equal_iff i j, lookup-erase k j m)

  pub lookup-each_row :
      (f : V → V) (k : K) (m : Dict K V) → lookup k (each_row f m) ≡ Option.map f (lookup k m)
  lookup-each_row f k [] = refl
  lookup-each_row f k ((j, w) ∷ m) = ground (arith, lookup-each_row f k m)

  -- A row that is there was asked.
  pub any_row-lookup :
      (p : K → V → Bool) (k : K) (v : V) (m : Dict K V)
      → any_row p m ≡ false
      → lookup k m ≡ some v
      → p k v ≡ false
  any_row-lookup p k v [] h found = absurd (ground arith)
  any_row-lookup p k v ((j, w) ∷ m) h found = elim (Bool-cases (j == k)) [
    | inl same ↦ ground (arith, e.equal_iff j k, h, found)
    | inr other ↦ ground (arith, any_row-lookup p k v m)
  ]

  -- What each operation does to the keys and the size of a map.
  pub insert-IsMap : (k : K) (v : V) (m : Dict K V) → IsMap m → IsMap (insert k v m)
  insert-IsMap k v [] h = (refl, tt)
  insert-IsMap k v ((j, w) ∷ m) h =
      ground
        (arith, e.equal_iff j k, e.equal_iff k j, lookup-insert k j v m, insert-IsMap k v m h.1)

  pub erase-IsMap : (k : K) (m : Dict K V) → IsMap m → IsMap (erase k m)
  erase-IsMap k [] h = tt
  erase-IsMap k ((j, w) ∷ m) h = ground (arith, lookup-erase k j m, erase-IsMap k m h.1)

  pub lookup-sweep-none :
      (drop : V → Bool) (k : K) (m : Dict K V) → lookup k m ≡ none → lookup k (sweep drop m) ≡ none
  lookup-sweep-none drop k [] h = refl
  lookup-sweep-none drop k ((j, w) ∷ m) h = ground (arith, lookup-sweep-none drop k m)

  pub sweep-IsMap : (drop : V → Bool) (m : Dict K V) → IsMap m → IsMap (sweep drop m)
  sweep-IsMap drop [] h = tt
  sweep-IsMap drop ((j, w) ∷ m) h =
      ground (arith, lookup-sweep-none drop j m, sweep-IsMap drop m h.1)

  -- A sweep forgets exactly the entries that it is to drop.
  pub lookup-sweep :
      (drop : V → Bool) (k : K) (m : Dict K V)
      → IsMap m
      → lookup k (sweep drop m) ≡ unless drop (lookup k m)
  lookup-sweep drop k [] h = refl
  lookup-sweep drop k ((j, w) ∷ m) h =
      ground (arith, e.equal_iff j k, lookup-sweep-none drop j m, lookup-sweep drop k m h.1)

  pub length-insert_le : (k : K) (v : V) (m : Dict K V) → length (insert k v m) ≤ length m + 1
  length-insert_le k v [] = omega arith
  length-insert_le k v ((j, w) ∷ m) = ground (arith, length-insert_le k v m)

  pub length-erase_le : (k : K) (m : Dict K V) → length (erase k m) ≤ length m
  length-erase_le k [] = omega arith
  length-erase_le k ((j, w) ∷ m) = ground (arith, length-erase_le k m)

  pub length-sweep_le : (drop : V → Bool) (m : Dict K V) → length (sweep drop m) ≤ length m
  length-sweep_le drop [] = omega arith
  length-sweep_le drop ((j, w) ∷ m) = ground (arith, length-sweep_le drop m)

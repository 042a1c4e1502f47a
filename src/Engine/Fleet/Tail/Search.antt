-- ===== src/Engine/Fleet/Tail/Search.antt =====
-- What the search for a tail number finds (apps/api/internal/engine/engine.go).
use skyward.Base.{
  ℕ, zero, suc, nat_eq, ◌+◌, ◌≡◌, ◌<◌, refl, true, false, Option, none, some, [], String, arith,
  Bool-cases, inl, inr, ap, ◌∙◌, subst,
}
use skyward.Base.Dict.{any_row}
use Prim.Native.String.{◌++◌}
use skyward.Engine.Db.{Db, Platform}
use skyward.Engine.Service.{Service, proceed, query}
use skyward.Engine.Fleet.Tail.{has_tail, tail_taken, attempts, try_tails, generate_tail_number}

module _ {F Time : Type 0} (draws : ℕ → String) (c : Db F Time) where
  -- What the search is to find from an attempt on: the first tail that is free, or that none is.
  pub Found : String → ℕ → ℕ → Option String → Type 0
  Found prefix i left (some tail) =
      (k : ℕ) × (k < left)
      × (tail ≡ prefix ++ draws (i + k))
      × (tail_taken tail c ≡ some false)
      × ((j : ℕ) → j < k → tail_taken (prefix ++ draws (i + j)) c ≡ some true)
  Found prefix i left none = (j : ℕ) → j < left → tail_taken (prefix ++ draws (i + j)) c ≡ some true

  Taken : String → ℕ → Type 0
  Taken prefix n = tail_taken (prefix ++ draws n) c ≡ some true

  Taken-before :
      (prefix : String) (i k : ℕ)
      → Taken prefix i
      → ((j : ℕ) → j < k → Taken prefix (suc i + j))
      → (j : ℕ) → j < suc k
      → Taken prefix (i + j)
  Taken-before prefix i k first later zero h = subst (Taken prefix) (omega arith) first
  Taken-before prefix i k first later (suc j) h =
      subst (Taken prefix) (omega arith) (later j (omega (arith, h)))

  -- One more attempt in front, of which the tail was taken.
  Found-later :
      (prefix : String) (i left : ℕ) (t : Option String)
      → Taken prefix i
      → Found prefix (suc i) left t
      → Found prefix i (suc left) t
  unfolding Found Taken
  Found-later prefix i left none first found = Taken-before prefix i left first found
  Found-later prefix i left (some tail) first (k, below, drawn, free, earlier) = (
    suc k,
    omega (arith, below),
    drawn ∙ ap (λ n. prefix ++ draws n) (omega arith),
    free,
    Taken-before prefix i k first earlier,
  )

module _ {F Time : Type 0} (R : Type 0) (draws : ℕ → String) (c : Db F Time) where
  Searches : (Service F Time R (Option String)) → String → ℕ → ℕ → Type 0
  Searches m prefix i left =
      (t : Option String) × (m (record { db = c; calls = [] })
        ≡ (proceed t, record { db = c; calls = [] }))
      × Found draws c prefix i left t

  try_tails-Searches :
      (left i : ℕ) (prefix : String)
      → Searches (try_tails {R = R} left draws i prefix) prefix i left
  unfolding Searches try_tails query tail_taken Found Taken
  try_tails-Searches zero i prefix = (none, refl, λ j h. absurd (omega (arith, h)))
  try_tails-Searches (suc left) i prefix =
      elim (Bool-cases (any_row (has_tail (prefix ++ draws i)) c.fleet)) [
        | inr free ↦ rw free (
          some (prefix ++ draws i),
          refl,
          (
            zero,
            omega arith,
            ap (λ n. prefix ++ draws n) (omega arith),
            ap some free,
            λ j h. absurd (omega (arith, h)),
          ),
        )
        | inl taken ↦
            let (t, e, found) = try_tails-Searches left (suc i) prefix in
            rw taken (t, e, Found-later draws c prefix i left t (ap some taken) found)
      ]

  -- With no call failing, the draw of a tail number ends with the first of its hundred attempts that no
  -- aircraft has, or with none when every one of them is taken; and it changes no row.
  pub generate_tail_number-first :
      ⦃p : Platform F Time⦄ (hq : String)
      → (t : Option String) × (generate_tail_number {R = R} draws hq (record { db = c; calls = [] })
          ≡ (proceed t, record { db = c; calls = [] }))
        × Found draws c (p.hq_prefix hq) 0 attempts t
  unfolding generate_tail_number query Searches
  generate_tail_number-first ⦃p⦄ hq = try_tails-Searches attempts 0 (p.hq_prefix hq)

-- ===== src/Economy/Cabins/Bounds.antt =====
-- Bounds of the cabins, and how they follow the pool.
use skyward.Base.{arith, Bool-cases, inl, inr}
use skyward.Base.Int.{ℤ}
use skyward.Float.{Float, IsArithmetic, ◌⊕◌, ◌⊗◌, ◌⊘◌, ◌≼◌, ◌≺◌, ◌⩽◌, whole}
use skyward.Float.Order.{min_mono, excess_mono}
use skyward.Economy.Cabins.{Cabins, normalised, total_of, demanded, seats, carried, allocate_cabins}

module _ {F : Type 0} ⦃num : Float F⦄ (law : IsArithmetic F) where
  open law use {
    le_refl, le_trans, lt-not-le, add_mono, mul_mono, div_mono, min_le_left, min_le_right,
    zero_le_mul, zero_le_decimal, zero_lt_whole,
  }

  -- Each cabin by cabin.
  pub Below : Cabins F → Cabins F → Type 0
  Below a b = (a.economy ≼ b.economy) × (a.business ≼ b.business) × (a.first ≼ b.first)

  -- No share is negative.
  unfoldable pub IsShare : Cabins F → Type 0
  IsShare a = (whole 0 ≼ a.economy) × (whole 0 ≼ a.business) × (whole 0 ≼ a.first)

  total_positive : (willing : Cabins F) → whole 0 ≺ total_of willing
  unfolding total_of
  total_positive willing =
      elim (Bool-cases (willing.economy ⊕ willing.business ⊕ willing.first ⩽ whole 0)) [
        | inl e ↦ rw e (zero_lt_whole 1 (omega arith))
        | inr e ↦ rw e (
            ground
              (arith, lt-not-le (whole 0) (willing.economy ⊕ willing.business ⊕ willing.first)))
      ]

  normalised-IsShare : (willing : Cabins F) → IsShare willing → IsShare (normalised willing)
  unfolding normalised IsShare
  normalised-IsShare willing h =
      elim (Bool-cases (willing.economy ⊕ willing.business ⊕ willing.first ⩽ whole 0)) [
        | inl e ↦ rw e (zero_le_decimal 1 0, le_refl _, le_refl _)
        | inr e ↦ rw e h
      ]

  share_mono :
      (willing : Cabins F) (x p q : F)
      → whole 0 ≼ x
      → p ≼ q
      → p ⊗ x ⊘ total_of willing ≼ q ⊗ x ⊘ total_of willing
  share_mono willing x p q h o = div_mono _ _ _ (total_positive willing) (mul_mono _ _ _ h o)

  demanded_mono :
      (willing : Cabins F) (p q : F)
      → IsShare willing
      → p ≼ q
      → Below (demanded willing p) (demanded willing q)
  unfolding demanded Below IsShare
  demanded_mono willing p q h o =
      let s = normalised-IsShare willing h in
      (
        share_mono willing _ p q s.0 o,
        share_mono willing _ p q s.1 o,
        share_mono willing _ p q s.2 o,
      )

  carried_mono :
      (configured : Cabins ℤ) (k : F) (d e : Cabins F)
      → Below d e
      → Below (carried configured k d) (carried configured k e)
  unfolding carried Below
  carried_mono configured k d e (eco, biz, fst) = (
    min_mono law _ _ _ _ (le_refl _) (
        add_mono _ _ _ _ eco
          (add_mono _ _ _ _ (excess_mono law _ _ _ biz) (excess_mono law _ _ _ fst))),
    min_mono law _ _ _ _ (le_refl _) biz,
    min_mono law _ _ _ _ (le_refl _) fst,
  )

  -- More passengers than seats are never carried: the passengers of a day are no more than the seats
  -- of the three cabins as the capacity factor scales them, for any pool, fares and shares.
  pub allocate_cabins-seats :
      (configured : Cabins ℤ) (fare business_mult first_mult : F) (willing : Cabins F) (pool k : F)
      → (allocate_cabins configured fare business_mult first_mult willing pool k).passengers
        ≼ seats k configured.economy ⊕ seats k configured.business ⊕ seats k configured.first
  unfolding allocate_cabins carried
  allocate_cabins-seats configured fare business_mult first_mult willing pool k =
      add_mono _ _ _ _ (add_mono _ _ _ _ (min_le_left _ _) (min_le_left _ _)) (min_le_left _ _)

  -- A larger pool carries no fewer passengers and earns no less, though its premium passengers may
  -- fill seats of the economy cabin. The shares, the fare and its multiples are not negative.
  pub allocate_cabins_mono :
      (configured : Cabins ℤ) (fare business_mult first_mult : F) (willing : Cabins F) (p q k : F)
      → whole 0 ≼ fare
      → whole 0 ≼ business_mult
      → whole 0 ≼ first_mult
      → IsShare willing
      → p ≼ q
      → ((allocate_cabins configured fare business_mult first_mult willing p k).passengers
          ≼ (allocate_cabins configured fare business_mult first_mult willing q k).passengers)
        × ((allocate_cabins configured fare business_mult first_mult willing p k).revenue
            ≼ (allocate_cabins configured fare business_mult first_mult willing q k).revenue)
  unfolding allocate_cabins Below
  allocate_cabins_mono configured fare business_mult first_mult willing p q k f b g h o =
      let pax = carried_mono configured k _ _ (demanded_mono willing p q h o) in
      (
        add_mono _ _ _ _ (add_mono _ _ _ _ pax.0 pax.1) pax.2,
        add_mono _ _ _ _
            (add_mono _ _ _ _ (mul_mono _ _ _ f pax.0) (mul_mono _ _ _ b (mul_mono _ _ _ f pax.1)))
            (mul_mono _ _ _ g (mul_mono _ _ _ f pax.2)),
      )

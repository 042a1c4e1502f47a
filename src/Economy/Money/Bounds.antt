-- ===== src/Economy/Money/Bounds.antt =====
-- Bounds of the rules of money.
use skyward.Base.{◌≡◌, Bool, false, some, arith, Bool-cases, inl, inr, not}
use skyward.Float.{Float, IsArithmetic, ◌⊗◌, ◌⊘◌, ◌≼◌, ◌≺◌, ◌⋖◌, whole}
use skyward.Float.Order.{le_of_not_lt, le_of_lt, max_mono}
use skyward.Economy.Money.{
  round2, at_least, less_than, sale_base, age_years, depreciation, sale_value_for,
}

module _ {F : Type 0} ⦃num : Float F⦄ (law : IsArithmetic F) where
  open law use {
    le_refl, le_trans, lt-not-le, mul_mono, mul_mono_left, div_mono, round_mono, le_max_left,
    max_le, sub_le, zero_le_mul, zero_le_div, zero_le_decimal, decimal_le_one, zero_lt_whole,
    le_one_mul, is_inf_mono, sub_mono,
  }

  hundred_pos : whole {F = F} 0 ≺ whole 100
  hundred_pos = zero_lt_whole 100 (omega arith)

  zero_le_hundred : whole {F = F} 0 ≼ whole 100
  zero_le_hundred = zero_le_decimal 100 0

  -- Rounding to the cent is monotone, on amounts that are not negative and whose cents do not overflow.
  pub round2_mono :
      (a b : F) → whole 0 ≼ a → a ≼ b → num.is_inf (b ⊗ whole 100) ≡ false → round2 a ≼ round2 b
  unfolding round2
  round2_mono a b p h finite =
      rw
        (
          finite,
          is_inf_mono (a ⊗ whole 100) (b ⊗ whole 100) (zero_le_mul a _ p zero_le_hundred)
              (mul_mono a b _ zero_le_hundred h) finite,
        )
        (div_mono _ _ _ hundred_pos (round_mono _ _ (mul_mono a b _ zero_le_hundred h)))

  -- The two comparisons at the cent are each other's negation.
  pub less_than-at_least : (a b : F) → less_than a b ≡ not (at_least a b)
  unfolding less_than at_least
  less_than-at_least a b = lt-not-le (round2 a) (round2 b)

  zero_le_age : (hours : F) → whole 0 ≼ age_years hours
  unfolding age_years
  zero_le_age hours = elim (Bool-cases (hours ⊘ whole 8_766 ⋖ whole 0)) [
    | inl e ↦ rw e (le_refl (whole 0))
    | inr e ↦ rw e (le_of_not_lt law _ _ e)
  ]

  age_mono : (h k : F) → h ≼ k → age_years h ≼ age_years k
  unfolding age_years
  age_mono h k o = elim (Bool-cases (h ⊘ whole 8_766 ⋖ whole 0)) [
    | inl e ↦ rw e (zero_le_age k)
    | inr e ↦ elim (Bool-cases (k ⊘ whole 8_766 ⋖ whole 0)) [
      | inl f ↦ rw (e, f) (le_trans _ (k ⊘ whole 8_766) _ older (le_of_lt law _ _ f))
      | inr f ↦ rw (e, f) older
    ]
  ]
    where
      older : h ⊘ whole 8_766 ≼ k ⊘ whole 8_766
      older = div_mono h k _ (zero_lt_whole 8_766 (omega arith)) o

  depreciation_le_one : (hours : F) → depreciation hours ≼ whole 1
  unfolding depreciation
  depreciation_le_one hours =
      max_le _ _ _ (decimal_le_one 10 2 (omega arith))
        (sub_le _ _ (zero_le_mul _ _ (zero_le_decimal 5 2) (zero_le_age hours)))

  depreciation_floor : (hours : F) → num.decimal 10 2 ≼ depreciation hours
  unfolding depreciation
  depreciation_floor hours = le_max_left _ _

  depreciation_antitone : (h k : F) → h ≼ k → depreciation k ≼ depreciation h
  unfolding depreciation
  depreciation_antitone h k o = max_mono law _ _ _ _ (le_refl _) (
      sub_mono _ _ _ _ (le_refl (whole 1))
        (mul_mono_left _ _ _ (zero_le_decimal 5 2) (age_mono h k o)))

  module _ (condition price : F) (intact : whole 0 ≼ condition) (priced : whole 0 ≼ price)
      (finite : num.is_inf (sale_base condition price ⊗ whole 100) ≡ false) where
    zero_le_base : whole 0 ≼ sale_base condition price
    unfolding sale_base
    zero_le_base = zero_le_mul _ _ priced (zero_le_div _ _ intact hundred_pos)

    zero_le_depreciated : (hours : F) → whole 0 ≼ sale_base condition price ⊗ depreciation hours
    zero_le_depreciated hours =
        zero_le_mul _ _ zero_le_base
          (le_trans _ _ _ (zero_le_decimal 10 2) (depreciation_floor hours))

    depreciated_le :
        (hours : F) → sale_base condition price ⊗ depreciation hours ≼ sale_base condition price
    depreciated_le hours = le_one_mul _ _ zero_le_base (depreciation_le_one hours)

    depreciated_finite :
        (hours : F)
        → num.is_inf (sale_base condition price ⊗ depreciation hours ⊗ whole 100) ≡ false
    depreciated_finite hours =
        is_inf_mono _ _ (zero_le_mul _ _ (zero_le_depreciated hours) zero_le_hundred)
          (mul_mono _ _ _ zero_le_hundred (depreciated_le hours)) finite

    module _ {Time : Type 0} (is_zero : Time → Bool) (hours_since : Time → Time → F) where
      -- An aircraft whose date of acquisition is known sells, at a known game time, for at least a
      -- tenth of its value at the cent and for no more than its whole value at the cent, whatever the
      -- two times are. Its condition and its price are not negative, and the cents of its value do not
      -- overflow.
      pub sale_value_for-bounds :
          (acquired game_time : Time)
          → is_zero game_time ≡ false
          → (round2 (sale_base condition price ⊗ num.decimal 10 2)
              ≼ sale_value_for is_zero hours_since condition price (some acquired) game_time)
            × (sale_value_for is_zero hours_since condition price (some acquired) game_time
                ≼ round2 (sale_base condition price))
      unfolding sale_value_for
      sale_value_for-bounds acquired game_time read = rw read (
        round2_mono _ _ (zero_le_mul _ _ zero_le_base (zero_le_decimal 10 2))
            (mul_mono_left _ _ _ zero_le_base (depreciation_floor _)) (depreciated_finite _),
        round2_mono _ _ (zero_le_depreciated _) (depreciated_le _) finite,
      )

      -- Of two aircraft of one value, the one with no fewer hours since its acquisition sells for no
      -- more, at a known game time. Condition and price are not negative, and the cents of the value
      -- do not overflow.
      pub sale_value_for_antitone :
          (newer older game_time : Time)
          → is_zero game_time ≡ false
          → hours_since game_time newer ≼ hours_since game_time older
          → sale_value_for is_zero hours_since condition price (some older) game_time
            ≼ sale_value_for is_zero hours_since condition price (some newer) game_time
      unfolding sale_value_for
      sale_value_for_antitone newer older game_time read aged = rw read (
          round2_mono _ _ (zero_le_depreciated _)
            (mul_mono_left _ _ _ zero_le_base (depreciation_antitone _ _ aged))
            (depreciated_finite _))

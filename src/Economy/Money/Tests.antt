-- ===== src/Economy/Money/Tests.antt =====
-- Prices of a worn aircraft (money.go), and the theorems at concrete values.
use skyward.Base.{ℕ, ◌*◌, ◌≡◌, ◌-◌, refl, some, nat_beq}
use skyward.Base.Int.{ℤ, pos, ◌-ℤ◌}
use skyward.Float.{◌≼◌, ◌⊗◌}
use skyward.Float.Fixed.{fixed, fixed-IsArithmetic, fixed_mul, fixed_div, fixed_round, scale}
use skyward.Economy.Money.{
  round2, sale_base, sale_value_for, age_years, depreciation, repair_cost_for,
}
use skyward.Economy.Money.Bounds.{sale_value_for-bounds, sale_value_for_antitone}

abbrev hours_since : ℕ → ℕ → ℤ
hours_since t a = pos ((t - a) * scale)

abbrev dollars : ℕ → ℤ
dollars n = pos (n * scale)

-- An aircraft worth 1000 at condition 80, two years old: 800 less a tenth.
two_years :
    sale_value_for (nat_beq 0) hours_since (dollars 80) (dollars 1_000) (some 8_766) 26_298
    ≡ dollars 720
unfolding sale_value_for round2 sale_base age_years depreciation fixed_mul fixed_div fixed_round
    ◌-ℤ◌
two_years = refl

-- A repair from condition 90 of the same one: ten points at a two-thousandth of the price.
repair_cost : repair_cost_for (dollars 90) (dollars 1_000) ≡ dollars 5
unfolding repair_cost_for fixed_mul ◌-ℤ◌
repair_cost = refl

sale_value_for-bounds_example :
    (round2 (sale_base (dollars 80) (dollars 1_000) ⊗ pos 1_000)
      ≼ sale_value_for (nat_beq 0) hours_since (dollars 80) (dollars 1_000) (some 8_766) 26_298)
    × (sale_value_for (nat_beq 0) hours_since (dollars 80) (dollars 1_000) (some 8_766) 26_298
        ≼ round2 (sale_base (dollars 80) (dollars 1_000)))
sale_value_for-bounds_example =
    sale_value_for-bounds fixed-IsArithmetic (dollars 80) (dollars 1_000) refl refl refl (nat_beq 0)
      hours_since 8_766 26_298 refl

sale_value_for_antitone_example :
    sale_value_for (nat_beq 0) hours_since (dollars 80) (dollars 1_000) (some 8_766) 26_298
    ≼ sale_value_for (nat_beq 0) hours_since (dollars 80) (dollars 1_000) (some 17_532) 26_298
sale_value_for_antitone_example =
    sale_value_for_antitone fixed-IsArithmetic (dollars 80) (dollars 1_000) refl refl refl
      (nat_beq 0) hours_since 17_532 8_766 26_298 refl refl

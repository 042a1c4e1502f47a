-- ===== src/Economy/Crew/Tests.antt =====
-- Crews of two sizes (simulation.go), and the theorem at concrete values.
use skyward.Base.{ℕ, ◌*◌, ◌≡◌, refl}
use skyward.Base.Int.{ℤ, pos}
use skyward.Float.{◌≼◌, ◌⊗◌}
use skyward.Float.Fixed.{fixed, fixed-IsArithmetic, fixed_mul, fixed_div, scale}
use skyward.Economy.Crew.{CrewScale, crew_cost_for, crew_cost_for-bounds, in_use, clamped}

abbrev units : ℕ → ℤ
units n = pos (n * scale)

abbrev standard : CrewScale ℤ
standard = record { anchor = units 180; min_mult = pos 5_000; max_mult = pos 25_000 }

-- 20 seats are paid at half the rate, 360 at twice the rate.
regional : crew_cost_for (units 300) (units 20) standard ≡ units 150
unfolding crew_cost_for in_use clamped fixed_mul fixed_div
regional = refl

widebody : crew_cost_for (units 300) (units 360) standard ≡ units 600
unfolding crew_cost_for in_use clamped fixed_mul fixed_div
widebody = refl

crew_cost_for-bounds_example :
    (units 300 ⊗ pos 5_000 ≼ crew_cost_for (units 300) (units 20) standard)
    × (crew_cost_for (units 300) (units 20) standard
        ≼ crew_cost_for (units 300) (units 360) standard)
    × (crew_cost_for (units 300) (units 360) standard ≼ units 300 ⊗ pos 25_000)
crew_cost_for-bounds_example =
    crew_cost_for-bounds fixed-IsArithmetic standard refl refl (units 300) (units 20) (units 360)
      refl refl refl refl

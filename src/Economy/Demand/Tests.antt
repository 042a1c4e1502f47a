-- ===== src/Economy/Demand/Tests.antt =====
-- Demand of a route (simulation.go), and the theorems at concrete values.
use skyward.Base.{ℕ, ◌*◌, ◌≡◌, refl, arith}
use skyward.Base.Int.{ℤ, pos, ◌-ℤ◌, ◌+ℤ◌}
use skyward.Float.{◌≼◌, whole}
use skyward.Float.Fixed.{fixed, fixed-IsArithmetic, fixed_mul, fixed_div, scale}
use skyward.Economy.Demand.{
  DemandCurve, default_demand_curve, distance_demand_factor, route_daily_demand, usable, in_use,
  factor_on, slope,
}
use skyward.Economy.Demand.Bounds.{
  distance_demand_factor-bounds, route_daily_demand_antitone, IsSound,
}

abbrev km : ℕ → ℤ
km n = pos (n * scale)

-- Half way along the slope of the default curve, which replaces one that was not filled in.
abbrev unfilled : DemandCurve ℤ
unfilled = record {
  short_km = pos 0;
  long_km = pos 0;
  min_factor = pos 0;
  elasticity_max = pos 0;
  elasticity_quadratic = pos 0;
}

half_way : distance_demand_factor (km 6_250) unfilled ≡ pos 6_750
unfolding distance_demand_factor in_use usable factor_on slope default_demand_curve fixed_mul
    fixed_div ◌-ℤ◌ ◌+ℤ◌
half_way = refl

distance_demand_factor-bounds_example :
    (whole 0 ≼ distance_demand_factor (km 6_250) unfilled)
    × (distance_demand_factor (km 6_250) unfilled ≼ whole 1)
distance_demand_factor-bounds_example =
    distance_demand_factor-bounds fixed-IsArithmetic (km 6_250) unfilled refl refl

unfilled-IsSound : IsSound fixed-IsArithmetic unfilled
unfolding IsSound
unfilled-IsSound = (refl, refl, refl)

route_daily_demand_antitone_example :
    (whole 0
      ≼ route_daily_demand
          (pos 80)
          (pos 60)
          (km 900)
          (km 200)
          (km 50)
          (pos 1_000)
          (km 400)
          unfilled)
    × (route_daily_demand (pos 80) (pos 60) (km 900) (km 200) (km 50) (pos 1_000) (km 400) unfilled
        ≼ route_daily_demand
            (pos 80)
            (pos 60)
            (km 900)
            (km 120)
            (km 50)
            (pos 1_000)
            (km 400)
            unfilled)
route_daily_demand_antitone_example =
    route_daily_demand_antitone fixed-IsArithmetic (pos 80) (pos 60) (km 900) (km 120) (km 200)
      (km 50) (pos 1_000) (km 400) unfilled (omega arith) (omega arith) refl refl unfilled-IsSound

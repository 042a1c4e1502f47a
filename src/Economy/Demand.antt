-- ===== src/Economy/Demand.antt =====
-- The demand of a route: demandCurve, usable, defaultDemandCurve, demandWeight, distanceDemandFactor
-- and routeDailyDemand of apps/api/internal/engine/simulation.go.
pub mod Bounds
pub mod Tests
use skyward.Base.{ℕ, ◌≡◌, Bool, true, false, if◌then◌else◌}
use skyward.Base.Int.{ℤ}
use skyward.Float.{Float, ◌⊕◌, ◌⊖◌, ◌⊗◌, ◌⊘◌, ◌⩽◌, whole}

pub record DemandCurve (F : Type 0) : Type 0 where
  pub short_km : F
  pub long_km : F
  pub min_factor : F
  pub elasticity_max : F
  pub elasticity_quadratic : F

unfoldable pub default_demand_curve : {F : Type 0} ⦃num : Float F⦄ → DemandCurve F
default_demand_curve ⦃num⦄ = record {
  short_km = whole 500;
  long_km = whole 12_000;
  min_factor = num.decimal 35 2;
  elasticity_max = num.decimal 15 1;
  elasticity_quadratic = num.decimal 8 1;
}

-- In spite of its name, true of a curve that was not filled in.
unfoldable pub usable : {F : Type 0} ⦃num : Float F⦄ → DemandCurve F → Bool
usable c = c.short_km ⩽ whole 0

unfoldable pub in_use : {F : Type 0} ⦃num : Float F⦄ → DemandCurve F → DemandCurve F
in_use c = if usable c then default_demand_curve else c

unfoldable pub demand_weight : {F : Type 0} ⦃num : Float F⦄ → ℤ → F
demand_weight ⦃num⦄ demand_index = num.of_int demand_index ⊘ whole 100

-- How far along the curve's slope a distance lies.
unfoldable pub slope : {F : Type 0} ⦃num : Float F⦄ → F → DemandCurve F → F
slope distance_km c = (distance_km ⊖ c.short_km) ⊘ (c.long_km ⊖ c.short_km)

unfoldable pub factor_on : {F : Type 0} ⦃num : Float F⦄ → F → DemandCurve F → F
factor_on distance_km c =
    if distance_km ⩽ c.short_km
    then whole 1
    else if c.long_km ⩽ c.short_km
    then c.min_factor
    else if c.long_km ⩽ distance_km
    then c.min_factor
    else whole 1 ⊕ slope distance_km c ⊗ (c.min_factor ⊖ whole 1)

unfoldable pub distance_demand_factor : {F : Type 0} ⦃num : Float F⦄ → F → DemandCurve F → F
distance_demand_factor distance_km c = factor_on distance_km (in_use c)

unfoldable pub price_elasticity : {F : Type 0} ⦃num : Float F⦄ → F → DemandCurve F → F
price_elasticity ⦃num⦄ ratio c =
    num.max (whole 0)
      (num.min c.elasticity_max (c.elasticity_max ⊖ c.elasticity_quadratic ⊗ ratio ⊗ ratio))

unfoldable pub route_daily_demand :
    {F : Type 0} ⦃num : Float F⦄ (origin_demand dest_demand : ℤ)
    (distance_km price base_fare per_km pool_scale : F) (c : DemandCurve F)
    → F
route_daily_demand origin_demand dest_demand distance_km price base_fare per_km pool_scale c =
    if pool_scale ⩽ whole 0
    then whole 0
    else let base = base_fare ⊕ distance_km ⊗ per_km in
      if base ⩽ whole 0
      then whole 0
      else let c = in_use c in
        pool_scale
        ⊗ demand_weight origin_demand
        ⊗ demand_weight dest_demand
        ⊗ distance_demand_factor distance_km c
        ⊗ price_elasticity (price ⊘ base) c

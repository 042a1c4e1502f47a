-- ===== src/Bots/Profit.antt =====
-- How a bot's estimate of a route follows the price of fuel.
use skyward.Base.{Bool-cases, inl, inr}
use skyward.Float.{Float, IsArithmetic, ◌⊕◌, ◌⊘◌, ◌≼◌, ◌⩽◌, whole}
use skyward.Float.Order.{lt_of_not_le, le_of_lt}
use skyward.Bots.{
  RoutePerfParams, RoutePerfConfig, weekly_flights, weekly_fuel, weekly_revenue,
  route_weekly_profit,
}

-- The same configuration at another price of fuel.
abbrev pub at_fuel_price : {F : Type 0} → F → RoutePerfConfig F → RoutePerfConfig F
at_fuel_price price c = record {
  fuel_price = price;
  crew_cost = c.crew_cost;
  ticket_base = c.ticket_base;
  ticket_km = c.ticket_km;
  max_weekly = c.max_weekly;
  demand_pool_scale = c.demand_pool_scale;
  demand = c.demand;
  crew = c.crew;
  business_fare_mult = c.business_fare_mult;
  first_fare_mult = c.first_fare_mult;
  willing = c.willing;
  cargo_pct = c.cargo_pct;
}

module _ {F : Type 0} ⦃num : Float F⦄ (law : IsArithmetic F) where
  open law use {le_refl, le_trans, sub_mono, mul_mono_left, zero_le_mul, zero_le_div, le_min}

  weekly_fuel_mono :
      (p : RoutePerfParams F) (low high flights : F)
      → whole 0 ≼ p.distance_km
      → whole 0 ≼ p.fuel_burn_per_km
      → whole 0 ≼ flights
      → low ≼ high
      → weekly_fuel p low flights ≼ weekly_fuel p high flights
  unfolding weekly_fuel
  weekly_fuel_mono p low high flights d b f h =
      mul_mono_left _ _ _ (zero_le_mul _ _ (zero_le_mul _ _ f d) b) h

  -- Dearer fuel never raises the estimate, also where the number of flights is cut off by the hours of
  -- a week and where a route that cannot be flown counts as 0. Flights, burn and weekly hours are not
  -- negative.
  pub route_weekly_profit_antitone :
      (p : RoutePerfParams F) (c : RoutePerfConfig F) (low high : F)
      → whole 0 ≼ p.flights_per_week
      → whole 0 ≼ p.fuel_burn_per_km
      → whole 0 ≼ c.max_weekly
      → low ≼ high
      → route_weekly_profit p (at_fuel_price high c) ≼ route_weekly_profit p (at_fuel_price low c)
  unfolding route_weekly_profit weekly_revenue weekly_flights
  route_weekly_profit_antitone p c low high f b m h = elim (Bool-cases (p.speed_kmh ⩽ whole 0)) [
    | inl still ↦ rw still (le_refl _)
    | inr moving ↦ elim (Bool-cases (p.distance_km ⩽ whole 0)) [
      | inl near ↦ rw (moving, near) (le_refl _)
      | inr far ↦ elim (Bool-cases (p.distance_km ⊘ p.speed_kmh ⊕ p.turnaround_hours ⩽ whole 0)) [
        | inl quick ↦ rw (moving, far, quick) (le_refl _)
        | inr long ↦
            rw (moving, far, long)
              (sub_mono _ _ _ _
                (sub_mono _ _ _ _
                  (sub_mono _ _ _ _
                    (sub_mono _ _ _ _ (le_refl _) (
                      weekly_fuel_mono p low high _ (le_of_lt law _ _ (lt_of_not_le law _ _ far)) b
                        (le_min _ _ _ f (zero_le_div _ _ m (lt_of_not_le law _ _ long))) h))
                    (le_refl _))
                  (le_refl _))
                (le_refl _))
      ]
    ]
  ]

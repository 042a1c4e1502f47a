-- ===== src/Bots/Tests.antt =====
-- Decisions of a bot (bots_decide.go), and the theorems at concrete values.
use skyward.Base.{ℕ, ◌*◌, ◌≡◌, refl, List, [], ◌∷◌, some, true, arith}
use skyward.Base.Int.{ℤ, pos, ◌≤ℤ◌}
use skyward.Float.{◌≼◌}
use skyward.Float.Fixed.{
  fixed, fixed-IsArithmetic, fixed_mul, fixed_div, fixed_ceil, fixed_to_int, fixed_of_int, scale,
}
use skyward.Economy.Demand.{default_demand_curve}
use skyward.Economy.Crew.{default_crew_scale}
use skyward.Bots.{
  RouteCandidate, pick_from, pick_best_route_candidate, better, bot_target_flights, bounded_flights,
  RoutePerfParams, RoutePerfConfig, route_weekly_profit,
}
use skyward.Bots.Choice.{bot_target_flights-bounds, pick_best_route_candidate-IsChoice, IsChoice}
use skyward.Bots.Profit.{at_fuel_price, route_weekly_profit_antitone}

abbrev units : ℕ → ℤ
units n = pos (n * scale)

abbrev to : ℤ → RouteCandidate ℤ
to profit = record { dest = "DPS"; distance_km = units 980; dest_demand = pos 70; profit = profit }

abbrev candidates : List (RouteCandidate ℤ)
candidates = to (units 900) ∷ to (units 4_000) ∷ to (units 2_500) ∷ []

best : pick_best_route_candidate candidates ≡ some (to (units 4_000))
unfolding pick_best_route_candidate pick_from better
best = refl

-- 157 passengers a day in 180 seats: 4.4 flights a week at the ratio 0.72, so 5.
few_flights : bot_target_flights (pos 180) (units 157) (pos 75) (pos 7_200) ≡ pos 5
unfolding bot_target_flights bounded_flights fixed_mul fixed_div fixed_ceil fixed_to_int
    fixed_of_int
few_flights = refl

bot_target_flights-bounds_example :
    (pos 1 ≤ℤ bot_target_flights (pos 180) (units 157) (pos 75) (pos 7_200))
    × (bot_target_flights (pos 180) (units 157) (pos 75) (pos 7_200) ≤ℤ pos 75)
bot_target_flights-bounds_example =
    bot_target_flights-bounds (pos 180) (units 157) (pos 75) (pos 7_200) (omega arith) (omega arith)

pick_best_route_candidate-IsChoice_example :
    IsChoice fixed-IsArithmetic candidates (pick_best_route_candidate candidates)
pick_best_route_candidate-IsChoice_example =
    pick_best_route_candidate-IsChoice fixed-IsArithmetic candidates

abbrev route : RoutePerfParams ℤ
route = record {
  distance_km = units 980;
  ticket_price = units 120;
  flights_per_week = units 6;
  fuel_burn_per_km = units 3;
  speed_kmh = units 800;
  maint_cost_hr = units 500;
  capacity = units 180;
  turnaround_hours = units 1;
  origin_demand = pos 90;
  dest_demand = pos 70;
  seats = record { economy = pos 0; business = pos 0; first = pos 0 };
  is_lease = true;
  lease_price_month = units 3_000;
}

abbrev config : RoutePerfConfig ℤ
config = record {
  fuel_price = units 1;
  crew_cost = units 300;
  ticket_base = units 50;
  ticket_km = pos 1_000;
  max_weekly = units 140;
  demand_pool_scale = units 400;
  demand = default_demand_curve;
  crew = default_crew_scale;
  business_fare_mult = units 3;
  first_fare_mult = units 5;
  willing = record { economy = pos 8_000; business = pos 1_500; first = pos 500 };
  cargo_pct = pos 1_000;
}

route_weekly_profit_antitone_example :
    route_weekly_profit route (at_fuel_price (units 2) config)
    ≼ route_weekly_profit route (at_fuel_price (units 1) config)
route_weekly_profit_antitone_example =
    route_weekly_profit_antitone fixed-IsArithmetic route config (units 1) (units 2) refl refl refl
      refl

-- ===== src/Economy/Snapshot/Tests.antt =====
-- A tick with two events (snapshot.go), and the theorem there.
use skyward.Base.{◌≡◌, refl, none, some, [], ◌∷◌, string_eq, Option}
use skyward.Base.Int.{ℤ, pos}
use skyward.Float.Fixed.{fixed}
use skyward.Economy.Snapshot.{
  ActiveEvent, TickSnapshot, num_of, fuel_mult, demand_mult, capacity_mult, event_value,
  first_value, fits, target_fits, names_one,
}
use skyward.Economy.Snapshot.Routes.{route_mult_symmetric}

abbrev surge : ActiveEvent ℤ
surge = record {
  event_type = "demand_surge";
  effect_type = some "demand";
  effect_target = some "DPS";
  value = pos 15_000;
}

abbrev shock : ActiveEvent ℤ
shock = record {
  event_type = "fuel_shock";
  effect_type = some "fuel_price";
  effect_target = none;
  value = pos 20_000;
}

abbrev tick : Option (TickSnapshot ℤ)
tick = some (record { cfg = ("max_weekly", pos 75) ∷ []; events = surge ∷ shock ∷ [] })

values :
    (fuel_mult tick ≡ pos 20_000)
    × (demand_mult tick "CGK" "DPS" ≡ pos 15_000)
    × (demand_mult tick "CGK" "SUB" ≡ pos 10_000)
    × (num_of tick "max_weekly" (pos 1) ≡ pos 75)
unfolding fuel_mult demand_mult event_value first_value fits target_fits names_one num_of
values = (refl, refl, refl, refl)

route_mult_symmetric_example :
    (demand_mult tick "CGK" "DPS" ≡ demand_mult tick "DPS" "CGK")
    × (capacity_mult tick "CGK" "DPS" ≡ capacity_mult tick "DPS" "CGK")
route_mult_symmetric_example = route_mult_symmetric tick "CGK" "DPS"

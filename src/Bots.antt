-- ===== src/Bots.antt =====
-- What a bot decides: apps/api/internal/engine/bots_decide.go. The two switches of botRespondPrice on
-- texts are Archetype and Distress, whose last constructors stand for every other text.
pub mod Choice
pub mod Profit
pub mod Tests
use skyward.Base.{
  ℕ, ◌≡◌, Bool, true, false, Option, none, some, List, [], ◌∷◌, String, if◌then◌else◌,
}
use skyward.Base.Int.{ℤ, pos, ◌+ℤ◌, leb_ℤ, ltb_ℤ}
use skyward.Float.{Float, ◌⊕◌, ◌⊖◌, ◌⊗◌, ◌⊘◌, ◌⩽◌, ◌⋖◌, whole}
use skyward.Economy.Demand.{DemandCurve, route_daily_demand}
use skyward.Economy.Cabins.{Cabins, CabinResult, allocate_cabins}
use skyward.Economy.Crew.{CrewScale, crew_cost_for}

pub record RouteCandidate (F : Type 0) : Type 0 where
  pub dest : String
  pub distance_km : F
  pub dest_demand : ℤ
  pub profit : F

abbrev pub route_candidate_min_profit : {F : Type 0} ⦃num : Float F⦄ → F
route_candidate_min_profit = whole 1_000

-- Whether a candidate takes the place of the best so far.
unfoldable pub better :
    {F : Type 0} ⦃num : Float F⦄ → RouteCandidate F → Option (RouteCandidate F) → Bool
better c none = true
better c (some best) = best.profit ⋖ c.profit

-- The loop, with the best candidate so far; `none` is found = false.
unfoldable pub pick_from :
    {F : Type 0} ⦃num : Float F⦄
    → List (RouteCandidate F)
    → Option (RouteCandidate F)
    → Option (RouteCandidate F)
pick_from [] best = best
pick_from (c ∷ cands) best =
    let skipped = pick_from cands best in
    let taken = pick_from cands (some c) in
    if c.profit ⋖ route_candidate_min_profit
    then skipped
    else if better c best
    then taken
    else skipped

unfoldable pub pick_best_route_candidate :
    {F : Type 0} ⦃num : Float F⦄ → List (RouteCandidate F) → Option (RouteCandidate F)
pick_best_route_candidate cands = pick_from cands none

-- target < 1 is raised to 1, and then cut off at what the aircraft can fly.
unfoldable pub bounded_flights : ℤ → ℤ → ℤ
bounded_flights target max_physical =
    let target = if ltb_ℤ target (pos 1) then pos 1 else target in
    if ltb_ℤ max_physical target then max_physical else target

unfoldable pub bot_target_flights : {F : Type 0} ⦃num : Float F⦄ → ℤ → F → ℤ → F → ℤ
bot_target_flights ⦃num⦄ capacity daily_demand max_physical sched_ratio =
    if leb_ℤ capacity (pos 0)
    then pos 0
    else if leb_ℤ max_physical (pos 0)
    then pos 0
    else let needed = daily_demand ⊗ whole 7 ⊘ num.of_int capacity in
      let ratio = if sched_ratio ⩽ whole 0 then num.decimal 72 2 else sched_ratio in
      bounded_flights (num.to_int (num.ceil (needed ⊗ ratio))) max_physical

pub data Archetype : Type 0 where
  aggressive balanced other_archetype : Archetype

pub data Distress : Type 0 where
  desperate defensive cautious other_distress : Distress

unfoldable pub adjustment : {F : Type 0} ⦃num : Float F⦄ → Archetype → Distress → F
adjustment ⦃num⦄ archetype desperate = num.decimal 90 2
adjustment ⦃num⦄ archetype defensive = num.decimal 95 2
adjustment ⦃num⦄ archetype cautious = num.decimal 98 2
adjustment ⦃num⦄ aggressive other_distress = num.decimal 101 2
adjustment ⦃num⦄ balanced other_distress = num.decimal 103 2
adjustment ⦃num⦄ other_archetype other_distress = num.decimal 97 2

unfoldable pub bot_respond_price :
    {F : Type 0} ⦃num : Float F⦄ (price base avg_comp : F) (comp_count : ℤ)
    (price_mult comp_threshold : F)
    → Archetype
    → Distress
    → F
bot_respond_price ⦃num⦄ price base avg_comp comp_count price_mult comp_threshold archetype
      distress =
    let blended =
      price ⊗ num.decimal 55 2
      ⊕ base ⊗ price_mult ⊗ adjustment archetype distress ⊗ num.decimal 45 2 in
    let undercut =
      price ⊗ num.decimal 35 2
      ⊕ num.max (avg_comp ⊗ num.decimal 98 2) (base ⊗ num.decimal 9 1) ⊗ num.decimal 65 2 in
    let raised = price ⊗ num.decimal 70 2 ⊕ avg_comp ⊗ num.decimal 99 2 ⊗ num.decimal 30 2 in
    if ltb_ℤ (pos 0) comp_count
    then (if whole 0 ⋖ avg_comp
        then (if avg_comp ⊗ (whole 1 ⊕ comp_threshold) ⋖ price
            then undercut
            else if price ⋖ avg_comp ⊗ (whole 1 ⊖ comp_threshold)
            then raised
            else blended)
        else blended)
    else blended

pub record RoutePerfParams (F : Type 0) : Type 0 where
  pub distance_km : F
  pub ticket_price : F
  pub flights_per_week : F
  pub fuel_burn_per_km : F
  pub speed_kmh : F
  pub maint_cost_hr : F
  pub capacity : F
  pub turnaround_hours : F
  pub origin_demand : ℤ
  pub dest_demand : ℤ
  pub seats : Cabins ℤ
  pub is_lease : Bool  -- AcqType == "lease"
  pub lease_price_month : F

pub record RoutePerfConfig (F : Type 0) : Type 0 where
  pub fuel_price : F
  pub crew_cost : F
  pub ticket_base : F
  pub ticket_km : F
  pub max_weekly : F
  pub demand_pool_scale : F
  pub demand : DemandCurve F
  pub crew : CrewScale F
  pub business_fare_mult : F
  pub first_fare_mult : F
  pub willing : Cabins F
  pub cargo_pct : F

module _ {F : Type 0} ⦃num : Float F⦄ where
  -- All economy when no seat is configured.
  unfoldable pub seats_in_use : RoutePerfParams F → Cabins ℤ
  seats_in_use p =
      if leb_ℤ (p.seats.economy +ℤ p.seats.business +ℤ p.seats.first) (pos 0)
      then record { economy = num.to_int (num.floor p.capacity); business = pos 0; first = pos 0 }
      else p.seats

  -- Seats a day at so many flights a day.
  unfoldable pub daily_seats : F → Cabins ℤ → Cabins ℤ
  daily_seats flights_per_day s = record {
    economy = num.to_int (num.round (num.of_int s.economy ⊗ flights_per_day));
    business = num.to_int (num.round (num.of_int s.business ⊗ flights_per_day));
    first = num.to_int (num.round (num.of_int s.first ⊗ flights_per_day));
  }

  unfoldable pub weekly_revenue : RoutePerfParams F → RoutePerfConfig F → F → F
  weekly_revenue p c flights =
      let pool =
        route_daily_demand p.origin_demand p.dest_demand p.distance_km p.ticket_price c.ticket_base
          c.ticket_km c.demand_pool_scale c.demand in
      let allocation =
        allocate_cabins (daily_seats (flights ⊘ whole 7) (seats_in_use p)) p.ticket_price
          c.business_fare_mult c.first_fare_mult c.willing pool (whole 1) in
      let revenue = allocation.revenue ⊗ whole 7 in revenue ⊕ revenue ⊗ c.cargo_pct

  unfoldable pub weekly_flights : RoutePerfParams F → RoutePerfConfig F → F → F
  weekly_flights p c flight_hours = num.min p.flights_per_week (c.max_weekly ⊘ flight_hours)

  unfoldable pub weekly_fuel : RoutePerfParams F → F → F → F
  weekly_fuel p fuel_price flights = flights ⊗ p.distance_km ⊗ p.fuel_burn_per_km ⊗ fuel_price

  unfoldable pub weekly_lease : RoutePerfParams F → F
  weekly_lease p = if p.is_lease then p.lease_price_month ⊗ whole 7 ⊘ whole 30 else whole 0

  unfoldable pub route_weekly_profit : RoutePerfParams F → RoutePerfConfig F → F
  route_weekly_profit p c =
      if p.speed_kmh ⩽ whole 0
      then whole 0
      else if p.distance_km ⩽ whole 0
      then whole 0
      else let flight_hours = p.distance_km ⊘ p.speed_kmh ⊕ p.turnaround_hours in
        if flight_hours ⩽ whole 0
        then whole 0
        else let flights = weekly_flights p c flight_hours in
          weekly_revenue p c flights
          ⊖ weekly_fuel p c.fuel_price flights
          ⊖ flights ⊗ flight_hours ⊗ crew_cost_for c.crew_cost p.capacity c.crew
          ⊖ flights ⊗ p.distance_km ⊗ p.maint_cost_hr ⊘ p.speed_kmh
          ⊖ weekly_lease p

-- ===== src/Engine/Routes.antt =====
-- Routes (RoutesService of apps/api/internal/engine/routes.go): Create, Delete and UpdateFreqPrice
-- here, Assign in its child. The id of a new row, which the database draws, is an argument. An
-- airport is never deleted. The trigonometry of package math is a parameter.
pub mod Assign
pub mod Rows
pub mod Fitting
pub mod FleetWrites
pub mod Changes
pub mod Reopening
use skyward.Base.{
  ℕ, Bool, true, false, ◌==◌, ◌&&◌, ◌||◌, not, Option, none, some, [], ◌∷◌, String, nat_eq,
  string_eq, if◌then◌else◌,
}
use skyward.Base.Int.{ℤ, pos, ltb_ℤ, leb_ℤ}
use skyward.Base.Dict.{Dict, lookup, insert, any_row}
use skyward.Float.{Float, ◌⊕◌, ◌⊖◌, ◌⊗◌, ◌⊘◌, ◌⩽◌, ◌⋖◌, whole}
use skyward.Engine.Db.{
  Db, Platform, Aircraft, Model, Route, RouteStatus, unassigned, aircraft_with_model,
}
use skyward.Engine.Tx.{Reply, ok, no_rows, failed, or_zero}
use skyward.Engine.Service.{Service, give, answer, query, execute, or_answer, ◌>>=◌}
use skyward.Engine.Fleet.{MutationResult, text, about}

pub record Geometry (F : Type 0) : Type 0 where
  pub sin : F → F
  pub cos : F → F
  pub asin : F → F
  pub sqrt : F → F
  pub abs : F → F
  pub pi : F

pub record CreateRouteParams (F : Type 0) : Type 0 where
  pub origin : String
  pub destination : String
  pub distance : F
  pub price : F
  pub flights : ℤ

abbrev pub refusal : {F : Type 0} ⦃num : Float F⦄ → String → MutationResult F
refusal message = record { success = false; message = text message; new_cash = whole 0 }

abbrev pub success_with : {F : Type 0} ⦃num : Float F⦄ → String → MutationResult F
success_with message = record { success = true; message = text message; new_cash = whole 0 }

-- The great-circle distance in kilometres.
unfoldable pub haversine : {F : Type 0} ⦃num : Float F⦄ ⦃geo : Geometry F⦄ → F → F → F → F → F
haversine ⦃num⦄ ⦃geo⦄ lat1 lon1 lat2 lon2 =
    let to_rad = geo.pi ⊘ whole 180 in
    let d_lat = (lat2 ⊖ lat1) ⊗ to_rad in
    let d_lon = (lon2 ⊖ lon1) ⊗ to_rad in
    let a =
      geo.sin (d_lat ⊘ whole 2) ⊗ geo.sin (d_lat ⊘ whole 2)
      ⊕ geo.cos (lat1 ⊗ to_rad)
        ⊗ geo.cos (lat2 ⊗ to_rad)
        ⊗ geo.sin (d_lon ⊘ whole 2)
        ⊗ geo.sin (d_lon ⊘ whole 2) in
    whole 6_371 ⊗ whole 2 ⊗ geo.asin (geo.sqrt a)

-- A distance that is off by more than a tenth.
unfoldable pub is_off : {F : Type 0} ⦃num : Float F⦄ ⦃geo : Geometry F⦄ → F → F → Bool
is_off ⦃num⦄ ⦃geo⦄ distance actual =
    (whole 0 ⋖ actual) && (num.decimal 10 2 ⋖ geo.abs (distance ⊖ actual) ⊘ actual)

-- ceil of routes.go, by truncation.
unfoldable pub ceil : {F : Type 0} ⦃num : Float F⦄ → F → F
ceil ⦃num⦄ v = let f = num.of_int (num.to_int v) in if f ⋖ v then f ⊕ whole 1 else f

unfoldable pub calc_max_weekly_flights : {F : Type 0} ⦃num : Float F⦄ → F → ℤ → F → F → ℤ
calc_max_weekly_flights ⦃num⦄ distance speed turnaround max_weekly =
    if (distance ⩽ whole 0) || leb_ℤ speed (pos 0)
    then pos 0
    else if distance ⊘ num.of_int speed ⊕ turnaround ⩽ whole 0
    then pos 0
    else num.to_int (max_weekly ⊘ (distance ⊘ num.of_int speed ⊕ turnaround))

-- maxWeekly > 0 && freq > maxWeekly
abbrev pub exceeds : ℤ → ℤ → Bool
exceeds freq max_weekly = ltb_ℤ (pos 0) max_weekly && ltb_ℤ max_weekly freq

-- COALESCE(m.turnaround_hours, 1.0)
abbrev pub turnaround_of : {F : Type 0} ⦃num : Float F⦄ → Model F → F
turnaround_of m = elim m.turnaround_hours [ none ↦ whole 1 | some t ↦ t ]

-- What the CHECKs of route_assignments ask of a price in cents and a frequency, and numeric(10,2) of the
-- price.
abbrev pub is_scheduled : ℤ → ℤ → Bool
is_scheduled cents flights =
    ltb_ℤ (pos 0) cents
    && ltb_ℤ cents (pos 10_000_000_000)
    && leb_ℤ (pos 1) flights
    && leb_ℤ flights (pos 168)

module _ {F : Type 0} where
  -- WHERE user_id = … AND origin_iata = … AND destination_iata = …, of any status
  abbrev pub has_ends : ℕ → String → String → ℕ → Route F → Bool
  has_ends user origin destination k r =
      (r.user_id == user) && (r.origin_iata == origin) && (r.destination_iata == destination)

  abbrev pub row_of : ℕ → ℤ → CreateRouteParams F → Route F
  row_of user cents params = record {
    user_id = user;
    origin_iata = params.origin;
    destination_iata = params.destination;
    distance_km = params.distance;
    ticket_price = cents;
    flights_per_week = params.flights;
    route_status = RouteStatus.flown;
    assigned_aircraft_id = none;
  }

  unfoldable pub is_invalid : ⦃num : Float F⦄ → CreateRouteParams F → Bool
  is_invalid params =
      (params.distance ⩽ whole 0)
      || (params.price ⩽ whole 0)
      || ltb_ℤ params.flights (pos 1)
      || ltb_ℤ (pos 168) params.flights

module _ {F Time : Type 0} where
  abbrev pub with_routes : Dict ℕ (Route F) → Db F Time → Db F Time
  with_routes routes db = record db { routes = routes }

  -- … WHERE id = … AND user_id = …
  unfoldable pub route_of : ℕ → ℕ → Db F Time → Option (Route F)
  route_of user id db = elim (lookup id db.routes) [
    | none ↦ none
    | some r ↦ if r.user_id == user then some r else none
  ]

  unfoldable pub duplicate_row : ℕ → String → String → Db F Time → Option Bool
  duplicate_row user origin destination db =
      some (any_row (has_ends user origin destination) db.routes)

  abbrev pub airport_at : String → Db F Time → Option (F × F)
  airport_at iata db = lookup iata db.airports

  -- The numbers of game_config: a missing row and a value that is null both leave the fallback.
  abbrev pub number_of : String → Db F Time → Option F
  number_of key db = lookup key db.config

  -- INSERT INTO route_assignments …, which the primary key, the index unique_human_route, the foreign key
  -- to users, the CHECKs and the scale of the price may refuse.
  unfoldable pub insert_route : ℕ → Route F → Db F Time → Option (ℕ × Db F Time)
  insert_route id r db =
      if any_row (λ k s. k == id) db.routes
        || any_row (has_ends r.user_id r.origin_iata r.destination_iata) db.routes
        || not (any_row (λ k u. k == r.user_id) db.users)
        || not (is_scheduled r.ticket_price r.flights_per_week)
      then none
      else some (1, with_routes (insert id r db.routes) db)

  -- UPDATE route_assignments SET … WHERE id = … AND user_id = …
  unfoldable pub update_route : ℕ → ℕ → (Route F → Route F) → Db F Time → Option (ℕ × Db F Time)
  update_route user id change db = elim (route_of user id db) [
    | none ↦ some (0, db)
    | some r ↦
        if is_scheduled (change r).ticket_price (change r).flights_per_week
        then some (1, with_routes (insert id (change r) db.routes) db)
        else none
  ]

abbrev pub cancel : {F : Type 0} → Route F → Route F
cancel r = record r { route_status = RouteStatus.cancelled; assigned_aircraft_id = none }

abbrev pub reschedule : {F : Type 0} → ℤ → ℤ → Route F → Route F
reschedule cents flights r = record r { ticket_price = cents; flights_per_week = flights }

-- A price that is not positive stands for the current one.
abbrev pub or_current : {F : Type 0} ⦃num : Float F⦄ → F → F → F
or_current price current = if price ⩽ whole 0 then current else price

module _ {F Time : Type 0} ⦃num : Float F⦄ ⦃p : Platform F Time⦄ where
  -- From the check for a duplicate on.
  unfoldable pub create_unique : ℕ → ℕ → CreateRouteParams F → Service F Time (MutationResult F) ⊥
  create_unique user id params = do
    duplicate ← query (duplicate_row user params.origin params.destination)
    if or_zero duplicate false then answer (refusal "Route already exists.") else do
      inserted ← execute (insert_route id (row_of user (p.store params.price) params))
      _ ← or_answer inserted (refusal "insert route failed")
      answer (success_with "Route established successfully!")

  unfoldable pub create_between :
      ⦃geo : Geometry F⦄ → ℕ → ℕ → CreateRouteParams F → F → Service F Time (MutationResult F) ⊥
  create_between user id params actual =
      if is_off params.distance actual
      then answer (record {
        success = false;
        message = about "Distance validation failed. Expected ~%.1f km." [] (actual ∷ []);
        new_cash = whole 0;
      })
      else create_unique user id params

  unfoldable pub create :
      ⦃geo : Geometry F⦄ → ℕ → ℕ → CreateRouteParams F → Service F Time (MutationResult F) ⊥
  create user id params =
      if params.origin == params.destination
      then answer (refusal "Origin and destination must be different.")
      else if is_invalid params
      then answer (refusal "Invalid route economics or schedule.")
      else do
        here ← query (airport_at params.origin)
        o ← or_answer here (refusal "Route airport not found.")
        there ← query (airport_at params.destination)
        d ← or_answer there (refusal "Route airport not found.")
        create_between user id params (haversine o.0 o.1 d.0 d.1)

  unfoldable pub delete : ℕ → ℕ → Service F Time (MutationResult F) ⊥
  delete user id = do
    row ← query (route_of user id)
    _ ← or_answer row (refusal "Route not found.")
    updated ← execute (update_route user id cancel)
    _ ← or_answer updated (refusal "delete route failed")
    answer (success_with "Route closed successfully.")

  -- The write of UpdateFreqPrice.
  unfoldable pub set_schedule : ℕ → ℕ → F → ℤ → Service F Time (MutationResult F) ⊥
  set_schedule user id price freq = do
    updated ← execute (update_route user id (reschedule (p.store price) freq))
    _ ← or_answer updated (refusal "update failed")
    answer (success_with "Route frequency and pricing adjusted!")

  -- The route's aircraft must be able to fly it that often.
  unfoldable pub set_schedule_of :
      ℕ → ℕ → Route F → F → ℤ → Option ℕ → Service F Time (MutationResult F) ⊥
  set_schedule_of user id r price freq none = set_schedule user id price freq
  set_schedule_of user id r price freq (some aircraft) = do
    row ← query (aircraft_with_model user aircraft)
    found ← or_answer row (refusal "Assigned aircraft is unavailable.")
    if num.of_int found.1.range_km ⋖ ceil r.distance_km
        then answer (refusal "Assigned aircraft range is insufficient for this route.")
        else do
          max_weekly ← query (number_of "max_weekly_flights")
          if exceeds freq (
                calc_max_weekly_flights r.distance_km found.1.speed_kmh (turnaround_of found.1)
                  (or_zero max_weekly (whole 168)))
              then answer (
                  refusal
                    "Route frequency exceeds the assigned aircraft's weekly operating capacity.")
              else set_schedule user id price freq

  unfoldable pub update_freq_price : ℕ → ℕ → F → ℤ → Service F Time (MutationResult F) ⊥
  update_freq_price user id price freq =
      if ltb_ℤ freq (pos 1) || ltb_ℤ (pos 168) freq
      then answer (refusal "Invalid route schedule frequency.")
      else do
        row ← query (route_of user id)
        r ← or_answer row (refusal "Route not found.")
        set_schedule_of user id r (or_current price (p.load r.ticket_price)) freq
            r.assigned_aircraft_id

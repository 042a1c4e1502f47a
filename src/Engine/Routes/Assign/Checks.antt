-- ===== src/Engine/Routes/Assign/Checks.antt =====
-- The transaction of RoutesService.Assign (apps/api/internal/engine/routes.go), under the lock of the
-- aircraft's row.
use skyward.Base.{
  ℕ, Bool, true, false, ◌==◌, ◌&&◌, not, Option, none, some, nat_eq, string_eq, if◌then◌else◌,
}
use skyward.Base.Dict.{lookup, any_row}
use skyward.Float.{Float, ◌⋖◌, whole}
use skyward.Engine.Db.{
  Db, Platform, Aircraft, Model, Route, Status, active, grounded, maintenance, flies,
  aircraft_with_model,
}
use skyward.Engine.Tx.{
  Verdict, done, reject, Tx, return, statement, pool_query, or_return, or_zero, ◌>>=◌,
}
use skyward.Engine.Ledger.{read_with}
use skyward.Engine.Fleet.{MutationResult}
use skyward.Engine.Routes.{
  refusal, success_with, ceil, calc_max_weekly_flights, exceeds, turnaround_of, number_of,
  update_route,
}

-- COALESCE and GREATEST
abbrev pub or_default : {F : Type 0} → Option F → F → F
or_default none d = d
or_default (some a) d = a

abbrev pub greatest : {F : Type 0} ⦃num : Float F⦄ → F → F → F
greatest a b = if a ⋖ b then b else a

abbrev pub is_grounded : Status → Bool
is_grounded active = false
is_grounded grounded = true
is_grounded maintenance = false

-- SET assigned_aircraft_id = …
abbrev pub with_aircraft : {F : Type 0} → ℕ → Route F → Route F
with_aircraft aircraft r = record r { assigned_aircraft_id = some aircraft }

module _ {F Time : Type 0} where
  -- The condition under which an aircraft does not fly, of a user that exists.
  unfoldable pub safety_threshold : ⦃num : Float F⦄ → ℕ → Db F Time → Option F
  safety_threshold ⦃num⦄ user db = elim (lookup user db.users) [
    | none ↦ none
    | some u ↦ some (
        greatest (or_default u.auto_grounding_threshold (whole 40))
          (or_default (lookup "absolute_minimum_safety_limit" db.config) (whole 30)))
  ]

  -- EXISTS(SELECT 1 … WHERE user_id = … AND assigned_aircraft_id = … AND id <> …)
  unfoldable pub flies_elsewhere : ℕ → ℕ → ℕ → Db F Time → Option Bool
  flies_elsewhere user aircraft route db =
      some (any_row (λ k r. (r.user_id == user) && flies aircraft r && not (k == route)) db.routes)

abbrev pub assign_refusal : {F : Type 0} ⦃num : Float F⦄ → Verdict (MutationResult F)
assign_refusal = reject (refusal "Aircraft is unavailable or below the safety threshold.")

module _ {F Time : Type 0} ⦃num : Float F⦄ ⦃p : Platform F Time⦄ (user route aircraft : ℕ)
    (r : Route F) where
  -- The write, and the checks before it that read the routes.
  unfoldable pub assign_free : Aircraft F Time → Tx F Time (MutationResult F) ⊥
  assign_free a = do
    check ← statement (read_with (flies_elsewhere user aircraft route))
    assigned ← or_return check (reject (refusal "assignment check failed"))
    if assigned
        then return (reject (refusal "Aircraft is already assigned to another route."))
        else if is_grounded a.status
        then return (reject (refusal "Aircraft is grounded and cannot be assigned."))
        else do
          updated ← statement (update_route user route (with_aircraft aircraft))
          _ ← or_return updated (reject (refusal "assign failed"))
          return (done (success_with "Aircraft assigned to route."))

  -- The checks of the aircraft.
  unfoldable pub assign_checked : F → Aircraft F Time → Model F → Tx F Time (MutationResult F) ⊥
  assign_checked threshold a m =
      if a.condition ⋖ threshold
      then return assign_refusal
      else if num.of_int m.range_km ⋖ ceil r.distance_km
      then return (reject (refusal "Aircraft range is insufficient for this route."))
      else do
        max_weekly ← pool_query (number_of "max_weekly_flights")
        if exceeds r.flights_per_week (
              calc_max_weekly_flights r.distance_km m.speed_kmh (turnaround_of m)
                (or_zero max_weekly (whole 168)))
            then return (
                reject
                  (refusal "Route frequency exceeds this aircraft's weekly operating capacity."))
            else assign_free a

  unfoldable pub assign_tx : F → Tx F Time (MutationResult F) ⊥
  assign_tx threshold = do
    row ← statement (read_with (aircraft_with_model user aircraft))
    found ← or_return row assign_refusal
    assign_checked threshold found.0 found.1

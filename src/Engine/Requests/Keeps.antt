-- ===== src/Engine/Requests/Keeps.antt =====
-- What every request keeps, whatever calls of the database fail.
use skyward.Base.{ℕ, refl, sym, subst, Option, none, some, List, [], ◌∷◌, nat_eq, arith, inl, inr}
use skyward.Base.Int.{ℤ}
use skyward.Base.Dict.{Dict}
use skyward.Float.{Float, IsArithmetic}
use skyward.Engine.Db.{Db, Platform, IsSigned, Route, unassigned}
use skyward.Engine.Tx.{World}
use skyward.Engine.Service.{serve}
use skyward.Engine.Fleet.{MutationResult}
use skyward.Engine.Fleet.Repair.{aircraft_with_model-owned}
use skyward.Engine.Routes.{
  Geometry, CreateRouteParams, create, delete, update_freq_price, cancel, reschedule, row_of,
  with_routes,
}
use skyward.Engine.Routes.Rows.{IsSound, IsTimetabled}
use skyward.Engine.Routes.Fitting.{
  insert_route-IsSound, changed-IsSound, assigned-IsSound, route_of-lookup,
}
use skyward.Engine.Routes.Changes.{
  Creates, Closes, Reschedules, create-Answers, delete-Answers, update_freq_price-Answers,
}
use skyward.Engine.Routes.Assign.{assign}
use skyward.Engine.Routes.Assign.Checks.{flies_elsewhere}
use skyward.Engine.Routes.Assign.Outcome.{Sets, assign-leaves}
use skyward.Engine.Requests.Kept.{IsOrderly, same_money-IsOrderly}
use skyward.Engine.Requests.FleetKeeps.{
  sell-IsOrderly, terminate_lease-IsOrderly, repair-IsOrderly, configure_seats-IsOrderly,
  purchase_aircraft-IsOrderly, lease_aircraft-IsOrderly, repay-IsOrderly, refinance-IsOrderly,
}
use skyward.Engine.Requests.{
  Request, buy_aircraft, rent_aircraft, sell_aircraft, repair_aircraft, end_lease, set_seats,
  open_route, close_route, assign_aircraft, pay_back, change_rate, set_timetable, handle,
  handle_all,
}

module _ {F Time : Type 0} ⦃num : Float F⦄ ⦃p : Platform F Time⦄ (opening : ℕ → ℤ) where
  rerouted-IsOrderly :
      (routes : Dict ℕ (Route F)) (c : Db F Time)
      → IsSound (with_routes routes c)
      → IsOrderly opening c
      → IsOrderly opening (with_routes routes c)
  rerouted-IsOrderly routes c sound h =
      same_money-IsOrderly opening c (with_routes routes c) refl refl sound h

  create-IsOrderly :
      ⦃geo : Geometry F⦄ (user id : ℕ) (params : CreateRouteParams F) (w : World F Time)
      → IsOrderly opening w.db
      → IsOrderly opening (serve (create user id params) w).1.db
  unfolding Creates
  create-IsOrderly user id params w h = elim (create-Answers user id params w) [
    | inl (refused, same) ↦ subst (IsOrderly opening) (sym same) h
    | inr (served, (admitted, written)) ↦
        let (e, sound) =
          insert_route-IsSound id 1 (row_of user (p.store params.price) params) w.db _ refl written
            h.routes in
        subst (IsOrderly opening) (sym e) (rerouted-IsOrderly _ w.db (subst IsSound e sound) h)
  ]

  delete-IsOrderly :
      (user id : ℕ) (w : World F Time)
      → IsOrderly opening w.db
      → IsOrderly opening (serve (delete user id) w).1.db
  unfolding Closes IsTimetabled
  delete-IsOrderly user id w h = elim (delete-Answers user id w) [
    | inl (refused, same) ↦ subst (IsOrderly opening) (sym same) h
    | inr (served, (r, mine, e)) ↦ subst (IsOrderly opening) (sym e) (
        rerouted-IsOrderly _ w.db
          (changed-IsSound user id cancel r w.db mine refl refl refl (λ a f. absurd (ground arith))
            (h.routes.timetabled id r (route_of-lookup user id r w.db mine).0) h.routes)
          h)
  ]

  update_freq_price-IsOrderly :
      (user id : ℕ) (price : F) (freq : ℤ) (w : World F Time)
      → IsOrderly opening w.db
      → IsOrderly opening (serve (update_freq_price user id price freq) w).1.db
  unfolding Reschedules
  update_freq_price-IsOrderly user id price freq w h =
      elim (update_freq_price-Answers user id price freq w) [
        | inl (refused, same) ↦ subst (IsOrderly opening) (sym same) h
        | inr (served, (r, new, mine, priced, fit, good, e)) ↦ subst (IsOrderly opening) (sym e) (
            rerouted-IsOrderly _ w.db
              (changed-IsSound user id (reschedule (p.store new) freq) r w.db mine refl refl refl
                (λ a f. f) good h.routes)
              h)
      ]

  Sets-IsOrderly :
      (calm : Type 0) (user route : ℕ) (aircraft : Option ℕ) (result : MutationResult F)
      (c w : Db F Time)
      → Sets calm user route aircraft result c w
      → IsOrderly opening c
      → IsOrderly opening w
  unfolding Sets IsTimetabled flies_elsewhere
  Sets-IsOrderly calm user route none result c w (r, served, mine, e) h =
      subst (IsOrderly opening) (sym e) (
        rerouted-IsOrderly _ c
          (changed-IsSound user route unassigned r c mine refl refl refl
            (λ a f. absurd (ground arith))
            (h.routes.timetabled route r (route_of-lookup user route r c mine).0) h.routes)
          h)
  Sets-IsOrderly calm user route (some aircraft) result c w
        (r, threshold, a, m, served, mine, limit, fit, e) h =
      subst (IsOrderly opening) (sym e) (
        rerouted-IsOrderly _ c
          (assigned-IsSound user route aircraft r a c mine
            (aircraft_with_model-owned user aircraft c a m fit.found) (ground (arith, fit.free))
            h.routes)
          h)

  assign-IsOrderly :
      (user route : ℕ) (aircraft : Option ℕ) (w : World F Time)
      → IsOrderly opening w.db
      → IsOrderly opening (serve (assign user route aircraft) w).1.db
  assign-IsOrderly user route aircraft w h = elim (assign-leaves user route aircraft w) [
    | inl same ↦ subst (IsOrderly opening) (sym same) h
    | inr set ↦ Sets-IsOrderly _ user route aircraft _ w.db _ set h
  ]

module _ {F Time : Type 0} ⦃num : Float F⦄ ⦃p : Platform F Time⦄ ⦃geo : Geometry F⦄
    (law : IsArithmetic F) (sign : IsSigned F Time) (opening : ℕ → ℤ) where
  handle-IsOrderly :
      (user : ℕ) (request : Request F) (w : World F Time)
      → IsOrderly opening w.db
      → IsOrderly opening (handle user request w).db
  unfolding handle
  handle-IsOrderly user (buy_aircraft draws id params) =
      purchase_aircraft-IsOrderly law sign opening draws user id params
  handle-IsOrderly user (rent_aircraft draws id params) =
      lease_aircraft-IsOrderly law sign opening draws user id params
  handle-IsOrderly user (sell_aircraft id) = sell-IsOrderly law sign opening user id
  handle-IsOrderly user (repair_aircraft id) = repair-IsOrderly law sign opening user id
  handle-IsOrderly user (end_lease id) = terminate_lease-IsOrderly law sign opening user id
  handle-IsOrderly user (set_seats id economy business first) =
      configure_seats-IsOrderly law sign opening user id economy business first
  handle-IsOrderly user (open_route id params) = create-IsOrderly opening user id params
  handle-IsOrderly user (close_route id) = delete-IsOrderly opening user id
  handle-IsOrderly user (assign_aircraft route aircraft) =
      assign-IsOrderly opening user route aircraft
  handle-IsOrderly user (change_rate loan) = refinance-IsOrderly opening user loan
  handle-IsOrderly user (pay_back loan amount) = repay-IsOrderly law sign opening user loan amount
  handle-IsOrderly user (set_timetable route price freq) =
      update_freq_price-IsOrderly opening user route price freq

  -- Any sequence of requests to the fleet, the routes and the loans keeps the books and the routes in order,
  -- whatever calls of the database fail. If so it was before, every balance is still its opening one
  -- with all that the ledger records of it; none is negative; an aircraft on a route is the route
  -- user's own and on no other route; no user has two routes with the same ends; every route has a
  -- positive price and 1 to 168 flights a week. An amount that is not negative is stored as one that is
  -- not.
  pub handle_all-IsOrderly :
      (requests : List (ℕ × Request F)) (w : World F Time)
      → IsOrderly opening w.db
      → IsOrderly opening (handle_all requests w).db
  unfolding handle_all
  handle_all-IsOrderly [] w h = h
  handle_all-IsOrderly ((user, request) ∷ requests) w h =
      handle_all-IsOrderly requests (handle user request w) (handle-IsOrderly user request w h)

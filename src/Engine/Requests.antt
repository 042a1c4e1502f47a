-- ===== src/Engine/Requests.antt =====
-- The players' requests to the services of fleet, routes and bank
-- (apps/api/internal/engine/fleet.go, routes.go and bank.go), one after the other. What the database draws (ids, letters of tail numbers) is part of
-- a request; which of its calls fail is part of the world.
pub mod Kept
pub mod FleetKeeps
pub mod Keeps
pub mod Tests
use skyward.Base.{ℕ, List, [], ◌∷◌, Option, String}
use skyward.Base.Int.{ℤ}
use skyward.Float.{Float}
use skyward.Engine.Db.{Platform}
use skyward.Engine.Tx.{World}
use skyward.Engine.Service.{serve}
use skyward.Engine.Bank.{repay}
use skyward.Engine.Bank.Refinance.{refinance}
use skyward.Engine.Fleet.{repair, sell}
use skyward.Engine.Fleet.Lease.{terminate_lease}
use skyward.Engine.Fleet.Configure.{configure_seats}
use skyward.Engine.Fleet.Purchase.{PurchaseParams, purchase_aircraft, lease_aircraft}
use skyward.Engine.Routes.{Geometry, CreateRouteParams, create, delete, update_freq_price}
use skyward.Engine.Routes.Assign.{assign}

pub data Request (F : Type 0) : Type 0 where
  buy_aircraft : (draws : ℕ → String) (id : ℕ) → PurchaseParams → Request F
  rent_aircraft : (draws : ℕ → String) (id : ℕ) → PurchaseParams → Request F
  sell_aircraft : (id : ℕ) → Request F
  repair_aircraft : (id : ℕ) → Request F
  end_lease : (id : ℕ) → Request F
  set_seats : (id : ℕ) (economy business first : ℤ) → Request F
  open_route : (id : ℕ) → CreateRouteParams F → Request F
  close_route : (id : ℕ) → Request F
  assign_aircraft : (route : ℕ) (aircraft : Option ℕ) → Request F
  change_rate : (loan : ℕ) → Request F
  pay_back : (loan : ℕ) (amount : Option F) → Request F
  set_timetable : (route : ℕ) (price : F) (freq : ℤ) → Request F

module _ {F Time : Type 0} ⦃num : Float F⦄ ⦃p : Platform F Time⦄ ⦃geo : Geometry F⦄ where
  unfoldable pub handle : ℕ → Request F → World F Time → World F Time
  handle user (buy_aircraft draws id params) w =
      (serve (purchase_aircraft draws user id params) w).1
  handle user (rent_aircraft draws id params) w = (serve (lease_aircraft draws user id params) w).1
  handle user (sell_aircraft id) w = (sell user id w).1
  handle user (repair_aircraft id) w = (repair user id w).1
  handle user (end_lease id) w = (terminate_lease user id w).1
  handle user (set_seats id economy business first) w =
      (serve (configure_seats user id economy business first) w).1
  handle user (open_route id params) w = (serve (create user id params) w).1
  handle user (close_route id) w = (serve (delete user id) w).1
  handle user (assign_aircraft route aircraft) w = (serve (assign user route aircraft) w).1
  handle user (change_rate loan) w = (refinance user loan w).1
  handle user (pay_back loan amount) w = (repay user loan amount w).1
  handle user (set_timetable route price freq) w =
      (serve (update_freq_price user route price freq) w).1

  -- Each request by its user.
  unfoldable pub handle_all : List (ℕ × Request F) → World F Time → World F Time
  handle_all [] w = w
  handle_all ((user, request) ∷ requests) w = handle_all requests (handle user request w)

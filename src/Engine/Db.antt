-- ===== src/Engine/Db.antt =====
-- The tables that the engine's statements read and write, as the SQL in
-- apps/api/internal/engine/*.go names their columns. Money columns are numeric(20,2): whole cents.
-- Ids are numbers; a row that a statement joins by a foreign key is looked up.
use skyward.Base.{
  ℕ, Bool, true, false, ◌==◌, ◌&&◌, Option, none, some, List, String, nat_eq, if◌then◌else◌,
}
use skyward.Base.Int.{ℤ, pos, ◌≤ℤ◌}
use skyward.Base.Dict.{Dict, lookup, any_row}
use skyward.Float.{Float, ◌≼◌, whole}

-- What Go and PostgreSQL do to a float64 that passes to a money column and back, and the calls of
-- package time that the engine makes.
pub record Platform (F Time : Type 0) : Type 0 where
  pub store : F → ℤ
  pub load : ℤ → F
  pub zero_time : Time
  pub is_zero : Time → Bool
  pub hours_since : Time → Time → F
  pub numeric_sub : ℤ → F → F  -- the difference of a money column and a float
  pub hq_prefix : String → String  -- the SQL function get_hq_prefix

-- An amount that is not negative is stored as one that is not.
pub record IsSigned (F Time : Type 0) ⦃num : Float F⦄ ⦃p : Platform F Time⦄ : Type 0 where
  pub zero_le_store : (a : F) → whole 0 ≼ a → pos 0 ≤ℤ p.store a

pub data Acquisition : Type 0 where
  purchase lease finance : Acquisition

abbrev pub is_purchase : Acquisition → Bool
is_purchase Acquisition.purchase = true
is_purchase Acquisition.lease = false
is_purchase Acquisition.finance = false

pub data Status : Type 0 where
  active grounded maintenance : Status

pub data RouteStatus : Type 0 where
  flown cancelled : RouteStatus  -- 'active' and 'cancelled'

-- aircraft_models
pub record Model (F : Type 0) : Type 0 where
  pub model_name : String
  pub purchase_price : F
  pub lease_price_per_month : F
  pub capacity : ℤ
  pub min_credit_tier : String
  pub range_km : ℤ
  pub speed_kmh : ℤ
  pub turnaround_hours : Option F

-- users
pub record User (F Time : Type 0) : Type 0 where
  pub game_current_time : Time
  pub actor_type : Option String
  pub hq_airport_iata : Option String
  pub auto_grounding_threshold : Option F

-- fleet_aircraft
pub record Aircraft (F Time : Type 0) : Type 0 where
  pub owner : ℕ
  pub model : ℕ
  pub tail_number : Option String
  pub acquisition_type : Acquisition
  pub acquired_game_date : Option Time
  pub condition : F
  pub status : Status
  pub economy_seats : ℤ
  pub business_seats : ℤ
  pub first_class_seats : ℤ

-- bank_transactions
pub record Entry (Time : Type 0) : Type 0 where
  pub user_id : ℕ
  pub is_credit : Bool  -- transaction_type
  pub amount : ℤ
  pub balance_after : ℤ
  pub ifrs_category : String
  pub ifrs_subcategory : String
  pub game_date : Time

-- route_assignments
pub record Route (F : Type 0) : Type 0 where
  pub user_id : ℕ
  pub origin_iata : String
  pub destination_iata : String
  pub distance_km : F
  pub ticket_price : ℤ
  pub flights_per_week : ℤ
  pub route_status : RouteStatus
  pub assigned_aircraft_id : Option ℕ

-- loans
pub data LoanStatus : Type 0 where
  owed paid_off defaulted repossessed : LoanStatus  -- 'active' and the others

pub record Loan (F : Type 0) : Type 0 where
  pub borrower : ℕ
  pub loan_type : String
  pub interest_rate : F
  pub remaining_balance : ℤ
  pub weekly_payment : ℤ
  pub monthly_payment : Option ℤ
  pub loan_status : LoanStatus
  pub collateral_aircraft_id : Option ℕ

pub record Db (F Time : Type 0) : Type 0 where
  pub balances : Dict ℕ ℤ  -- bank_accounts of type operating, by user
  pub entries : List (Entry Time)  -- bank_transactions, the newest first
  pub users : Dict ℕ (User F Time)
  pub credit_tiers : Dict ℕ String  -- credit_scores.tier, by user
  pub config : Dict String F  -- the numbers of game_config
  pub airports : Dict String (F × F)  -- latitude and longitude, by IATA code
  pub models : Dict ℕ (Model F)
  pub fleet : Dict ℕ (Aircraft F Time)
  pub routes : Dict ℕ (Route F)
  pub loans : Dict ℕ (Loan F)
  pub tier_config : Dict String F  -- the numbers of game_config's credit_tier_config, by path

module _ {F : Type 0} where
  -- assigned_aircraft_id = …
  abbrev pub flies : ℕ → Route F → Bool
  flies id r = elim r.assigned_aircraft_id [ none ↦ false | some a ↦ a == id ]

  abbrev pub unassigned : Route F → Route F
  unassigned r = record r { assigned_aircraft_id = none }

  -- ON DELETE SET NULL of the foreign key
  abbrev pub released : ℕ → Route F → Route F
  released id r = if flies id r then unassigned r else r

-- The same for the collateral of a loan
abbrev pub uncovered : {F : Type 0} → ℕ → Loan F → Loan F
uncovered id l = elim l.collateral_aircraft_id [
  | none ↦ l
  | some a ↦ if a == id then record l { collateral_aircraft_id = none } else l
]

module _ {F Time : Type 0} where
  -- WHERE id = … AND user_id = …
  unfoldable pub owned_aircraft : ℕ → ℕ → Db F Time → Option (Aircraft F Time)
  owned_aircraft user id db = elim (lookup id db.fleet) [
    | none ↦ none
    | some a ↦ if a.owner == user then some a else none
  ]

  -- … JOIN aircraft_models m ON m.id = f.aircraft_model_id
  unfoldable pub aircraft_with_model : ℕ → ℕ → Db F Time → Option (Aircraft F Time × Model F)
  aircraft_with_model user id db = elim (owned_aircraft user id db) [
    | none ↦ none
    | some a ↦ elim (lookup a.model db.models) [ none ↦ none | some m ↦ some (a, m) ]
  ]

  -- SELECT EXISTS(SELECT 1 FROM route_assignments WHERE user_id = … AND assigned_aircraft_id = …)
  unfoldable pub is_assigned : ℕ → ℕ → Db F Time → Bool
  is_assigned user id db = any_row (λ k r. (r.user_id == user) && flies id r) db.routes

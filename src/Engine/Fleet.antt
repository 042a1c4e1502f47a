-- ===== src/Engine/Fleet.antt =====
-- The fleet (FleetService of apps/api/internal/engine/fleet.go): validateSeats, Sell, Repair and
-- ConfigureSeats. A row lock is taken by the statement that asks for it; one request is modelled at a
-- time, so that nothing else writes between its statements.
pub mod Repair
pub mod Removal
pub mod Sell
pub mod Lease
pub mod Seats
pub mod Configure
pub mod Tail
pub mod TierGate
pub mod Purchase
pub mod Tests
use skyward.Base.{
  ℕ, ◌≡◌, Bool, true, false, ◌||◌, Option, none, some, List, [], ◌∷◌, String, nat_eq, if◌then◌else◌,
}
use skyward.Base.Int.{ℤ, pos, ◌+ℤ◌, leb_ℤ, ltb_ℤ, pos_part, neg_part}
use skyward.Base.Dict.{Dict, lookup, insert, erase, each_row}
use skyward.Float.{Float, ◌⩽◌, ◌⋖◌, whole}
use skyward.Economy.Money.{less_than, repair_cost_for, sale_value_for}
use skyward.Engine.Db.{
  Db, Platform, Aircraft, Model, Acquisition, is_purchase, Status, active, owned_aircraft,
  aircraft_with_model, is_assigned, released, uncovered,
}
use skyward.Engine.Tx.{
  Reply, ok, no_rows, failed, TxError, Verdict, done, reject, error, Result, returned, err, World,
  Tx, pure, return, statement, pool_query, or_return, or_zero, ◌>>=◌, with_tx, tx_failure_message,
  succeeds, rest,
}
use skyward.Engine.Ledger.{Direction, credit, debit, apply_tx, balance_of, read_with}

-- A message, with the arguments of its format.
pub data Message (F : Type 0) : Type 0 where
  text : String → Message F
  about : String → List String → List F → Message F

pub record MutationResult (F : Type 0) : Type 0 where
  pub success : Bool
  pub message : Message F
  pub new_cash : F

-- The model's seats are slots: 2 to a business seat, 3 to a first class seat.
unfoldable pub slots : ℤ → ℤ → ℤ → ℤ
slots economy business first = economy +ℤ (business +ℤ business) +ℤ (first +ℤ first +ℤ first)

-- Whether validateSeats returns no error.
unfoldable pub validate_seats : ℤ → ℤ → ℤ → ℤ → Bool
validate_seats economy business first capacity =
    if ltb_ℤ economy (pos 0)
    then false
    else if ltb_ℤ business (pos 0)
    then false
    else if ltb_ℤ first (pos 0)
    then false
    else if leb_ℤ (slots economy business first) (pos 0)
    then false
    else if ltb_ℤ capacity (slots economy business first)
    then false
    else true

module _ {F Time : Type 0} where
  abbrev pub with_fleet : Dict ℕ (Aircraft F Time) → Db F Time → Db F Time
  with_fleet fleet db = record db { fleet = fleet }

  -- The rows without an aircraft, of which the foreign keys are set to null.
  abbrev pub without_aircraft : ℕ → Db F Time → Db F Time
  without_aircraft id db = record db {
    fleet = erase id db.fleet;
    routes = each_row (released id) db.routes;
    loans = each_row (uncovered id) db.loans;
  }

  abbrev pub restored : ⦃num : Float F⦄ → Aircraft F Time → Aircraft F Time
  restored a = record a { condition = whole 100; status = active }

  -- UPDATE fleet_aircraft SET condition = 100.00, status = 'active' WHERE id = … AND user_id = …
  unfoldable pub restore_aircraft : ⦃num : Float F⦄ → ℕ → ℕ → Db F Time → Option (ℕ × Db F Time)
  restore_aircraft user id db = elim (owned_aircraft user id db) [
    | none ↦ some (0, db)
    | some a ↦ some (1, with_fleet (insert id (restored a) db.fleet) db)
  ]

  -- DELETE FROM fleet_aircraft WHERE id = … AND user_id = …
  unfoldable pub delete_aircraft : ℕ → ℕ → Db F Time → Option (ℕ × Db F Time)
  delete_aircraft user id db = elim (owned_aircraft user id db) [
    | none ↦ some (0, db)
    | some a ↦ some (1, without_aircraft id db)
  ]

  abbrev pub clock_of : ℕ → Db F Time → Option Time
  clock_of user db = elim (lookup user db.users) [ none ↦ none | some u ↦ some u.game_current_time ]

  abbrev pub assigned_row : ℕ → ℕ → Db F Time → Option Bool
  assigned_row user id db = some (is_assigned user id db)

abbrev pub refused : {F : Type 0} → String → F → Verdict (MutationResult F)
refused message cash = reject (record { success = false; message = text message; new_cash = cash })

abbrev pub cash_of : {F : Type 0} ⦃num : Float F⦄ → (ℤ → F) → Reply ℤ → F
cash_of load (ok b) = load b
cash_of load no_rows = whole 0
cash_of load failed = whole 0

-- What the player gets when the transaction itself failed.
abbrev pub answered : {F : Type 0} ⦃num : Float F⦄ → Result (MutationResult F) → MutationResult F
answered (returned r) = r
answered (err e) = record {
  success = false;
  message = text (tx_failure_message e);
  new_cash = whole 0;
}

module _ {F Time : Type 0} ⦃num : Float F⦄ ⦃p : Platform F Time⦄ where
  -- From the debit of a repair on.
  unfoldable pub repair_for : ℕ → ℕ → Aircraft F Time → Model F → F → Tx F Time (MutationResult F) ⊥
  repair_for user id a m cash = do
    clock ← pool_query (clock_of user)
    debited ←
        apply_tx debit user (repair_cost_for a.condition m.purchase_price) "cogs" "maintenance"
          (or_zero clock p.zero_time)
    new_cash ← or_return debited (refused "ledger debit failed" cash)
    updated ← statement (restore_aircraft user id)
    _ ← or_return updated (refused "update aircraft failed" cash)
    return (
        done (record {
          success = true;
          message = text "Aircraft maintenance complete. Health restored to 100%!";
          new_cash = new_cash;
        }))

  -- The early returns before it.
  unfoldable pub repair_checked :
      ℕ → ℕ → Aircraft F Time → Model F → F → Tx F Time (MutationResult F) ⊥
  repair_checked user id a m cash =
      if whole 100 ⩽ a.condition
      then return (
          reject (record {
            success = true;
            message =
                about "Aircraft %s is already in pristine condition (100%%)." (m.model_name ∷ [])
                  [];
            new_cash = cash;
          }))
      else if less_than cash (repair_cost_for a.condition m.purchase_price)
      then return (
          reject (record {
            success = false;
            message =
                about "Insufficient funds for repair. Required: $%.2f" []
                  (repair_cost_for a.condition m.purchase_price ∷ []);
            new_cash = cash;
          }))
      else repair_for user id a m cash

  unfoldable pub repair_tx : ℕ → ℕ → Tx F Time (MutationResult F) ⊥
  repair_tx user id = do
    row ← statement (read_with (aircraft_with_model user id))
    found ← or_return row (refused "Aircraft not found." (whole 0))
    balance ← pool_query (balance_of user)
    repair_checked user id found.0 found.1 (cash_of p.load balance)

  unfoldable pub repair : ℕ → ℕ → World F Time → MutationResult F × World F Time
  repair user id w = let (r, w') = with_tx (repair_tx user id) w in (answered r, w')

-- A query of the pool outside a transaction.
abbrev pub reply_of : {A : Type 0} → Option A → Reply A
reply_of none = no_rows
reply_of (some a) = ok a

abbrev pub ask : {F Time A : Type 0} → (Db F Time → Option A) → World F Time → Reply A
ask f w = if succeeds w.calls then reply_of (f w.db) else failed

abbrev pub after : {F Time : Type 0} → World F Time → World F Time
after w = record { db = w.db; calls = rest w.calls }

module _ {F Time : Type 0} ⦃num : Float F⦄ ⦃p : Platform F Time⦄ where
  -- The sale, from the check under the row lock on.
  unfoldable pub sell_for : ℕ → ℕ → F → Bool → Tx F Time (MutationResult F) ⊥
  sell_for user id sale_value true =
      return (refused "Aircraft is still assigned to a route." (whole 0))
  sell_for user id sale_value false = do
    clock ← pool_query (clock_of user)
    credited ←
        apply_tx credit user sale_value "investing" "aircraft_sale" (or_zero clock p.zero_time)
    new_cash ← or_return credited (refused "ledger credit failed" (whole 0))
    deleted ← statement (delete_aircraft user id)
    _ ← or_return deleted (refused "delete aircraft failed" (whole 0))
    return (
        done (record {
          success = true;
          message = about "Aircraft sold for $%.2f." [] (sale_value ∷ []);
          new_cash = new_cash;
        }))

  unfoldable pub sell_tx : ℕ → ℕ → F → Tx F Time (MutationResult F) ⊥
  sell_tx user id sale_value = do
    row ← statement (read_with (owned_aircraft user id))
    _ ← or_return row (refused "Aircraft not found." (whole 0))
    check ← statement (read_with (assigned_row user id))
    still_assigned ← or_return check (refused "assignment check failed" (whole 0))
    sell_for user id sale_value still_assigned

  abbrev pub unsold : String → World F Time → MutationResult F × World F Time
  unsold message w = (record { success = false; message = text message; new_cash = whole 0 }, w)

  abbrev pub replied : Result (MutationResult F) × World F Time → MutationResult F × World F Time
  replied (r, w) = (answered r, w)

  -- The price of the rows that were read, and the transaction.
  unfoldable pub sell_priced :
      ℕ → ℕ → Aircraft F Time → Model F → World F Time → MutationResult F × World F Time
  sell_priced user id a m w = replied (
      with_tx
        (sell_tx user id (
          sale_value_for p.is_zero p.hours_since a.condition m.purchase_price a.acquired_game_date
            (or_zero (ask (clock_of user) w) p.zero_time)))
        (after w))

  -- What the pool's reads before the transaction decide.
  unfoldable pub sell_found :
      ℕ → ℕ → Reply (Aircraft F Time × Model F) → World F Time → MutationResult F × World F Time
  sell_found user id no_rows w = unsold "Aircraft not found." w
  sell_found user id failed w = unsold "Aircraft not found." w
  sell_found user id (ok (a, m)) w =
      if is_purchase a.acquisition_type
      then if or_zero (ask (assigned_row user id) w) false
        then unsold "Aircraft is still assigned to a route." (after w)
        else sell_priced user id a m (after w)
      else unsold "Only owned aircraft can be sold." w

  unfoldable pub sell : ℕ → ℕ → World F Time → MutationResult F × World F Time
  sell user id w = sell_found user id (ask (aircraft_with_model user id) w) (after w)

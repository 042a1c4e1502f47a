-- ===== src/Engine/Fleet/Purchase/Acquired.antt =====
-- The transactions of Purchase and Lease (apps/api/internal/engine/fleet.go).
use skyward.Base.{
  ℕ, Bool, true, false, ◌==◌, ◌||◌, Option, none, some, List, [], String, nat_eq, string_eq,
  if◌then◌else◌,
}
use skyward.Base.Dict.{insert, any_row}
use skyward.Float.{Float}
use skyward.Engine.Db.{Db, Platform, Aircraft}
use skyward.Engine.Tx.{done, reject, Tx, return, statement, or_return, ◌>>=◌}
use skyward.Engine.Ledger.{debit, apply_tx}
use skyward.Engine.Fleet.{text, about, MutationResult, with_fleet, refused}
use skyward.Engine.Fleet.Tail.{has_tail}

abbrev pub same_tail : {F Time : Type 0} → Option String → ℕ → Aircraft F Time → Bool
same_tail none k a = false
same_tail (some tail) k a = has_tail tail k a

abbrev pub unleased : {F : Type 0} → String → F → MutationResult F
unleased message cash = record { success = false; message = text message; new_cash = cash }

module _ {F Time : Type 0} where
  -- INSERT INTO fleet_aircraft …, which the primary key and the index on tail numbers may refuse.
  unfoldable pub insert_aircraft : ℕ → Aircraft F Time → Db F Time → Option (ℕ × Db F Time)
  insert_aircraft id a db =
      if any_row (λ k b. k == id) db.fleet || any_row (same_tail a.tail_number) db.fleet
      then none
      else some (1, with_fleet (insert id a db.fleet) db)

module _ {F Time : Type 0} ⦃num : Float F⦄ ⦃p : Platform F Time⦄ where
  -- The price is debited, and the aircraft's row is inserted.
  unfoldable pub purchase_tx :
      ℕ → ℕ → F → Aircraft F Time → Time → List String → F → Tx F Time (MutationResult F) ⊥
  purchase_tx user id price a game_time names cash = do
    debited ← apply_tx debit user price "investing" "aircraft_purchase" game_time
    new_cash ← or_return debited (refused "ledger debit failed" cash)
    inserted ← statement (insert_aircraft id a)
    _ ← or_return inserted (refused "insert aircraft failed" cash)
    return (
        done (record {
          success = true;
          message = about "Successfully purchased %s [%s]" names [];
          new_cash = new_cash;
        }))

  -- Without a result the player's answer is made after the commit.
  unfoldable pub lease_tx :
      ℕ → ℕ → F → Aircraft F Time → Time → F → Tx F Time (Option (MutationResult F)) ⊥
  lease_tx user id deposit a game_time cash = do
    debited ← apply_tx debit user deposit "investing" "aircraft_lease_deposit" game_time
    _ ← or_return debited (reject (some (unleased "ledger debit failed" cash)))
    inserted ← statement (insert_aircraft id a)
    _ ← or_return inserted (reject (some (unleased "insert aircraft failed" cash)))
    return (done none)

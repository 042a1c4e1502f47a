-- ===== src/Engine/Fleet/Lease.antt =====
-- The end of a lease: TerminateLease of apps/api/internal/engine/fleet.go. What DebitTx says of its
-- error in the message is left out.
pub mod Termination
pub mod Tests
use skyward.Base.{
  ℕ, ◌≡◌, Bool, true, false, Option, none, some, List, [], ◌∷◌, String, nat_eq, if◌then◌else◌,
}
use skyward.Base.Int.{ℤ}
use skyward.Float.{Float, whole}
use skyward.Economy.Money.{less_than, lease_exit_fee_for}
use skyward.Engine.Db.{
  Db, Platform, Aircraft, Model, Acquisition, purchase, lease, finance, owned_aircraft,
  aircraft_with_model,
}
use skyward.Engine.Tx.{
  Reply, ok, no_rows, failed, Verdict, done, Result, returned, err, World, Tx, return, statement,
  pool_query, or_return, or_zero, ◌>>=◌, with_tx, tx_failure_message,
}
use skyward.Engine.Ledger.{Direction, debit, apply_tx, balance_of, read_with}
use skyward.Engine.Fleet.{
  Message, text, MutationResult, delete_aircraft, clock_of, assigned_row, refused, cash_of, ask,
  after,
}

abbrev pub is_lease : Acquisition → Bool
is_lease lease = true
is_lease purchase = false
is_lease finance = false

abbrev pub answered_with : {F : Type 0} → F → Result (MutationResult F) → MutationResult F
answered_with cash (returned r) = r
answered_with cash (err e) = record {
  success = false;
  message = text (tx_failure_message e);
  new_cash = cash;
}

module _ {F Time : Type 0} ⦃num : Float F⦄ ⦃p : Platform F Time⦄ where
  -- From the check under the row lock on.
  unfoldable pub terminate_for : ℕ → ℕ → F → F → Bool → Tx F Time (MutationResult F) ⊥
  terminate_for user id exit_fee cash true =
      return (refused "Aircraft is still assigned to a route." cash)
  terminate_for user id exit_fee cash false = do
    clock ← pool_query (clock_of user)
    debited ← apply_tx debit user exit_fee "opex" "lease_termination" (or_zero clock p.zero_time)
    new_cash ← or_return debited (refused "debit fee failed: " cash)
    deleted ← statement (delete_aircraft user id)
    _ ← or_return deleted (refused "delete aircraft failed" cash)
    return (
        done (record {
          success = true;
          message = text "Lease terminated successfully!";
          new_cash = new_cash;
        }))

  unfoldable pub terminate_tx : ℕ → ℕ → F → F → Tx F Time (MutationResult F) ⊥
  terminate_tx user id exit_fee cash = do
    row ← statement (read_with (owned_aircraft user id))
    _ ← or_return row (refused "Aircraft not found." cash)
    check ← statement (read_with (assigned_row user id))
    still_assigned ← or_return check (refused "assignment check failed" cash)
    terminate_for user id exit_fee cash still_assigned

  abbrev pub kept : String → F → World F Time → MutationResult F × World F Time
  kept message cash w = (record { success = false; message = text message; new_cash = cash }, w)

  abbrev pub replied_with :
      F → Result (MutationResult F) × World F Time → MutationResult F × World F Time
  replied_with cash (r, w) = (answered_with cash r, w)

  -- The fee of the row that was read, against the balance that was read.
  unfoldable pub terminate_charged : ℕ → ℕ → F → F → World F Time → MutationResult F × World F Time
  terminate_charged user id exit_fee cash w =
      if less_than cash exit_fee
      then kept "Insufficient funds to pay lease termination fee." cash w
      else replied_with cash (with_tx (terminate_tx user id exit_fee cash) w)

  -- What the pool's reads before the transaction decide.
  unfoldable pub terminate_found :
      ℕ → ℕ → Reply (Aircraft F Time × Model F) → World F Time → MutationResult F × World F Time
  terminate_found user id no_rows w = kept "Aircraft not found." (whole 0) w
  terminate_found user id failed w = kept "Aircraft not found." (whole 0) w
  terminate_found user id (ok (a, m)) w =
      if is_lease a.acquisition_type
      then if or_zero (ask (assigned_row user id) w) false
        then kept "Aircraft is still assigned to a route." (whole 0) (after w)
        else terminate_charged user id (lease_exit_fee_for m.lease_price_per_month)
            (cash_of p.load (ask (balance_of user) (after w))) (after (after w))
      else kept "Only leased aircraft can be terminated through this action." (whole 0) w

  unfoldable pub terminate_lease : ℕ → ℕ → World F Time → MutationResult F × World F Time
  terminate_lease user id w =
      terminate_found user id (ask (aircraft_with_model user id) w) (after w)

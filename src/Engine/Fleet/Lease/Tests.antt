-- ===== src/Engine/Fleet/Lease/Tests.antt =====
-- The end of a lease on a small database (fleet.go), and the theorems there.
use skyward.Base.{ℕ, ◌≡◌, refl, none, some, [], ◌∷◌, nat_eq, string_eq, arith}
use skyward.Base.Int.{ℤ, pos, ◌+ℤ◌, ◌-ℤ◌}
use skyward.Base.Dict.{lookup}
use skyward.Float.Fixed.{fixed, fixed_mul, fixed_div, fixed_round}
use skyward.Economy.Money.{round2, less_than, lease_exit_fee_for}
use skyward.Engine.Db.{
  Db, Aircraft, Model, lease, active, owned_aircraft, aircraft_with_model, is_assigned,
}
use skyward.Engine.Tx.{World, with_tx, finish, statement, pool_query}
use skyward.Engine.Ledger.{apply_tx, update_balance, insert_entry, balance_of}
use skyward.Engine.Ledger.Laws.{IsBalanced, IsSolvent, total}
use skyward.Engine.Fleet.{delete_aircraft}
use skyward.Engine.Fleet.Tests.{platform, opening}
use skyward.Engine.Fleet.Lease.{
  terminate_for, terminate_tx, terminate_charged, terminate_found, terminate_lease,
}
use skyward.Engine.Fleet.Lease.Termination.{Outcome, terminate_lease-atomic}

-- User 1 leases aircraft 8 for 200 a month, and holds 100 in cash.
abbrev leased : Aircraft ℤ ℕ
leased = record {
  owner = 1;
  model = 3;
  tail_number = none;
  acquisition_type = lease;
  acquired_game_date = none;
  condition = pos 900_000;
  status = active;
  economy_seats = pos 100;
  business_seats = pos 0;
  first_class_seats = pos 0;
}

abbrev turboprop : Model ℤ
turboprop = record {
  model_name = "ATR72";
  purchase_price = pos 10_000_000;
  lease_price_per_month = pos 2_000_000;
  capacity = pos 100;
  min_credit_tier = "Standard";
  range_km = pos 5_000;
  speed_kmh = pos 800;
  turnaround_hours = none;
}

abbrev rented : Db ℤ ℕ
rented = record {
  balances = (1, pos 10_000) ∷ [];
  entries = [];
  users =
      (
        1,
        record {
          game_current_time = 5;
          actor_type = none;
          hq_airport_iata = none;
          auto_grounding_threshold = none;
        },
      )
      ∷ [];
  credit_tiers = [];
  config = [];
  airports = [];
  models = (3, turboprop) ∷ [];
  fleet = (8, leased) ∷ [];
  routes = [];
  loans = [];
  tier_config = [];
}

abbrev calm : World ℤ ℕ
calm = record { db = rented; calls = [] }

ended :
    (lookup 1 (terminate_lease 1 8 calm).1.db.balances ≡ some (pos 5_000))
    × (lookup 8 (terminate_lease 1 8 calm).1.db.fleet ≡ none)
unfolding terminate_lease terminate_found terminate_charged terminate_tx terminate_for with_tx
    finish statement pool_query apply_tx update_balance insert_entry balance_of delete_aircraft
    owned_aircraft aircraft_with_model is_assigned lease_exit_fee_for less_than round2 fixed_mul
    fixed_div fixed_round ◌-ℤ◌ ◌+ℤ◌
ended = (refl, refl)

rented-IsBalanced : IsBalanced opening rented
unfolding IsBalanced balance_of total ◌+ℤ◌
rented-IsBalanced user b h = ground (arith, h, nat_eq.equal_iff 1 user)

rented-IsSolvent : IsSolvent rented
unfolding IsSolvent balance_of
rented-IsSolvent user b h = ground (arith, h, nat_eq.equal_iff 1 user)

terminate_lease-atomic_example :
    Outcome 1 8 (terminate_lease 1 8 calm).0 rented (terminate_lease 1 8 calm).1.db
terminate_lease-atomic_example = terminate_lease-atomic 1 8 calm

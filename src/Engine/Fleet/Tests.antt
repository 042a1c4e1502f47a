-- ===== src/Engine/Fleet/Tests.antt =====
-- Requests on a small database (fleet.go), with calls that fail, and the theorems there.
use skyward.Base.{
  ℕ, ◌+◌, ◌*◌, ◌/◌, ◌-◌, ◌≡◌, ◌⊎◌, refl, true, false, none, some, [], ◌∷◌, nat_beq, nat_eq, arith,
}
use skyward.Base.Int.{ℤ, pos, negsuc, ◌+ℤ◌, ◌-ℤ◌, ◌≤ℤ◌}
use skyward.Base.Dict.{lookup}
use skyward.Float.{◌≼◌, whole}
use skyward.Float.Fixed.{fixed, fixed_mul, fixed_div, fixed_round, scale}
use skyward.Economy.Money.{round2, repair_cost_for, less_than}
use skyward.Engine.Db.{
  Db, Platform, IsSigned, Aircraft, Model, purchase, grounded, owned_aircraft, aircraft_with_model,
}
use skyward.Engine.Tx.{returned, World, with_tx, finish, statement, pool_query}
use skyward.Engine.Ledger.{apply_tx, update_balance, insert_entry, balance_of}
use skyward.Engine.Ledger.Laws.{IsBalanced, IsSolvent, total}
use skyward.Engine.Fleet.{
  MutationResult, text, repair, repair_tx, repair_checked, repair_for, restore_aircraft, sell,
}
use skyward.Engine.Tx.Laws.{IsCalm, with_tx-commits}
use skyward.Engine.Fleet.Repair.{Triple-repair_tx, Repairs, repair-atomic}
use skyward.Engine.Fleet.Sell.{Outcome, sell-atomic}

-- Four decimals to cents and back.
abbrev pub cents : ℤ → ℤ
cents (pos n) = pos (n / 100)
cents (negsuc n) = pos 0 -ℤ pos ((n + 1) / 100)

abbrev pub amount_of : ℤ → ℤ
amount_of (pos n) = pos (n * 100)
amount_of (negsuc n) = pos 0 -ℤ pos ((n + 1) * 100)

instance abbrev pub platform : Platform ℤ ℕ
platform = record {
  store = cents;
  load = amount_of;
  zero_time = 0;
  is_zero = nat_beq 0;
  hours_since = λ t a. pos ((t - a) * scale);
  numeric_sub = λ a b. amount_of a -ℤ b;
  hq_prefix = λ iata. iata;
}

cents_zero_le : (a : ℤ) → whole 0 ≼ a → pos 0 ≤ℤ cents a
cents_zero_le (pos n) h = omega arith
cents_zero_le (negsuc n) h = absurd (ground arith)

pub platform-IsSigned : IsSigned ℤ ℕ
platform-IsSigned = record { zero_le_store = cents_zero_le }

-- User 1 owns aircraft 7 at condition 90 of a model that costs 1000, and holds 100 in cash.
abbrev worn : Aircraft ℤ ℕ
worn = record {
  owner = 1;
  model = 3;
  tail_number = none;
  acquisition_type = purchase;
  acquired_game_date = none;
  condition = pos 900_000;
  status = grounded;
  economy_seats = pos 100;
  business_seats = pos 0;
  first_class_seats = pos 0;
}

abbrev model : Model ℤ
model = record {
  model_name = "A320";
  purchase_price = pos 10_000_000;
  lease_price_per_month = pos 0;
  capacity = pos 100;
  min_credit_tier = "Standard";
  range_km = pos 5_000;
  speed_kmh = pos 800;
  turnaround_hours = none;
}

abbrev small : Db ℤ ℕ
small = record {
  balances = (1, pos 10_000) ∷ [];
  entries = [];
  users =
      (
        1,
        record {
          game_current_time = 5;
          actor_type = none;
          hq_airport_iata = none;
          auto_grounding_threshold = none;
        },
      )
      ∷ [];
  credit_tiers = [];
  config = [];
  airports = [];
  models = (3, model) ∷ [];
  fleet = (7, worn) ∷ [];
  routes = [];
  loans = [];
  tier_config = [];
}

abbrev pub opening : ℕ → ℤ
opening user = pos 10_000

-- Every call succeeds.
abbrev calm : World ℤ ℕ
calm = record { db = small; calls = [] }

-- The insert into the ledger fails: the sixth call.
abbrev stormy : World ℤ ℕ
stormy = record { db = small; calls = true ∷ true ∷ true ∷ true ∷ true ∷ false ∷ [] }

repaired : lookup 1 (repair 1 7 calm).1.db.balances ≡ some (pos 9_500)
unfolding repair repair_tx repair_checked repair_for with_tx finish statement pool_query apply_tx
    update_balance insert_entry balance_of restore_aircraft owned_aircraft aircraft_with_model
    repair_cost_for less_than round2 fixed_mul fixed_div fixed_round ◌-ℤ◌ ◌+ℤ◌
repaired = refl

rolled_back :
    ((repair 1 7 stormy).0
      ≡ record { success = false; message = text "ledger debit failed"; new_cash = pos 1_000_000 })
    × ((repair 1 7 stormy).1.db ≡ small)
unfolding repair repair_tx repair_checked repair_for with_tx finish statement pool_query apply_tx
    update_balance insert_entry balance_of restore_aircraft owned_aircraft aircraft_with_model
    repair_cost_for less_than round2 fixed_mul fixed_div fixed_round ◌-ℤ◌ ◌+ℤ◌
rolled_back = (refl, refl)

small-IsBalanced : IsBalanced opening small
unfolding IsBalanced balance_of total ◌+ℤ◌
small-IsBalanced user b h = ground (arith, h, nat_eq.equal_iff 1 user)

small-IsSolvent : IsSolvent small
unfolding IsSolvent balance_of
small-IsSolvent user b h = ground (arith, h, nat_eq.equal_iff 1 user)

repair-atomic_example :
    ((repair 1 7 stormy).1.db ≡ small)
    ⊎ Repairs 1 7 (repair 1 7 stormy).0 small (repair 1 7 stormy).1.db
repair-atomic_example = repair-atomic 1 7 stormy

sell-atomic_example : Outcome (IsCalm []) 1 7 (sell 1 7 calm).0 small (sell 1 7 calm).1.db
sell-atomic_example = sell-atomic 1 7 calm

with_tx-commits_example :
    ((with_tx (repair_tx 1 7) calm).1.db ≡ small)
    ⊎ ((r : MutationResult ℤ) × ((with_tx (repair_tx 1 7) calm).0 ≡ returned r)
        × Repairs 1 7 r small (with_tx (repair_tx 1 7) calm).1.db)
with_tx-commits_example = with_tx-commits (Repairs 1 7) (repair_tx 1 7) (Triple-repair_tx 1 7) calm

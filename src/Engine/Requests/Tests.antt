-- ===== src/Engine/Requests/Tests.antt =====
-- A day of requests on a small database (apps/api/internal/engine/fleet.go and routes.go), and the
-- theorems there.
use skyward.Base.{
  ℕ, ◌≡◌, ◌⊎◌, refl, true, false, Option, none, some, List, [], ◌∷◌, String, nat_eq, arith,
}
use skyward.Base.Int.{ℤ, pos, negsuc, ◌+ℤ◌, ◌-ℤ◌}
use skyward.Base.Dict.{lookup}
use skyward.Float.Fixed.{
  fixed, fixed-IsArithmetic, fixed_mul, fixed_div, fixed_round, fixed_of_int, fixed_to_int,
}
use skyward.Economy.Money.{less_than, round2}
use skyward.Economy.Credit.{credit_tier_rank}
use skyward.Engine.Fleet.{MutationResult, validate_seats, slots}
use skyward.Engine.Fleet.Tail.{attempts, generate_tail_number, try_tails, tail_taken}
use skyward.Engine.Fleet.TierGate.{check_tier_gate}
use skyward.Engine.Fleet.Purchase.Acquired.{purchase_tx, insert_aircraft}
use skyward.Engine.Routes.Assign.Checks.{
  assign_tx, assign_checked, assign_free, safety_threshold, flies_elsewhere,
}
use skyward.Engine.Db.{
  Loan, owed, Db, Model, User, Route, RouteStatus, aircraft_with_model, owned_aircraft,
}
use skyward.Engine.Tx.{returned, World, with_tx, finish, statement, pool_query}
use skyward.Engine.Ledger.{apply_tx, update_balance, insert_entry, balance_of}
use skyward.Engine.Ledger.Laws.{IsBalanced, IsSolvent, total}
use skyward.Engine.Tx.Laws.{IsCalm}
use skyward.Engine.Service.{proceed, serve, query, execute, transact}
use skyward.Engine.Service.Answers.{Answers}
use skyward.Engine.Fleet.Tests.{platform, platform-IsSigned, opening}
use skyward.Engine.Fleet.Purchase.{
  PurchaseParams, seats_fit, buy, purchase_funded, purchase_aircraft, lease_aircraft,
}
use skyward.Engine.Fleet.Purchase.Deal.{Buys, purchase_aircraft-atomic}
use skyward.Engine.Fleet.Purchase.Leasing.{Leases, lease_aircraft-atomic}
use skyward.Engine.Fleet.Configure.{Configures, configure_seats, configure_seats-Answers}
use skyward.Engine.Routes.{
  Geometry, CreateRouteParams, create, create_between, create_unique, is_invalid, is_off, haversine,
  duplicate_row, insert_route, update_route, route_of, ceil, calc_max_weekly_flights, delete,
  update_freq_price, set_schedule_of, set_schedule,
}
use skyward.Engine.Routes.Rows.{IsSound, IsLinked, IsExclusive, IsTimetabled, IsDistinct}
use skyward.Engine.Routes.Changes.{Creates, Closes, create-Answers, delete-Answers}
use skyward.Engine.Routes.Reopening.{reopen_refused}
use skyward.Engine.Fleet.Tail.Search.{Found, generate_tail_number-first}
use skyward.Engine.Routes.Assign.{assign, assign_found, assign_within}
use skyward.Engine.Requests.{
  Request, buy_aircraft, assign_aircraft, open_route, set_timetable, pay_back, handle, handle_all,
}
use skyward.Engine.Bank.{repay, repay_tx, repay_loan, repay_with, pay_loan, settle, active_loan}
use skyward.Engine.Bank.Refinance.{refinance}
use skyward.Engine.Bank.Refinance.Terms.{Refinances, refinance-atomic}
use skyward.Engine.Bank.Repayment.{Repays, repay-atomic}
use skyward.Engine.Requests.Kept.{IsOrderly}
use skyward.Engine.Requests.Keeps.{handle_all-IsOrderly}

-- Every pair of places is 499 km apart.
instance abbrev flat : Geometry ℤ
flat = record {
  sin = λ x. x;
  cos = λ x. x;
  asin = λ x. pos 392;
  sqrt = λ x. x;
  abs = λ x. elim x [ pos n ↦ pos n | negsuc n ↦ pos n ];
  pi = pos 31_416;
}

abbrev turboprop : Model ℤ
turboprop = record {
  model_name = "ATR72";
  purchase_price = pos 500_000;
  lease_price_per_month = pos 10_000;
  capacity = pos 70;
  min_credit_tier = "Standard";
  range_km = pos 1_500;
  speed_kmh = pos 500;
  turnaround_hours = none;
}

abbrev player : User ℤ ℕ
player = record {
  game_current_time = 5;
  actor_type = none;
  hq_airport_iata = some "PK";
  auto_grounding_threshold = none;
}

abbrev debt : Loan ℤ
debt = record {
  borrower = 1;
  loan_type = "unsecured";
  interest_rate = pos 800;
  remaining_balance = pos 3_000;
  weekly_payment = pos 100;
  monthly_payment = some (pos 433);
  loan_status = owed;
  collateral_aircraft_id = none;
}

-- User 1 has 100 in cash, owes 30, and has neither aircraft nor routes.
abbrev start : Db ℤ ℕ
start = record {
  balances = (1, pos 10_000) ∷ [];
  entries = [];
  users = (1, player) ∷ [];
  credit_tiers = [];
  config = [];
  airports = ("CGK", (pos 0, pos 0)) ∷ ("SUB", (pos 10_000, pos 10_000)) ∷ [];
  models = (3, turboprop) ∷ [];
  fleet = [];
  routes = [];
  loans = (9, debt) ∷ [];
  tier_config = [];
}

abbrev calm : World ℤ ℕ
calm = record { db = start; calls = [] }

-- The third call fails.
abbrev rough : World ℤ ℕ
rough = record { db = start; calls = true ∷ true ∷ false ∷ [] }

abbrev letters : ℕ → String
letters i = "ABC"

abbrev cabin : PurchaseParams
cabin = record {
  model_id = 3;
  economy_seats = none;
  business_seats = pos 0;
  first_class_seats = pos 0;
}

abbrev shuttle : CreateRouteParams ℤ
shuttle = record {
  origin = "CGK";
  destination = "SUB";
  distance = pos 5_000_000;
  price = pos 900_000;
  flights = pos 14;
}

abbrev day : List (ℕ × Request ℤ)
day =
    (1, buy_aircraft letters 7 cabin)
    ∷ (1, open_route 4 shuttle)
    ∷ (1, assign_aircraft 4 (some 7))
    ∷ (1, set_timetable 4 (pos 0) (pos 21))
    ∷ (1, pay_back 9 (some (pos 100_000)))
    ∷ []

abbrev evening : Db ℤ ℕ
evening = (handle_all day calm).db

flown_by_evening :
    (lookup 4 evening.routes
      ≡ some (record {
        user_id = 1;
        origin_iata = "CGK";
        destination_iata = "SUB";
        distance_km = pos 5_000_000;
        ticket_price = pos 9_000;
        flights_per_week = pos 21;
        route_status = RouteStatus.flown;
        assigned_aircraft_id = some 7;
      }))
    × (lookup 9 evening.loans ≡ some (record debt { remaining_balance = pos 2_000 }))
    × (balance_of 1 evening ≡ some (pos 4_000))
unfolding handle_all handle repay repay_tx repay_loan repay_with pay_loan settle active_loan serve
    query execute transact purchase_aircraft purchase_funded buy check_tier_gate credit_tier_rank
    generate_tail_number try_tails tail_taken seats_fit validate_seats slots less_than round2
    with_tx finish statement pool_query purchase_tx apply_tx update_balance insert_entry balance_of
    insert_aircraft create create_between create_unique is_invalid is_off haversine duplicate_row
    insert_route assign assign_found assign_within assign_tx assign_checked assign_free
    safety_threshold flies_elsewhere update_route route_of ceil calc_max_weekly_flights
    update_freq_price set_schedule_of set_schedule aircraft_with_model owned_aircraft fixed_mul
    fixed_div fixed_round fixed_of_int fixed_to_int ◌-ℤ◌ ◌+ℤ◌
flown_by_evening = (refl, refl, refl)

start-IsSound : IsSound start
unfolding IsLinked IsExclusive IsTimetabled IsDistinct
start-IsSound = record {
  linked = λ k r a h. absurd (ground (arith, h));
  exclusive = λ j k r s a h. absurd (ground (arith, h));
  timetabled = λ k r h. absurd (ground (arith, h));
  distinct = λ j k r s h. absurd (ground (arith, h));
}

start-IsOrderly : IsOrderly opening start
unfolding IsBalanced IsSolvent balance_of total ◌+ℤ◌
start-IsOrderly = record {
  balanced = λ user b h. ground (arith, h, nat_eq.equal_iff 1 user);
  solvent = λ user b h. ground (arith, h, nat_eq.equal_iff 1 user);
  routes = start-IsSound;
}

handle_all-IsOrderly_example : IsOrderly opening evening
handle_all-IsOrderly_example =
    handle_all-IsOrderly fixed-IsArithmetic platform-IsSigned opening day calm start-IsOrderly

purchase_aircraft-atomic_example :
    let out = serve (purchase_aircraft letters 1 7 cabin) rough in
    (out.1.db ≡ start) ⊎ Buys 1 7 cabin start out.1.db
purchase_aircraft-atomic_example = purchase_aircraft-atomic letters 1 7 cabin rough

lease_aircraft-atomic_example :
    let out = serve (lease_aircraft letters 1 7 cabin) calm in
    (out.1.db ≡ start) ⊎ Leases (IsCalm []) 1 7 cabin start out.1.db
lease_aircraft-atomic_example = lease_aircraft-atomic letters 1 7 cabin calm

configure_seats-Answers_example :
    let out =
      serve (configure_seats 1 7 (pos 40) (pos 10) (pos 3)) (record { db = evening; calls = [] }) in
    Answers (Configures 1 7 (pos 40) (pos 10) (pos 3)) out.0 evening out.1.db
configure_seats-Answers_example =
    configure_seats-Answers 1 7 (pos 40) (pos 10) (pos 3) (record { db = evening; calls = [] })

create-Answers_example :
    let out = serve (create 1 4 shuttle) calm in Answers (Creates 1 4 shuttle) out.0 start out.1.db
create-Answers_example = create-Answers 1 4 shuttle calm

delete-Answers_example :
    let out = serve (delete 1 4) (record { db = evening; calls = [] }) in
    Answers (Closes 1 4) out.0 evening out.1.db
delete-Answers_example = delete-Answers 1 4 (record { db = evening; calls = [] })

abbrev shuttle_row : Route ℤ
shuttle_row = record {
  user_id = 1;
  origin_iata = "CGK";
  destination_iata = "SUB";
  distance_km = pos 5_000_000;
  ticket_price = pos 9_000;
  flights_per_week = pos 14;
  route_status = RouteStatus.flown;
  assigned_aircraft_id = none;
}

abbrev with_shuttle : World ℤ ℕ
with_shuttle = record { db = record start { routes = (4, shuttle_row) ∷ [] }; calls = [] }

reopen_refused_example :
    let closed = (serve (delete 1 4) with_shuttle).1 in
    let out = serve (create 1 5 shuttle) closed in (out.0.success ≡ false) × (out.1.db ≡ closed.db)
unfolding route_of
reopen_refused_example = reopen_refused 1 5 4 shuttle shuttle_row with_shuttle refl refl refl

generate_tail_number-first_example :
    (t : Option String) × (generate_tail_number {R = ℕ} letters "PK" calm ≡ (proceed t, calm))
    × Found letters start "PK" 0 attempts t
generate_tail_number-first_example = generate_tail_number-first ℕ letters start "PK"

repay-atomic_example :
    ((repay 1 9 (some (pos 100_000)) rough).1.db ≡ start)
    ⊎ ((r : MutationResult ℤ) × ((repay 1 9 (some (pos 100_000)) rough).0 ≡ returned r)
        × Repays 1 9 (some (pos 100_000)) r start (repay 1 9 (some (pos 100_000)) rough).1.db)
repay-atomic_example = repay-atomic 1 9 (some (pos 100_000)) rough

refinance-atomic_example :
    ((refinance 1 9 calm).1.db ≡ start)
    ⊎ ((r : MutationResult ℤ) × ((refinance 1 9 calm).0 ≡ returned r)
        × Refinances (IsCalm []) 1 9 r start (refinance 1 9 calm).1.db)
refinance-atomic_example = refinance-atomic 1 9 calm

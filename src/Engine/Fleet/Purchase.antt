-- ===== src/Engine/Fleet/Purchase.antt =====
-- Buying and leasing: Purchase and Lease (apps/api/internal/engine/fleet.go). The nickname, which only
-- the player sees, is left out. The id of the new row, which the database draws, is an argument.
pub mod Acquired
pub mod Outcome
pub mod Deal
pub mod Leasing
use skyward.Base.{
  ℕ, Bool, true, false, not, ◌==◌, ◌||◌, Option, none, some, List, [], ◌∷◌, String, nat_eq,
  string_eq, if◌then◌else◌,
}
use skyward.Base.Int.{ℤ}
use skyward.Base.Dict.{Dict, lookup, insert, any_row}
use skyward.Float.{Float, whole}
use skyward.Economy.Money.{less_than, calc_lease_deposit}
use skyward.Engine.Db.{Db, Platform, Aircraft, Model, Acquisition, purchase, lease, active}
use skyward.Engine.Tx.{
  Reply, ok, no_rows, failed, Result, returned, err, reject, done, Verdict, or_zero,
  tx_failure_message,
}
use skyward.Engine.Ledger.{balance_of}
use skyward.Engine.Service.{Service, give, answer, query, transact, or_answer, ◌>>=◌}
use skyward.Engine.Fleet.{Message, text, about, MutationResult, validate_seats, clock_of, cash_of}
use skyward.Engine.Fleet.Tail.{generate_tail_number, has_tail}
use skyward.Engine.Fleet.TierGate.{check_tier_gate}
use skyward.Engine.Fleet.Purchase.Acquired.{purchase_tx, lease_tx}

-- PurchaseParams and LeaseParams
pub record PurchaseParams : Type 0 where
  pub model_id : ℕ
  pub economy_seats : Option ℤ
  pub business_seats : ℤ
  pub first_class_seats : ℤ

-- The economy seats that were asked for, or the capacity; `int(econ)` and `int(capacity)` pass
-- through float64.
abbrev pub economy_of : {F : Type 0} ⦃num : Float F⦄ → PurchaseParams → Model F → ℤ
economy_of ⦃num⦄ params m = elim params.economy_seats [
  | none ↦ num.to_int (num.of_int m.capacity)
  | some seats ↦ num.to_int (num.of_int seats)
]

unfoldable pub seats_fit : {F : Type 0} ⦃num : Float F⦄ → PurchaseParams → Model F → Bool
seats_fit ⦃num⦄ params m =
    validate_seats (economy_of params m) params.business_seats params.first_class_seats
      (num.to_int (num.of_int m.capacity))

abbrev pub no_deal : {F : Type 0} → Message F → F → MutationResult F
no_deal message cash = record { success = false; message = message; new_cash = cash }

abbrev pub bought_answer : {F : Type 0} → F → Result (MutationResult F) → MutationResult F
bought_answer cash (returned r) = r
bought_answer cash (err e) = no_deal (text (tx_failure_message e)) cash

-- The deposit, by the configured share of it.
abbrev pub deposit_of : {F : Type 0} ⦃num : Float F⦄ → Model F → Reply F → F
deposit_of ⦃num⦄ m share =
    calc_lease_deposit m.purchase_price m.lease_price_per_month (or_zero share (num.decimal 10 2))

-- deref
abbrev pub deref : Option String → String → String
deref none d = d
deref (some s) d = if s == "" then d else s

abbrev pub hq_of : {F Time : Type 0} → ℕ → Db F Time → Option (Option String)
hq_of user db = elim (lookup user db.users) [ none ↦ none | some u ↦ some u.hq_airport_iata ]

abbrev pub base_share : {F Time : Type 0} → Db F Time → Option F
base_share db = lookup "base_lease_deposit_percentage" db.config

abbrev pub model_row : {F Time : Type 0} → ℕ → Db F Time → Option (Model F)
model_row id db = lookup id db.models

module _ {F Time R : Type 0} where
  -- if msg != "" { return r }
  abbrev pub unless_message : Option (Message F) → (Message F → R) → Service F Time R ℕ
  unless_message none r = give 0
  unless_message (some message) r = answer (r message)

  abbrev pub or_give_up : Option String → R → Service F Time R String
  or_give_up none r = answer r
  or_give_up (some tail) r = give tail

module _ {F Time : Type 0} ⦃num : Float F⦄ where
  abbrev pub new_aircraft : Acquisition → ℕ → PurchaseParams → Model F → String → Aircraft F Time
  new_aircraft acquisition user params m tail = record {
    owner = user;
    model = params.model_id;
    tail_number = some tail;
    acquisition_type = acquisition;
    acquired_game_date = none;
    condition = whole 100;
    status = active;
    economy_seats = economy_of params m;
    business_seats = params.business_seats;
    first_class_seats = params.first_class_seats;
  }

module _ {F Time : Type 0} ⦃num : Float F⦄ ⦃p : Platform F Time⦄ where
  -- The game time, the tail number and the transaction, for a user who has the price.
  unfoldable pub buy :
      (ℕ → String) → ℕ → ℕ → PurchaseParams → Model F → F → Service F Time (MutationResult F) ⊥
  buy draws user id params m cash = do
    clock ← query (clock_of user)
    game_time ← or_answer clock (no_deal (text "User not found.") (whole 0))
    hq ← query (hq_of user)
    drawn ← generate_tail_number draws (deref (or_zero hq none) "CGK")
    tail ← or_give_up drawn (no_deal (text "tail number generation failed") cash)
    result ← transact (
        purchase_tx user id m.purchase_price (new_aircraft purchase user params m tail) game_time
          (m.model_name ∷ tail ∷ []) cash)
    answer (bought_answer cash result)

  -- From the check of the seats on.
  unfoldable pub purchase_funded :
      (ℕ → String) → ℕ → ℕ → PurchaseParams → Model F → Service F Time (MutationResult F) ⊥
  purchase_funded draws user id params m =
      if not (seats_fit params m)
      then answer (no_deal (text "invalid seat configuration for aircraft capacity") (whole 0))
      else do
        balance ← query (balance_of user)
        if less_than (cash_of p.load balance) m.purchase_price
            then answer (
                no_deal (about "Insufficient funds to purchase %s." (m.model_name ∷ []) [])
                  (cash_of p.load balance))
            else buy draws user id params m (cash_of p.load balance)

  unfoldable pub purchase_aircraft :
      (ℕ → String) → ℕ → ℕ → PurchaseParams → Service F Time (MutationResult F) ⊥
  purchase_aircraft draws user id params = do
    row ← query (model_row params.model_id)
    m ← or_answer row (no_deal (text "Aircraft model not found.") (whole 0))
    message ← check_tier_gate user m.min_credit_tier m.model_name
    _ ← unless_message message (λ said. no_deal said (whole 0))
    purchase_funded draws user id params m

  -- The answer of a lease: the cash is read again after the commit.
  unfoldable pub lease_answer :
      ℕ → List String → F → Result (Option (MutationResult F)) → Service F Time (MutationResult F) ⊥
  lease_answer user names cash (err e) = answer (no_deal (text (tx_failure_message e)) cash)
  lease_answer user names cash (returned (some r)) = answer r
  lease_answer user names cash (returned none) = do
    balance ← query (balance_of user)
    answer (record {
      success = true;
      message = about "Successfully leased %s [%s]" names [];
      new_cash = cash_of p.load balance;
    })

  unfoldable pub take_lease :
      (ℕ → String) → ℕ → ℕ → PurchaseParams → Model F → F → F → Service F Time (MutationResult F) ⊥
  take_lease draws user id params m deposit cash = do
    clock ← query (clock_of user)
    game_time ← or_answer clock (no_deal (text "User not found.") (whole 0))
    hq ← query (hq_of user)
    drawn ← generate_tail_number draws (deref (or_zero hq none) "CGK")
    tail ← or_give_up drawn (no_deal (text "tail number generation failed") cash)
    result ←
        transact (lease_tx user id deposit (new_aircraft lease user params m tail) game_time cash)
    lease_answer user (m.model_name ∷ tail ∷ []) cash result

  unfoldable pub lease_funded :
      (ℕ → String) → ℕ → ℕ → PurchaseParams → Model F → Service F Time (MutationResult F) ⊥
  lease_funded draws user id params m =
      if not (seats_fit params m)
      then answer (no_deal (text "invalid seat configuration for aircraft capacity") (whole 0))
      else do
        share ← query base_share
        balance ← query (balance_of user)
        if less_than (cash_of p.load balance) (deposit_of m share)
            then answer (
                no_deal
                  (about "Insufficient funds for lease deposit of %s. Required: $%.2f"
                    (m.model_name ∷ []) (deposit_of m share ∷ []))
                  (cash_of p.load balance))
            else take_lease draws user id params m (deposit_of m share) (cash_of p.load balance)

  unfoldable pub lease_aircraft :
      (ℕ → String) → ℕ → ℕ → PurchaseParams → Service F Time (MutationResult F) ⊥
  lease_aircraft draws user id params = do
    row ← query (model_row params.model_id)
    m ← or_answer row (no_deal (text "Aircraft model not found.") (whole 0))
    message ← check_tier_gate user m.min_credit_tier m.model_name
    _ ← unless_message message (λ said. no_deal said (whole 0))
    lease_funded draws user id params m

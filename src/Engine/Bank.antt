-- ===== src/Engine/Bank.antt =====
-- The bank (BankService of apps/api/internal/engine/bank.go): Repay. The loans' amounts are whole cents
-- (migrations/16_loans_money_scale.sql); the difference of one with a float is PostgreSQL's
-- (`numeric_sub`). Of a failed call only that it failed is kept in the error.
pub mod Repayment
pub mod Refinance
use skyward.Base.{
  ℕ, Bool, true, false, ◌==◌, ◌&&◌, Option, none, some, [], ◌∷◌, String, nat_eq, string_eq,
  if◌then◌else◌,
}
use skyward.Base.Int.{ℤ}
use skyward.Base.Dict.{Dict, lookup, insert}
use skyward.Float.{Float, ◌⊖◌, ◌⩽◌, ◌⋖◌, whole}
use skyward.Economy.Money.{less_than}
use skyward.Engine.Db.{
  Db, Platform, Aircraft, Acquisition, purchase, lease, finance, Loan, LoanStatus, owed, paid_off,
  defaulted, repossessed, owned_aircraft,
}
use skyward.Engine.Tx.{
  Reply, ok, no_rows, failed, fn_error, Verdict, done, reject, error, Result, World, Tx, pure,
  return, statement, pool_query, or_return, or_zero, ◌>>=◌, with_tx,
}
use skyward.Engine.Ledger.{debit, apply_tx, balance_of, read_with}
use skyward.Engine.Fleet.{MutationResult, text, about, with_fleet, clock_of, refused}

abbrev pub is_owed : LoanStatus → Bool
is_owed owed = true
is_owed paid_off = false
is_owed defaulted = false
is_owed repossessed = false

-- moneyEpsilon
abbrev pub money_epsilon : {F : Type 0} ⦃num : Float F⦄ → F
money_epsilon ⦃num⦄ = num.decimal 5 3

-- What is paid: the amount, or all that remains when it is more or none is given.
abbrev pub payment_of : {F : Type 0} ⦃num : Float F⦄ → Option F → F → F
payment_of none remaining = remaining
payment_of (some amount) remaining = if amount ⋖ remaining then amount else remaining

-- GREATEST(0, …)
abbrev pub not_below_zero : {F : Type 0} ⦃num : Float F⦄ → F → F
not_below_zero a = if whole 0 ⋖ a then a else whole 0

-- The row with what is left of it, in cents.
abbrev pub paid : {F : Type 0} → ℤ → Bool → Loan F → Loan F
paid left off l = record l {
  remaining_balance = left;
  loan_status = if off then paid_off else l.loan_status;
}

abbrev pub repaid : {F : Type 0} → Bool → F → MutationResult F
repaid off new_cash = record {
  success = true;
  message = text (if off then "Loan fully repaid!" else "Payment applied.");
  new_cash = new_cash;
}

-- A payment that ends a loan of an aircraft, by what remained of it.
abbrev pub is_ended : {F : Type 0} ⦃num : Float F⦄ → Loan F → F → F → Bool
is_ended l remaining payment =
    (remaining ⊖ payment ⩽ money_epsilon) && (l.loan_type == "aircraft_financing")

abbrev pub is_finance : Acquisition → Bool
is_finance purchase = false
is_finance lease = false
is_finance finance = true

abbrev pub owned_now : {F Time : Type 0} → Aircraft F Time → Aircraft F Time
owned_now a = if is_finance a.acquisition_type then record a { acquisition_type = purchase } else a

module _ {F Time : Type 0} where
  abbrev pub with_loans : Dict ℕ (Loan F) → Db F Time → Db F Time
  with_loans loans db = record db { loans = loans }

  -- SELECT … FROM loans WHERE id = … AND user_id = … AND status = 'active' FOR UPDATE
  unfoldable pub active_loan : ℕ → ℕ → Db F Time → Option (Loan F)
  active_loan user id db = elim (lookup id db.loans) [
    | none ↦ none
    | some l ↦ if (l.borrower == user) && is_owed l.loan_status then some l else none
  ]

  -- UPDATE fleet_aircraft SET acquisition_type = 'purchase' WHERE … AND acquisition_type = 'finance'
  unfoldable pub release_collateral : ℕ → ℕ → Db F Time → Option (ℕ × Db F Time)
  release_collateral user id db = elim (owned_aircraft user id db) [
    | none ↦ some (0, db)
    | some a ↦ some (1, with_fleet (insert id (owned_now a) db.fleet) db)
  ]

module _ {F Time : Type 0} ⦃num : Float F⦄ ⦃p : Platform F Time⦄ where
  -- UPDATE loans SET remaining_balance = GREATEST(0, …), status = CASE … WHERE id = …
  unfoldable pub pay_loan : ℕ → F → Db F Time → Option (ℕ × Db F Time)
  pay_loan id payment db = elim (lookup id db.loans) [
    | none ↦ some (0, db)
    | some l ↦
        let left = p.numeric_sub l.remaining_balance payment in
        let row = paid (p.store (not_below_zero left)) (left ⩽ money_epsilon) l in
        some (1, with_loans (insert id row db.loans) db)
  ]

  -- No row is a refusal, a failure an error.
  abbrev pub loan_or : {R : Type 0} → Verdict R → String → Reply (Loan F) → Tx F Time R (Loan F)
  loan_or v message (ok l) = pure l
  loan_or v message no_rows = return v
  loan_or v message failed = return (error (fn_error message))

  -- The collateral of a loan that is paid off; the error of its update is not looked at.
  unfoldable pub settle : ℕ → Bool → Option ℕ → MutationResult F → Tx F Time (MutationResult F) ⊥
  settle user true (some aircraft) r =
      statement (release_collateral user aircraft) >>= λ updated. return (done r)
  settle user true none r = return (done r)
  settle user false aircraft r = return (done r)

  -- The money and the loan's row.
  unfoldable pub repay_with : ℕ → ℕ → Loan F → F → Tx F Time (MutationResult F) ⊥
  repay_with user id l payment = do
    clock ← pool_query (clock_of user)
    debited ← apply_tx debit user payment "financing" "loan_repayment" (or_zero clock p.zero_time)
    new_cash ← or_return debited (error (fn_error "repay: ledger debit"))
    updated ← statement (pay_loan id payment)
    _ ← or_return updated (error (fn_error "repay: update loan"))
    settle user (is_ended l (p.load l.remaining_balance) payment) l.collateral_aircraft_id
        (repaid (p.load l.remaining_balance ⊖ payment ⩽ money_epsilon) new_cash)

  -- From the check of the payment on.
  unfoldable pub repay_loan : ℕ → ℕ → Loan F → F → Tx F Time (MutationResult F) ⊥
  repay_loan user id l payment =
      if payment ⩽ whole 0
      then return (refused "Payment amount must be positive." (whole 0))
      else do
        balance ← statement (read_with (balance_of user))
        cash ← or_return balance (error (fn_error "repay: load balance"))
        if less_than (p.load cash) payment
            then return (
                reject (record {
                  success = false;
                  message =
                      about "Insufficient cash. Need $%.2f, have $%.2f." []
                        (payment ∷ p.load cash ∷ []);
                  new_cash = p.load cash;
                }))
            else repay_with user id l payment

  unfoldable pub repay_tx : ℕ → ℕ → Option F → Tx F Time (MutationResult F) ⊥
  repay_tx user id amount = do
    row ← statement (read_with (active_loan user id))
    l ← loan_or (refused "Loan not found or already paid off." (whole 0)) "repay: load loan" row
    repay_loan user id l (payment_of amount (p.load l.remaining_balance))

  unfoldable pub repay : ℕ → ℕ → Option F → World F Time → Result (MutationResult F) × World F Time
  repay user id amount = with_tx (repay_tx user id amount)

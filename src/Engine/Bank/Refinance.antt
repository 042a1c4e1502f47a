-- ===== src/Engine/Bank/Refinance.antt =====
-- The bank's refinancing: Refinance, tierRate and ceilDiv (apps/api/internal/engine/bank.go).
pub mod Terms
use skyward.Base.{
  ℕ, Bool, true, false, ◌==◌, ◌||◌, Option, none, some, [], ◌∷◌, String, nat_eq, string_eq,
  if◌then◌else◌,
}
use Prim.Native.String.{◌++◌}
use skyward.Base.Int.{ℤ}
use skyward.Base.Dict.{lookup, insert}
use skyward.Float.{Float, ◌⊕◌, ◌⊖◌, ◌⊗◌, ◌⊘◌, ◌⩽◌, ◌⋖◌, whole}
use skyward.Economy.Money.{maxf}
use skyward.Engine.Db.{Db, Platform, Loan}
use skyward.Engine.Tx.{
  Reply, ok, no_rows, failed, fn_error, Verdict, done, reject, error, Result, World, Tx, pure,
  return, statement, pool_query, or_return, or_zero, ◌>>=◌, with_tx,
}
use skyward.Engine.Ledger.{read_with}
use skyward.Engine.Fleet.{MutationResult, about, refused}
use skyward.Engine.Fleet.TierGate.{tier_row}
use skyward.Engine.Bank.{active_loan, with_loans, loan_or}

-- The number at a path of the tiers' configuration; its row, or the number, may be missing.
unfoldable pub tier_rate : {F Time : Type 0} → String → String → Db F Time → Option F
tier_rate tier field db = lookup ("{" ++ tier ++ "," ++ field ++ "}") db.tier_config

unfoldable pub ceil_div : {F : Type 0} ⦃num : Float F⦄ → F → F → F
ceil_div ⦃num⦄ a b =
    let c = a ⊘ b in let f = num.of_int (num.to_int c) in if f ⋖ c then f ⊕ whole 1 else f

-- The payments that are left, by the month or, without monthly payments, by the week.
unfoldable pub periods_of : {F : Type 0} ⦃num : Float F⦄ → F → F → F → F
periods_of remaining weekly monthly =
    if whole 0 ⋖ monthly
    then maxf (whole 1) (ceil_div remaining monthly)
    else if whole 0 ⋖ weekly
    then maxf (whole 1) (ceil_div remaining weekly)
    else whole 1

-- What is owed at the new rate.
unfoldable pub new_total : {F : Type 0} ⦃num : Float F⦄ → F → F → F → F
new_total remaining rate new_rate = remaining ⊘ (whole 1 ⊕ rate) ⊗ (whole 1 ⊕ new_rate)

-- The same of a loan with these monthly payments, by its amounts as floats.
unfoldable pub periods_left : {F : Type 0} ⦃num : Float F⦄ → (ℤ → F) → Loan F → ℤ → F
periods_left load l monthly =
    periods_of (load l.remaining_balance) (load l.weekly_payment) (load monthly)

unfoldable pub total_at : {F : Type 0} ⦃num : Float F⦄ → (ℤ → F) → Loan F → F → F
total_at load l new_rate = new_total (load l.remaining_balance) l.interest_rate new_rate

-- The row at the new rate, with its amounts stored in cents.
unfoldable pub refinanced :
    {F : Type 0} ⦃num : Float F⦄ → (F → ℤ) → (ℤ → F) → Loan F → ℤ → F → Loan F
refinanced ⦃num⦄ store load l monthly new_rate =
    let new_monthly = total_at load l new_rate ⊘ periods_left load l monthly in
    record l {
      interest_rate = new_rate;
      remaining_balance = store (total_at load l new_rate);
      weekly_payment = store (new_monthly ⊘ num.decimal 433 2);
      monthly_payment = some (store new_monthly);
    }

abbrev pub is_secured : {F : Type 0} → Loan F → Bool
is_secured l = (l.loan_type == "secured") || (l.loan_type == "aircraft_financing")

abbrev pub rate_field : {F : Type 0} → Loan F → String
rate_field l = if is_secured l then "rate_secured" else "rate_unsecured"

abbrev pub rate_fallback : {F : Type 0} ⦃num : Float F⦄ → Loan F → F
rate_fallback ⦃num⦄ l = if is_secured l then num.decimal 6 2 else num.decimal 7 2

-- The tier, Standard when there is no row or an empty one.
abbrev pub tier_or : {F Time R : Type 0} → Reply String → Tx F Time R String
tier_or (ok tier) = pure (if tier == "" then "Standard" else tier)
tier_or no_rows = pure "Standard"
tier_or failed = return (error (fn_error "refinance: load credit tier"))

-- A column that may be null, where the scan of a null into a float64 is an error.
abbrev pub scanned : {F Time R : Type 0} → Option ℤ → String → Tx F Time R ℤ
scanned none message = return (error (fn_error message))
scanned (some cents) message = pure cents

-- The columns that the update writes.
abbrev pub refinanced_as : {F : Type 0} → Loan F → Loan F → Loan F
refinanced_as new l = record l {
  interest_rate = new.interest_rate;
  remaining_balance = new.remaining_balance;
  weekly_payment = new.weekly_payment;
  monthly_payment = new.monthly_payment;
}

module _ {F Time : Type 0} where
  -- UPDATE loans SET … WHERE id = … AND user_id = …
  unfoldable pub update_loan : ℕ → ℕ → (Loan F → Loan F) → Db F Time → Option (ℕ × Db F Time)
  update_loan user id change db = elim (lookup id db.loans) [
    | none ↦ some (0, db)
    | some l ↦
        if l.borrower == user
        then some (1, with_loans (insert id (change l) db.loans) db)
        else some (0, db)
  ]

module _ {F Time : Type 0} ⦃num : Float F⦄ ⦃p : Platform F Time⦄ where
  -- The row of the loan `l` as it was read is replaced by its values at the new rate.
  unfoldable pub refinance_at : ℕ → ℕ → Loan F → ℤ → F → Tx F Time (MutationResult F) ⊥
  refinance_at user id l monthly new_rate =
      if l.interest_rate ⩽ new_rate
      then return (refused "Current rate is not better than existing rate." (whole 0))
      else do
        updated ←
            statement
              (update_loan user id (refinanced_as (refinanced p.store p.load l monthly new_rate)))
        _ ← or_return updated (error (fn_error "refinance: update loan"))
        return (
            done (record {
              success = true;
              message =
                  about "Loan refinanced successfully (savings $%.2f)." []
                    (maxf (whole 0) (p.load l.remaining_balance ⊖ total_at p.load l new_rate) ∷ []);
              new_cash = whole 0;
            }))

  unfoldable pub refinance_tx : ℕ → ℕ → Tx F Time (MutationResult F) ⊥
  refinance_tx user id = do
    row ← statement (read_with (active_loan user id))
    l ← loan_or (refused "Loan not found or not active." (whole 0)) "refinance: load loan" row
    monthly ← scanned l.monthly_payment "refinance: load loan"
    stored ← pool_query (tier_row user)
    tier ← tier_or stored
    rate ← pool_query (tier_rate tier (rate_field l))
    refinance_at user id l monthly (or_zero rate (rate_fallback l))

  unfoldable pub refinance : ℕ → ℕ → World F Time → Result (MutationResult F) × World F Time
  refinance user id = with_tx (refinance_tx user id)

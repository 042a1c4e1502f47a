-- ===== src/Engine/Bank/Refinance/Terms.antt =====
-- What Refinance commits (apps/api/internal/engine/bank.go).
use skyward.Base.{
  ℕ, ◌≡◌, refl, sym, ap, ◌∙◌, subst, false, ◌==◌, Option, none, some, ◌||◌, if◌then◌else◌, String,
  nat_eq, string_eq, arith, Bool-cases, Option-cases, ◌⊎◌, inl, inr,
}
use skyward.Base.Int.{ℤ}
use skyward.Base.Dict.{lookup, insert}
use Prim.Native.String.{◌++◌}
use skyward.Float.{Float, ◌⩽◌, ◌⊕◌, ◌⊗◌, ◌⊘◌, whole}
use skyward.Engine.Db.{Db, Platform, Loan}
use skyward.Engine.Tx.{Reply, ok, no_rows, failed, returned, World, or_zero}
use skyward.Engine.Tx.Laws.{
  Contract, TripleIf, IsCalm, Read, Replies, Triple-bind, Triple-statement, Triple-or_return,
  Triple-refuse, Triple-done, Triple-pure, with_tx-commits_if,
}
use skyward.Engine.Ledger.{read_with}
use skyward.Engine.Ledger.Reads.{Triple-ask}
use skyward.Engine.Fleet.{MutationResult, reply_of}
use skyward.Engine.Fleet.TierGate.{tier_row, current_credit_tier}
use skyward.Engine.Bank.{active_loan, with_loans}
use skyward.Engine.Bank.Repayment.{Triple-loan_or}
use skyward.Engine.Bank.Refinance.{
  total_at, new_total, periods_left, periods_of, rate_field, rate_fallback, tier_rate, scanned,
  refinanced, refinanced_as, update_loan, tier_or, refinance_at, refinance_tx, refinance,
}

module _ {F Time : Type 0} ⦃num : Float F⦄ ⦃p : Platform F Time⦄ where
  -- A refinancing in full: the user owes the loan, the rate that is configured for the user's tier and
  -- the loan's type is lower, and the row has its terms. The rate is the fallback when none is configured
  -- or, unless `calm`, its query has failed.
  unfoldable pub Refinances : Type 0 → ℕ → ℕ → MutationResult F → Db F Time → Db F Time → Type 0
  Refinances calm user id r c w =
      (l : Loan F) × (monthly : ℤ) × (rate : Reply F) × let secured =
          (l.loan_type == "secured") || (l.loan_type == "aircraft_financing") in
        let tier = current_credit_tier (reply_of (tier_row user c)) in
        let field = if secured then "rate_secured" else "rate_unsecured" in
        let new_rate = or_zero rate (if secured then num.decimal 6 2 else num.decimal 7 2) in
        let remaining = p.load l.remaining_balance in
        let total = remaining ⊘ (whole 1 ⊕ l.interest_rate) ⊗ (whole 1 ⊕ new_rate) in
        let payment = total ⊘ periods_of remaining (p.load l.weekly_payment) (p.load monthly) in
        (active_loan user id c ≡ some l)
        × (l.monthly_payment ≡ some monthly)
        × Read calm (λ db. lookup ("{" ++ tier ++ "," ++ field ++ "}") db.tier_config) rate c
        × ((l.interest_rate ⩽ new_rate) ≡ false)
        × (w
            ≡ with_loans
                (insert id
                  (record l {
                    interest_rate = new_rate;
                    remaining_balance = p.store total;
                    weekly_payment = p.store (payment ⊘ num.decimal 433 2);
                    monthly_payment = some (p.store payment);
                  })
                  c.loans)
                c)

  update_loan-some :
      (user id n : ℕ) (l : Loan F) (change : Loan F → Loan F) (v w : Db F Time)
      → active_loan user id v ≡ some l
      → update_loan user id change v ≡ some (n, w)
      → w ≡ with_loans (insert id (change l) v.loans) v
  unfolding active_loan update_loan
  update_loan-some user id n l change v w h e = elim (Option-cases (lookup id v.loans)) [
    | inl gone ↦ absurd (ground (arith, h, gone))
    | inr (m, found) ↦ elim (Bool-cases (m.borrower == user)) [
      | inr other ↦ absurd (ground (arith, h, found, other))
      | inl own ↦
          let here : m ≡ l = ground (arith, h, found, own) in
          let written : w ≡ with_loans (insert id (change m) v.loans) v =
            ground (arith, e, found, own) in
          written ∙ ap (λ x. with_loans (insert id (change x) v.loans) v) here
    ]
  ]

  module _ (calm : Type 0) (user id : ℕ) where
    abbrev Terms : Contract F Time (MutationResult F)
    Terms = record { calm = calm; commits = Refinances calm user id }

    Owes : Loan F → Db F Time → Db F Time → Type 0
    Owes l c w = (c ≡ w) × (active_loan user id c ≡ some l)

    Scanned : Loan F → ℤ → Db F Time → Db F Time → Type 0
    Scanned l monthly c w = Owes l c w × (l.monthly_payment ≡ some monthly)

    -- With the tier, and the reply of the query of its rate.
    Tiered : Loan F → ℤ → String → Db F Time → Db F Time → Type 0
    Tiered l monthly tier c w =
        Scanned l monthly c w × (tier ≡ current_credit_tier (reply_of (tier_row user c)))

    Rated : Loan F → ℤ → String → Reply F → Db F Time → Db F Time → Type 0
    Rated l monthly tier rate c w =
        Tiered l monthly tier c w × Read calm (tier_rate tier (rate_field l)) rate c

    Triple-scanned :
        (l : Loan F) (column : Option ℤ) (message : String)
        → l.monthly_payment ≡ column
        → TripleIf Terms (Owes l) (scanned column message) (Scanned l)
    unfolding Scanned
    Triple-scanned l none message e = Triple-refuse _ _ tt
    Triple-scanned l (some cents) message e = Triple-pure _ _ (λ c w h. (h, e))

    Triple-tier_or :
        (l : Loan F) (monthly : ℤ) (reply : Reply String)
        → TripleIf Terms
            (λ c w. Scanned l monthly c w × Read calm (tier_row user) reply c)
            (tier_or reply)
            (Tiered l monthly)
    unfolding Tiered Read current_credit_tier
    Triple-tier_or l monthly (ok tier) = Triple-pure _ _ (λ c w h. (h.0, rw h.1 refl))
    Triple-tier_or l monthly no_rows = Triple-pure _ _ (λ c w h. (h.0, rw h.1 refl))
    Triple-tier_or l monthly failed = Triple-refuse _ _ tt

    written :
        (l : Loan F) (monthly : ℤ) (tier : String) (rate : Reply F) (n : ℕ) (r : MutationResult F)
        (c w : Db F Time)
        → (l.interest_rate ⩽ or_zero rate (rate_fallback l)) ≡ false
        → Replies
            (Refinances calm user id)
            (Rated l monthly tier rate)
            (update_loan user id (
              refinanced_as (refinanced p.store p.load l monthly (or_zero rate (rate_fallback l)))))
            (ok n)
            c
            w
        → Refinances calm user id r c w
    unfolding Replies Owes Scanned Tiered Rated Refinances refinanced total_at new_total
        periods_left tier_rate
    written l monthly tier rate n r c w better (v, ((((same, owing), scan), named), read), row) = (
      l,
      monthly,
      rate,
      (
        owing,
        scan,
        subst (λ x. Read calm (tier_rate x (rate_field l)) rate c) named read,
        better,
        update_loan-some user id n l
            (refinanced_as (refinanced p.store p.load l monthly (or_zero rate (rate_fallback l)))) c
            w owing
            (subst
              (λ x.
                update_loan user id
                  (refinanced_as
                    (refinanced p.store p.load l monthly (or_zero rate (rate_fallback l))))
                  x
                ≡ some (n, w))
              (sym same) row),
      ),
    )

    Triple-refinance_at :
        (l : Loan F) (monthly : ℤ) (tier : String) (rate : Reply F)
        → TripleIf Terms
            (Rated l monthly tier rate)
            (refinance_at user id l monthly (or_zero rate (rate_fallback l)))
            (λ b c w. Unit)
    unfolding refinance_at
    Triple-refinance_at l monthly tier rate =
        elim (Bool-cases (l.interest_rate ⩽ or_zero rate (rate_fallback l))) [
          | inl worse ↦ rw worse (Triple-refuse _ _ tt)
          | inr better ↦ rw better (
              Triple-bind _ _ (Triple-statement _ _) (λ updated.
                Triple-bind _ _
                  (Triple-or_return _
                    (Replies (Refinances calm user id) (Rated l monthly tier rate) (
                      update_loan user id (
                        refinanced_as
                          (refinanced p.store p.load l monthly (or_zero rate (rate_fallback l))))))
                    updated _ tt)
                  (λ n. Triple-done _ _ (λ c w. written l monthly tier rate n _ c w better))))
        ]

    Triple-refinance_tx : TripleIf Terms (λ c w. c ≡ w) (refinance_tx user id) (λ b c w. Unit)
    unfolding refinance_tx Owes Rated
    Triple-refinance_tx =
        Triple-bind _ _ (Triple-statement _ (read_with (active_loan user id))) (λ row.
          Triple-bind _ _ (Triple-loan_or user id _ _ row tt) (λ l.
            Triple-bind _ _ (Triple-scanned l l.monthly_payment _ refl) (λ monthly.
              Triple-ask _ (Scanned l monthly) (λ stored.
                Triple-bind _ _ (Triple-tier_or l monthly stored) (λ tier.
                  Triple-ask _ (Tiered l monthly tier)
                    (λ rate. Triple-refinance_at l monthly tier rate))))))

  -- Whatever calls of the database fail, Refinance leaves every row as it was, or it returns a result
  -- and changes one: a loan that the user owes, with monthly payments in its row, whose rate is now the
  -- lower one that is configured for the user's tier and the loan's type, and whose balance and payments
  -- are, to the cent, those of the new rate over the payments that were left. The rate is the fallback
  -- of its type when none is configured, and it may be when some call fails. No money moves.
  pub refinance-atomic :
      (user id : ℕ) (w : World F Time)
      → ((refinance user id w).1.db ≡ w.db)
        ⊎ ((r : MutationResult F) × ((refinance user id w).0 ≡ returned r)
            × Refinances (IsCalm w.calls) user id r w.db (refinance user id w).1.db)
  unfolding refinance
  refinance-atomic user id w =
      with_tx-commits_if (Terms (IsCalm w.calls) user id) (refinance_tx user id)
        (Triple-refinance_tx (IsCalm w.calls) user id) w (λ calm. calm)

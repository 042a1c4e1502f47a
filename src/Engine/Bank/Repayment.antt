-- ===== src/Engine/Bank/Repayment.antt =====
-- What Repay commits (apps/api/internal/engine/bank.go).
use skyward.Base.{
  String, ℕ, ◌≡◌, refl, sym, ap, ◌∙◌, subst, Bool, true, false, Option, none, some, if◌then◌else◌,
  nat_eq, string_eq, arith, Bool-cases, Option-cases, ◌⊎◌, inl, inr,
}
use skyward.Base.Int.{ℤ}
use skyward.Base.Dict.{lookup, insert}
use skyward.Float.{Float, ◌⩽◌, whole}
use skyward.Economy.Money.{less_than}
use skyward.Engine.Db.{Db, Platform, Aircraft, purchase, Loan, paid_off, owned_aircraft}
use skyward.Engine.Tx.{Reply, ok, no_rows, failed, Verdict, World, returned, or_zero}
use skyward.Engine.Tx.Laws.{
  Contract, TripleIf, Triple, Replies, Refuses, Triple-bind, Triple-statement, Triple-or_return,
  Triple-refuse, Triple-done, Triple-weaken, Triple-pure, with_tx-commits,
}
use skyward.Engine.Ledger.{debit, balance_of, read_with}
use skyward.Engine.Ledger.Laws.{Effect, Effect-loans, Applies, Triple-apply_tx, read_with-same}
use skyward.Engine.Ledger.Reads.{read_with-found, Triple-read, Triple-peek}
use skyward.Engine.Fleet.{MutationResult, with_fleet}
use skyward.Engine.Bank.{
  not_below_zero, money_epsilon, paid, is_finance, with_loans, active_loan, payment_of, pay_loan,
  release_collateral, settle, is_ended, loan_or, repay_with, repay_loan, repay_tx, repay,
}

module _ {F Time : Type 0} ⦃num : Float F⦄ ⦃p : Platform F Time⦄ where
  -- What becomes of the collateral: the update of the row of the aircraft that a loan had financed, when
  -- the payment ends it; otherwise nothing.
  unfoldable pub SettlesBy : ℕ → Bool → Option ℕ → Db F Time → Db F Time → Type 0
  SettlesBy user true (some aircraft) v w =
      ((owned_aircraft user aircraft v ≡ none) × (w ≡ v))
      ⊎ ((a : Aircraft F Time) × (owned_aircraft user aircraft v ≡ some a)
          × (w
              ≡ with_fleet
                  (insert aircraft
                    (if is_finance a.acquisition_type
                      then record a { acquisition_type = purchase }
                      else a)
                    v.fleet)
                  v))
  SettlesBy user true none v w = w ≡ v
  SettlesBy user false aircraft v w = w ≡ v

  unfoldable pub Settles : ℕ → Loan F → F → Db F Time → Db F Time → Type 0
  Settles user l payment =
      SettlesBy user (is_ended l (p.load l.remaining_balance) payment) l.collateral_aircraft_id

  -- A repayment in full: a loan that the user owes, a payment that is positive and no more than what
  -- remains of it or than the cash that was read, its debit with its entry, and the loan's row.
  unfoldable pub Repays : ℕ → ℕ → Option F → MutationResult F → Db F Time → Db F Time → Type 0
  Repays user id amount r c w =
      (l : Loan F) × (cash : ℤ) × (t : Time) × (u : Db F Time) × (v : Db F Time) × (active_loan user
          id c
        ≡ some l)
      × ((payment_of amount (p.load l.remaining_balance) ⩽ whole 0) ≡ false)
      × (balance_of user c ≡ some cash)
      × (less_than (p.load cash) (payment_of amount (p.load l.remaining_balance)) ≡ false)
      × Effect debit user (payment_of amount (p.load l.remaining_balance)) "financing"
          "loan_repayment" t c u
      × (v
          ≡ with_loans
              (insert id
                (record l {
                  remaining_balance = p.store (
                      not_below_zero (
                        p.numeric_sub l.remaining_balance
                          (payment_of amount (p.load l.remaining_balance))));
                  loan_status =
                      if p.numeric_sub l.remaining_balance
                          (payment_of amount (p.load l.remaining_balance))
                        ⩽ money_epsilon
                      then paid_off
                      else l.loan_status;
                })
                u.loans)
              u)
      × Settles user l (payment_of amount (p.load l.remaining_balance)) v w

  active_loan-lookup :
      (user id : ℕ) (l : Loan F) (c : Db F Time)
      → active_loan user id c ≡ some l
      → lookup id c.loans ≡ some l
  unfolding active_loan
  active_loan-lookup user id l c h = elim (Option-cases (lookup id c.loans)) [
    | inl gone ↦ absurd (ground (arith, h, gone))
    | inr (m, found) ↦ ground (arith, h, found)
  ]

  pay_loan-some :
      (id n : ℕ) (payment : F) (l : Loan F) (u v : Db F Time)
      → lookup id u.loans ≡ some l
      → pay_loan id payment u ≡ some (n, v)
      → let left = p.numeric_sub l.remaining_balance payment in
        v
        ≡ with_loans
            (insert id (paid (p.store (not_below_zero left)) (left ⩽ money_epsilon) l) u.loans)
            u
  unfolding pay_loan
  pay_loan-some id n payment l u v found h = ground (arith, h, found)

  release_collateral-SettlesBy :
      (user id n : ℕ) (v w : Db F Time)
      → release_collateral user id v ≡ some (n, w)
      → SettlesBy user true (some id) v w
  unfolding release_collateral SettlesBy
  release_collateral-SettlesBy user id n v w h = elim (Option-cases (owned_aircraft user id v)) [
    | inl gone ↦ inl (gone, ground (arith, h, gone))
    | inr (a, own) ↦ inr (a, own, ground (arith, h, own))
  ]

  never_none : (user id : ℕ) (v : Db F Time) → ¬ (release_collateral user id v ≡ none)
  unfolding release_collateral
  never_none user id v h = elim (Option-cases (owned_aircraft user id v)) [
    | inl n ↦ ground (arith, h, n)
    | inr (a, e) ↦ ground (arith, h, e)
  ]

  -- The loan that a request is about, with the tables as they were.
  pub Triple-loan_or :
      {R : Type 0} {k : Contract F Time R} (user id : ℕ) (v : Verdict R) (message : String)
      (reply : Reply (Loan F))
      → Refuses v
      → TripleIf k
          (Replies k.commits (λ c w. c ≡ w) (read_with (active_loan user id)) reply)
          (loan_or v message reply)
          (λ l c w. (c ≡ w) × (active_loan user id c ≡ some l))
  unfolding Replies
  Triple-loan_or user id v message no_rows refuses = Triple-refuse _ v refuses
  Triple-loan_or user id v message failed refuses = Triple-refuse _ _ tt
  Triple-loan_or user id v message (ok l) refuses = Triple-pure _ l (λ c w (u, same, read). (
    same ∙ sym (read_with-same (active_loan user id) u w l read),
    ap (active_loan user id) same ∙ read_with-found (active_loan user id) l u w read,
  ))

  module _ (user id : ℕ) (amount : Option F) where
    -- The loan and the cash as they were read, while nothing is written.
    Due : Loan F → ℤ → Db F Time → Db F Time → Type 0
    Due l cash c w =
        (c ≡ w)
        × (active_loan user id c ≡ some l)
        × ((payment_of amount (p.load l.remaining_balance) ⩽ whole 0) ≡ false)
        × (balance_of user c ≡ some cash)
        × (less_than (p.load cash) (payment_of amount (p.load l.remaining_balance)) ≡ false)

    -- After the loan's row is written.
    Written : Loan F → ℤ → Time → Db F Time → Db F Time → Type 0
    Written l cash t c v =
        (u : Db F Time) × (n : ℕ) × (active_loan user id c ≡ some l)
        × ((payment_of amount (p.load l.remaining_balance) ⩽ whole 0) ≡ false)
        × (balance_of user c ≡ some cash)
        × (less_than (p.load cash) (payment_of amount (p.load l.remaining_balance)) ≡ false)
        × Effect debit user (payment_of amount (p.load l.remaining_balance)) "financing"
            "loan_repayment" t c u
        × (pay_loan id (payment_of amount (p.load l.remaining_balance)) u ≡ some (n, v))

    repaid_by :
        (l : Loan F) (cash : ℤ) (t : Time) (r : MutationResult F) (c v w : Db F Time)
        → Written l cash t c v
        → Settles user l (payment_of amount (p.load l.remaining_balance)) v w
        → Repays user id amount r c w
    unfolding Repays Written
    repaid_by l cash t r c v w (u, n, a, b, d, e, f, g) s =
        let here =
          ap (lookup id) (Effect-loans debit user _ "financing" "loan_repayment" t c u f)
          ∙ active_loan-lookup user id l c a in
        (l, cash, t, u, v, a, b, d, e, f, pay_loan-some id n _ l u v here g, s)

    released :
        (l : Loan F) (cash : ℤ) (t : Time) (aircraft : ℕ) (r : MutationResult F) (reply : Reply ℕ)
        (c w : Db F Time)
        → is_ended l (p.load l.remaining_balance) (payment_of amount (p.load l.remaining_balance))
          ≡ true
        → l.collateral_aircraft_id ≡ some aircraft
        → Replies
            (Repays user id amount)
            (Written l cash t)
            (release_collateral user aircraft)
            reply
            c
            w
        → Repays user id amount r c w
    unfolding Settles Replies
    released l cash t aircraft r failed c w off lent h = absurd h
    released l cash t aircraft r no_rows c w off lent (h, none_found) =
        absurd (never_none user aircraft w none_found)
    released l cash t aircraft r (ok m) c w off lent (v, h, e) =
        repaid_by l cash t r c v w h
          (rw (off, lent) (release_collateral-SettlesBy user aircraft m v w e))

    Triple-settle :
        (l : Loan F) (cash : ℤ) (t : Time) (off : Bool) (aircraft : Option ℕ) (r : MutationResult F)
        → is_ended l (p.load l.remaining_balance) (payment_of amount (p.load l.remaining_balance))
          ≡ off
        → l.collateral_aircraft_id ≡ aircraft
        → Triple
            (Repays user id amount)
            (Written l cash t)
            (settle user off aircraft r)
            (λ b c w. Unit)
    unfolding settle Settles SettlesBy
    Triple-settle l cash t false aircraft r f g =
        Triple-done _ r (λ c w h. repaid_by l cash t r c w w h (rw f refl))
    Triple-settle l cash t true none r f g =
        Triple-done _ r (λ c w h. repaid_by l cash t r c w w h (rw (f, g) refl))
    Triple-settle l cash t true (some aircraft) r f g =
        Triple-bind _ _ (Triple-statement _ (release_collateral user aircraft))
          (λ reply. Triple-done _ r (λ c w. released l cash t aircraft r reply c w f g))

    Moved : Loan F → ℤ → Time → Reply F → Db F Time → Db F Time → Type 0
    Moved l cash t =
        Applies (Repays user id amount) (Due l cash) debit user
          (payment_of amount (p.load l.remaining_balance)) "financing" "loan_repayment" t

    written :
        (l : Loan F) (cash : ℤ) (t : Time) (new_cash : F) (n : ℕ) (c w : Db F Time)
        → Replies
            (Repays user id amount)
            (Moved l cash t (ok new_cash))
            (pay_loan id (payment_of amount (p.load l.remaining_balance)))
            (ok n)
            c
            w
        → Written l cash t c w
    unfolding Replies Moved Applies Due Written
    written l cash t new_cash n c w (u, (v, (same, a, b, d, e), moved), row) = (
      u,
      n,
      a,
      b,
      d,
      e,
      subst
          (λ x.
            Effect debit user (payment_of amount (p.load l.remaining_balance)) "financing"
              "loan_repayment" t x u)
          (sym same) moved,
      row,
    )

    Triple-repay_with :
        (l : Loan F) (cash : ℤ)
        → Triple
            (Repays user id amount)
            (Due l cash)
            (repay_with user id l (payment_of amount (p.load l.remaining_balance)))
            (λ b c w. Unit)
    unfolding repay_with Moved
    Triple-repay_with l cash = Triple-peek _ _ (λ clock.
        Triple-bind _ _ (Triple-apply_tx _ (Due l cash) debit user _ "financing" "loan_repayment" _)
          (λ debited.
            Triple-bind _ _
              (Triple-or_return _ (Moved l cash (or_zero clock p.zero_time)) debited _ tt)
              (λ new_cash. Triple-bind _ _ (Triple-statement _ (pay_loan id _)) (λ updated.
                Triple-bind _ _
                  (Triple-or_return _
                    (Replies (Repays user id amount)
                      (Moved l cash (or_zero clock p.zero_time) (ok new_cash))
                      (pay_loan id (payment_of amount (p.load l.remaining_balance))))
                    updated _ tt)
                  (λ n.
                    Triple-weaken _ (written l cash (or_zero clock p.zero_time) new_cash n)
                      (Triple-settle l cash (or_zero clock p.zero_time) _ _ _ refl refl))))))

    Triple-repay_loan :
        (l : Loan F)
        → Triple
            (Repays user id amount)
            (λ c w. (c ≡ w) × (active_loan user id c ≡ some l))
            (repay_loan user id l (payment_of amount (p.load l.remaining_balance)))
            (λ b c w. Unit)
    unfolding repay_loan Due
    Triple-repay_loan l =
        elim (Bool-cases (payment_of amount (p.load l.remaining_balance) ⩽ whole 0)) [
          | inl nothing ↦ rw nothing (Triple-refuse _ _ tt)
          | inr positive ↦ rw positive (
              Triple-read _ _ _ tt (λ c w h. h.0)
                (λ cash.
                  elim (Bool-cases
                    (less_than (p.load cash) (payment_of amount (p.load l.remaining_balance)))) [
                      | inl poor ↦ rw poor (Triple-refuse _ _ tt)
                      | inr funded ↦ rw funded (
                          Triple-weaken _ (λ c w h. (h.0.0, h.0.1, positive, h.1, funded))
                            (Triple-repay_with l cash))
                    ]))
        ]

    Triple-repay_tx :
        Triple (Repays user id amount) (λ c w. c ≡ w) (repay_tx user id amount) (λ b c w. Unit)
    unfolding repay_tx
    Triple-repay_tx =
        Triple-bind _ _ (Triple-statement _ (read_with (active_loan user id)))
          (λ row. Triple-bind _ _ (Triple-loan_or user id _ _ row tt) Triple-repay_loan)

    -- Whatever calls of the database fail, Repay leaves every row as it was, or it returns a result and
    -- is done in full: the user owed the loan; the payment, which is the amount or all that remains if
    -- that is less or no amount is given, is positive and was covered at the cent by the cash; it is
    -- debited from the user under an entry of the ledger (a payment that rounds to no cent is not); the
    -- loan's row is reduced by it, to the cent, and paid off when no more than half a cent is left; and
    -- when that ends a loan that financed an aircraft, its collateral, if it is the user's, passes from
    -- financed to bought.
    pub repay-atomic :
        (w : World F Time)
        → ((repay user id amount w).1.db ≡ w.db)
          ⊎ ((r : MutationResult F) × ((repay user id amount w).0 ≡ returned r)
              × Repays user id amount r w.db (repay user id amount w).1.db)
    unfolding repay
    repay-atomic w =
        with_tx-commits (Repays user id amount) (repay_tx user id amount) Triple-repay_tx w

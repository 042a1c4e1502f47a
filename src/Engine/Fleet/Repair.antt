-- ===== src/Engine/Fleet/Repair.antt =====
-- What a repair commits.
use skyward.Base.{
  ℕ, ◌≡◌, some, nat_eq, arith, Option-cases, Bool-cases, ◌∙◌, sym, ◌⊎◌, inl, inr, ap, subst,
}
use skyward.Base.Int.{ℤ}
use skyward.Base.Dict.{lookup, insert}
use skyward.Float.{Float, IsArithmetic, ◌⩽◌, whole}
use skyward.Economy.Money.{less_than, repair_cost_for}
use skyward.Engine.Db.{Db, Platform, IsSigned, Aircraft, Model, owned_aircraft, aircraft_with_model}
use skyward.Engine.Tx.{Reply, ok, World, or_zero}
use skyward.Engine.Tx.Laws.{
  Triple, Replies, PoolReplies-pre, Triple-bind, Triple-statement, Triple-pool_query,
  Triple-or_return, Triple-refuse, Triple-done, Triple-weaken, with_tx-commits,
}
use skyward.Engine.Ledger.{debit, balance_of, read_with}
use skyward.Engine.Ledger.Laws.{
  IsBalanced, IsSolvent, Effect, Effect-IsBalanced, Effect-IsSolvent, Effect-fleet,
  owned_aircraft_same, Applies, Triple-apply_tx, read_with-same,
}
use skyward.Engine.Fleet.{
  MutationResult, with_fleet, restored, restore_aircraft, clock_of, repair_for, repair_checked,
  repair_tx, repair, cash_of,
}

module _ {F Time : Type 0} ⦃num : Float F⦄ ⦃p : Platform F Time⦄ where
  -- A repair in full: the aircraft is the user's, its cost is debited with its entry, and its row is
  -- restored.
  unfoldable pub Repairs : ℕ → ℕ → MutationResult F → Db F Time → Db F Time → Type 0
  Repairs user id r c w =
      (a : Aircraft F Time) × (m : Model F) × (t : Time) × (v : Db F Time) × (aircraft_with_model
          user id c
        ≡ some (a, m))
      × Effect debit user (repair_cost_for a.condition m.purchase_price) "cogs" "maintenance" t c v
      × (w ≡ with_fleet (insert id (restored a) v.fleet) v)

  pub aircraft_with_model-owned :
      (user id : ℕ) (c : Db F Time) (a : Aircraft F Time) (m : Model F)
      → aircraft_with_model user id c ≡ some (a, m)
      → owned_aircraft user id c ≡ some a
  unfolding aircraft_with_model
  aircraft_with_model-owned user id c a m h = elim (Option-cases (owned_aircraft user id c)) [
    | inl n ↦ absurd (ground (arith, h, n))
    | inr (x, e) ↦ elim (Option-cases (lookup x.model c.models)) [
      | inl n ↦ absurd (ground (arith, h, n, e))
      | inr (y, k) ↦ ground (arith, h, e, k)
    ]
  ]

  restore_aircraft-some :
      (user id n : ℕ) (a : Aircraft F Time) (v w : Db F Time)
      → owned_aircraft user id v ≡ some a
      → restore_aircraft user id v ≡ some (n, w)
      → w ≡ with_fleet (insert id (restored a) v.fleet) v
  unfolding restore_aircraft
  restore_aircraft-some user id n a v w e h = ground (arith, h, e)

  module _ (user id : ℕ) (a : Aircraft F Time) (m : Model F) (cash : F) where
    Found : Db F Time → Db F Time → Type 0
    Found c w = (c ≡ w) × (aircraft_with_model user id c ≡ some (a, m))

    cost : F
    cost = repair_cost_for a.condition m.purchase_price

    Charged : Time → Reply F → Db F Time → Db F Time → Type 0
    unfolding cost
    Charged t = Applies (Repairs user id) Found debit user cost "cogs" "maintenance" t

    Charged-Repairs :
        (t : Time) (new_cash : F) (n : ℕ) (r : MutationResult F) (c w : Db F Time)
        → Replies (Repairs user id) (Charged t (ok new_cash)) (restore_aircraft user id) (ok n) c w
        → Repairs user id r c w
    unfolding Charged cost Applies Replies Repairs Found
    Charged-Repairs t new_cash n r c w (v, (v0, (same, found), charged), written_row) = (
      a,
      m,
      t,
      v,
      found,
      subst (λ x. Effect debit user cost "cogs" "maintenance" t x v) (sym same) charged,
      restore_aircraft-some user id n a v w
          (owned_aircraft_same user id v0 v
              (Effect-fleet debit user cost "cogs" "maintenance" t v0 v charged)
            ∙ ap (owned_aircraft user id) (sym same)
            ∙ aircraft_with_model-owned user id c a m found)
          written_row,
    )

    Triple-repair_for : Triple (Repairs user id) Found (repair_for user id a m cash) (λ b c w. Unit)
    unfolding repair_for Charged cost
    Triple-repair_for = Triple-bind _ _ (Triple-pool_query _ (clock_of user)) (λ clock.
        Triple-weaken _ (PoolReplies-pre _ Found (clock_of user) clock) (
          Triple-bind _ _ (Triple-apply_tx _ Found debit user cost "cogs" "maintenance" _)
            (λ debited.
              Triple-bind _ _
                (Triple-or_return _ (Charged (or_zero clock p.zero_time)) debited _ tt)
                (λ new_cash.
                  Triple-bind _ _ (Triple-statement _ (restore_aircraft user id)) (λ updated.
                    Triple-bind _ _
                      (Triple-or_return _
                        (Replies _ (Charged (or_zero clock p.zero_time) (ok new_cash))
                          (restore_aircraft user id))
                        updated _ tt)
                      (λ n.
                        Triple-done _ _
                          (Charged-Repairs (or_zero clock p.zero_time) new_cash n _)))))))

    Triple-repair_checked :
        Triple (Repairs user id) Found (repair_checked user id a m cash) (λ b c w. Unit)
    unfolding repair_checked
    Triple-repair_checked = elim (Bool-cases (whole 100 ⩽ a.condition)) [
      | inl pristine ↦ rw pristine (Triple-refuse _ _ tt)
      | inr worn ↦
          elim (Bool-cases (less_than cash (repair_cost_for a.condition m.purchase_price))) [
            | inl poor ↦ rw (worn, poor) (Triple-refuse _ _ tt)
            | inr funded ↦ rw (worn, funded) Triple-repair_for
          ]
    ]

  read_Found :
      (user id : ℕ) (found : Aircraft F Time × Model F) (c v w : Db F Time)
      → c ≡ v
      → read_with (aircraft_with_model user id) v ≡ some (found, w)
      → Found user id found.0 found.1 (whole 0) c w
  unfolding Found
  read_Found user id found c v w same read = elim (Option-cases (aircraft_with_model user id v)) [
    | inl n ↦ absurd (ground (arith, read, n))
    | inr (x, e) ↦ (
      same ∙ sym (read_with-same (aircraft_with_model user id) v w found read),
      ap (aircraft_with_model user id) same ∙ e ∙ ground (arith, read, e),
    )
  ]

  pub Triple-repair_tx :
      (user id : ℕ) → Triple (Repairs user id) (λ c w. c ≡ w) (repair_tx user id) (λ b c w. Unit)
  unfolding repair_tx Found Replies
  Triple-repair_tx user id =
      Triple-bind _ _ (Triple-statement _ (read_with (aircraft_with_model user id))) (λ row.
        Triple-bind _ _
          (Triple-or_return _
            (Replies (Repairs user id) (λ c w. c ≡ w) (read_with (aircraft_with_model user id))) row
            _ tt)
          (λ found.
            Triple-weaken _ (λ c w (v, same, read). read_Found user id found c v w same read)
              (Triple-bind _ _ (Triple-pool_query _ (balance_of user)) (λ balance.
                Triple-weaken _
                  (PoolReplies-pre _ (Found user id found.0 found.1 (whole 0)) (balance_of user)
                    balance)
                  (Triple-repair_checked user id found.0 found.1 (cash_of p.load balance))))))

  -- Whatever calls of the database fail, a repair is done in full or leaves every row as it was: the
  -- aircraft is the user's, its cost by condition and price is debited from the user under an entry of
  -- the ledger (a cost that rounds to no cent is not), and the row is restored to condition 100.
  pub repair-atomic :
      (user id : ℕ) (w : World F Time)
      → ((repair user id w).1.db ≡ w.db)
        ⊎ Repairs user id (repair user id w).0 w.db (repair user id w).1.db
  unfolding repair
  repair-atomic user id w =
      elim (with_tx-commits (Repairs user id) (repair_tx user id) (Triple-repair_tx user id) w) [
        | inl same ↦ inl same
        | inr (r, e, h) ↦ inr (rw e h)
      ]

  -- A repair keeps the books, whatever calls fail: if every balance is its opening one with all that
  -- the ledger records of it, it still is.
  pub repair-IsBalanced :
      (user id : ℕ) (opening : ℕ → ℤ) (w : World F Time)
      → IsBalanced opening w.db
      → IsBalanced opening (repair user id w).1.db
  unfolding Repairs IsBalanced balance_of
  repair-IsBalanced user id opening w h = elim (repair-atomic user id w) [
    | inl same ↦ rw same h
    | inr (a, m, t, v, found, charged, e) ↦
        rw e (Effect-IsBalanced debit user _ "cogs" "maintenance" t opening w.db v charged h)
  ]

  -- A repair overdraws no account, whatever calls fail, even though the code reads the balance that
  -- it compares with the cost outside the transaction: if no balance was negative, none is. An
  -- amount that is not negative is stored as one that is not.
  pub repair-IsSolvent :
      (law : IsArithmetic F) (sign : IsSigned F Time) (user id : ℕ) (w : World F Time)
      → IsSolvent w.db
      → IsSolvent (repair user id w).1.db
  unfolding Repairs IsSolvent balance_of
  repair-IsSolvent law sign user id w h = elim (repair-atomic user id w) [
    | inl same ↦ rw same h
    | inr (a, m, t, v, found, charged, e) ↦
        rw e (Effect-IsSolvent law sign debit user _ "cogs" "maintenance" t w.db v tt charged h)
  ]

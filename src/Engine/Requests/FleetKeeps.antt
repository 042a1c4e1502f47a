-- ===== src/Engine/Requests/FleetKeeps.antt =====
-- What every request to the fleet and the bank keeps, whatever calls of the database fail.
use skyward.Base.{
  Bool, true, false, none, Bool-cases, inl, inr, Option, some, ℕ, ◌≡◌, refl, sym, ap, ◌∙◌, subst,
  String, nat_eq, arith,
}
use skyward.Base.Int.{ℤ}
use skyward.Base.Dict.{Dict, lookup, insert}
use skyward.Float.{Float, IsArithmetic}
use skyward.Engine.Db.{Loan, owned_aircraft, Db, Platform, IsSigned, Aircraft}
use skyward.Engine.Tx.{World}
use skyward.Engine.Ledger.{Direction, credit, debit}
use skyward.Engine.Ledger.Laws.{IsGuarded, Effect-fleet}
use skyward.Engine.Service.{serve}
use skyward.Engine.Fleet.{MutationResult, with_fleet, without_aircraft, restored, repair, sell}
use skyward.Engine.Fleet.Repair.{Repairs, repair-atomic, aircraft_with_model-owned}
use skyward.Engine.Fleet.Sell.{Outcome, sell-atomic}
use skyward.Engine.Fleet.Removal.{Removes}
use skyward.Engine.Fleet.Lease.{terminate_lease}
use skyward.Engine.Fleet.Lease.Termination.{Outcome as Ended, terminate_lease-atomic}
use skyward.Engine.Fleet.Configure.{Configures, reseated, configure_seats, configure_seats-Answers}
use skyward.Engine.Fleet.Purchase.{PurchaseParams, purchase_aircraft, lease_aircraft}
use skyward.Engine.Fleet.Purchase.Outcome.{Acquires, insert_aircraft-some}
use skyward.Engine.Fleet.Purchase.Deal.{Buys, purchase_aircraft-atomic}
use skyward.Engine.Fleet.Purchase.Leasing.{Leases, lease_aircraft-atomic}
use skyward.Engine.Routes.Fitting.{owned_aircraft-owner}
use skyward.Engine.Routes.FleetWrites.{kept-IsSound, aircraft_written-IsSound, removed-IsSound}
use skyward.Engine.Bank.{with_loans, paid, is_finance, owned_now, repay}
use skyward.Engine.Bank.Refinance.{refinance}
use skyward.Engine.Bank.Refinance.Terms.{Refinances, refinance-atomic}
use skyward.Engine.Bank.Repayment.{Settles, SettlesBy, Repays, repay-atomic}
use skyward.Engine.Requests.Kept.{IsOrderly, same_money-IsOrderly, Effect-IsOrderly}

module _ {F Time : Type 0} where
  -- The loans are no part of the order.
  lent-IsOrderly :
      (opening : ℕ → ℤ) (rows : Dict ℕ (Loan F)) (v : Db F Time)
      → IsOrderly opening v
      → IsOrderly opening (with_loans rows v)
  unfolding owned_aircraft
  lent-IsOrderly opening rows v h =
      same_money-IsOrderly opening v (with_loans rows v) refl refl
        (kept-IsSound v (with_loans rows v) refl (λ user k x own. (x, own)) h.routes) h

module _ {F Time : Type 0} ⦃num : Float F⦄ ⦃p : Platform F Time⦄ (opening : ℕ → ℤ) where
  pub refinance-IsOrderly :
      (user id : ℕ) (w : World F Time)
      → IsOrderly opening w.db
      → IsOrderly opening (refinance user id w).1.db
  unfolding Refinances
  refinance-IsOrderly user id w h = elim (refinance-atomic user id w) [
    | inl same ↦ subst (IsOrderly opening) (sym same) h
    | inr (r, e, (l, monthly, rate, (owing, scan, read, better, row))) ↦
        subst (IsOrderly opening) (sym row) (lent-IsOrderly opening _ w.db h)
  ]

module _ {F Time : Type 0} ⦃num : Float F⦄ ⦃p : Platform F Time⦄ (law : IsArithmetic F)
    (sign : IsSigned F Time) (opening : ℕ → ℤ) where
  rewritten-IsOrderly :
      (id : ℕ) (y : Aircraft F Time) (c : Db F Time)
      → ((x : Aircraft F Time) → lookup id c.fleet ≡ some x → y.owner ≡ x.owner)
      → IsOrderly opening c
      → IsOrderly opening (with_fleet (insert id y c.fleet) c)
  rewritten-IsOrderly id y c same h =
      same_money-IsOrderly opening c (with_fleet (insert id y c.fleet) c) refl refl
        (aircraft_written-IsSound id y c same h.routes) h

  Removes-IsOrderly :
      (d : Direction) (user id : ℕ) (amount : F) (category subcategory : String)
      (r : MutationResult F) (c w : Db F Time)
      → IsGuarded d
      → Removes d user id amount category subcategory r c w
      → IsOrderly opening c
      → IsOrderly opening w
  unfolding Removes
  Removes-IsOrderly d user id amount category subcategory r c w g (a, t, v, own, free, paid, e) h =
      let after =
        Effect-IsOrderly law sign d user amount category subcategory t opening c v g paid h in
      subst (IsOrderly opening) (sym e) (
        same_money-IsOrderly opening v (without_aircraft id v) refl refl
          (removed-IsSound id v after.routes) after)

  pub sell-IsOrderly :
      (user id : ℕ) (w : World F Time)
      → IsOrderly opening w.db
      → IsOrderly opening (sell user id w).1.db
  unfolding Outcome
  sell-IsOrderly user id w h = elim (sell-atomic user id w) [
    | inl same ↦ subst (IsOrderly opening) (sym same) h
    | inr (_, _, _, _, _, _, sold) ↦
        Removes-IsOrderly credit user id _ "investing" "aircraft_sale" _ w.db _ tt sold h
  ]

  pub terminate_lease-IsOrderly :
      (user id : ℕ) (w : World F Time)
      → IsOrderly opening w.db
      → IsOrderly opening (terminate_lease user id w).1.db
  unfolding Ended
  terminate_lease-IsOrderly user id w h = elim (terminate_lease-atomic user id w) [
    | inl same ↦ subst (IsOrderly opening) (sym same) h
    | inr (_, _, _, _, ended) ↦
        Removes-IsOrderly debit user id _ "opex" "lease_termination" _ w.db _ tt ended h
  ]

  pub repair-IsOrderly :
      (user id : ℕ) (w : World F Time)
      → IsOrderly opening w.db
      → IsOrderly opening (repair user id w).1.db
  unfolding Repairs
  repair-IsOrderly user id w h = elim (repair-atomic user id w) [
    | inl same ↦ subst (IsOrderly opening) (sym same) h
    | inr (a, m, t, v, found, paid, e) ↦
        let after =
          Effect-IsOrderly law sign debit user _ "cogs" "maintenance" t opening w.db v tt paid h in
        let here =
          owned_aircraft-owner user id a w.db (aircraft_with_model-owned user id w.db a m found) in
        subst (IsOrderly opening) (sym e) (
          rewritten-IsOrderly id (restored a) v
            (λ x l.
              let same =
                ap (lookup id) (sym (Effect-fleet debit user _ "cogs" "maintenance" t w.db v paid))
                ∙ l in
              ground (arith, here.0, same))
            after)
  ]

  pub configure_seats-IsOrderly :
      (user id : ℕ) (economy business first : ℤ) (w : World F Time)
      → IsOrderly opening w.db
      → IsOrderly opening (serve (configure_seats user id economy business first) w).1.db
  unfolding Configures
  configure_seats-IsOrderly user id economy business first w h =
      elim (configure_seats-Answers user id economy business first w) [
        | inl (refused, same) ↦ subst (IsOrderly opening) (sym same) h
        | inr (served, (a, m, found, fit, e)) ↦
            let here =
              owned_aircraft-owner user id a w.db
                (aircraft_with_model-owned user id w.db a m found) in
            subst (IsOrderly opening) (sym e) (
              rewritten-IsOrderly id (reseated economy business first a) w.db
                (λ x l. ground (arith, here.0, l)) h)
      ]

  Acquires-IsOrderly :
      (user id : ℕ) (amount : F) (subcategory : String) (a : Aircraft F Time) (t : Time)
      (c w : Db F Time)
      → Acquires user id amount subcategory a t c w
      → IsOrderly opening c
      → IsOrderly opening w
  unfolding Acquires
  Acquires-IsOrderly user id amount subcategory a t c w (v, n, paid, written) h =
      let after =
        Effect-IsOrderly law sign debit user amount "investing" subcategory t opening c v tt paid
          h in
      let (e, new) = insert_aircraft-some id n a v w written in
      subst (IsOrderly opening) (sym e) (rewritten-IsOrderly id a v (λ x l. absurd (new x l)) after)

  pub purchase_aircraft-IsOrderly :
      (draws : ℕ → String) (user id : ℕ) (params : PurchaseParams) (w : World F Time)
      → IsOrderly opening w.db
      → IsOrderly opening (serve (purchase_aircraft draws user id params) w).1.db
  unfolding Buys
  purchase_aircraft-IsOrderly draws user id params w h =
      elim (purchase_aircraft-atomic draws user id params w) [
        | inl same ↦ subst (IsOrderly opening) (sym same) h
        | inr (m, t, tail, terms, bought) ↦
            Acquires-IsOrderly user id _ "aircraft_purchase" _ t w.db _ bought h
      ]

  pub lease_aircraft-IsOrderly :
      (draws : ℕ → String) (user id : ℕ) (params : PurchaseParams) (w : World F Time)
      → IsOrderly opening w.db
      → IsOrderly opening (serve (lease_aircraft draws user id params) w).1.db
  unfolding Leases
  lease_aircraft-IsOrderly draws user id params w h =
      elim (lease_aircraft-atomic draws user id params w) [
        | inl same ↦ subst (IsOrderly opening) (sym same) h
        | inr (m, share, t, tail, terms, configured, leased) ↦
            Acquires-IsOrderly user id _ "aircraft_lease_deposit" _ t w.db _ leased h
      ]

  SettlesBy-IsOrderly :
      (user : ℕ) (off : Bool) (aircraft : Option ℕ) (v w : Db F Time)
      → SettlesBy user off aircraft v w
      → IsOrderly opening v
      → IsOrderly opening w
  unfolding SettlesBy
  SettlesBy-IsOrderly user false aircraft v w same h = subst (IsOrderly opening) (sym same) h
  SettlesBy-IsOrderly user true none v w same h = subst (IsOrderly opening) (sym same) h
  SettlesBy-IsOrderly user true (some id) v w (inl (gone, same)) h =
      subst (IsOrderly opening) (sym same) h
  SettlesBy-IsOrderly user true (some id) v w (inr (a, own, row)) h =
      let here = owned_aircraft-owner user id a v own in
      subst (IsOrderly opening) (sym row) (
        rewritten-IsOrderly id (owned_now a) v
          (λ x k. elim (Bool-cases (is_finance a.acquisition_type)) [
            | inl yes_finance ↦ rw yes_finance (ground (arith, here.0, k))
            | inr other ↦ rw other (ground (arith, here.0, k))
          ])
          h)

  pub repay-IsOrderly :
      (user id : ℕ) (amount : Option F) (w : World F Time)
      → IsOrderly opening w.db
      → IsOrderly opening (repay user id amount w).1.db
  unfolding Repays Settles
  repay-IsOrderly user id amount w h = elim (repay-atomic user id amount w) [
    | inl same ↦ subst (IsOrderly opening) (sym same) h
    | inr (r, e, (l, cash, t, u, v, owing, positive, read, funded, moved, row, settled)) ↦
        let after =
          Effect-IsOrderly law sign debit user _ "financing" "loan_repayment" t opening w.db u tt
            moved h in
        SettlesBy-IsOrderly user _ _ v _ settled
          (subst (IsOrderly opening) (sym row) (lent-IsOrderly opening _ u after))
  ]

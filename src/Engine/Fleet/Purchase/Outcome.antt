-- ===== src/Engine/Fleet/Purchase/Outcome.antt =====
-- What the transactions of Purchase and Lease commit.
use skyward.Base.{
  ℕ, ◌≡◌, sym, subst, Option, some, String, List, inl, inr, nat_eq, ◌==◌, ◌||◌, Bool-cases, arith,
  beq_refl,
}
use skyward.Base.Dict.{lookup, insert, any_row, any_row-lookup}
use skyward.Float.{Float}
use skyward.Engine.Db.{Db, Platform, Aircraft}
use skyward.Engine.Tx.{ok, Verdict, done, statement, or_return, return, ◌>>=◌}
use skyward.Engine.Tx.Laws.{
  TripleIf, Replies, Refuses, Triple-bind, Triple-statement, Triple-or_return, Triple-done,
}
use skyward.Engine.Ledger.{debit, apply_tx}
use skyward.Engine.Ledger.Laws.{Effect, Applies, Triple-apply_tx}
use skyward.Engine.Fleet.{MutationResult, with_fleet}
use skyward.Engine.Fleet.Purchase.Acquired.{insert_aircraft, same_tail, purchase_tx, lease_tx}

module _ {F Time : Type 0} where
  -- A row that is inserted was not there.
  pub insert_aircraft-some :
      (id n : ℕ) (a : Aircraft F Time) (v w : Db F Time)
      → insert_aircraft id a v ≡ some (n, w)
      → (w ≡ with_fleet (insert id a v.fleet) v)
        × ((x : Aircraft F Time) → ¬ (lookup id v.fleet ≡ some x))
  unfolding insert_aircraft
  insert_aircraft-some id n a v w h =
      elim (Bool-cases
        (any_row (λ k b. k == id) v.fleet || any_row (same_tail a.tail_number) v.fleet)) [
          | inl there ↦ absurd (ground (arith, h, there))
          | inr new ↦ (
            ground (arith, h, new),
            λ x l.
                ground (arith, new, any_row-lookup (λ k b. k == id) id x v.fleet, l, beq_refl id),
          )
        ]

module _ {F Time : Type 0} ⦃num : Float F⦄ ⦃p : Platform F Time⦄ where
  -- An acquisition in full: the amount is debited with its entry, and the aircraft has its row.
  unfoldable pub Acquires :
      ℕ → ℕ → F → String → Aircraft F Time → Time → Db F Time → Db F Time → Type 0
  Acquires user id amount subcategory a t c w =
      (v : Db F Time) × (n : ℕ) × Effect debit user amount "investing" subcategory t c v
      × (insert_aircraft id a v ≡ some (n, w))

  module _ {R : Type 0} (user id : ℕ) (amount : F) (subcategory : String) (a : Aircraft F Time)
      (t : Time) where
    Triple-acquire :
        {calm : Type 0} (no_money no_row : Verdict R) (good : F → R)
        → Refuses no_money
        → Refuses no_row
        → TripleIf
            (record { calm = calm; commits = λ (r : R). Acquires user id amount subcategory a t })
            (λ c w. c ≡ w)
            (apply_tx debit user amount "investing" subcategory t >>= (λ debited.
              or_return debited no_money >>= (λ cash.
                statement (insert_aircraft id a)
                >>= (λ inserted. or_return inserted no_row >>= (λ n. return (done (good cash)))))))
            (λ (b : ⊥) c w. Unit)
    unfolding Replies Applies Acquires
    Triple-acquire no_money no_row good e f =
        Triple-bind _ _
          (Triple-apply_tx _ (λ c w. c ≡ w) debit user amount "investing" subcategory t)
          (λ debited.
            Triple-bind _ _
              (Triple-or_return _
                (Applies (λ (r : R). Acquires user id amount subcategory a t) (λ c w. c ≡ w) debit
                  user amount "investing" subcategory t)
                debited no_money e)
              (λ cash. Triple-bind _ _ (Triple-statement _ (insert_aircraft id a)) (λ inserted.
                Triple-bind _ _
                  (Triple-or_return _
                    (Replies (λ (r : R). Acquires user id amount subcategory a t)
                      (Applies (λ (r : R). Acquires user id amount subcategory a t) (λ c w. c ≡ w)
                        debit user amount "investing" subcategory t (ok cash))
                      (insert_aircraft id a))
                    inserted no_row f)
                  (λ n. Triple-done _ (good cash) (λ c w (v, (u, same, paid), written). (
                    v,
                    n,
                    subst (λ x. Effect debit user amount "investing" subcategory t x v) (sym same)
                        paid,
                    written,
                  ))))))

  pub Triple-purchase_tx :
      {calm : Type 0} (user id : ℕ) (price : F) (a : Aircraft F Time) (t : Time)
      (names : List String) (cash : F)
      → TripleIf
          (record {
            calm = calm;
            commits = λ (r : MutationResult F). Acquires user id price "aircraft_purchase" a t;
          })
          (λ c w. c ≡ w)
          (purchase_tx user id price a t names cash)
          (λ b c w. Unit)
  unfolding purchase_tx
  Triple-purchase_tx user id price a t names cash =
      Triple-acquire user id price "aircraft_purchase" a t _ _ _ tt tt

  pub Triple-lease_tx :
      {calm : Type 0} (user id : ℕ) (deposit : F) (a : Aircraft F Time) (t : Time) (cash : F)
      → TripleIf
          (record {
            calm = calm;
            commits = λ (r : Option (MutationResult F)).
                Acquires user id deposit "aircraft_lease_deposit" a t;
          })
          (λ c w. c ≡ w)
          (lease_tx user id deposit a t cash)
          (λ b c w. Unit)
  unfolding lease_tx
  Triple-lease_tx user id deposit a t cash =
      Triple-acquire user id deposit "aircraft_lease_deposit" a t _ _ _ tt tt

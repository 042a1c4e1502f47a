-- ===== src/Engine/Fleet/Sell.antt =====
-- What a sale commits.
use skyward.Base.{
  ℕ, ◌≡◌, refl, Bool, true, false, Option, some, nat_eq, arith, Bool-cases, Option-cases, ◌∙◌, ◌⊎◌,
  inl, inr, subst,
}
use skyward.Base.Int.{ℤ}
use skyward.Float.{Float, IsArithmetic}
use skyward.Economy.Money.{sale_value_for}
use skyward.Engine.Db.{Db, Platform, IsSigned, Aircraft, Model, is_purchase, aircraft_with_model}
use skyward.Engine.Tx.{Reply, ok, no_rows, failed, World, or_zero, succeeds}
use skyward.Engine.Tx.Laws.{
  Triple, Triple-refuse, with_tx-commits, IsCalm, IsCalm-rest, IsCalm-succeeds, Read,
}
use skyward.Engine.Ledger.{credit, balance_of}
use skyward.Engine.Ledger.Laws.{IsBalanced, IsSolvent, Effect-IsBalanced, Effect-IsSolvent}
use skyward.Engine.Fleet.Removal.{Removes, Free, Triple-removal, Triple-checked, asked-some}
use skyward.Engine.Fleet.{
  MutationResult, clock_of, assigned_row, ask, after, sell_for, sell_tx, sell_priced, sell_found,
  sell,
}

module _ {F Time : Type 0} ⦃num : Float F⦄ ⦃p : Platform F Time⦄ where
  -- A sale in full: the removal of the aircraft for its value.
  abbrev pub Sells : ℕ → ℕ → F → MutationResult F → Db F Time → Db F Time → Type 0
  Sells user id value = Removes credit user id value "investing" "aircraft_sale"

  Triple-sell_for :
      (user id : ℕ) (value : F) (a : Aircraft F Time) (assigned : Bool)
      → Triple
          (Sells user id value)
          (Free credit user id value "investing" "aircraft_sale" a assigned)
          (sell_for user id value assigned)
          (λ b c w. Unit)
  unfolding sell_for
  Triple-sell_for user id value a true = Triple-refuse _ _ tt
  Triple-sell_for user id value a false =
      Triple-removal credit user id value "investing" "aircraft_sale" a _ _ _ tt tt

  Triple-sell_tx :
      (user id : ℕ) (value : F)
      → Triple (Sells user id value) (λ c w. c ≡ w) (sell_tx user id value) (λ b c w. Unit)
  unfolding sell_tx
  Triple-sell_tx user id value =
      Triple-checked credit user id value "investing" "aircraft_sale" _ _ (sell_for user id value)
        tt tt (Triple-sell_for user id value)

  sell_priced-commits :
      (user id : ℕ) (a : Aircraft F Time) (m : Model F) (w : World F Time)
      → let out = sell_priced user id a m w in
        let value =
          sale_value_for p.is_zero p.hours_since a.condition m.purchase_price a.acquired_game_date
            (or_zero (ask (clock_of user) w) p.zero_time) in
        (out.1.db ≡ w.db) ⊎ Sells user id value out.0 w.db out.1.db
  unfolding sell_priced
  sell_priced-commits user id a m w =
      elim (with_tx-commits (Sells user id _) (sell_tx user id _) (Triple-sell_tx user id _)
        (after w)) [ inl same ↦ inl same | inr (r, e, h) ↦ inr (rw e h) ]

  -- What a sale may do: nothing, or sell the user's own unassigned aircraft at its value, by the user's
  -- clock. The clock is Go's zero time when there is no row of it or, unless `calm`, its query has failed.
  unfoldable pub Outcome : Type 0 → ℕ → ℕ → MutationResult F → Db F Time → Db F Time → Type 0
  Outcome calm user id r c w =
      (w ≡ c)
      ⊎ ((a : Aircraft F Time) × (m : Model F) × (clock : Reply Time) × Read calm (clock_of user)
            clock c
          × (aircraft_with_model user id c ≡ some (a, m))
          × (is_purchase a.acquisition_type ≡ true)
          × Sells user id
              (sale_value_for p.is_zero p.hours_since a.condition m.purchase_price
                a.acquired_game_date (or_zero clock p.zero_time))
              r c w)

  ask-Read :
      {A calm : Type 0} (f : Db F Time → Option A) (w : World F Time)
      → (calm → IsCalm w.calls)
      → Read calm f (ask f w) w.db
  unfolding Read
  ask-Read f w q = elim (Bool-cases (succeeds w.calls)) [
    | inr e ↦ rw e (λ calm. absurd (ground (arith, IsCalm-succeeds w.calls (q calm), e)))
    | inl e ↦ elim (Option-cases (f w.db)) [ inl n ↦ rw (e, n) n | inr (a, n) ↦ rw (e, n) n ]
  ]

  sell_found-Outcome :
      {calm : Type 0} (user id : ℕ) (c : Db F Time) (row : Reply (Aircraft F Time × Model F))
      (w : World F Time)
      → w.db ≡ c
      → (calm → IsCalm w.calls)
      → ((a : Aircraft F Time) (m : Model F)
          → row ≡ ok (a, m)
          → aircraft_with_model user id c ≡ some (a, m))
      → Outcome calm user id (sell_found user id row w).0 c (sell_found user id row w).1.db
  unfolding sell_found Outcome
  sell_found-Outcome user id c no_rows w same q h = inl same
  sell_found-Outcome user id c failed w same q h = inl same
  sell_found-Outcome {calm = calm} user id c (ok (a, m)) w same q h =
      elim (Bool-cases (is_purchase a.acquisition_type)) [
        | inr leased ↦ rw leased (inl same)
        | inl owned ↦ elim (Bool-cases (or_zero (ask (assigned_row user id) w) false)) [
          | inl assigned ↦ rw (owned, assigned) (inl same)
          | inr free ↦
              rw (owned, free)
                (elim (sell_priced-commits user id a m (after w)) [
                  | inl e ↦ inl (e ∙ same)
                  | inr sold ↦ inr (
                    a,
                    m,
                    ask (clock_of user) (after w),
                    subst (λ x. Read calm (clock_of user) (ask (clock_of user) (after w)) x) same
                        (ask-Read (clock_of user) (after w) (λ k. IsCalm-rest w.calls (q k))),
                    h a m refl,
                    owned,
                    subst
                        (λ x.
                          Sells user id
                            (sale_value_for p.is_zero p.hours_since a.condition m.purchase_price
                              a.acquired_game_date
                              (or_zero (ask (clock_of user) (after w)) p.zero_time))
                            (sell_priced user id a m (after w)).0 x
                            (sell_priced user id a m (after w)).1.db)
                        same sold,
                  )
                ])
        ]
      ]

  -- Whatever calls of the database fail, a sale is done in full or leaves every row as it was. Done in
  -- full, the aircraft was the user's, bought and on no route when its row was locked; its value by
  -- condition, price and age at the user's game time is credited to the user under an entry of the
  -- ledger (a value that rounds to no cent is not), and its row is gone. The game time is Go's zero time
  -- when the user has none, and it may be when some call fails.
  pub sell-atomic :
      (user id : ℕ) (w : World F Time)
      → Outcome (IsCalm w.calls) user id (sell user id w).0 w.db (sell user id w).1.db
  unfolding sell
  sell-atomic user id w =
      sell_found-Outcome user id w.db (ask (aircraft_with_model user id) w) (after w) refl
        (IsCalm-rest w.calls) (λ a m h. asked-some (aircraft_with_model user id) w (a, m) h)

  -- A sale keeps the books, whatever calls fail: if every balance is its opening one with all that
  -- the ledger records of it, it still is.
  pub sell-IsBalanced :
      (user id : ℕ) (opening : ℕ → ℤ) (w : World F Time)
      → IsBalanced opening w.db
      → IsBalanced opening (sell user id w).1.db
  unfolding Outcome Removes IsBalanced balance_of
  sell-IsBalanced user id opening w h = elim (sell-atomic user id w) [
    | inl same ↦ rw same h
    | inr (_, _, _, _, _, _, (a, t, v, locked, free, credited, e)) ↦
        rw e
          (Effect-IsBalanced credit user _ "investing" "aircraft_sale" t opening w.db v credited h)
  ]

  -- A sale overdraws no account, whatever calls fail: if no balance was negative, none is. An amount
  -- that is not negative is stored as one that is not.
  pub sell-IsSolvent :
      (law : IsArithmetic F) (sign : IsSigned F Time) (user id : ℕ) (w : World F Time)
      → IsSolvent w.db
      → IsSolvent (sell user id w).1.db
  unfolding Outcome Removes IsSolvent balance_of
  sell-IsSolvent law sign user id w h = elim (sell-atomic user id w) [
    | inl same ↦ rw same h
    | inr (_, _, _, _, _, _, (a, t, v, locked, free, credited, e)) ↦
        rw e (
          Effect-IsSolvent law sign credit user _ "investing" "aircraft_sale" t w.db v tt credited
            h)
  ]

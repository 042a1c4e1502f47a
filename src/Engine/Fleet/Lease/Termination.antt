-- ===== src/Engine/Fleet/Lease/Termination.antt =====
-- What the end of a lease commits.
use skyward.Base.{ℕ, ◌≡◌, refl, Bool, true, false, some, Bool-cases, ◌∙◌, ◌⊎◌, inl, inr, subst}
use skyward.Base.Int.{ℤ}
use skyward.Float.{Float, IsArithmetic}
use skyward.Economy.Money.{less_than, lease_exit_fee_for}
use skyward.Engine.Db.{Db, Platform, IsSigned, Aircraft, Model, aircraft_with_model}
use skyward.Engine.Tx.{Reply, ok, no_rows, failed, World, or_zero}
use skyward.Engine.Tx.Laws.{Triple, Triple-refuse, with_tx-commits}
use skyward.Engine.Ledger.{debit, balance_of}
use skyward.Engine.Ledger.Laws.{IsBalanced, IsSolvent, Effect-IsBalanced, Effect-IsSolvent}
use skyward.Engine.Fleet.{MutationResult, assigned_row, ask, after, cash_of}
use skyward.Engine.Fleet.Removal.{Removes, Free, Triple-removal, Triple-checked, asked-some}
use skyward.Engine.Fleet.Lease.{
  is_lease, terminate_for, terminate_tx, terminate_charged, terminate_found, terminate_lease,
}

module _ {F Time : Type 0} ⦃num : Float F⦄ ⦃p : Platform F Time⦄ where
  -- A termination in full: the removal of the aircraft for its exit fee.
  abbrev pub Terminates : ℕ → ℕ → F → MutationResult F → Db F Time → Db F Time → Type 0
  Terminates user id fee = Removes debit user id fee "opex" "lease_termination"

  Triple-terminate_for :
      (user id : ℕ) (fee cash : F) (a : Aircraft F Time) (assigned : Bool)
      → Triple
          (Terminates user id fee)
          (Free debit user id fee "opex" "lease_termination" a assigned)
          (terminate_for user id fee cash assigned)
          (λ b c w. Unit)
  unfolding terminate_for
  Triple-terminate_for user id fee cash a true = Triple-refuse _ _ tt
  Triple-terminate_for user id fee cash a false =
      Triple-removal debit user id fee "opex" "lease_termination" a _ _ _ tt tt

  Triple-terminate_tx :
      (user id : ℕ) (fee cash : F)
      → Triple
          (Terminates user id fee)
          (λ c w. c ≡ w)
          (terminate_tx user id fee cash)
          (λ b c w. Unit)
  unfolding terminate_tx
  Triple-terminate_tx user id fee cash =
      Triple-checked debit user id fee "opex" "lease_termination" _ _
        (terminate_for user id fee cash) tt tt (Triple-terminate_for user id fee cash)

  terminate_charged-commits :
      (user id : ℕ) (fee cash : F) (w : World F Time)
      → let out = terminate_charged user id fee cash w in
        (out.1.db ≡ w.db) ⊎ Terminates user id fee out.0 w.db out.1.db
  unfolding terminate_charged
  terminate_charged-commits user id fee cash w = elim (Bool-cases (less_than cash fee)) [
    | inl poor ↦ rw poor (inl refl)
    | inr funded ↦
        rw funded
          (elim (with_tx-commits (Terminates user id fee) (terminate_tx user id fee cash)
            (Triple-terminate_tx user id fee cash) w) [
              | inl same ↦ inl same
              | inr (r, e, h) ↦ inr (rw e h)
            ])
  ]

  -- What the end of a lease may do: nothing, or end the user's own unused lease for its fee.
  unfoldable pub Outcome : ℕ → ℕ → MutationResult F → Db F Time → Db F Time → Type 0
  Outcome user id r c w =
      (w ≡ c)
      ⊎ ((a : Aircraft F Time) × (m : Model F) × (aircraft_with_model user id c ≡ some (a, m))
          × (is_lease a.acquisition_type ≡ true)
          × Terminates user id (lease_exit_fee_for m.lease_price_per_month) r c w)

  terminate_found-Outcome :
      (user id : ℕ) (c : Db F Time) (row : Reply (Aircraft F Time × Model F)) (w : World F Time)
      → w.db ≡ c
      → ((a : Aircraft F Time) (m : Model F)
          → row ≡ ok (a, m)
          → aircraft_with_model user id c ≡ some (a, m))
      → Outcome user id (terminate_found user id row w).0 c (terminate_found user id row w).1.db
  unfolding terminate_found Outcome
  terminate_found-Outcome user id c no_rows w same h = inl same
  terminate_found-Outcome user id c failed w same h = inl same
  terminate_found-Outcome user id c (ok (a, m)) w same h =
      elim (Bool-cases (is_lease a.acquisition_type)) [
        | inr owned ↦ rw owned (inl same)
        | inl leased ↦ elim (Bool-cases (or_zero (ask (assigned_row user id) w) false)) [
          | inl assigned ↦ rw (leased, assigned) (inl same)
          | inr free ↦
              let fee = lease_exit_fee_for m.lease_price_per_month in
              let cash = cash_of p.load (ask (balance_of user) (after w)) in
              let out = terminate_charged user id fee cash (after (after w)) in
              rw (leased, free)
                (elim (terminate_charged-commits user id fee cash (after (after w))) [
                  | inl e ↦ inl (e ∙ same)
                  | inr ended ↦ inr (
                    a,
                    m,
                    h a m refl,
                    leased,
                    subst (λ x. Terminates user id fee out.0 x out.1.db) same ended,
                  )
                ])
        ]
      ]

  -- Whatever calls of the database fail, a lease is ended in full or every row stays as it was. Ended in
  -- full, the aircraft was the user's, leased and on no route when its row was locked; the exit fee of
  -- its model is debited from the user under an entry of the ledger (a fee that rounds to no cent is
  -- not), and its row is gone.
  pub terminate_lease-atomic :
      (user id : ℕ) (w : World F Time)
      → Outcome user id (terminate_lease user id w).0 w.db (terminate_lease user id w).1.db
  unfolding terminate_lease
  terminate_lease-atomic user id w =
      terminate_found-Outcome user id w.db (ask (aircraft_with_model user id) w) (after w) refl
        (λ a m h. asked-some (aircraft_with_model user id) w (a, m) h)

  -- The end of a lease keeps the books and overdraws no account, whatever calls fail: if every balance
  -- is its opening one with all that the ledger records of it and none is negative, both still hold. An
  -- amount that is not negative is stored as one that is not.
  pub terminate_lease-IsSolvent :
      (law : IsArithmetic F) (sign : IsSigned F Time) (user id : ℕ) (opening : ℕ → ℤ)
      (w : World F Time)
      → IsBalanced opening w.db
      → IsSolvent w.db
      → IsBalanced opening (terminate_lease user id w).1.db
        × IsSolvent (terminate_lease user id w).1.db
  unfolding Outcome Removes IsBalanced IsSolvent balance_of
  terminate_lease-IsSolvent law sign user id opening w h k =
      elim (terminate_lease-atomic user id w) [
        | inl same ↦ rw same (h, k)
        | inr (_, _, _, _, (a, t, v, locked, free, booked, e)) ↦ rw e (
          Effect-IsBalanced debit user _ "opex" "lease_termination" t opening w.db v booked h,
          Effect-IsSolvent law sign debit user _ "opex" "lease_termination" t w.db v tt booked k,
        )
      ]

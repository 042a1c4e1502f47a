-- ===== src/Engine/Fleet/Purchase/Leasing.antt =====
-- What Lease leaves.
use skyward.Base.{
  ℕ, ◌≡◌, sym, ◌∙◌, subst, Option, none, some, String, List, nat_eq, string_eq, Bool-cases, ◌⊎◌,
  inl, inr,
}
use skyward.Base.Dict.{lookup}
use skyward.Float.{Float}
use skyward.Economy.Money.{less_than}
use skyward.Engine.Db.{Db, Platform, Model, lease}
use skyward.Engine.Tx.{Reply, Result, returned, err, World}
use skyward.Engine.Ledger.{balance_of}
use skyward.Engine.Service.{serve}
use skyward.Engine.Tx.Laws.{Contract, IsCalm, Read}
use skyward.Engine.Service.Laws.{
  RunsIf, Runs-bind, Runs-weaken, Runs-answer, Runs-query, Runs-transact, Finds, Finds-pre,
  Finds-Read, Transacts, serve-leaves_if,
}
use skyward.Engine.Service.Answers.{Runs-read_or}
use skyward.Engine.Fleet.{MutationResult, clock_of, cash_of}
use skyward.Engine.Fleet.TierGate.Opened.{Opens, Runs-check_tier_gate, Runs-generate_tail_number}
use skyward.Engine.Fleet.Purchase.{
  PurchaseParams, model_row, seats_fit, new_aircraft, deposit_of, hq_of, lease_answer, take_lease,
  lease_funded, lease_aircraft, base_share,
}
use skyward.Engine.Fleet.Purchase.Outcome.{Acquires, Triple-lease_tx}
use skyward.Engine.Fleet.Purchase.Deal.{Terms, Runs-unless_message, Runs-or_give_up}

module _ {F Time : Type 0} ⦃num : Float F⦄ ⦃p : Platform F Time⦄ where
  -- A lease in full: its terms, and the aircraft acquired for the deposit by the configured share, or by
  -- the fallback when none is configured or, unless `calm`, its query has failed.
  unfoldable pub Leases : Type 0 → ℕ → ℕ → PurchaseParams → Db F Time → Db F Time → Type 0
  Leases calm user id params c w =
      (m : Model F) × (share : Reply F) × (t : Time) × (tail : String) × Terms user params m c
      × Read calm (λ db. lookup "base_lease_deposit_percentage" db.config) share c
      × Acquires user id (deposit_of m share) "aircraft_lease_deposit"
          (new_aircraft lease user params m tail) t c w

  module _ (calm : Type 0) (draws : ℕ → String) (user id : ℕ) (params : PurchaseParams) where
    Leased : MutationResult F → Db F Time → Db F Time → Type 0
    Leased r c w = (w ≡ c) ⊎ Leases calm user id params c w

    abbrev Rented : Contract F Time (MutationResult F)
    Rented = record { calm = calm; commits = Leased }

    -- The terms, while nothing is written.
    Agreed : Model F → Db F Time → Db F Time → Type 0
    Agreed m c w = (c ≡ w) × Terms user params m c

    -- The same, with the share that was read.
    Shared : Model F → Reply F → Db F Time → Db F Time → Type 0
    Shared m share c w =
        Agreed m c w × Read calm (λ db. lookup "base_lease_deposit_percentage" db.config) share c

    committed :
        (m : Model F) (share : Reply F) (t : Time) (tail : String)
        (result : Result (Option (MutationResult F))) (c w : Db F Time)
        → Transacts Leased
            (λ c w. Shared m share c w × (clock_of user c ≡ some t))
            (λ (r : Option (MutationResult F)).
              Acquires user id
                (deposit_of m share)
                "aircraft_lease_deposit"
                (new_aircraft lease user params m tail)
                t)
            result
            c
            w
        → (w ≡ c) ⊎ Leases calm user id params c w
    unfolding Transacts Leases Agreed Shared
    committed m share t tail result c w (v, h, inl same) = inl (same ∙ sym h.0.0.0)
    committed m share t tail result c w (v, h, inr (b, e, acquired)) = inr (
      m,
      share,
      t,
      tail,
      h.0.0.1,
      h.0.1,
      subst
          (λ x.
            Acquires user id (deposit_of m share) "aircraft_lease_deposit"
              (new_aircraft lease user params m tail) t x w)
          (sym h.0.0.0) acquired,
    )

    Runs-lease_answer :
        (names : List String) (cash : F) (result : Result (Option (MutationResult F)))
        → RunsIf Rented
            (λ c w. (w ≡ c) ⊎ Leases calm user id params c w)
            (lease_answer user names cash result)
            (λ b c w. Unit)
    unfolding lease_answer Leased
    Runs-lease_answer names cash (err e) = Runs-answer _ _ (λ c w h. h)
    Runs-lease_answer names cash (returned (some r)) = Runs-answer _ _ (λ c w h. h)
    Runs-lease_answer names cash (returned none) =
        Runs-bind _ _ (Runs-query _ (balance_of user)) (λ balance. Runs-answer _ _ (λ c w h.
          Finds-pre _ (λ c w. (w ≡ c) ⊎ Leases calm user id params c w) (balance_of user) balance c
            w h))

    Runs-take_lease :
        (m : Model F) (share : Reply F) (cash : F)
        → RunsIf Rented
            (Shared m share)
            (take_lease draws user id params m (deposit_of m share) cash)
            (λ b c w. Unit)
    unfolding take_lease Agreed Shared Leased
    Runs-take_lease m share cash =
        Runs-read_or _ _ (Shared m share) (λ c w h. inl (sym h.0.0)) (λ c w h. sym h.0.0)
          (λ t. Runs-bind _ _ (Runs-query _ (hq_of user)) (λ hq.
            Runs-weaken _
              (Finds-pre _ (λ c w. Shared m share c w × (clock_of user c ≡ some t)) (hq_of user) hq)
              (Runs-bind _ _ (Runs-generate_tail_number _ _ draws _) (λ drawn.
                Runs-bind _ _ (Runs-or_give_up _ _ drawn _ (λ c w h. inl (sym h.0.0.0))) (λ tail.
                  Runs-bind _ _ (Runs-transact _ _ _ (Triple-lease_tx user id _ _ t cash))
                    (λ result.
                      Runs-weaken _ (committed m share t tail result)
                        (Runs-lease_answer _ cash result)))))))

    shared :
        (m : Model F) (share : Reply F) (c w : Db F Time)
        → Finds Rented (Agreed m) base_share share c w
        → Shared m share c w
    unfolding Agreed Shared
    shared m share c w h =
        let (agreed, read) = Finds-Read Rented (Agreed m) base_share share c w h in
        (
          agreed,
          subst (λ x. Read calm (λ db. lookup "base_lease_deposit_percentage" db.config) share x)
              (sym agreed.0) read,
        )

    Runs-lease_funded :
        (m : Model F)
        → RunsIf Rented
            (λ c w.
              (c ≡ w)
              × (model_row params.model_id c ≡ some m)
              × Opens user m.min_credit_tier m.model_name c)
            (lease_funded draws user id params m)
            (λ b c w. Unit)
    unfolding lease_funded Agreed Shared Leased
    Runs-lease_funded m = elim (Bool-cases (seats_fit params m)) [
      | inr bad ↦ rw bad (Runs-answer _ _ (λ c w h. inl (sym h.0)))
      | inl fit ↦ rw fit (
          Runs-weaken _ (λ c w h. (h.0, record { found = h.1; admitted = h.2; seats = fit }))
            (Runs-bind _ _ (Runs-query _ {pre = Agreed m} base_share) (λ share.
              Runs-weaken _ (shared m share) (
                Runs-bind _ _ (Runs-query _ {pre = Shared m share} (balance_of user)) (λ balance.
                  Runs-weaken _ (Finds-pre _ (Shared m share) (balance_of user) balance)
                    (elim (Bool-cases (less_than (cash_of p.load balance) (deposit_of m share))) [
                      | inl poor ↦ rw poor (Runs-answer _ _ (λ c w h. inl (sym h.0.0)))
                      | inr funded ↦ rw funded (Runs-take_lease m share (cash_of p.load balance))
                    ]))))))
    ]

    Runs-lease_aircraft :
        RunsIf Rented (λ c w. c ≡ w) (lease_aircraft draws user id params) (λ b c w. Unit)
    unfolding lease_aircraft Leased
    Runs-lease_aircraft =
        Runs-read_or _ _ _ (λ c w h. inl (sym h)) (λ c w h. sym h)
          (λ m.
            Runs-bind _ _
              (Runs-check_tier_gate _ (λ c. model_row params.model_id c ≡ some m) user
                m.min_credit_tier m.model_name)
              (λ message.
                Runs-bind _ _
                  (Runs-unless_message _ _ user m.min_credit_tier m.model_name message _
                    (λ said c w h. inl (sym h)))
                  (λ n. Runs-lease_funded m)))

  -- Whatever calls of the database fail, Lease changes nothing, or it is done in full: the model's gate
  -- of credit tiers is open for the user, the seats fit the model, the deposit by its prices and the
  -- configured share is debited from the user under an entry of the ledger (a deposit that rounds to
  -- no cent is not), and one new row holds the leased aircraft, active and at condition 100. The share
  -- is 0.10 when none is configured, and it may be when some call fails.
  pub lease_aircraft-atomic :
      (draws : ℕ → String) (user id : ℕ) (params : PurchaseParams) (w : World F Time)
      → let out = serve (lease_aircraft draws user id params) w in
        (out.1.db ≡ w.db) ⊎ Leases (IsCalm w.calls) user id params w.db out.1.db
  unfolding Leased
  lease_aircraft-atomic draws user id params w =
      serve-leaves_if (Rented (IsCalm w.calls) draws user id params)
        (lease_aircraft draws user id params)
        (Runs-lease_aircraft (IsCalm w.calls) draws user id params) w (λ calm. calm)

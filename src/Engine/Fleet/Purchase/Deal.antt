-- ===== src/Engine/Fleet/Purchase/Deal.antt =====
-- What Purchase leaves.
use skyward.Base.{
  ℕ, ◌≡◌, sym, ◌∙◌, subst, true, Option, none, some, String, nat_eq, Bool-cases, ◌⊎◌, inl, inr,
}
use skyward.Float.{Float}
use skyward.Economy.Money.{less_than}
use skyward.Engine.Db.{Db, Platform, Model, purchase}
use skyward.Engine.Tx.{Result, World}
use skyward.Engine.Ledger.{balance_of}
use skyward.Engine.Service.{serve}
use skyward.Engine.Tx.Laws.{Contract}
use skyward.Engine.Service.Laws.{
  RunsIf, Runs, Runs-bind, Runs-weaken, Runs-answer, Runs-give, Runs-query, Runs-transact,
  Finds-pre, Transacts, serve-leaves,
}
use skyward.Engine.Service.Answers.{Runs-read_or}
use skyward.Engine.Fleet.{Message, MutationResult, clock_of, cash_of}
use skyward.Engine.Fleet.TierGate.Opened.{
  Opens, Allows, Gated, Runs-check_tier_gate, Runs-generate_tail_number,
}
use skyward.Engine.Fleet.Purchase.{
  PurchaseParams, model_row, seats_fit, new_aircraft, hq_of, unless_message, or_give_up,
  bought_answer, buy, purchase_funded, purchase_aircraft,
}
use skyward.Engine.Fleet.Purchase.Outcome.{Acquires, Triple-purchase_tx}

module _ {F Time : Type 0} ⦃num : Float F⦄ where
  -- The model is there, the gate of credit tiers is open for the user, and the seats fit the model.
  pub record Terms (user : ℕ) (params : PurchaseParams) (m : Model F) (c : Db F Time) : Type 0 where
    pub found : model_row params.model_id c ≡ some m
    pub admitted : Opens user m.min_credit_tier m.model_name c
    pub seats : seats_fit params m ≡ true

  -- After the model's row is read.
  abbrev Read : ℕ → PurchaseParams → Model F → Db F Time → Type 0
  Read user params m c =
      (model_row params.model_id c ≡ some m) × Opens user m.min_credit_tier m.model_name c

module _ {F Time R : Type 0} (k : Contract F Time R) where
  -- A message is answered; none goes on.
  pub Runs-unless_message :
      (Q : Db F Time → Type 0) (user : ℕ) (min_tier model_name : String)
      (message : Option (Message F)) (r : Message F → R)
      → ((said : Message F) (c w : Db F Time) → c ≡ w → k.commits (r said) c w)
      → RunsIf k
          (Gated k Q user min_tier model_name message)
          (unless_message message r)
          (λ n c w. (c ≡ w) × Q c × Opens user min_tier model_name c)
  unfolding Allows
  Runs-unless_message Q user min_tier model_name none r h =
      Runs-give _ _ (λ c w h. (h.0.0, h.0.1, h.1))
  Runs-unless_message Q user min_tier model_name (some said) r h =
      Runs-answer _ _ (λ c w g. h said c w g.0.0)

  pub Runs-or_give_up :
      (pre : Db F Time → Db F Time → Type 0) (drawn : Option String) (r : R)
      → ((c w : Db F Time) → pre c w → k.commits r c w)
      → RunsIf k pre (or_give_up drawn r) (λ tail. pre)
  Runs-or_give_up pre none r h = Runs-answer _ r h
  Runs-or_give_up pre (some tail) r h = Runs-give _ tail (λ c w g. g)

module _ {F Time : Type 0} ⦃num : Float F⦄ ⦃p : Platform F Time⦄ where
  -- A purchase in full: its terms, and the aircraft acquired for the model's price.
  unfoldable pub Buys : ℕ → ℕ → PurchaseParams → Db F Time → Db F Time → Type 0
  Buys user id params c w =
      (m : Model F) × (t : Time) × (tail : String) × Terms user params m c
      × Acquires user id m.purchase_price "aircraft_purchase"
          (new_aircraft purchase user params m tail) t c w

  module _ (draws : ℕ → String) (user id : ℕ) (params : PurchaseParams) where
    Bought : MutationResult F → Db F Time → Db F Time → Type 0
    Bought r c w = (w ≡ c) ⊎ Buys user id params c w

    -- The terms, while nothing is written.
    Agreed : Model F → Db F Time → Db F Time → Type 0
    Agreed m c w = (c ≡ w) × Terms user params m c

    committed :
        (m : Model F) (t : Time) (tail : String) (cash : F) (result : Result (MutationResult F))
        (c w : Db F Time)
        → Transacts Bought
            (λ c w. Agreed m c w × (clock_of user c ≡ some t))
            (λ (r : MutationResult F).
              Acquires user id m.purchase_price "aircraft_purchase"
                (new_aircraft purchase user params m tail)
                t)
            result
            c
            w
        → Bought (bought_answer cash result) c w
    unfolding Transacts Bought Buys Agreed
    committed m t tail cash result c w (v, h, inl same) = inl (same ∙ sym h.0.0)
    committed m t tail cash result c w (v, h, inr (b, e, acquired)) = inr (
      m,
      t,
      tail,
      h.0.1,
      subst
          (λ x.
            Acquires user id m.purchase_price "aircraft_purchase"
              (new_aircraft purchase user params m tail) t x w)
          (sym h.0.0) acquired,
    )

    Runs-buy :
        (m : Model F) (cash : F)
        → Runs Bought (Agreed m) (buy draws user id params m cash) (λ b c w. Unit)
    unfolding buy Agreed Bought
    Runs-buy m cash =
        Runs-read_or _ _ (Agreed m) (λ c w h. inl (sym h.0)) (λ c w h. sym h.0)
          (λ t. Runs-bind _ _ (Runs-query _ (hq_of user)) (λ hq.
            Runs-weaken _
              (Finds-pre _ (λ c w. Agreed m c w × (clock_of user c ≡ some t)) (hq_of user) hq)
              (Runs-bind _ _ (Runs-generate_tail_number _ _ draws _) (λ drawn.
                Runs-bind _ _ (Runs-or_give_up _ _ drawn _ (λ c w h. inl (sym h.0.0))) (λ tail.
                  Runs-bind _ _ (Runs-transact _ _ _ (Triple-purchase_tx user id _ _ t _ cash))
                    (λ result. Runs-answer _ _ (committed m t tail cash result)))))))

    Runs-purchase_funded :
        (m : Model F)
        → Runs Bought
            (λ c w.
              (c ≡ w)
              × (model_row params.model_id c ≡ some m)
              × Opens user m.min_credit_tier m.model_name c)
            (purchase_funded draws user id params m)
            (λ b c w. Unit)
    unfolding purchase_funded Agreed Bought
    Runs-purchase_funded m = elim (Bool-cases (seats_fit params m)) [
      | inr bad ↦ rw bad (Runs-answer _ _ (λ c w h. inl (sym h.0)))
      | inl fit ↦ rw fit (
          Runs-weaken _ (λ c w h. (h.0, record { found = h.1; admitted = h.2; seats = fit }))
            (Runs-bind _ _ (Runs-query _ {pre = Agreed m} (balance_of user)) (λ balance.
              Runs-weaken _ (Finds-pre _ (Agreed m) (balance_of user) balance)
                (elim (Bool-cases (less_than (cash_of p.load balance) m.purchase_price)) [
                  | inl poor ↦ rw poor (Runs-answer _ _ (λ c w h. inl (sym h.0)))
                  | inr funded ↦ rw funded (Runs-buy m (cash_of p.load balance))
                ]))))
    ]

    -- Whatever calls of the database fail, Purchase changes nothing, or it is done in full: the model's
    -- gate of credit tiers is open for the user, the seats fit the model, its price is debited from the
    -- user under an entry of the ledger (a price that rounds to no cent is not), and one new row holds
    -- the aircraft, active and at condition 100.
    pub purchase_aircraft-atomic :
        (w : World F Time)
        → let out = serve (purchase_aircraft draws user id params) w in
          (out.1.db ≡ w.db) ⊎ Buys user id params w.db out.1.db
    unfolding purchase_aircraft Bought
    purchase_aircraft-atomic w =
        serve-leaves Bought (purchase_aircraft draws user id params)
          (Runs-read_or _ _ _ (λ c w h. inl (sym h)) (λ c w h. sym h)
            (λ m.
              Runs-bind _ _
                (Runs-check_tier_gate _ (λ c. model_row params.model_id c ≡ some m) user
                  m.min_credit_tier m.model_name)
                (λ message.
                  Runs-bind _ _
                    (Runs-unless_message _ _ user m.min_credit_tier m.model_name message _
                      (λ said c w h. inl (sym h)))
                    (λ n. Runs-purchase_funded m))))
          w

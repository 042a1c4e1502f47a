-- ===== src/Engine/Fleet/Removal.antt =====
-- The transaction that sale and termination share: an aircraft that flies no route is removed and an
-- amount is booked.
use skyward.Base.{
  String, ℕ, ◌≡◌, Bool, false, Option, some, nat_eq, arith, Option-cases, Bool-cases, ◌∙◌, sym, inl,
  inr, ap, subst,
}
use skyward.Float.{Float}
use skyward.Engine.Db.{Db, Platform, Aircraft, owned_aircraft, is_assigned}
use skyward.Engine.Tx.{
  Reply, ok, done, Verdict, Tx, World, statement, pool_query, or_return, or_zero, return, succeeds,
  ◌>>=◌,
}
use skyward.Engine.Tx.Laws.{
  Refuses, Triple, Replies, PoolReplies-pre, Triple-bind, Triple-statement, Triple-pool_query,
  Triple-or_return, Triple-done, Triple-weaken,
}
use skyward.Engine.Ledger.{Direction, read_with, apply_tx}
use skyward.Engine.Ledger.Laws.{
  Effect, Effect-fleet, owned_aircraft_same, Applies, Triple-apply_tx, read_with-same,
}
use skyward.Engine.Fleet.{
  MutationResult, without_aircraft, delete_aircraft, clock_of, assigned_row, ask,
}

module _ {F Time : Type 0} ⦃num : Float F⦄ ⦃p : Platform F Time⦄ where
  -- A removal in full: the aircraft is the user's and flies no route, an amount is booked in a
  -- direction with its entry, and the row is deleted.
  unfoldable pub Removes :
      Direction → ℕ → ℕ → F → String → String → MutationResult F → Db F Time → Db F Time → Type 0
  Removes d user id amount category subcategory r c w =
      (a : Aircraft F Time) × (t : Time) × (v : Db F Time) × (owned_aircraft user id c ≡ some a)
      × (is_assigned user id c ≡ false)
      × Effect d user amount category subcategory t c v
      × (w ≡ without_aircraft id v)

  delete_aircraft-some :
      (user id n : ℕ) (a : Aircraft F Time) (v w : Db F Time)
      → owned_aircraft user id v ≡ some a
      → delete_aircraft user id v ≡ some (n, w)
      → w ≡ without_aircraft id v
  unfolding delete_aircraft
  delete_aircraft-some user id n a v w e h = ground (arith, h, e)

  module _ (d : Direction) (user id : ℕ) (amount : F) (category subcategory : String) where
    pub Locked : Aircraft F Time → Db F Time → Db F Time → Type 0
    Locked a c w = (c ≡ w) × (owned_aircraft user id c ≡ some a)

    pub Free : Aircraft F Time → Bool → Db F Time → Db F Time → Type 0
    Free a assigned c w =
        (c ≡ w) × (owned_aircraft user id c ≡ some a) × (is_assigned user id c ≡ assigned)

    Booked : Aircraft F Time → Time → Reply F → Db F Time → Db F Time → Type 0
    Booked a t =
        Applies (Removes d user id amount category subcategory) (Free a false) d user amount
          category subcategory t

    Booked-Removes :
        (a : Aircraft F Time) (t : Time) (new_cash : F) (n : ℕ) (r : MutationResult F)
        (c w : Db F Time)
        → Replies
            (Removes d user id amount category subcategory)
            (Booked a t (ok new_cash))
            (delete_aircraft user id)
            (ok n)
            c
            w
        → Removes d user id amount category subcategory r c w
    unfolding Booked Applies Replies Removes Free
    Booked-Removes a t new_cash n r c w (v, (v0, (same, locked, free), booked), deleted) = (
      a,
      t,
      v,
      locked,
      free,
      subst (λ x. Effect d user amount category subcategory t x v) (sym same) booked,
      delete_aircraft-some user id n a v w
          (owned_aircraft_same user id v0 v
              (Effect-fleet d user amount category subcategory t v0 v booked)
            ∙ ap (owned_aircraft user id) (sym same)
            ∙ locked)
          deleted,
    )

    pub Triple-removal :
        (a : Aircraft F Time) (refused_booking refused_deletion : Verdict (MutationResult F))
        (answer : F → MutationResult F)
        → Refuses refused_booking
        → Refuses refused_deletion
        → Triple
            (Removes d user id amount category subcategory)
            (Free a false)
            (pool_query (clock_of user) >>= λ clock.
              apply_tx d user amount category subcategory (or_zero clock p.zero_time) >>= λ booked.
              or_return booked refused_booking >>= λ new_cash.
              statement (delete_aircraft user id) >>= λ deleted.
              or_return deleted refused_deletion >>= λ n. return (done (answer new_cash)))
            (λ (b : ⊥) c w. Unit)
    unfolding Booked
    Triple-removal a refused_booking refused_deletion answer n1 n2 =
        Triple-bind _ _ (Triple-pool_query _ (clock_of user)) (λ clock.
          Triple-weaken _ (PoolReplies-pre _ (Free a false) (clock_of user) clock) (
            Triple-bind _ _ (Triple-apply_tx _ (Free a false) d user amount category subcategory _)
              (λ booked.
                Triple-bind _ _
                  (Triple-or_return _ (Booked a (or_zero clock p.zero_time)) booked refused_booking
                    n1)
                  (λ new_cash.
                    Triple-bind _ _ (Triple-statement _ (delete_aircraft user id)) (λ deleted.
                      Triple-bind _ _
                        (Triple-or_return _
                          (Replies _ (Booked a (or_zero clock p.zero_time) (ok new_cash))
                            (delete_aircraft user id))
                          deleted refused_deletion n2)
                        (λ n.
                          Triple-done _ _
                            (Booked-Removes a (or_zero clock p.zero_time) new_cash n _)))))))

    pub read_Locked :
        (a : Aircraft F Time) (c v w : Db F Time)
        → c ≡ v
        → read_with (owned_aircraft user id) v ≡ some (a, w)
        → Locked a c w
    unfolding Locked
    read_Locked a c v w same read = elim (Option-cases (owned_aircraft user id v)) [
      | inl n ↦ absurd (ground (arith, read, n))
      | inr (x, e) ↦ (
        same ∙ sym (read_with-same (owned_aircraft user id) v w a read),
        ap (owned_aircraft user id) same ∙ e ∙ ground (arith, read, e),
      )
    ]

    pub read_Free :
        (a : Aircraft F Time) (assigned : Bool) (c v w : Db F Time)
        → Locked a c v
        → read_with (assigned_row user id) v ≡ some (assigned, w)
        → Free a assigned c w
    unfolding Locked Free
    read_Free a assigned c v w (same, locked) read = (
      same ∙ sym (read_with-same (assigned_row user id) v w assigned read),
      locked,
      ap (is_assigned user id) same ∙ ground (arith, read),
    )

    -- The two checks under the row lock, before `k` goes on.
    pub Triple-checked :
        (no_aircraft no_check : Verdict (MutationResult F))
        (k : Bool → Tx F Time (MutationResult F) ⊥)
        → Refuses no_aircraft
        → Refuses no_check
        → ((a : Aircraft F Time) (assigned : Bool)
            → Triple
                (Removes d user id amount category subcategory)
                (Free a assigned)
                (k assigned)
                (λ b c w. Unit))
        → Triple
            (Removes d user id amount category subcategory)
            (λ c w. c ≡ w)
            (statement (read_with (owned_aircraft user id)) >>= λ row.
              or_return row no_aircraft >>= λ a.
              statement (read_with (assigned_row user id)) >>= λ check.
              or_return check no_check >>= λ assigned. k assigned)
            (λ (b : ⊥) c w. Unit)
    unfolding Replies
    Triple-checked no_aircraft no_check k n1 n2 go =
        Triple-bind _ _ (Triple-statement _ (read_with (owned_aircraft user id))) (λ row.
          Triple-bind _ _
            (Triple-or_return _
              (Replies (Removes d user id amount category subcategory) (λ c w. c ≡ w)
                (read_with (owned_aircraft user id)))
              row no_aircraft n1)
            (λ a.
              Triple-weaken _ (λ c w (v, same, read). read_Locked a c v w same read)
                (Triple-bind _ _ (Triple-statement _ (read_with (assigned_row user id))) (λ check.
                  Triple-bind _ _
                    (Triple-or_return _
                      (Replies (Removes d user id amount category subcategory) (Locked a)
                        (read_with (assigned_row user id)))
                      check no_check n2)
                    (λ assigned.
                      Triple-weaken _
                        (λ c w (v, locked, read). read_Free a assigned c v w locked read)
                        (go a assigned))))))

  pub asked-some :
      {A : Type 0} (f : Db F Time → Option A) (w : World F Time) (a : A)
      → ask f w ≡ ok a
      → f w.db ≡ some a
  asked-some f w a h = elim (Bool-cases (succeeds w.calls)) [
    | inl e ↦ elim (Option-cases (f w.db)) [
      | inl n ↦ absurd (ground (arith, h, n, e))
      | inr (b, n) ↦ ground (arith, h, n, e)
    ]
    | inr e ↦ absurd (ground (arith, h, e))
  ]

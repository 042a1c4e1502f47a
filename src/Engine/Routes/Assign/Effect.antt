-- ===== src/Engine/Routes/Assign/Effect.antt =====
-- What the transaction of Assign commits.
use skyward.Base.{
  ℕ, ◌≡◌, refl, sym, subst, true, false, some, nat_eq, string_eq, Bool-cases, inl, inr,
}
use skyward.Base.Dict.{lookup}
use skyward.Float.{Float, ◌⋖◌, whole}
use skyward.Engine.Db.{Db, Platform, Aircraft, Model, Route, aircraft_with_model}
use skyward.Engine.Tx.{Reply, or_zero, statement, or_return, return, done, reject, ◌>>=◌}
use skyward.Engine.Tx.Laws.{
  Contract, TripleIf, Read, Replies, Triple-bind, Triple-statement, Triple-or_return, Triple-refuse,
  Triple-done, Triple-weaken,
}
use skyward.Engine.Ledger.Reads.{Triple-read, Triple-ask}
use skyward.Engine.Fleet.{MutationResult}
use skyward.Engine.Routes.{
  refusal, ceil, calc_max_weekly_flights, exceeds, turnaround_of, update_route,
}
use skyward.Engine.Routes.Assign.Checks.{
  is_grounded, with_aircraft, flies_elsewhere, assign_free, assign_checked, assign_tx,
}

module _ {F Time : Type 0} ⦃num : Float F⦄ ⦃p : Platform F Time⦄ where
  -- The aircraft is fit for the route: above the threshold, in range, within its hours in a week by the
  -- configured limit, not grounded, and on no other route of the user. The limit is 168 when none is
  -- configured or, unless `calm`, its query has failed.
  pub record Fit (calm : Type 0) (user route aircraft : ℕ) (r : Route F) (threshold : F)
      (a : Aircraft F Time) (m : Model F) (c : Db F Time) : Type 0 where
    pub limit : Reply F
    pub configured : Read calm (λ db. lookup "max_weekly_flights" db.config) limit c
    pub found : aircraft_with_model user aircraft c ≡ some (a, m)
    pub safe : (a.condition ⋖ threshold) ≡ false
    pub near : (num.of_int m.range_km ⋖ ceil r.distance_km) ≡ false
    pub often :
        exceeds r.flights_per_week (
          calc_max_weekly_flights r.distance_km m.speed_kmh
            (turnaround_of m)
            (or_zero limit (whole 168)))
        ≡ false
    pub free : flies_elsewhere user aircraft route c ≡ some false
    pub ready : is_grounded a.status ≡ false

  -- What the transaction commits: the aircraft is fit, and the update of the route's row.
  unfoldable pub Assigns :
      Type 0 → ℕ → ℕ → ℕ → Route F → F → MutationResult F → Db F Time → Db F Time → Type 0
  Assigns calm user route aircraft r threshold result c w =
      (a : Aircraft F Time) × (m : Model F) × (n : ℕ) × (result.success ≡ true)
      × Fit calm user route aircraft r threshold a m c
      × (update_route user route (with_aircraft aircraft) c ≡ some (n, w))

  module _ (calm : Type 0) (user route aircraft : ℕ) (r : Route F) (threshold : F) where
    abbrev Sets : Contract F Time (MutationResult F)
    Sets = record { calm = calm; commits = Assigns calm user route aircraft r threshold }

    Ready : Aircraft F Time → Model F → Db F Time → Db F Time → Type 0
    Ready a m c w = (c ≡ w) × Fit calm user route aircraft r threshold a m c

    Triple-written :
        (a : Aircraft F Time) (m : Model F) (refusal good : MutationResult F)
        → good.success ≡ true
        → TripleIf Sets
            (Ready a m)
            (statement (update_route user route (with_aircraft aircraft))
              >>= (λ updated. or_return updated (reject refusal) >>= (λ n. return (done good))))
            (λ (b : ⊥) c w. Unit)
    unfolding Replies Assigns Ready
    Triple-written a m refusal good e = Triple-bind _ _ (Triple-statement _ _) (λ updated.
        Triple-bind _ _
          (Triple-or_return _
            (Replies (Assigns calm user route aircraft r threshold) (Ready a m)
              (update_route user route (with_aircraft aircraft)))
            updated _ tt)
          (λ n. Triple-done _ good (λ c w (v, (same, fit), written). (
            a,
            m,
            n,
            e,
            fit,
            subst (λ x. update_route user route (with_aircraft aircraft) x ≡ some (n, w)) (sym same)
                written,
          ))))

    Checked : Aircraft F Time → Model F → Reply F → Db F Time → Db F Time → Type 0
    Checked a m limit c w =
        (c ≡ w)
        × (aircraft_with_model user aircraft c ≡ some (a, m))
        × ((a.condition ⋖ threshold) ≡ false)
        × ((num.of_int m.range_km ⋖ ceil r.distance_km) ≡ false)
        × (exceeds r.flights_per_week (
              calc_max_weekly_flights r.distance_km m.speed_kmh (turnaround_of m)
                (or_zero limit (whole 168)))
            ≡ false)
        × Read calm (λ db. lookup "max_weekly_flights" db.config) limit c

    Triple-assign_free :
        (a : Aircraft F Time) (m : Model F) (limit : Reply F)
        → TripleIf Sets (Checked a m limit) (assign_free user route aircraft r a) (λ b c w. Unit)
    unfolding assign_free Checked Ready
    Triple-assign_free a m limit =
        Triple-read _ _ _ tt (λ c w h. h.0)
          (λ assigned. elim (Bool-cases assigned) [
            | inl busy ↦ rw busy (Triple-refuse _ _ tt)
            | inr free ↦ elim (Bool-cases (is_grounded a.status)) [
              | inl down ↦ rw (free, down) (Triple-refuse _ _ tt)
              | inr up ↦
                  rw (free, up)
                    (Triple-weaken _
                      (λ c w (h, asked). (
                        h.0,
                        record {
                          limit = limit;
                          configured = h.5;
                          found = h.1;
                          safe = h.2;
                          near = h.3;
                          often = h.4;
                          free = asked;
                          ready = up;
                        },
                      ))
                      (Triple-written a m _ _ refl))
            ]
          ])

    Triple-assign_checked :
        (a : Aircraft F Time) (m : Model F)
        → TripleIf Sets
            (λ c w. (c ≡ w) × (aircraft_with_model user aircraft c ≡ some (a, m)))
            (assign_checked user route aircraft r threshold a m)
            (λ b c w. Unit)
    unfolding assign_checked Checked
    Triple-assign_checked a m = elim (Bool-cases (a.condition ⋖ threshold)) [
      | inl worn ↦ rw worn (Triple-refuse _ _ tt)
      | inr safe ↦ elim (Bool-cases (num.of_int m.range_km ⋖ ceil r.distance_km)) [
        | inl far ↦ rw (safe, far) (Triple-refuse _ _ tt)
        | inr near ↦
            rw (safe, near)
              (Triple-ask _ _ (λ limit.
                elim (Bool-cases (
                  exceeds r.flights_per_week (
                    calc_max_weekly_flights r.distance_km m.speed_kmh (turnaround_of m)
                      (or_zero limit (whole 168))))) [
                        | inl many ↦ rw many (Triple-refuse _ _ tt)
                        | inr few ↦ rw few (
                            Triple-weaken _ (λ c w h. (h.0.0, h.0.1, safe, near, few, h.1))
                              (Triple-assign_free a m limit))
                      ]))
      ]
    ]

    pub Triple-assign_tx :
        TripleIf Sets (λ c w. c ≡ w) (assign_tx user route aircraft r threshold) (λ b c w. Unit)
    unfolding assign_tx
    Triple-assign_tx =
        Triple-read _ _ _ tt (λ c w h. h) (λ found. Triple-assign_checked found.0 found.1)

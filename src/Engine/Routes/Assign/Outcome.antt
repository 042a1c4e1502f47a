-- ===== src/Engine/Routes/Assign/Outcome.antt =====
-- What Assign leaves (apps/api/internal/engine/routes.go).
use skyward.Base.{ℕ, nat_eq, ◌≡◌, refl, sym, ◌∙◌, subst, true, Option, none, some, ◌⊎◌, inl, inr}
use skyward.Base.Dict.{insert}
use skyward.Float.{Float}
use skyward.Engine.Db.{Db, Platform, Aircraft, Model, Route, unassigned}
use skyward.Engine.Tx.{Result, World}
use skyward.Engine.Service.{serve}
use skyward.Engine.Tx.Laws.{Contract, IsCalm}
use skyward.Engine.Service.Laws.{
  RunsIf, Runs-bind, Runs-answer, Runs-transact, Transacts, serve-leaves_if,
}
use skyward.Engine.Service.Answers.{Runs-read_or, Runs-write_or}
use skyward.Engine.Fleet.{MutationResult}
use skyward.Engine.Routes.{route_of, update_route, with_routes}
use skyward.Engine.Routes.Fitting.{update_route-some}
use skyward.Engine.Routes.Assign.{assign, assign_found, assign_within, unassign, assigned_answer}
use skyward.Engine.Routes.Assign.Checks.{with_aircraft, safety_threshold}
use skyward.Engine.Routes.Assign.Effect.{Fit, Assigns, Triple-assign_tx}

module _ {F Time : Type 0} ⦃num : Float F⦄ ⦃p : Platform F Time⦄ where
  -- The route's aircraft is taken off, or one is put on that is fit for it.
  unfoldable pub Sets :
      Type 0 → ℕ → ℕ → Option ℕ → MutationResult F → Db F Time → Db F Time → Type 0
  Sets calm user route none result c w =
      (r : Route F) × (result.success ≡ true)
      × (route_of user route c ≡ some r)
      × (w ≡ with_routes (insert route (unassigned r) c.routes) c)
  Sets calm user route (some aircraft) result c w =
      (r : Route F) × (threshold : F) × (a : Aircraft F Time) × (m : Model F) × (result.success
        ≡ true)
      × (route_of user route c ≡ some r)
      × (safety_threshold user c ≡ some threshold)
      × Fit calm user route aircraft r threshold a m c
      × (w ≡ with_routes (insert route (with_aircraft aircraft r) c.routes) c)

  Leaves : Type 0 → ℕ → ℕ → Option ℕ → MutationResult F → Db F Time → Db F Time → Type 0
  Leaves calm user route aircraft result c w = (w ≡ c) ⊎ Sets calm user route aircraft result c w

  abbrev Setting : Type 0 → ℕ → ℕ → Option ℕ → Contract F Time (MutationResult F)
  Setting calm user route aircraft = record {
    calm = calm;
    commits = Leaves calm user route aircraft;
  }

  Runs-unassign :
      {calm : Type 0} (user route : ℕ) (r : Route F)
      → RunsIf
          (Setting calm user route none)
          (λ c w. (c ≡ w) × (route_of user route c ≡ some r))
          (unassign user route)
          (λ b c w. Unit)
  unfolding unassign Sets Leaves
  Runs-unassign user route r =
      Runs-write_or _ _ _ (λ c w h. inl (sym h.0)) (λ c w h. sym h.0)
        (λ c w n h written.
          inr (r, refl, h.1, (update_route-some user route n unassigned r c w h.1 written).1))

  answered :
      (calm : Type 0) (user route aircraft : ℕ) (r : Route F) (threshold : F)
      (result : Result (MutationResult F)) (c w : Db F Time)
      → Transacts
          (Leaves calm user route (some aircraft))
          (λ c w.
            ((c ≡ w) × (route_of user route c ≡ some r))
            × (safety_threshold user c ≡ some threshold))
          (Assigns calm user route aircraft r threshold)
          result
          c
          w
      → Leaves calm user route (some aircraft) (assigned_answer result) c w
  unfolding Transacts Leaves Sets Assigns
  answered calm user route aircraft r threshold result c w (v, h, inl same) = inl (same ∙ sym h.0.0)
  answered calm user route aircraft r threshold result c w
        (v, h, inr (b, e, (a, m, n, good, fit, written))) =
      rw e (
        inr (
          r,
          threshold,
          a,
          m,
          good,
          h.0.1,
          h.1,
          subst (Fit calm user route aircraft r threshold a m) (sym h.0.0) fit,
          (update_route-some user route n (with_aircraft aircraft) r c w h.0.1 (
              subst (λ x. update_route user route (with_aircraft aircraft) x ≡ some (n, w))
                (sym h.0.0) written)).1,
        ))

  Runs-assign_within :
      {calm : Type 0} (user route aircraft : ℕ) (r : Route F)
      → RunsIf
          (Setting calm user route (some aircraft))
          (λ c w. (c ≡ w) × (route_of user route c ≡ some r))
          (assign_within user route aircraft r)
          (λ b c w. Unit)
  unfolding assign_within Leaves
  Runs-assign_within user route aircraft r =
      Runs-read_or _ _ _ (λ c w h. inl (sym h.0)) (λ c w h. sym h.0)
        (λ threshold.
          Runs-bind _ _ (Runs-transact _ _ _ (Triple-assign_tx _ user route aircraft r threshold))
            (λ result. Runs-answer _ _ (answered _ user route aircraft r threshold result)))

  Runs-assign_found :
      {calm : Type 0} (user route : ℕ) (aircraft : Option ℕ) (r : Route F)
      → RunsIf
          (Setting calm user route aircraft)
          (λ c w. (c ≡ w) × (route_of user route c ≡ some r))
          (assign_found user route aircraft r)
          (λ b c w. Unit)
  unfolding assign_found
  Runs-assign_found user route none r = Runs-unassign user route r
  Runs-assign_found user route (some aircraft) r = Runs-assign_within user route aircraft r

  pub assign-leaves :
      (user route : ℕ) (aircraft : Option ℕ) (w : World F Time)
      → let out = serve (assign user route aircraft) w in
        (out.1.db ≡ w.db) ⊎ Sets (IsCalm w.calls) user route aircraft out.0 w.db out.1.db
  unfolding assign Leaves
  assign-leaves user route aircraft w =
      serve-leaves_if (Setting (IsCalm w.calls) user route aircraft) (assign user route aircraft)
        (Runs-read_or _ _ _ (λ c w h. inl (sym h)) (λ c w h. sym h)
          (Runs-assign_found user route aircraft))
        w (λ calm. calm)

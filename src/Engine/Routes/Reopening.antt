-- ===== src/Engine/Routes/Reopening.antt =====
-- A route that was closed (apps/api/internal/engine/routes.go, Create and Delete).
use skyward.Base.{
  ℕ, ◌≡◌, ap, ◌∙◌, true, false, some, nat_eq, string_eq, arith, Bool-cases, inl, inr, beq_refl,
}
use skyward.Base.Dict.{lookup, any_row, any_row-lookup, lookup-insert}
use skyward.Float.{Float}
use skyward.Engine.Db.{Platform, Route}
use skyward.Engine.Tx.{World}
use skyward.Engine.Service.{serve}
use skyward.Engine.Routes.{
  Geometry, CreateRouteParams, has_ends, insert_route, route_of, cancel, create, delete,
}
use skyward.Engine.Routes.Fitting.{route_of-lookup}
use skyward.Engine.Routes.Changes.{Creates, Closes, create-Answers, delete-Answers}

module _ {F Time : Type 0} ⦃num : Float F⦄ ⦃p : Platform F Time⦄ ⦃geo : Geometry F⦄ where
  -- The check for a duplicate, and the unique index, count a route of any status.
  create_twice :
      (user id k : ℕ) (params : CreateRouteParams F) (r : Route F) (w : World F Time)
      → lookup k w.db.routes ≡ some r
      → has_ends user params.origin params.destination k r ≡ true
      → let out = serve (create user id params) w in (out.0.success ≡ false) × (out.1.db ≡ w.db)
  unfolding Creates insert_route
  create_twice user id k params r w here ends = elim (create-Answers user id params w) [
    | inl kept ↦ kept
    | inr (served, (admitted, written)) ↦
        absurd
          (elim (Bool-cases
            (any_row (has_ends user params.origin params.destination) w.db.routes)) [
              | inl dup ↦ ground (arith, written, dup)
              | inr new ↦ ground (
                arith,
                any_row-lookup (has_ends user params.origin params.destination) k r w.db.routes new
                    here,
                ends,
              )
            ])
  ]

  -- Closing a route does not free its ends: after a request to close a route that the user has, a
  -- request to create one with the same ends is refused and changes nothing, whatever calls of the
  -- database fail in either.
  pub reopen_refused :
      (user id k : ℕ) (params : CreateRouteParams F) (r : Route F) (w : World F Time)
      → route_of user k w.db ≡ some r
      → r.origin_iata ≡ params.origin
      → r.destination_iata ≡ params.destination
      → let closed = (serve (delete user k) w).1 in
        let out = serve (create user id params) closed in
        (out.0.success ≡ false) × (out.1.db ≡ closed.db)
  unfolding Closes
  reopen_refused user id k params r w mine o d =
      let (here, own) = route_of-lookup user k r w.db mine in
      let ends : has_ends user params.origin params.destination k r ≡ true = ground (
        arith,
        nat_eq.equal_iff r.user_id user,
        string_eq.equal_iff r.origin_iata params.origin,
        string_eq.equal_iff r.destination_iata params.destination,
        own,
        o,
        d,
      ) in
      elim (delete-Answers user k w) [
        | inl (refused, same) ↦
            create_twice user id k params r (serve (delete user k) w).1
              (ap (λ x. lookup k x.routes) same ∙ here) ends
        | inr (served, (s, found, e)) ↦
            let s_r : s ≡ r = ground (arith, found, mine) in
            create_twice user id k params (cancel s) (serve (delete user k) w).1
              (ap (λ x. lookup k x.routes) e
                ∙ ground (arith, lookup-insert k k (cancel s) w.db.routes, beq_refl k))
              (ap (has_ends user params.origin params.destination k) s_r ∙ ends)
      ]

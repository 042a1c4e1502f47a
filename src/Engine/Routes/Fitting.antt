-- ===== src/Engine/Routes/Fitting.antt =====
-- The rows that the operations on routes write, and what the fleet's writes leave of the routes.
use skyward.Base.{
  ℕ, ◌≡◌, sym, ap, ◌∙◌, subst, true, false, not, ◌==◌, ◌&&◌, ◌||◌, none, some, nat_eq, string_eq,
  arith, Bool-cases, Option-cases, inl, inr, beq_refl,
}
use skyward.Base.Dict.{lookup, insert, any_row, any_row-lookup}
use skyward.Engine.Db.{Db, Aircraft, Route, flies, owned_aircraft}
use skyward.Engine.Routes.{
  is_scheduled, with_routes, route_of, has_ends, insert_route, update_route,
}
use skyward.Engine.Routes.Rows.{
  IsLinked, IsExclusive, IsTimetabled, IsDistinct, IsSound, written-IsSound,
}

module _ {F Time : Type 0} where
  pub route_of-lookup :
      (user id : ℕ) (r : Route F) (c : Db F Time)
      → route_of user id c ≡ some r
      → (lookup id c.routes ≡ some r) × (r.user_id ≡ user)
  unfolding route_of
  route_of-lookup user id r c h = elim (Option-cases (lookup id c.routes)) [
    | inl n ↦ absurd (ground (arith, h, n))
    | inr (s, e) ↦ elim (Bool-cases (s.user_id == user)) [
      | inl own ↦
          (ground (arith, h, e, own), ground (arith, h, e, own, nat_eq.equal_iff s.user_id user))
      | inr other ↦ absurd (ground (arith, h, e, other))
    ]
  ]

  -- An update of a route that the user has.
  pub update_route-some :
      (user id n : ℕ) (change : Route F → Route F) (r : Route F) (v w : Db F Time)
      → route_of user id v ≡ some r
      → update_route user id change v ≡ some (n, w)
      → (is_scheduled (change r).ticket_price (change r).flights_per_week ≡ true)
        × (w ≡ with_routes (insert id (change r) v.routes) v)
  unfolding update_route
  update_route-some user id n change r v w e h =
      elim (Bool-cases (is_scheduled (change r).ticket_price (change r).flights_per_week)) [
        | inl good ↦ (good, ground (arith, h, e, good))
        | inr bad ↦ absurd (ground (arith, h, e, bad))
      ]

  -- A new route flies no aircraft yet.
  pub insert_route-IsSound :
      (id n : ℕ) (r : Route F) (c w : Db F Time)
      → r.assigned_aircraft_id ≡ none
      → insert_route id r c ≡ some (n, w)
      → IsSound c
      → (w ≡ with_routes (insert id r c.routes) c) × IsSound w
  unfolding insert_route
  insert_route-IsSound id n r c w free h sound =
      elim (Bool-cases (
        any_row (λ k s. k == id) c.routes
        || any_row (has_ends r.user_id r.origin_iata r.destination_iata) c.routes
        || not (any_row (λ k u. k == r.user_id) c.users)
        || not (is_scheduled r.ticket_price r.flights_per_week))) [
          | inl bad ↦ absurd (ground (arith, h, bad))
          | inr good ↦
              let e : w ≡ with_routes (insert id r c.routes) c = ground (arith, h, good) in
              (
                e,
                subst IsSound (sym e) (
                    written-IsSound id r c
                      (record {
                        aircraft = λ a e. absurd (ground (arith, free));
                        alone = λ a k s e. absurd (ground (arith, free));
                        timetable = ground (arith, good);
                        ends = λ k s e m. absurd (
                            ground (
                              arith,
                              good,
                              any_row-lookup (has_ends r.user_id r.origin_iata r.destination_iata) k
                                  s c.routes,
                            ));
                      })
                      sound),
              )
        ]

  -- A change that leaves the ends, and the aircraft or none.
  pub changed-IsSound :
      (user id : ℕ) (change : Route F → Route F) (r : Route F) (c : Db F Time)
      → route_of user id c ≡ some r
      → (change r).user_id ≡ r.user_id
      → (change r).origin_iata ≡ r.origin_iata
      → (change r).destination_iata ≡ r.destination_iata
      → ((a : ℕ) → (change r).assigned_aircraft_id ≡ some a → r.assigned_aircraft_id ≡ some a)
      → is_scheduled (change r).ticket_price (change r).flights_per_week ≡ true
      → IsSound c
      → IsSound (with_routes (insert id (change r) c.routes) c)
  unfolding IsLinked IsExclusive IsDistinct
  changed-IsSound user id change r c e u o d a t sound =
      let here = (route_of-lookup user id r c e).0 in
      written-IsSound id (change r) c
        (record {
          aircraft = λ x f.
              subst (λ v. (y : Aircraft F Time) × (owned_aircraft v x c ≡ some y)) (sym u)
                (sound.linked id r x here (a x f));
          alone = λ x k s f l g. sound.exclusive id k r s x here l (a x f) g;
          timetable = t;
          ends = λ k s f m. sound.distinct id k r s here f (cc (u, o, d, m));
        })
        sound

  pub owned_aircraft-owner :
      (user id : ℕ) (x : Aircraft F Time) (c : Db F Time)
      → owned_aircraft user id c ≡ some x
      → (lookup id c.fleet ≡ some x) × (x.owner ≡ user)
  unfolding owned_aircraft
  owned_aircraft-owner user id x c h = elim (Option-cases (lookup id c.fleet)) [
    | inl n ↦ absurd (ground (arith, h, n))
    | inr (y, e) ↦ elim (Bool-cases (y.owner == user)) [
      | inl own ↦
          (ground (arith, h, e, own), ground (arith, h, e, own, nat_eq.equal_iff y.owner user))
      | inr other ↦ absurd (ground (arith, h, e, other))
    ]
  ]

  one_owner :
      (u v id : ℕ) (x y : Aircraft F Time) (c : Db F Time)
      → owned_aircraft u id c ≡ some x
      → owned_aircraft v id c ≡ some y
      → u ≡ v
  one_owner u v id x y c h k =
      let (l, o) = owned_aircraft-owner u id x c h in
      let (m, q) = owned_aircraft-owner v id y c k in ground (arith, l, o, m, q)

  -- A row that passes the check for another route of the aircraft is the route itself.
  only_route :
      (user id a k : ℕ) (s : Route F) (c : Db F Time)
      → any_row (λ k s. (s.user_id == user) && flies a s && not (k == id)) c.routes ≡ false
      → lookup k c.routes ≡ some s
      → s.user_id ≡ user
      → s.assigned_aircraft_id ≡ some a
      → id ≡ k
  only_route user id a k s c free l mine flown = ground (
    arith,
    any_row-lookup (λ k s. (s.user_id == user) && flies a s && not (k == id)) k s c.routes free l,
    nat_eq.equal_iff s.user_id user,
    nat_eq.equal_iff k id,
    beq_refl a,
    flown,
  )

  -- An aircraft of the user's that flies no other of the user's routes may fly this one.
  pub assigned-IsSound :
      (user id a : ℕ) (r : Route F) (x : Aircraft F Time) (c : Db F Time)
      → route_of user id c ≡ some r
      → owned_aircraft user a c ≡ some x
      → any_row (λ k s. (s.user_id == user) && flies a s && not (k == id)) c.routes ≡ false
      → IsSound c
      → IsSound (with_routes (insert id (record r { assigned_aircraft_id = some a }) c.routes) c)
  unfolding IsLinked IsTimetabled IsDistinct
  assigned-IsSound user id a r x c e own free sound =
      let (here, mine) = route_of-lookup user id r c e in
      written-IsSound id (record r { assigned_aircraft_id = some a }) c
        (record {
          aircraft = λ b f. let same : a ≡ b = ground (arith, f) in (x, cc (own, mine, same));
          alone = λ b k s f l g.
              let same : b ≡ a = ground (arith, f) in
              let (y, theirs) = sound.linked k s b l g in
              only_route user id a k s c free l
                (one_owner s.user_id user a y x c
                  (ap (λ z. owned_aircraft s.user_id z c) (sym same) ∙ theirs) own)
                (g ∙ ap some same);
          timetable = sound.timetabled id r here;
          ends = λ k s f m. sound.distinct id k r s here f m;
        })
        sound

-- ===== src/Engine/Routes/Changes.antt =====
-- What Create, Delete and UpdateFreqPrice leave.
use skyward.Base.{
  ℕ, ◌≡◌, refl, sym, subst, true, false, ◌==◌, ◌||◌, ◌&&◌, Option, none, some, nat_eq, string_eq,
  arith, Bool-cases, inl, inr,
}
use skyward.Base.Int.{ℤ, pos, ltb_ℤ}
use skyward.Base.Dict.{lookup, insert}
use skyward.Float.{Float, ◌⋖◌, ◌⊖◌, ◌⊘◌, whole}
use skyward.Engine.Db.{Db, Platform, Aircraft, Model, Route, aircraft_with_model}
use skyward.Engine.Tx.{Reply, World, or_zero}
use skyward.Engine.Service.{serve}
use skyward.Engine.Tx.Laws.{IsCalm, Read}
use skyward.Engine.Service.Laws.{
  RunsIf, Runs, Runs-bind, Runs-weaken, Runs-query, Finds-pre, Finds-Read, serve-leaves,
  serve-leaves_if,
}
use skyward.Engine.Service.Answers.{Answers, answering, Runs-refuse, Runs-read, Runs-write}
use skyward.Engine.Routes.{
  Geometry, CreateRouteParams, is_off, haversine, ceil, calc_max_weekly_flights, exceeds,
  turnaround_of, is_scheduled, with_routes, route_of, airport_at, insert_route, cancel, reschedule,
  or_current, row_of, is_invalid, create, create_between, create_unique, delete, set_schedule,
  set_schedule_of, update_freq_price,
}
use skyward.Engine.Routes.Fitting.{update_route-some}

module _ {F Time : Type 0} ⦃num : Float F⦄ ⦃p : Platform F Time⦄ where
  -- The ends differ and have airports as far apart as the request says; price and frequency are good.
  unfoldable pub Admits : ⦃geo : Geometry F⦄ → CreateRouteParams F → Db F Time → Type 0
  Admits ⦃geo⦄ params c =
      (o : F × F) × (d : F × F) × ((params.origin == params.destination) ≡ false)
      × (is_invalid params ≡ false)
      × (airport_at params.origin c ≡ some o)
      × (airport_at params.destination c ≡ some d)
      × let actual = haversine o.0 o.1 d.0 d.1 in
        ((whole 0 ⋖ actual) && (num.decimal 10 2 ⋖ geo.abs (params.distance ⊖ actual) ⊘ actual))
        ≡ false

  -- The row of a new route.
  unfoldable pub Creates :
      ⦃geo : Geometry F⦄ → ℕ → ℕ → CreateRouteParams F → Db F Time → Db F Time → Type 0
  Creates ⦃geo⦄ user id params c w =
      Admits params c
      × (insert_route id (row_of user (p.store params.price) params) c ≡ some (1, w))

  insert_route-one :
      (id : ℕ) (r : Route F) (n : ℕ) (c w : Db F Time)
      → insert_route id r c ≡ some (n, w)
      → insert_route id r c ≡ some (1, w)
  unfolding insert_route
  insert_route-one id r n c w h = ground (arith, h)

  module _ ⦃geo : Geometry F⦄ (user id : ℕ) (params : CreateRouteParams F) where
    Runs-create_unique :
        Runs
          (Answers (Creates user id params))
          (λ c w. Admits params c × (w ≡ c))
          (create_unique user id params)
          (λ b c w. Unit)
    unfolding create_unique Creates
    Runs-create_unique = Runs-bind _ _ (Runs-query _ _) (λ duplicate.
        Runs-weaken _ (Finds-pre _ (λ c w. Admits params c × (w ≡ c)) _ duplicate)
          (elim (Bool-cases (or_zero duplicate false)) [
            | inl dup ↦ rw dup (Runs-refuse _ refl (λ c w h. h.1))
            | inr new ↦ rw new (
                Runs-write _ _ _ refl refl (λ c w h. h.1)
                  (λ c w n h written. (h.0, insert_route-one id _ n c w written)))
          ]))

    Runs-create :
        Runs
          (Answers (Creates user id params))
          (λ c w. c ≡ w)
          (create user id params)
          (λ b c w. Unit)
    unfolding create create_between is_off Admits
    Runs-create = elim (Bool-cases (params.origin == params.destination)) [
      | inl loop ↦ rw loop (Runs-refuse _ refl (λ c w h. sym h))
      | inr apart ↦ elim (Bool-cases (is_invalid params)) [
        | inl bad ↦ rw (apart, bad) (Runs-refuse _ refl (λ c w h. sym h))
        | inr good ↦
            rw (apart, good)
              (Runs-read _ _ _ refl (λ c w h. sym h)
                (λ o.
                  Runs-read _ _ _ refl (λ c w h. sym h.0)
                    (λ d. elim (Bool-cases (is_off params.distance (haversine o.0 o.1 d.0 d.1))) [
                      | inl off ↦ rw off (Runs-refuse _ refl (λ c w h. sym h.0.0))
                      | inr near ↦ rw near (
                          Runs-weaken _
                            (λ c w h. ((o, d, apart, good, h.0.1, h.1, near), sym h.0.0))
                            Runs-create_unique)
                    ])))
      ]
    ]

    -- A request for a route is answered with success exactly when it adds its row, and with a refusal
    -- when every row stays as it was, whatever calls of the database fail. A row that is added has two
    -- airports, at most a tenth off the distance between them, a price and a frequency in their bounds,
    -- and ends that no route of the user has.
    pub create-Answers :
        (w : World F Time)
        → let out = serve (create user id params) w in
          Answers (Creates user id params) out.0 w.db out.1.db
    create-Answers w = serve-leaves _ (create user id params) Runs-create w

  -- A closed route: it keeps its row and loses its aircraft.
  unfoldable pub Closes : ℕ → ℕ → Db F Time → Db F Time → Type 0
  Closes user id c w =
      (r : Route F) × (route_of user id c ≡ some r)
      × (w ≡ with_routes (insert id (cancel r) c.routes) c)

  Runs-delete :
      (user id : ℕ)
      → Runs (Answers (Closes user id)) (λ c w. c ≡ w) (delete user id) (λ b c w. Unit)
  unfolding delete Closes
  Runs-delete user id =
      Runs-read _ _ _ refl (λ c w h. sym h)
        (λ r.
          Runs-write _ _ _ refl refl (λ c w h. sym h.0)
            (λ c w n h written. (r, h.1, (update_route-some user id n cancel r c w h.1 written).1)))

  -- What the route's aircraft can fly, by the configured limit of its hours in a week. The limit is 168
  -- when none is configured or, unless `calm`, its query has failed.
  pub Flyable : Type 0 → ℕ → Route F → ℤ → Option ℕ → Db F Time → Type 0
  Flyable calm user r freq none c = Unit
  Flyable calm user r freq (some aircraft) c =
      (x : Aircraft F Time × Model F) × (limit : Reply F) × Read calm
        (λ db. lookup "max_weekly_flights" db.config) limit c
      × (aircraft_with_model user aircraft c ≡ some x)
      × ((num.of_int x.1.range_km ⋖ ceil r.distance_km) ≡ false)
      × (exceeds freq (
            calc_max_weekly_flights r.distance_km x.1.speed_kmh (turnaround_of x.1)
              (or_zero limit (whole 168)))
          ≡ false)

  -- A new price and frequency, that the route's aircraft can fly; a price that is not positive keeps
  -- the old one.
  unfoldable pub Reschedules : Type 0 → ℕ → ℕ → F → ℤ → Db F Time → Db F Time → Type 0
  Reschedules calm user id price freq c w =
      (r : Route F) × (new : F) × (route_of user id c ≡ some r)
      × (new ≡ or_current price (p.load r.ticket_price))
      × Flyable calm user r freq r.assigned_aircraft_id c
      × (is_scheduled (p.store new) freq ≡ true)
      × (w ≡ with_routes (insert id (reschedule (p.store new) freq r) c.routes) c)

  module _ (calm : Type 0) (user id : ℕ) (price : F) (freq : ℤ) (r : Route F) where
    Runs-set_schedule :
        RunsIf
          (answering calm (Reschedules calm user id price freq))
          (λ c w.
            (c ≡ w)
            × (route_of user id c ≡ some r)
            × Flyable calm user r freq r.assigned_aircraft_id c)
          (set_schedule user id (or_current price (p.load r.ticket_price)) freq)
          (λ b c w. Unit)
    unfolding set_schedule Reschedules
    Runs-set_schedule =
        Runs-write _ _ _ refl refl (λ c w h. sym h.0)
          (λ c w n h written.
            let (good, e) =
              update_route-some user id n
                (reschedule (p.store (or_current price (p.load r.ticket_price))) freq) r c w h.1
                written in
            (r, or_current price (p.load r.ticket_price), h.1, refl, h.2, good, e))

    Runs-set_schedule_of :
        (aircraft : Option ℕ)
        → r.assigned_aircraft_id ≡ aircraft
        → RunsIf
            (answering calm (Reschedules calm user id price freq))
            (λ c w. (c ≡ w) × (route_of user id c ≡ some r))
            (set_schedule_of user id r (or_current price (p.load r.ticket_price)) freq aircraft)
            (λ b c w. Unit)
    unfolding set_schedule_of Flyable
    Runs-set_schedule_of none e =
        Runs-weaken _ (λ c w h. (h.0, h.1, subst (λ o. Flyable calm user r freq o c) (sym e) tt))
          Runs-set_schedule
    Runs-set_schedule_of (some aircraft) e =
        Runs-read _ _ _ refl (λ c w h. sym h.0)
          (λ x. elim (Bool-cases (num.of_int x.1.range_km ⋖ ceil r.distance_km)) [
            | inl far ↦ rw far (Runs-refuse _ refl (λ c w h. sym h.0.0))
            | inr near ↦ rw near (
                Runs-bind _ _ (Runs-query _ _) (λ limit.
                  Runs-weaken _
                    (Finds-Read _
                      (λ c w.
                        ((c ≡ w) × (route_of user id c ≡ some r))
                        × (aircraft_with_model user aircraft c ≡ some x))
                      _ limit)
                    (elim (Bool-cases (
                      exceeds freq (
                        calc_max_weekly_flights r.distance_km x.1.speed_kmh (turnaround_of x.1)
                          (or_zero limit (whole 168))))) [
                            | inl many ↦ rw many (Runs-refuse _ refl (λ c w h. sym h.0.0.0))
                            | inr few ↦ rw few (
                                Runs-weaken _
                                  (λ c w h. (
                                    h.0.0.0,
                                    h.0.0.1,
                                    subst (λ o. Flyable calm user r freq o c) (sym e)
                                        (
                                          x,
                                          limit,
                                          subst
                                              (λ y.
                                                Read calm
                                                  (λ db. lookup "max_weekly_flights" db.config)
                                                  limit y)
                                              (sym h.0.0.0) h.1,
                                          h.0.1,
                                          near,
                                          few,
                                        ),
                                  ))
                                  Runs-set_schedule)
                          ])))
          ])

  Runs-update_freq_price :
      {calm : Type 0} (user id : ℕ) (price : F) (freq : ℤ)
      → RunsIf
          (answering calm (Reschedules calm user id price freq))
          (λ c w. c ≡ w)
          (update_freq_price user id price freq)
          (λ b c w. Unit)
  unfolding update_freq_price
  Runs-update_freq_price user id price freq =
      elim (Bool-cases (ltb_ℤ freq (pos 1) || ltb_ℤ (pos 168) freq)) [
        | inl bad ↦ rw bad (Runs-refuse _ refl (λ c w h. sym h))
        | inr good ↦ rw good (
            Runs-read _ _ _ refl (λ c w h. sym h)
              (λ r. Runs-set_schedule_of _ user id price freq r r.assigned_aircraft_id refl))
      ]

  -- Closing a route answers with success when the route was the user's, and then the route keeps its
  -- row as a cancelled one and has lost its aircraft; or it refuses, with every row as it was, whatever
  -- calls of the database fail.
  pub delete-Answers :
      (user id : ℕ) (w : World F Time)
      → Answers (Closes user id) (serve (delete user id) w).0 w.db (serve (delete user id) w).1.db
  delete-Answers user id w = serve-leaves _ (delete user id) (Runs-delete user id) w

  pub update_freq_price-Answers :
      (user id : ℕ) (price : F) (freq : ℤ) (w : World F Time)
      → let out = serve (update_freq_price user id price freq) w in
        Answers (Reschedules (IsCalm w.calls) user id price freq) out.0 w.db out.1.db
  update_freq_price-Answers user id price freq w =
      serve-leaves_if (answering (IsCalm w.calls) _) (update_freq_price user id price freq)
        (Runs-update_freq_price user id price freq) w (λ calm. calm)

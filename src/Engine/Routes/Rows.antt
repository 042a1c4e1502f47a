-- ===== src/Engine/Routes/Rows.antt =====
-- The invariants of route_assignments, and what each kind of write on its rows does to them.
use skyward.Base.{
  ℕ, ◌≡◌, sym, ap, ◌∙◌, subst, true, ◌==◌, some, nat_eq, string_eq, arith, Bool-cases, ◌⊎◌, inl,
  inr,
}
use skyward.Base.Dict.{Dict, lookup, insert, lookup-insert}
use skyward.Engine.Db.{Db, Aircraft, Route, owned_aircraft}
use skyward.Engine.Routes.{is_scheduled, with_routes, has_ends}

module _ {F : Type 0} where
  -- A row after a write is the written one, or one that stood there.
  row_after :
      (id k : ℕ) (r s : Route F) (m : Dict ℕ (Route F))
      → lookup k (insert id r m) ≡ some s
      → ((id ≡ k) × (s ≡ r)) ⊎ (lookup k m ≡ some s)
  row_after id k r s m h = elim (Bool-cases (id == k)) [
    | inl same ↦ inl (ground (arith, nat_eq.equal_iff id k), ground (arith, lookup-insert id k r m))
    | inr other ↦ inr (ground (arith, lookup-insert id k r m))
  ]

  has_ends-sym :
      (j k : ℕ) (r s : Route F)
      → has_ends r.user_id r.origin_iata r.destination_iata k s ≡ true
      → has_ends s.user_id s.origin_iata s.destination_iata j r ≡ true
  has_ends-sym j k r s h = ground (
    arith,
    nat_eq.equal_iff r.user_id s.user_id,
    nat_eq.equal_iff s.user_id r.user_id,
    string_eq.equal_iff r.origin_iata s.origin_iata,
    string_eq.equal_iff s.origin_iata r.origin_iata,
    string_eq.equal_iff r.destination_iata s.destination_iata,
    string_eq.equal_iff s.destination_iata r.destination_iata,
  )

module _ {F Time : Type 0} where
  -- An aircraft that flies a route is there and is of the route's user.
  unfoldable pub IsLinked : Db F Time → Type 0
  IsLinked db =
      (k : ℕ) (r : Route F) (a : ℕ)
      → lookup k db.routes ≡ some r
      → r.assigned_aircraft_id ≡ some a
      → (x : Aircraft F Time) × (owned_aircraft r.user_id a db ≡ some x)

  -- No aircraft flies two routes.
  unfoldable pub IsExclusive : Db F Time → Type 0
  IsExclusive db =
      (j k : ℕ) (r s : Route F) (a : ℕ)
      → lookup j db.routes ≡ some r
      → lookup k db.routes ≡ some s
      → r.assigned_aircraft_id ≡ some a
      → s.assigned_aircraft_id ≡ some a
      → j ≡ k

  -- Every route has a price and a frequency in its bounds.
  unfoldable pub IsTimetabled : Db F Time → Type 0
  IsTimetabled db =
      (k : ℕ) (r : Route F)
      → lookup k db.routes ≡ some r
      → is_scheduled r.ticket_price r.flights_per_week ≡ true

  -- No user has two routes with the same ends.
  unfoldable pub IsDistinct : Db F Time → Type 0
  IsDistinct db =
      (j k : ℕ) (r s : Route F)
      → lookup j db.routes ≡ some r
      → lookup k db.routes ≡ some s
      → has_ends r.user_id r.origin_iata r.destination_iata k s ≡ true
      → j ≡ k

  pub record IsSound (db : Db F Time) : Type 0 where
    pub linked : IsLinked db
    pub exclusive : IsExclusive db
    pub timetabled : IsTimetabled db
    pub distinct : IsDistinct db

  -- What a row may hold in the place of the row `id`.
  pub record Fits (db : Db F Time) (id : ℕ) (r : Route F) : Type 0 where
    pub aircraft :
        (a : ℕ)
        → r.assigned_aircraft_id ≡ some a
        → (x : Aircraft F Time) × (owned_aircraft r.user_id a db ≡ some x)
    pub alone :
        (a k : ℕ) (s : Route F)
        → r.assigned_aircraft_id ≡ some a
        → lookup k db.routes ≡ some s
        → s.assigned_aircraft_id ≡ some a
        → id ≡ k
    pub timetable : is_scheduled r.ticket_price r.flights_per_week ≡ true
    pub ends :
        (k : ℕ) (s : Route F)
        → lookup k db.routes ≡ some s
        → has_ends r.user_id r.origin_iata r.destination_iata k s ≡ true
        → id ≡ k

  module _ (id : ℕ) (r : Route F) (c : Db F Time) (fits : Fits c id r) (sound : IsSound c) where
    abbrev pub Written : Db F Time
    Written = with_routes (insert id r c.routes) c

    written-IsLinked : IsLinked Written
    unfolding IsLinked owned_aircraft
    written-IsLinked k s a h e = elim (row_after id k r s c.routes h) [
      | inl (same, eq) ↦
          subst (λ x. (y : Aircraft F Time) × (owned_aircraft x.user_id a c ≡ some y)) (sym eq)
            (fits.aircraft a (ap (λ x. x.assigned_aircraft_id) (sym eq) ∙ e))
      | inr old ↦ sound.linked k s a old e
    ]

    written-IsExclusive : IsExclusive Written
    unfolding IsExclusive
    written-IsExclusive j k s t a h i e f = elim (row_after id j r s c.routes h) [
      | inl (same, eq) ↦ elim (row_after id k r t c.routes i) [
        | inl (same', eq') ↦ sym same ∙ same'
        | inr old' ↦
            sym same ∙ fits.alone a k t (ap (λ x. x.assigned_aircraft_id) (sym eq) ∙ e) old' f
      ]
      | inr old ↦ elim (row_after id k r t c.routes i) [
        | inl (same', eq') ↦
            sym (fits.alone a j s (ap (λ x. x.assigned_aircraft_id) (sym eq') ∙ f) old e) ∙ same'
        | inr old' ↦ sound.exclusive j k s t a old old' e f
      ]
    ]

    written-IsTimetabled : IsTimetabled Written
    unfolding IsTimetabled
    written-IsTimetabled k s h = elim (row_after id k r s c.routes h) [
      | inl (same, eq) ↦
          ap (λ x. is_scheduled x.ticket_price x.flights_per_week) eq ∙ fits.timetable
      | inr old ↦ sound.timetabled k s old
    ]

    written-IsDistinct : IsDistinct Written
    unfolding IsDistinct
    written-IsDistinct j k s t h i e = elim (row_after id j r s c.routes h) [
      | inl (same, eq) ↦ elim (row_after id k r t c.routes i) [
        | inl (same', eq') ↦ sym same ∙ same'
        | inr old' ↦
            sym same
            ∙ fits.ends k t old'
                (ap (λ x. has_ends x.user_id x.origin_iata x.destination_iata k t) (sym eq) ∙ e)
      ]
      | inr old ↦ elim (row_after id k r t c.routes i) [
        | inl (same', eq') ↦
            sym (
              fits.ends j s old (
                has_ends-sym j k s r (
                  ap (λ x. has_ends s.user_id s.origin_iata s.destination_iata k x) (sym eq') ∙ e)))
            ∙ same'
        | inr old' ↦ sound.distinct j k s t old old' e
      ]
    ]

    -- A row that fits keeps the invariants.
    pub written-IsSound : IsSound Written
    written-IsSound = record {
      linked = written-IsLinked;
      exclusive = written-IsExclusive;
      timetabled = written-IsTimetabled;
      distinct = written-IsDistinct;
    }

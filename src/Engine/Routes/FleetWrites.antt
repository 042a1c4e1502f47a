-- ===== src/Engine/Routes/FleetWrites.antt =====
-- What the fleet's writes leave of the routes.
use skyward.Base.{
  ℕ, ◌≡◌, refl, sym, ap, ◌∙◌, false, ◌==◌, Option, none, some, nat_eq, arith, Bool-cases,
  Option-cases, inl, inr, if◌then◌else◌,
}
use skyward.Base.Dict.{
  Dict, lookup, insert, erase, each_row, lookup-insert, lookup-erase, lookup-each_row,
}
use skyward.Engine.Db.{Db, Aircraft, Route, flies, released, owned_aircraft}
use skyward.Engine.Fleet.{with_fleet, without_aircraft}
use skyward.Engine.Routes.Rows.{IsLinked, IsExclusive, IsTimetabled, IsDistinct, IsSound}
use skyward.Engine.Routes.Fitting.{owned_aircraft-owner}

module _ {F : Type 0} where
  -- A released row is an old one, that flies the aircraft that it flew unless it is the removed one.
  released_row :
      (id k : ℕ) (r : Route F) (m : Dict ℕ (Route F))
      → lookup k (each_row (released id) m) ≡ some r
      → (s : Route F) × (lookup k m ≡ some s) × (r ≡ released id s)
  released_row id k r m h = elim (Option-cases (lookup k m)) [
    | inl n ↦ absurd (ground (arith, lookup-each_row (released id) k m, n))
    | inr (s, e) ↦ (s, e, ground (arith, lookup-each_row (released id) k m, e))
  ]

  -- What a released row still flies.
  released-flown :
      (id a : ℕ) (s : Route F)
      → (released id s).assigned_aircraft_id ≡ some a
      → (s.assigned_aircraft_id ≡ some a) × ((id == a) ≡ false)
  released-flown id a s h = elim (Bool-cases (flies id s)) [
    | inl gone ↦ absurd (ground (arith, h, gone))
    | inr stays ↦
        let flown : s.assigned_aircraft_id ≡ some a = ground (arith, h, stays) in
        (flown, ground (arith, stays, flown, nat_eq.equal_iff a id, nat_eq.equal_iff id a))
  ]

  released-same :
      (id : ℕ) (s : Route F)
      → ((released id s).user_id ≡ s.user_id)
        × ((released id s).origin_iata ≡ s.origin_iata)
        × ((released id s).destination_iata ≡ s.destination_iata)
        × ((released id s).ticket_price ≡ s.ticket_price)
        × ((released id s).flights_per_week ≡ s.flights_per_week)
  released-same id s = elim (Bool-cases (flies id s)) [
    | inl e ↦ rw e (refl, refl, refl, refl, refl)
    | inr e ↦ rw e (refl, refl, refl, refl, refl)
  ]

module _ {F Time : Type 0} where
  -- A fleet that keeps its owners keeps the routes' links.
  pub kept-IsSound :
      (c w : Db F Time)
      → w.routes ≡ c.routes
      → ((user id : ℕ) (x : Aircraft F Time)
          → owned_aircraft user id c ≡ some x
          → (y : Aircraft F Time) × (owned_aircraft user id w ≡ some y))
      → IsSound c
      → IsSound w
  unfolding IsLinked IsExclusive IsTimetabled IsDistinct
  kept-IsSound c w e keep sound = record {
    linked = λ k r a h f.
        let (x, o) = sound.linked k r a (ap (lookup k) (sym e) ∙ h) f in keep r.user_id a x o;
    exclusive = λ j k r s a h i.
        sound.exclusive j k r s a (ap (lookup j) (sym e) ∙ h) (ap (lookup k) (sym e) ∙ i);
    timetabled = λ k r h. sound.timetabled k r (ap (lookup k) (sym e) ∙ h);
    distinct = λ j k r s h i.
        sound.distinct j k r s (ap (lookup j) (sym e) ∙ h) (ap (lookup k) (sym e) ∙ i);
  }

  -- A row of the fleet that keeps its owner, or a new one.
  pub aircraft_written-IsSound :
      (id : ℕ) (y : Aircraft F Time) (c : Db F Time)
      → ((x : Aircraft F Time) → lookup id c.fleet ≡ some x → y.owner ≡ x.owner)
      → IsSound c
      → IsSound (with_fleet (insert id y c.fleet) c)
  unfolding owned_aircraft
  aircraft_written-IsSound id y c same sound =
      kept-IsSound c (with_fleet (insert id y c.fleet) c) refl
        (λ user k x h. elim (Bool-cases (id == k)) [
          | inl here ↦
              let k_id : id ≡ k = (nat_eq.equal_iff id k).0 here in
              let (l, o) = owned_aircraft-owner user k x c h in
              (
                y,
                ground (
                  arith,
                  lookup-insert id k y c.fleet,
                  here,
                  nat_eq.equal_iff y.owner user,
                  same x (ap (λ j. lookup j c.fleet) k_id ∙ l),
                  o,
                ),
              )
          | inr other ↦ (x, ground (arith, lookup-insert id k y c.fleet, other, h))
        ])
        sound

  owned_aircraft-without :
      (user id a : ℕ) (c : Db F Time)
      → (id == a) ≡ false
      → owned_aircraft user a (without_aircraft id c) ≡ owned_aircraft user a c
  unfolding owned_aircraft
  owned_aircraft-without user id a c h =
      let kept : lookup a (erase id c.fleet) ≡ lookup a c.fleet =
        ground (arith, lookup-erase id a c.fleet, h) in
      ap
        (λ o. elim o as (λ q. Option (Aircraft F Time)) [
          | none ↦ none
          | some x ↦ if x.owner == user then some x else none
        ])
        kept

  -- The routes that a removed aircraft flew fly none.
  pub removed-IsSound : (id : ℕ) (c : Db F Time) → IsSound c → IsSound (without_aircraft id c)
  unfolding IsLinked IsExclusive IsTimetabled IsDistinct
  removed-IsSound id c sound = record {
    linked = λ k r a h f.
        let (s, l, e) = released_row id k r c.routes h in
        let (flown, other) = released-flown id a s (ap (λ z. z.assigned_aircraft_id) (sym e) ∙ f) in
        let (u, o, d, p, q) = released-same id s in
        let (x, own) = sound.linked k s a l flown in
        (
          x,
          owned_aircraft-without r.user_id id a c other
              ∙ ap (λ z. owned_aircraft z a c) (ap (λ z. z.user_id) e ∙ u)
              ∙ own,
        );
    exclusive = λ j k r t a h i f g.
        let (s, l, e) = released_row id j r c.routes h in
        let (v, m, b) = released_row id k t c.routes i in
        sound.exclusive j k s v a l m
          (released-flown id a s (ap (λ z. z.assigned_aircraft_id) (sym e) ∙ f)).0
          (released-flown id a v (ap (λ z. z.assigned_aircraft_id) (sym b) ∙ g)).0;
    timetabled = λ k r h.
        let (s, l, e) = released_row id k r c.routes h in
        let (u, o, d, p, q) = released-same id s in cc (e, p, q, sound.timetabled k s l);
    distinct = λ j k r t h i f.
        let (s, l, e) = released_row id j r c.routes h in
        let (v, m, b) = released_row id k t c.routes i in
        let (u, o, d, p, q) = released-same id s in
        let (u', o', d', p', q') = released-same id v in
        sound.distinct j k s v l m (cc (e, b, u, o, d, u', o', d', f));
  }

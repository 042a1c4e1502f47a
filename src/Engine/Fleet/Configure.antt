-- ===== src/Engine/Fleet/Configure.antt =====
-- ConfigureSeats (apps/api/internal/engine/fleet.go).
use skyward.Base.{
  ℕ, String, ◌≡◌, refl, sym, Bool, true, false, not, Option, none, some, nat_eq, arith,
  if◌then◌else◌, Bool-cases, inl, inr,
}
use skyward.Base.Int.{ℤ}
use skyward.Base.Dict.{insert}
use skyward.Float.{Float, whole}
use skyward.Engine.Db.{Db, Platform, Aircraft, Model, owned_aircraft, aircraft_with_model}
use skyward.Engine.Tx.{World}
use skyward.Engine.Service.{Service, answer, query, execute, or_answer, serve, ◌>>=◌}
use skyward.Engine.Service.Laws.{serve-leaves}
use skyward.Engine.Service.Answers.{Answers, Runs-refuse, Runs-read, Runs-write}
use skyward.Engine.Fleet.{MutationResult, text, validate_seats, with_fleet}
use skyward.Engine.Fleet.Repair.{aircraft_with_model-owned}

abbrev pub says : {F : Type 0} ⦃num : Float F⦄ → Bool → String → MutationResult F
says success message = record { success = success; message = text message; new_cash = whole 0 }

module _ {F Time : Type 0} where
  abbrev pub reseated : ℤ → ℤ → ℤ → Aircraft F Time → Aircraft F Time
  reseated economy business first a = record a {
    economy_seats = economy;
    business_seats = business;
    first_class_seats = first;
  }

  -- UPDATE fleet_aircraft SET economy_seats = …, … WHERE id = … AND user_id = …
  unfoldable pub update_seats : ℕ → ℕ → ℤ → ℤ → ℤ → Db F Time → Option (ℕ × Db F Time)
  update_seats user id economy business first db = elim (owned_aircraft user id db) [
    | none ↦ some (0, db)
    | some a ↦ some (1, with_fleet (insert id (reseated economy business first a) db.fleet) db)
  ]

module _ {F Time : Type 0} ⦃num : Float F⦄ ⦃p : Platform F Time⦄ where
  unfoldable pub configure_seats : ℕ → ℕ → ℤ → ℤ → ℤ → Service F Time (MutationResult F) ⊥
  configure_seats user id economy business first = do
    row ← query (aircraft_with_model user id)
    found ← or_answer row (says false "Aircraft not found.")
    if not (validate_seats economy business first found.1.capacity)
        then answer (says false "invalid seat configuration for aircraft capacity")
        else do
          updated ← execute (update_seats user id economy business first)
          _ ← or_answer updated (says false "update failed")
          answer (says true "Seat configuration updated.")

  -- The seats that fit the user's aircraft stand in its row.
  unfoldable pub Configures : ℕ → ℕ → ℤ → ℤ → ℤ → Db F Time → Db F Time → Type 0
  Configures user id economy business first c w =
      (a : Aircraft F Time) × (m : Model F) × (aircraft_with_model user id c ≡ some (a, m))
      × (validate_seats economy business first m.capacity ≡ true)
      × (w ≡ with_fleet (insert id (reseated economy business first a) c.fleet) c)

  update_seats-some :
      (user id n : ℕ) (economy business first : ℤ) (a : Aircraft F Time) (v w : Db F Time)
      → owned_aircraft user id v ≡ some a
      → update_seats user id economy business first v ≡ some (n, w)
      → w ≡ with_fleet (insert id (reseated economy business first a) v.fleet) v
  unfolding update_seats
  update_seats-some user id n economy business first a v w e h = ground (arith, h, e)

  -- A configuration of seats is answered with success when it stands in the row of the user's aircraft
  -- and fits its model, or refused with every row as it was, whatever calls of the database fail.
  pub configure_seats-Answers :
      (user id : ℕ) (economy business first : ℤ) (w : World F Time)
      → let out = serve (configure_seats user id economy business first) w in
        Answers (Configures user id economy business first) out.0 w.db out.1.db
  unfolding configure_seats Configures
  configure_seats-Answers user id economy business first w =
      serve-leaves _ (configure_seats user id economy business first)
        (Runs-read {Change = Configures user id economy business first} _ _ _ refl (λ c w h. sym h)
          (λ found. elim (Bool-cases (validate_seats economy business first found.1.capacity)) [
            | inr bad ↦ rw bad (Runs-refuse _ refl (λ c w h. sym h.0))
            | inl good ↦ rw good (
                Runs-write _ _ _ refl refl (λ c w h. sym h.0)
                  (λ c w n h written. (
                    found.0,
                    found.1,
                    h.1,
                    good,
                    update_seats-some user id n economy business first found.0 c w
                        (aircraft_with_model-owned user id c found.0 found.1 h.1) written,
                  )))
          ]))
        w

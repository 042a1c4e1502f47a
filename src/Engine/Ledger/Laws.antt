-- ===== src/Engine/Ledger/Laws.antt =====
-- The ledger's books: what a movement writes, and the two invariants that every movement keeps.
use skyward.Base.{
  ℕ, ◌≡◌, refl, true, false, ◌==◌, Option, some, List, [], ◌∷◌, String, nat_eq, arith, ◌∙◌,
  Option-cases, Bool-cases, ap, ◌⊎◌, inl, inr, if◌then◌else◌,
}
use skyward.Base.Int.{ℤ, pos, ◌+ℤ◌, ◌-ℤ◌, ◌≤ℤ◌, leb_ℤ, +ℤ_parts, -ℤ_parts, eq_of_parts}
use skyward.Base.Dict.{insert, lookup-insert}
use skyward.Float.{Float, IsArithmetic, ◌⩽◌, ◌⋖◌, whole}
use skyward.Economy.Money.{round2}
use skyward.Engine.Db.{Db, Platform, IsSigned, Entry, owned_aircraft}
use skyward.Engine.Tx.{Reply, ok, no_rows, failed, pure}
use skyward.Engine.Tx.Laws.{
  TripleIf, Replies, Triple-bind, Triple-statement, Triple-if, Triple-pure,
}
use skyward.Engine.Ledger.{
  Direction, credit, debit, debit_allow_negative, with_balances, with_entries, balance_of, moved,
  update_balance, signed, insert_entry, entry_of, returned_by, loaded, read_with, record_entry,
  apply_tx,
}

-- What the ledger says that the user has been given, less what was taken.
unfoldable pub total : {Time : Type 0} → ℕ → List (Entry Time) → ℤ
total user [] = pos 0
total user (e ∷ rest) =
    let sum = total user rest in if e.user_id == user then sum +ℤ e.amount else sum

moved-signed :
    (d : Direction) (amount before after : ℤ)
    → moved d amount before ≡ some after
    → after ≡ before +ℤ signed d amount
moved-signed credit amount before after h = ground arith
moved-signed debit amount before after h = elim (Bool-cases (leb_ℤ amount before)) [
  | inl e ↦ ground (
    arith,
    -ℤ_parts before amount,
    -ℤ_parts (pos 0) amount,
    +ℤ_parts before (pos 0 -ℤ amount),
    eq_of_parts (before -ℤ amount) (before +ℤ (pos 0 -ℤ amount)),
  )
  | inr e ↦ absurd (ground arith)
]
moved-signed debit_allow_negative amount before after h = ground (
  arith,
  -ℤ_parts before amount,
  -ℤ_parts (pos 0) amount,
  +ℤ_parts before (pos 0 -ℤ amount),
  eq_of_parts (before -ℤ amount) (before +ℤ (pos 0 -ℤ amount)),
)

add_assoc : (a b c : ℤ) → a +ℤ b +ℤ c ≡ a +ℤ (b +ℤ c)
add_assoc a b c = ground (
  arith,
  +ℤ_parts a b,
  +ℤ_parts (a +ℤ b) c,
  +ℤ_parts b c,
  +ℤ_parts a (b +ℤ c),
  eq_of_parts (a +ℤ b +ℤ c) (a +ℤ (b +ℤ c)),
)

-- The directions that cannot take what is not there.
abbrev pub IsGuarded : Direction → Type 0
IsGuarded credit = Unit
IsGuarded debit = Unit
IsGuarded debit_allow_negative = ⊥

moved_zero_le :
    (d : Direction) (amount before after : ℤ)
    → moved d amount before ≡ some after
    → IsGuarded d
    → pos 0 ≤ℤ amount
    → pos 0 ≤ℤ before
    → pos 0 ≤ℤ after
moved_zero_le credit amount before after h g p q = ground (arith, +ℤ_parts before amount)
moved_zero_le debit amount before after h g p q = ground (arith, -ℤ_parts before amount)
moved_zero_le debit_allow_negative amount before after h g p q = absurd g

module _ {F Time : Type 0} where
  -- Every balance is its opening one with all that the ledger records of it.
  unfoldable pub IsBalanced : (ℕ → ℤ) → Db F Time → Type 0
  IsBalanced opening db =
      (user : ℕ) (b : ℤ) → balance_of user db ≡ some b → b ≡ opening user +ℤ total user db.entries

  -- No account is overdrawn.
  unfoldable pub IsSolvent : Db F Time → Type 0
  IsSolvent db = (user : ℕ) (b : ℤ) → balance_of user db ≡ some b → pos 0 ≤ℤ b

  unfoldable pub written : Direction → ℕ → ℤ → ℤ → String → String → Time → Db F Time → Db F Time
  written d user amount after category subcategory game_time db =
      with_entries (entry_of d user amount after category subcategory game_time ∷ db.entries)
        (with_balances (insert user after db.balances) db)

  -- One movement of the ledger: the balance moves in its direction and one entry records it.
  unfoldable pub Moves : Direction → ℕ → ℤ → String → String → Time → Db F Time → Db F Time → Type 0
  Moves d user amount category subcategory game_time db db' =
      (before : ℤ) × (after : ℤ) × (balance_of user db ≡ some before)
      × (moved d amount before ≡ some after)
      × (db' ≡ written d user amount after category subcategory game_time db)

  pub Moves-IsBalanced :
      (d : Direction) (user : ℕ) (amount : ℤ) (category subcategory : String) (game_time : Time)
      (opening : ℕ → ℤ) (db db' : Db F Time)
      → Moves d user amount category subcategory game_time db db'
      → IsBalanced opening db
      → IsBalanced opening db'
  unfolding Moves IsBalanced written balance_of total
  Moves-IsBalanced d user amount category subcategory game_time opening db db'
        (before, after, e, m, w) h =
      rw w (λ u b l. elim (Bool-cases (user == u)) [
        | inl same ↦ ground (
          arith,
          nat_eq.equal_iff user u,
          lookup-insert user u after db.balances,
          moved-signed d amount before after m,
          h user before e,
          add_assoc (opening user) (total user db.entries) (signed d amount),
        )
        | inr other ↦
            ground (arith, nat_eq.equal_iff user u, lookup-insert user u after db.balances, h u b)
      ])

  pub Moves-IsSolvent :
      (d : Direction) (user : ℕ) (amount : ℤ) (category subcategory : String) (game_time : Time)
      (db db' : Db F Time)
      → Moves d user amount category subcategory game_time db db'
      → IsGuarded d
      → pos 0 ≤ℤ amount
      → IsSolvent db
      → IsSolvent db'
  unfolding Moves IsSolvent written balance_of
  Moves-IsSolvent d user amount category subcategory game_time db db' (before, after, e, m, w) g p
        h =
      rw w (λ u b l. elim (Bool-cases (user == u)) [
        | inl same ↦ ground (
          arith,
          nat_eq.equal_iff user u,
          lookup-insert user u after db.balances,
          moved_zero_le d amount before after m g p (h user before e),
        )
        | inr other ↦
            ground (arith, nat_eq.equal_iff user u, lookup-insert user u after db.balances, h u b)
      ])

  -- What apply_tx does to the rows when it returns no error: an amount that rounds to nothing is not
  -- recorded, any other moves the balance by its cents.
  unfoldable pub Effect :
      ⦃num : Float F⦄ ⦃p : Platform F Time⦄
      → Direction
      → ℕ
      → F
      → String
      → String
      → Time
      → Db F Time
      → Db F Time
      → Type 0
  Effect ⦃num⦄ ⦃p⦄ d user amount category subcategory game_time v w =
      (((round2 amount ⩽ whole 0) ≡ true) × (w ≡ v))
      ⊎ (((round2 amount ⩽ whole 0) ≡ false)
          × Moves d user (p.store (round2 amount)) category subcategory game_time v w)

  update_balance-some :
      (d : Direction) (user : ℕ) (cents after : ℤ) (v w : Db F Time)
      → update_balance d user cents v ≡ some (after, w)
      → (before : ℤ) × (balance_of user v ≡ some before)
        × (moved d cents before ≡ some after)
        × (w ≡ with_balances (insert user after v.balances) v)
  unfolding update_balance
  update_balance-some d user cents after v w h = elim (Option-cases (balance_of user v)) [
    | inl n ↦ absurd (ground (arith, h, n))
    | inr (before, e) ↦ elim (Option-cases (moved d cents before)) [
      | inl n ↦ absurd (ground (arith, h, n, e))
      | inr (x, m) ↦ (before, e, ground (arith, h, m, e), ground (arith, h, m, e))
    ]
  ]

  -- An entry of an account that the transaction has just written is inserted.
  insert_entry-some :
      (entry : Entry Time) (after : ℤ) (n : ℕ) (v w : Db F Time)
      → balance_of entry.user_id v ≡ some after
      → insert_entry entry v ≡ some (n, w)
      → w ≡ with_entries (entry ∷ v.entries) v
  unfolding insert_entry
  insert_entry-some entry after n v w e h = ground (arith, h, e)

  recorded-Moves :
      (d : Direction) (user : ℕ) (cents after : ℤ) (category subcategory : String)
      (game_time : Time) (n : ℕ) (v0 v w : Db F Time)
      → update_balance d user cents v0 ≡ some (after, v)
      → insert_entry (entry_of d user cents after category subcategory game_time) v ≡ some (n, w)
      → Moves d user cents category subcategory game_time v0 w
  unfolding Moves written balance_of
  recorded-Moves d user cents after category subcategory game_time n v0 v w u i =
      let (before, e, m, eq) = update_balance-some d user cents after v0 v u in
      (
        before,
        after,
        e,
        m,
        insert_entry-some (entry_of d user cents after category subcategory game_time) after n v w
              (rw eq (
                ground
                  (arith, nat_eq.equal_iff user user, lookup-insert user user after v0.balances)))
              i
            ∙ rw eq refl,
      )

  pub read_with-same :
      {A : Type 0} (f : Db F Time → Option A) (v w : Db F Time) (a : A)
      → read_with f v ≡ some (a, w)
      → w ≡ v
  read_with-same f v w a h = elim (Option-cases (f v)) [
    | inl n ↦ absurd (ground (arith, h, n))
    | inr (b, e) ↦ ground (arith, h, e)
  ]

  pub Effect-IsBalanced :
      ⦃num : Float F⦄ ⦃p : Platform F Time⦄ (d : Direction) (user : ℕ) (amount : F)
      (category subcategory : String) (game_time : Time) (opening : ℕ → ℤ) (v w : Db F Time)
      → Effect d user amount category subcategory game_time v w
      → IsBalanced opening v
      → IsBalanced opening w
  unfolding Effect
  Effect-IsBalanced d user amount category subcategory game_time opening v w (inl (z, e)) h = rw e h
  Effect-IsBalanced d user amount category subcategory game_time opening v w (inr (z, m)) h =
      Moves-IsBalanced d user _ category subcategory game_time opening v w m h

  pub Effect-IsSolvent :
      ⦃num : Float F⦄ ⦃p : Platform F Time⦄ (law : IsArithmetic F) (sign : IsSigned F Time)
      (d : Direction) (user : ℕ) (amount : F) (category subcategory : String) (game_time : Time)
      (v w : Db F Time)
      → IsGuarded d
      → Effect d user amount category subcategory game_time v w
      → IsSolvent v
      → IsSolvent w
  unfolding Effect
  Effect-IsSolvent law sign d user amount category subcategory game_time v w g (inl (z, e)) h =
      rw e h
  Effect-IsSolvent law sign d user amount category subcategory game_time v w g (inr (z, m)) h =
      Moves-IsSolvent d user _ category subcategory game_time v w m g
        (sign.zero_le_store _ (law.le_of_not_le _ _ z)) h

  -- The ledger leaves the fleet alone.
  pub Effect-fleet :
      ⦃num : Float F⦄ ⦃p : Platform F Time⦄ (d : Direction) (user : ℕ) (amount : F)
      (category subcategory : String) (t : Time) (v w : Db F Time)
      → Effect d user amount category subcategory t v w
      → w.fleet ≡ v.fleet
  unfolding Effect Moves written
  Effect-fleet d user amount category subcategory t v w (inl (z, e)) = ap (λ d. d.fleet) e
  Effect-fleet d user amount category subcategory t v w (inr (z, (before, after, b, m, e))) =
      ap (λ d. d.fleet) e

  pub Effect-loans :
      ⦃num : Float F⦄ ⦃p : Platform F Time⦄ (d : Direction) (user : ℕ) (amount : F)
      (category subcategory : String) (t : Time) (v w : Db F Time)
      → Effect d user amount category subcategory t v w
      → w.loans ≡ v.loans
  unfolding Effect Moves written
  Effect-loans d user amount category subcategory t v w (inl (z, e)) = ap (λ d. d.loans) e
  Effect-loans d user amount category subcategory t v w (inr (z, (before, after, b, m, e))) =
      ap (λ d. d.loans) e

  pub owned_aircraft_same :
      (user id : ℕ) (v w : Db F Time)
      → w.fleet ≡ v.fleet
      → owned_aircraft user id w ≡ owned_aircraft user id v
  unfolding owned_aircraft
  owned_aircraft_same user id v w e = rw e refl

module _ {F Time R : Type 0} ⦃num : Float F⦄ ⦃p : Platform F Time⦄
    (Commits : R → Db F Time → Db F Time → Type 0) (pre : Db F Time → Db F Time → Type 0)
    (d : Direction) (user : ℕ) (amount : F) (category subcategory : String) (game_time : Time) where
  -- By the reply of apply_tx: the effect, or the rows as they were.
  unfoldable pub Applies : Reply F → Db F Time → Db F Time → Type 0
  Applies (ok b) c w =
      (v : Db F Time) × pre c v × Effect d user amount category subcategory game_time v w
  Applies no_rows c w = Unit
  Applies failed c w = Unit

  Triple-recorded :
      {calm : Type 0} (after : ℤ) (reply : Reply ℕ)
      → ((round2 amount ⩽ whole 0) ≡ false)
      → TripleIf
          (record { calm = calm; commits = Commits })
          (Replies Commits
            (Replies Commits pre (update_balance d user (p.store (round2 amount))) (ok after))
            (insert_entry
              (entry_of d user (p.store (round2 amount)) after category subcategory game_time))
            reply)
          (pure (returned_by (p.load after) reply))
          Applies
  unfolding Applies Effect Replies
  Triple-recorded after no_rows charged = Triple-pure _ no_rows (λ c w h. tt)
  Triple-recorded after failed charged = Triple-pure _ failed (λ c w h. tt)
  Triple-recorded after (ok n) charged =
      Triple-pure _ (ok (p.load after)) (λ c w (v, (v0, h, u), i). (
        v0,
        h,
        inr (charged, recorded-Moves d user _ after category subcategory game_time n v0 v w u i),
      ))

  Triple-read :
      {calm : Type 0} (reply : Reply ℤ)
      → ((round2 amount ⩽ whole 0) ≡ true)
      → TripleIf
          (record { calm = calm; commits = Commits })
          (Replies Commits pre (read_with (balance_of user)) reply)
          (pure (loaded p.load reply))
          Applies
  unfolding Applies Effect Replies
  Triple-read no_rows nothing = Triple-pure _ no_rows (λ c w h. tt)
  Triple-read failed nothing = Triple-pure _ failed (λ c w h. tt)
  Triple-read (ok b) nothing =
      Triple-pure _ (ok (p.load b))
        (λ c w (v, h, e). (v, h, inl (nothing, read_with-same (balance_of user) v w b e)))

  Triple-record_entry :
      {calm : Type 0} (reply : Reply ℤ)
      → ((round2 amount ⩽ whole 0) ≡ false)
      → TripleIf
          (record { calm = calm; commits = Commits })
          (Replies Commits pre (update_balance d user (p.store (round2 amount))) reply)
          (record_entry d user (p.store (round2 amount)) category subcategory game_time reply)
          Applies
  unfolding Applies Effect
  Triple-record_entry no_rows charged = Triple-pure _ no_rows (λ c w h. tt)
  Triple-record_entry failed charged = Triple-pure _ failed (λ c w h. tt)
  Triple-record_entry (ok after) charged =
      Triple-bind _ _ (Triple-statement _ _) (λ reply. Triple-recorded after reply charged)

  pub Triple-apply_tx :
      {calm : Type 0}
      → TripleIf
          (record { calm = calm; commits = Commits })
          pre
          (apply_tx d user amount category subcategory game_time)
          Applies
  unfolding apply_tx Applies
  Triple-apply_tx =
      Triple-if _ (round2 amount ⋖ whole 0) (λ negative. Triple-pure _ failed (λ c w h. tt))
        (λ signed.
          Triple-if _ (round2 amount ⩽ whole 0)
            (λ nothing. Triple-bind _ _ (Triple-statement _ _) (λ reply. Triple-read reply nothing))
            (λ charged.
              Triple-bind _ _ (Triple-statement _ _) (λ reply. Triple-record_entry reply charged)))

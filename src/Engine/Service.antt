-- ===== src/Engine/Service.antt =====
-- A request of a service of apps/api/internal/engine, as its handler runs it: queries and statements
-- of the pool, each of which may fail, transactions (withTx), and early returns. A statement of the
-- pool commits by itself.
pub mod Laws
pub mod Answers
use skyward.Base.{Bool, Option, none, some, if◌then◌else◌}
use skyward.Engine.Db.{Db}
use skyward.Engine.Tx.{
  Reply, ok, no_rows, failed, Step, next, stop, Verdict, Result, World, Tx, succeeds, rest, with_tx,
}

-- Go on with a value, or return an answer.
pub data Turn (R A : Type 0) : Type 0 where
  proceed : A → Turn R A
  respond : R → Turn R A

abbrev pub Service : Type 0 → Type 0 → Type 0 → Type 0 → Type 0
Service F Time R A = World F Time → Turn R A × World F Time

abbrev pub called : {F Time : Type 0} → World F Time → World F Time
called w = record w { calls = rest w.calls }

module _ {F Time R : Type 0} where
  abbrev pub give : {A : Type 0} → A → Service F Time R A
  give a w = (proceed a, w)

  abbrev pub answer : {A : Type 0} → R → Service F Time R A
  answer r w = (respond r, w)

  abbrev pub stored :
      {A : Type 0} → Option (A × Db F Time) → World F Time → Turn R (Reply A) × World F Time
  stored none w = (proceed no_rows, w)
  stored (some (a, db)) w = (proceed (ok a), record w { db = db })

  -- Pool.QueryRow
  unfoldable pub query : {A : Type 0} → (Db F Time → Option A) → Service F Time R (Reply A)
  query f w =
      if succeeds w.calls
      then elim (f w.db) [
        | none ↦ (proceed no_rows, called w)
        | some a ↦ (proceed (ok a), called w)
      ]
      else (proceed failed, called w)

  -- Pool.Exec
  unfoldable pub execute :
      {A : Type 0} → (Db F Time → Option (A × Db F Time)) → Service F Time R (Reply A)
  execute f w = if succeeds w.calls then stored (f w.db) (called w) else (proceed failed, called w)

  unfoldable pub transact : {B : Type 0} → Tx F Time B ⊥ → Service F Time R (Result B)
  transact fn w = let (result, w') = with_tx fn w in (proceed result, w')

  -- if err != nil { return r }
  abbrev pub or_answer : {A : Type 0} → Reply A → R → Service F Time R A
  or_answer (ok a) r = give a
  or_answer no_rows r = answer r
  or_answer failed r = answer r

  abbrev pub carry_on :
      {A B : Type 0} → (A → Service F Time R B) → Turn R A × World F Time → Turn R B × World F Time
  carry_on f (proceed a, w) = f a w
  carry_on f (respond r, w) = (respond r, w)

infixl 5 ◌>>=◌
abbrev pub ◌>>=◌ :
    {F Time R A B : Type 0} → Service F Time R A → (A → Service F Time R B) → Service F Time R B
◌>>=◌ m f w = carry_on f (m w)

-- The answer of a request, which always returns one.
abbrev pub answered_by : {F Time R : Type 0} → Turn R ⊥ × World F Time → R × World F Time
answered_by (proceed b, w) = absurd b
answered_by (respond r, w) = (r, w)

unfoldable pub serve : {F Time R : Type 0} → Service F Time R ⊥ → World F Time → R × World F Time
serve m w = answered_by (m w)

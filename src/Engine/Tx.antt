-- ===== src/Engine/Tx.antt =====
-- withTx and txFailureMessage (apps/api/internal/engine/withtx.go) over a connection whose every
-- call may fail.
--
-- A `Session` is what one request works with: the rows as the transaction sees them, whether one of
-- its statements failed, and the calls to come, of which `false` fails (past the end of the list
-- none does). PostgreSQL refuses every statement of a transaction after one that failed, and its
-- commit; a commit that reports an error has stored nothing. The pool's own calls read the committed
-- rows, on another connection.
pub mod Laws
use skyward.Base.{
  ℕ, ◌≡◌, Bool, true, false, ◌||◌, not, Option, none, some, List, [], ◌∷◌, String, if◌then◌else◌,
}
use skyward.Engine.Db.{Db}

-- The outcome of one call of the database.
pub data Reply (A : Type 0) : Type 0 where
  ok : A → Reply A
  no_rows : Reply A
  failed : Reply A

pub data TxError : Type 0 where
  begin_failed : TxError  -- ErrTxBegin
  commit_failed : TxError  -- ErrTxCommit
  fn_error : String → TxError

-- What the function that withTx runs returns.
pub data Verdict (R : Type 0) : Type 0 where
  done : R → Verdict R  -- rollback = false
  reject : R → Verdict R  -- rollback = true
  error : TxError → Verdict R

pub data Step (R A : Type 0) : Type 0 where
  next : A → Step R A
  stop : Verdict R → Step R A

pub data Result (R : Type 0) : Type 0 where
  returned : R → Result R
  err : TxError → Result R

pub record Session (F Time : Type 0) : Type 0 where
  pub working : Db F Time
  pub aborted : Bool
  pub calls : List Bool

pub record World (F Time : Type 0) : Type 0 where
  pub db : Db F Time
  pub calls : List Bool

abbrev pub succeeds : List Bool → Bool
succeeds [] = true
succeeds (b ∷ _) = b

abbrev pub rest : List Bool → List Bool
rest [] = []
rest (_ ∷ calls) = calls

abbrev pub after_call : {F Time : Type 0} → Session F Time → Session F Time
after_call s = record { working = s.working; aborted = s.aborted; calls = rest s.calls }

-- A part of a transaction, by the committed rows and the session.
abbrev pub Tx : Type 0 → Type 0 → Type 0 → Type 0 → Type 0
Tx F Time R A = Db F Time → Session F Time → Step R A × Session F Time

module _ {F Time R : Type 0} where
  abbrev pub pure : {A : Type 0} → A → Tx F Time R A
  pure a c s = (next a, s)

  abbrev pub return : {A : Type 0} → Verdict R → Tx F Time R A
  return v c s = (stop v, s)

  -- A statement of the transaction: `f` gives what it returns with the rows it leaves, or nothing
  -- when no row matches.
  unfoldable pub statement :
      {A : Type 0} → (Db F Time → Option (A × Db F Time)) → Tx F Time R (Reply A)
  statement f c s =
      if s.aborted || not (succeeds s.calls)
      then (next failed, record { working = s.working; aborted = true; calls = rest s.calls })
      else elim (f s.working) [
        | none ↦
            (next no_rows, record { working = s.working; aborted = false; calls = rest s.calls })
        | some (a, db) ↦
            (next (ok a), record { working = db; aborted = false; calls = rest s.calls })
      ]

  -- A query of the pool while the transaction is open.
  unfoldable pub pool_query : {A : Type 0} → (Db F Time → Option A) → Tx F Time R (Reply A)
  pool_query f c s =
      if not (succeeds s.calls)
      then (next failed, after_call s)
      else elim (f c) [ none ↦ (next no_rows, after_call s) | some a ↦ (next (ok a), after_call s) ]

  -- if err != nil { return v }
  abbrev pub or_return : {A : Type 0} → Reply A → Verdict R → Tx F Time R A
  or_return (ok a) v = pure a
  or_return no_rows v = return v
  or_return failed v = return v

-- A row whose absence and whose failure both leave the zero value.
abbrev pub or_zero : {A : Type 0} → Reply A → A → A
or_zero (ok a) z = a
or_zero no_rows z = z
or_zero failed z = z

-- Return early, or go on.
abbrev pub continue :
    {F Time R A B : Type 0}
    → (A → Tx F Time R B)
    → Db F Time
    → Step R A × Session F Time
    → Step R B × Session F Time
continue f c (next a, s) = f a c s
continue f c (stop v, s) = (stop v, s)

infixl 5 ◌>>=◌
abbrev pub ◌>>=◌ : {F Time R A B : Type 0} → Tx F Time R A → (A → Tx F Time R B) → Tx F Time R B
◌>>=◌ m f c s = continue f c (m c s)

module _ {F Time R : Type 0} where
  -- Commit, when the function asked for it.
  unfoldable pub finish :
      Db F Time → Verdict R → Bool → Db F Time → List Bool → Result R × World F Time
  finish db (error e) aborted working calls = (err e, record { db = db; calls = calls })
  finish db (reject r) aborted working calls = (returned r, record { db = db; calls = calls })
  finish db (done r) aborted working calls =
      if aborted || not (succeeds calls)
      then (err commit_failed, record { db = db; calls = rest calls })
      else (returned r, record { db = working; calls = rest calls })

  abbrev pub finish_step : Db F Time → Step R ⊥ × Session F Time → Result R × World F Time
  finish_step db (next b, s) = absurd b
  finish_step db (stop v, s) = finish db v s.aborted s.working s.calls

  -- The function always returns: it has no value to go on with.
  unfoldable pub with_tx : Tx F Time R ⊥ → World F Time → Result R × World F Time
  with_tx fn w =
      if not (succeeds w.calls)
      then (err begin_failed, record { db = w.db; calls = rest w.calls })
      else finish_step w.db
          (fn w.db (record { working = w.db; aborted = false; calls = rest w.calls }))

unfoldable pub tx_failure_message : TxError → String
tx_failure_message begin_failed = "transaction error"
tx_failure_message commit_failed = "commit failed"
tx_failure_message (fn_error _) = "transaction error"

-- ===== src/Engine/Tx/Laws.antt =====
-- What a transaction commits, by reasoning on the parts of its function.
use skyward.Base.{
  ◌≡◌, refl, [], ◌∷◌, Bool, true, false, Bool-cases, Option-cases, Option, none, some, ◌⊎◌, inl,
  inr, arith, List, not, ◌||◌, if◌then◌else◌,
}
use skyward.Engine.Db.{Db}
use skyward.Engine.Tx.{
  Reply, ok, no_rows, failed, Verdict, done, reject, error, Step, next, stop, returned, Session,
  World, continue, finish_step, succeeds, rest, Tx, pure, return, statement, pool_query, or_return,
  ◌>>=◌, finish, with_tx,
}

-- The verdicts that commit nothing.
abbrev pub Refuses : {R : Type 0} → Verdict R → Type 0
Refuses (done r) = ⊥
Refuses (reject r) = Unit
Refuses (error e) = Unit

-- No call of a schedule fails.
unfoldable pub IsCalm : List Bool → Type 0
IsCalm [] = Unit
IsCalm (b ∷ calls) = (b ≡ true) × IsCalm calls

pub IsCalm-succeeds : (calls : List Bool) → IsCalm calls → succeeds calls ≡ true
unfolding IsCalm
IsCalm-succeeds [] h = refl
IsCalm-succeeds (b ∷ calls) h = h.0

pub IsCalm-rest : (calls : List Bool) → IsCalm calls → IsCalm (rest calls)
unfolding IsCalm
IsCalm-rest [] h = tt
IsCalm-rest (b ∷ calls) h = h.1

-- What a read gave: what the rows hold, or a failure, of which there is none when no call fails.
unfoldable pub Read :
    {F Time A : Type 0} → Type 0 → (Db F Time → Option A) → Reply A → Db F Time → Type 0
Read calm f (ok a) c = f c ≡ some a
Read calm f no_rows c = f c ≡ none
Read calm f failed c = ¬ calm

-- What a transaction may commit; `calm` implies that no call of its schedule fails.
pub record Contract (F Time R : Type 0) : Type 1 where
  pub calm : Type 0
  pub commits : R → Db F Time → Db F Time → Type 0

module _ {F Time R : Type 0} (Commits : R → Db F Time → Db F Time → Type 0) where
  -- What a statement's reply says of the rows before and after it.
  unfoldable pub Replies :
      {A : Type 0}
      → (Db F Time → Db F Time → Type 0)
      → (Db F Time → Option (A × Db F Time))
      → Reply A
      → Db F Time
      → Db F Time
      → Type 0
  Replies pre f (ok a) c w = (v : Db F Time) × pre c v × (f v ≡ some (a, w))
  Replies pre f no_rows c w = pre c w × (f w ≡ none)
  Replies pre f failed c w = ⊥

module _ {F Time R : Type 0} (k : Contract F Time R) where
  -- What holds of the committed rows and of the transaction's, unless a statement has failed.
  pub Sound :
      {A : Type 0}
      → (A → Db F Time → Db F Time → Type 0)
      → Db F Time
      → Step R A × Session F Time
      → Type 0
  Sound post c (next a, s) = (k.calm → IsCalm s.calls) × (s.aborted ≡ false → post a c s.working)
  Sound post c (stop (done r), s) =
      (k.calm → IsCalm s.calls) × (s.aborted ≡ false → k.commits r c s.working)
  Sound post c (stop (reject r), s) = k.calm → IsCalm s.calls
  Sound post c (stop (error e), s) = k.calm → IsCalm s.calls

  -- From rows where `pre` holds, `m` goes on with rows where `post` does, commits what `k`
  -- allows, or commits nothing.
  pub record TripleIf {A : Type 0} (pre : Db F Time → Db F Time → Type 0) (m : Tx F Time R A)
      (post : A → Db F Time → Db F Time → Type 0) : Type 0 where
    pub holds :
        (c : Db F Time) (s : Session F Time)
        → (k.calm → IsCalm s.calls)
        → (s.aborted ≡ false → pre c s.working)
        → Sound post c (m c s)

  Sound-continue :
      {A B : Type 0} (mid : A → Db F Time → Db F Time → Type 0)
      (post : B → Db F Time → Db F Time → Type 0) (f : A → Tx F Time R B)
      → ((a : A) → TripleIf (mid a) (f a) post)
      → (c : Db F Time) (r : Step R A × Session F Time) → Sound mid c r
      → Sound post c (continue f c r)
  unfolding Sound
  Sound-continue mid post f k c (next a, s) h = (k a).holds c s h.0 h.1
  Sound-continue mid post f k c (stop (done r), s) h = h
  Sound-continue mid post f k c (stop (reject r), s) h = h
  Sound-continue mid post f k c (stop (error r), s) h = h

  pub Triple-bind :
      {A B : Type 0} {pre : Db F Time → Db F Time → Type 0}
      (mid : A → Db F Time → Db F Time → Type 0) {post : B → Db F Time → Db F Time → Type 0}
      {m : Tx F Time R A} {f : A → Tx F Time R B}
      → TripleIf pre m mid
      → ((a : A) → TripleIf (mid a) (f a) post)
      → TripleIf pre (m >>= f) post
  Triple-bind mid {post} {m} {f} h k = record {
    holds = λ c s q p. Sound-continue mid post f k c (m c s) (h.holds c s q p);
  }

  calm_rest : (s : Session F Time) → (k.calm → IsCalm s.calls) → k.calm → IsCalm (rest s.calls)
  calm_rest s q calm = IsCalm-rest s.calls (q calm)

  statement-Sound :
      {A : Type 0} (pre : Db F Time → Db F Time → Type 0) (f : Db F Time → Option (A × Db F Time))
      (c : Db F Time) (s : Session F Time)
      → (k.calm → IsCalm s.calls)
      → (s.aborted ≡ false → pre c s.working)
      → Sound (Replies k.commits pre f) c (statement f c s)
  unfolding statement Sound Replies
  statement-Sound pre f c s q p = elim (Bool-cases (s.aborted || not (succeeds s.calls))) [
    | inl e ↦ rw e (calm_rest s q, λ h. absurd (ground (arith, h)))
    | inr e ↦ elim (Option-cases (f s.working)) [
      | inl n ↦ rw (e, n) (calm_rest s q, λ h. (p (ground arith), n))
      | inr ((a, db), n) ↦ rw (e, n) (calm_rest s q, λ h. (s.working, p (ground arith), n))
    ]
  ]

  pub Triple-statement :
      {A : Type 0} {pre : Db F Time → Db F Time → Type 0} (f : Db F Time → Option (A × Db F Time))
      → TripleIf pre (statement f) (Replies k.commits pre f)
  Triple-statement {pre} f = record { holds = statement-Sound pre f }

  -- What a query's reply says of the committed rows; it fails only when some call does.
  unfoldable pub PoolReplies :
      {A : Type 0}
      → (Db F Time → Db F Time → Type 0)
      → (Db F Time → Option A)
      → Reply A
      → Db F Time
      → Db F Time
      → Type 0
  PoolReplies pre f (ok a) c w = pre c w × (f c ≡ some a)
  PoolReplies pre f no_rows c w = pre c w × (f c ≡ none)
  PoolReplies pre f failed c w = pre c w × ¬ k.calm

  pool_query-Sound :
      {A : Type 0} (pre : Db F Time → Db F Time → Type 0) (f : Db F Time → Option A) (c : Db F Time)
      (s : Session F Time)
      → (k.calm → IsCalm s.calls)
      → (s.aborted ≡ false → pre c s.working)
      → Sound (PoolReplies pre f) c (pool_query f c s)
  unfolding pool_query Sound PoolReplies
  pool_query-Sound pre f c s q p = elim (Bool-cases (not (succeeds s.calls))) [
    | inl e ↦ rw e (
      calm_rest s q,
      λ h. (p h, λ calm. absurd (ground (arith, IsCalm-succeeds s.calls (q calm), e))),
    )
    | inr e ↦ elim (Option-cases (f c)) [
      | inl n ↦ rw (e, n) (calm_rest s q, λ h. (p h, n))
      | inr (a, n) ↦ rw (e, n) (calm_rest s q, λ h. (p h, n))
    ]
  ]

  pub Triple-pool_query :
      {A : Type 0} {pre : Db F Time → Db F Time → Type 0} (f : Db F Time → Option A)
      → TripleIf pre (pool_query f) (PoolReplies pre f)
  Triple-pool_query {pre} f = record { holds = pool_query-Sound pre f }

  pub PoolReplies-pre :
      {A : Type 0} (pre : Db F Time → Db F Time → Type 0) (f : Db F Time → Option A) (r : Reply A)
      (c w : Db F Time)
      → PoolReplies pre f r c w
      → pre c w
  unfolding PoolReplies
  PoolReplies-pre pre f (ok a) c w (h, e) = h
  PoolReplies-pre pre f no_rows c w h = h.0
  PoolReplies-pre pre f failed c w h = h.0

  refusal-Sound :
      {A : Type 0} (post : A → Db F Time → Db F Time → Type 0) (v : Verdict R) (c : Db F Time)
      (s : Session F Time)
      → Refuses v
      → (k.calm → IsCalm s.calls)
      → Sound post c (return v c s)
  unfolding Sound
  refusal-Sound post (done r) c s h q = absurd h
  refusal-Sound post (reject r) c s h q = q
  refusal-Sound post (error e) c s h q = q

  pub Triple-refuse :
      {A : Type 0} {pre : Db F Time → Db F Time → Type 0}
      {post : A → Db F Time → Db F Time → Type 0} (v : Verdict R)
      → Refuses v
      → TripleIf pre (return v) post
  Triple-refuse {post} v h = record { holds = λ c s q p. refusal-Sound post v c s h q }

  pub Triple-done :
      {A : Type 0} {pre : Db F Time → Db F Time → Type 0}
      {post : A → Db F Time → Db F Time → Type 0} (r : R)
      → ((c w : Db F Time) → pre c w → k.commits r c w)
      → TripleIf pre (return (done r)) post
  unfolding Sound
  Triple-done r h = record { holds = λ c s q p. (q, λ e. h c s.working (p e)) }

  pub Triple-weaken :
      {A : Type 0} {pre weak : Db F Time → Db F Time → Type 0} {m : Tx F Time R A}
      {post : A → Db F Time → Db F Time → Type 0}
      → ((c w : Db F Time) → pre c w → weak c w)
      → TripleIf weak m post
      → TripleIf pre m post
  Triple-weaken h t = record { holds = λ c s q p. t.holds c s q (λ e. h c s.working (p e)) }

  pub Triple-pure :
      {A : Type 0} {pre : Db F Time → Db F Time → Type 0}
      {post : A → Db F Time → Db F Time → Type 0} (a : A)
      → ((c w : Db F Time) → pre c w → post a c w)
      → TripleIf pre (pure a) post
  unfolding Sound
  Triple-pure a h = record { holds = λ c s q p. (q, λ e. h c s.working (p e)) }

  or_return-Sound :
      {A : Type 0} (post : Reply A → Db F Time → Db F Time → Type 0) (r : Reply A) (v : Verdict R)
      (c : Db F Time) (s : Session F Time)
      → Refuses v
      → (k.calm → IsCalm s.calls)
      → (s.aborted ≡ false → post r c s.working)
      → Sound (λ a. post (ok a)) c (or_return r v c s)
  unfolding Sound
  or_return-Sound post (ok a) v c s h q p = (q, p)
  or_return-Sound post no_rows v c s h q p = refusal-Sound (λ a. post (ok a)) v c s h q
  or_return-Sound post failed v c s h q p = refusal-Sound (λ a. post (ok a)) v c s h q

  pub Triple-or_return :
      {A : Type 0} (post : Reply A → Db F Time → Db F Time → Type 0) (r : Reply A) (v : Verdict R)
      → Refuses v
      → TripleIf (post r) (or_return r v) (λ a. post (ok a))
  Triple-or_return post r v h = record { holds = λ c s q p. or_return-Sound post r v c s h q p }

  pub Triple-if :
      {A : Type 0} {pre : Db F Time → Db F Time → Type 0} (b : Bool) {m n : Tx F Time R A}
      {post : A → Db F Time → Db F Time → Type 0}
      → (b ≡ true → TripleIf pre m post)
      → (b ≡ false → TripleIf pre n post)
      → TripleIf pre (if b then m else n) post
  Triple-if true h k = h refl
  Triple-if false h k = k refl

  finish-commits :
      (db : Db F Time) (r : R) (aborted : Bool) (working : Db F Time) (calls : List Bool)
      → (aborted ≡ false → k.commits r db working)
      → ((finish db (done r) aborted working calls).1.db ≡ db)
        ⊎ ((r' : R) × ((finish db (done r) aborted working calls).0 ≡ returned r')
            × k.commits r' db (finish db (done r) aborted working calls).1.db)
  unfolding finish
  finish-commits db r aborted working calls h =
      elim (Bool-cases (aborted || not (succeeds calls))) [
        | inl e ↦ rw e (inl refl)
        | inr e ↦ rw e (inr (r, refl, h (ground arith)))
      ]

  finish_step-commits :
      (db : Db F Time) (out : Step R ⊥ × Session F Time)
      → Sound (λ b c w. Unit) db out
      → ((finish_step db out).1.db ≡ db)
        ⊎ ((r : R) × ((finish_step db out).0 ≡ returned r)
            × k.commits r db (finish_step db out).1.db)
  unfolding finish Sound
  finish_step-commits db (next b, s) h = absurd b
  finish_step-commits db (stop (done r), s) h = finish-commits db r s.aborted s.working s.calls h.1
  finish_step-commits db (stop (reject r), s) h = inl refl
  finish_step-commits db (stop (error e), s) h = inl refl

  -- The same, of a schedule that `Calm` speaks of.
  pub with_tx-commits_if :
      (fn : Tx F Time R ⊥)
      → TripleIf (λ c w. c ≡ w) fn (λ b c w. Unit)
      → (w : World F Time) → (k.calm → IsCalm w.calls)
      → ((with_tx fn w).1.db ≡ w.db)
        ⊎ ((r : R) × ((with_tx fn w).0 ≡ returned r) × k.commits r w.db (with_tx fn w).1.db)
  unfolding with_tx
  with_tx-commits_if fn sound w q = elim (Bool-cases (not (succeeds w.calls))) [
    | inl e ↦ rw e (inl refl)
    | inr e ↦ rw e (
        finish_step-commits w.db
          (fn w.db (record { working = w.db; aborted = false; calls = rest w.calls }))
          (sound.holds w.db (record { working = w.db; aborted = false; calls = rest w.calls })
            (λ calm. IsCalm-rest w.calls (q calm)) (λ h. refl)))
  ]

  finish_step-calls :
      (db : Db F Time) (out : Step R ⊥ × Session F Time)
      → Sound (λ b c w. Unit) db out
      → k.calm
      → IsCalm (finish_step db out).1.calls
  unfolding finish Sound
  finish_step-calls db (next b, s) h calm = absurd b
  finish_step-calls db (stop (done r), s) h calm =
      elim (Bool-cases (s.aborted || not (succeeds s.calls))) [
        | inl e ↦ rw e (IsCalm-rest s.calls (h.0 calm))
        | inr e ↦ rw e (IsCalm-rest s.calls (h.0 calm))
      ]
  finish_step-calls db (stop (reject r), s) h calm = h calm
  finish_step-calls db (stop (error e), s) h calm = h calm

  -- A transaction leaves the rest of the schedule.
  pub with_tx-calls :
      (fn : Tx F Time R ⊥)
      → TripleIf (λ c w. c ≡ w) fn (λ b c w. Unit)
      → (w : World F Time) → (k.calm → IsCalm w.calls)
      → k.calm
      → IsCalm (with_tx fn w).1.calls
  unfolding with_tx
  with_tx-calls fn sound w q calm = elim (Bool-cases (not (succeeds w.calls))) [
    | inl e ↦ rw e (IsCalm-rest w.calls (q calm))
    | inr e ↦ rw e (
        finish_step-calls w.db
          (fn w.db (record { working = w.db; aborted = false; calls = rest w.calls }))
          (sound.holds w.db (record { working = w.db; aborted = false; calls = rest w.calls })
            (λ calm'. IsCalm-rest w.calls (q calm')) (λ h. refl))
          calm)
  ]

module _ {F Time R : Type 0} (Commits : R → Db F Time → Db F Time → Type 0) where
  -- Under any schedule.
  abbrev pub always : Contract F Time R
  always = record { calm = ⊥; commits = Commits }

  abbrev pub Triple :
      {A : Type 0}
      → (Db F Time → Db F Time → Type 0)
      → Tx F Time R A
      → (A → Db F Time → Db F Time → Type 0)
      → Type 0
  Triple pre m post = TripleIf always pre m post

  -- Whatever calls of the database fail, a transaction leaves the committed rows alone, or it
  -- returns a result and has committed rows that `Commits` relates to the rows before. `Commits` is
  -- what the function is shown to commit from the rows it begins with (`Triple`).
  pub with_tx-commits :
      (fn : Tx F Time R ⊥)
      → Triple (λ c w. c ≡ w) fn (λ b c w. Unit)
      → (w : World F Time)
      → ((with_tx fn w).1.db ≡ w.db)
        ⊎ ((r : R) × ((with_tx fn w).0 ≡ returned r) × Commits r w.db (with_tx fn w).1.db)
  with_tx-commits fn sound w = with_tx-commits_if always fn sound w (λ calm. absurd calm)

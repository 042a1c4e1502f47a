-- ===== src/Engine/Service/Laws.antt =====
-- What a request leaves behind, by reasoning on its parts.
use skyward.Base.{◌≡◌, refl, Bool-cases, Option-cases, Option, none, some, ◌⊎◌, inl, inr, arith}
use skyward.Engine.Db.{Db}
use skyward.Engine.Tx.{Reply, ok, no_rows, failed, Result, returned, World, Tx, succeeds, rest}
use skyward.Engine.Tx.Laws.{
  Contract, IsCalm, IsCalm-rest, IsCalm-succeeds, TripleIf, Read, always, with_tx-calls,
  with_tx-commits_if,
}
use skyward.Engine.Service.{
  Turn, proceed, respond, Service, give, answer, query, execute, transact, or_answer, carry_on,
  ◌>>=◌, answered_by, serve,
}

module _ {F Time R : Type 0} (Leaves : R → Db F Time → Db F Time → Type 0) where
  -- What a statement's reply says of the rows before and after it.
  unfoldable pub Writes :
      {A : Type 0}
      → (Db F Time → Db F Time → Type 0)
      → (Db F Time → Option (A × Db F Time))
      → Reply A
      → Db F Time
      → Db F Time
      → Type 0
  Writes pre f (ok a) c w = (v : Db F Time) × pre c v × (f v ≡ some (a, w))
  Writes pre f no_rows c w = pre c w
  Writes pre f failed c w = pre c w

  -- A transaction left the rows as they were, or it returned and committed.
  unfoldable pub Transacts :
      {B : Type 0}
      → (Db F Time → Db F Time → Type 0)
      → (B → Db F Time → Db F Time → Type 0)
      → Result B
      → Db F Time
      → Db F Time
      → Type 0
  Transacts pre Commits result c w =
      (v : Db F Time) × pre c v × ((w ≡ v) ⊎ ((b : _) × (result ≡ returned b) × Commits b v w))

module _ {F Time R : Type 0} (k : Contract F Time R) where
  -- What holds between the rows before the request and those now, or at its answer.
  pub Sound :
      {A : Type 0}
      → (A → Db F Time → Db F Time → Type 0)
      → Db F Time
      → Turn R A × World F Time
      → Type 0
  Sound post c (proceed a, w) = (k.calm → IsCalm w.calls) × post a c w.db
  Sound post c (respond r, w) = k.commits r c w.db

  -- From rows where `pre` holds, `m` goes on with rows where `post` does, or answers with rows that
  -- `k` allows.
  pub record RunsIf {A : Type 0} (pre : Db F Time → Db F Time → Type 0) (m : Service F Time R A)
      (post : A → Db F Time → Db F Time → Type 0) : Type 0 where
    pub holds :
        (c : Db F Time) (w : World F Time)
        → (k.calm → IsCalm w.calls)
        → pre c w.db
        → Sound post c (m w)

  Sound-carry_on :
      {A B : Type 0} (mid : A → Db F Time → Db F Time → Type 0)
      (post : B → Db F Time → Db F Time → Type 0) (f : A → Service F Time R B)
      → ((a : A) → RunsIf (mid a) (f a) post)
      → (c : Db F Time) (t : Turn R A × World F Time) → Sound mid c t
      → Sound post c (carry_on f t)
  unfolding Sound
  Sound-carry_on mid post f g c (proceed a, w) h = (g a).holds c w h.0 h.1
  Sound-carry_on mid post f g c (respond r, w) h = h

  pub Runs-bind :
      {A B : Type 0} {pre : Db F Time → Db F Time → Type 0}
      (mid : A → Db F Time → Db F Time → Type 0) {post : B → Db F Time → Db F Time → Type 0}
      {m : Service F Time R A} {f : A → Service F Time R B}
      → RunsIf pre m mid
      → ((a : A) → RunsIf (mid a) (f a) post)
      → RunsIf pre (m >>= f) post
  Runs-bind mid {post} {m} {f} h g = record {
    holds = λ c w q p. Sound-carry_on mid post f g c (m w) (h.holds c w q p);
  }

  pub Runs-weaken :
      {A : Type 0} {pre weak : Db F Time → Db F Time → Type 0} {m : Service F Time R A}
      {post : A → Db F Time → Db F Time → Type 0}
      → ((c w : Db F Time) → pre c w → weak c w)
      → RunsIf weak m post
      → RunsIf pre m post
  Runs-weaken h t = record { holds = λ c w q p. t.holds c w q (h c w.db p) }

  pub Runs-answer :
      {A : Type 0} {pre : Db F Time → Db F Time → Type 0}
      {post : A → Db F Time → Db F Time → Type 0} (r : R)
      → ((c w : Db F Time) → pre c w → k.commits r c w)
      → RunsIf pre (answer r) post
  unfolding Sound
  Runs-answer r h = record { holds = λ c w q p. h c w.db p }

  pub Runs-give :
      {A : Type 0} {pre : Db F Time → Db F Time → Type 0}
      {post : A → Db F Time → Db F Time → Type 0} (a : A)
      → ((c w : Db F Time) → pre c w → post a c w)
      → RunsIf pre (give a) post
  unfolding Sound
  Runs-give a h = record { holds = λ c w q p. (q, h c w.db p) }

  -- What a query's reply says of the rows; it fails only when some call does.
  unfoldable pub Finds :
      {A : Type 0}
      → (Db F Time → Db F Time → Type 0)
      → (Db F Time → Option A)
      → Reply A
      → Db F Time
      → Db F Time
      → Type 0
  Finds pre f (ok a) c w = pre c w × (f w ≡ some a)
  Finds pre f no_rows c w = pre c w × (f w ≡ none)
  Finds pre f failed c w = pre c w × ¬ k.calm

  pub Finds-pre :
      {A : Type 0} (pre : Db F Time → Db F Time → Type 0) (f : Db F Time → Option A) (r : Reply A)
      (c w : Db F Time)
      → Finds pre f r c w
      → pre c w
  unfolding Finds
  Finds-pre pre f (ok a) c w (h, e) = h
  Finds-pre pre f no_rows c w h = h.0
  Finds-pre pre f failed c w h = h.0

  calm_rest : (w : World F Time) → (k.calm → IsCalm w.calls) → k.calm → IsCalm (rest w.calls)
  calm_rest w q calm = IsCalm-rest w.calls (q calm)

  pub Finds-Read :
      {A : Type 0} (pre : Db F Time → Db F Time → Type 0) (f : Db F Time → Option A)
      (reply : Reply A) (c w : Db F Time)
      → Finds pre f reply c w
      → pre c w × Read k.calm f reply w
  unfolding Finds Read
  Finds-Read pre f (ok a) c w h = h
  Finds-Read pre f no_rows c w h = h
  Finds-Read pre f failed c w h = h

  query-Sound :
      {A : Type 0} (pre : Db F Time → Db F Time → Type 0) (f : Db F Time → Option A) (c : Db F Time)
      (w : World F Time)
      → (k.calm → IsCalm w.calls)
      → pre c w.db
      → Sound (Finds pre f) c (query f w)
  unfolding query Sound Finds
  query-Sound pre f c w q p = elim (Bool-cases (succeeds w.calls)) [
    | inr e ↦
        rw e
          (calm_rest w q, (p, λ calm. absurd (ground (arith, IsCalm-succeeds w.calls (q calm), e))))
    | inl e ↦ elim (Option-cases (f w.db)) [
      | inl n ↦ rw (e, n) (calm_rest w q, (p, n))
      | inr (a, n) ↦ rw (e, n) (calm_rest w q, (p, n))
    ]
  ]

  pub Runs-query :
      {A : Type 0} {pre : Db F Time → Db F Time → Type 0} (f : Db F Time → Option A)
      → RunsIf pre (query f) (Finds pre f)
  Runs-query {pre} f = record { holds = query-Sound pre f }

  execute-Sound :
      {A : Type 0} (pre : Db F Time → Db F Time → Type 0) (f : Db F Time → Option (A × Db F Time))
      (c : Db F Time) (w : World F Time)
      → (k.calm → IsCalm w.calls)
      → pre c w.db
      → Sound (Writes k.commits pre f) c (execute f w)
  unfolding execute Sound Writes
  execute-Sound pre f c w q p = elim (Bool-cases (succeeds w.calls)) [
    | inr e ↦ rw e (calm_rest w q, p)
    | inl e ↦ elim (Option-cases (f w.db)) [
      | inl n ↦ rw (e, n) (calm_rest w q, p)
      | inr ((a, db), n) ↦ rw (e, n) (calm_rest w q, (w.db, p, n))
    ]
  ]

  pub Runs-execute :
      {A : Type 0} {pre : Db F Time → Db F Time → Type 0} (f : Db F Time → Option (A × Db F Time))
      → RunsIf pre (execute f) (Writes k.commits pre f)
  Runs-execute {pre} f = record { holds = execute-Sound pre f }

  pub Runs-transact :
      {B : Type 0} {pre : Db F Time → Db F Time → Type 0}
      (Commits : B → Db F Time → Db F Time → Type 0) (fn : Tx F Time B ⊥)
      → TripleIf (record { calm = k.calm; commits = Commits }) (λ c w. c ≡ w) fn (λ b c w. Unit)
      → RunsIf pre (transact fn) (Transacts k.commits pre Commits)
  unfolding transact Sound Transacts
  Runs-transact Commits fn sound = record {
    holds = λ c w q p. (with_tx-calls _ fn sound w q, (w.db, p, with_tx-commits_if _ fn sound w q));
  }

  or_answer-Sound :
      {A : Type 0} (post : Reply A → Db F Time → Db F Time → Type 0) (reply : Reply A) (r : R)
      (c : Db F Time) (w : World F Time)
      → (post no_rows c w.db → k.commits r c w.db)
      → (post failed c w.db → k.commits r c w.db)
      → (k.calm → IsCalm w.calls)
      → post reply c w.db
      → Sound (λ a. post (ok a)) c (or_answer reply r w)
  unfolding Sound
  or_answer-Sound post (ok a) r c w h g q p = (q, p)
  or_answer-Sound post no_rows r c w h g q p = h p
  or_answer-Sound post failed r c w h g q p = g p

  pub Runs-or_answer :
      {A : Type 0} (post : Reply A → Db F Time → Db F Time → Type 0) (reply : Reply A) (r : R)
      → ((c w : Db F Time) → post no_rows c w → k.commits r c w)
      → ((c w : Db F Time) → post failed c w → k.commits r c w)
      → RunsIf (post reply) (or_answer reply r) (λ a. post (ok a))
  Runs-or_answer post reply r h g = record {
    holds = λ c w q p. or_answer-Sound post reply r c w (h c w.db) (g c w.db) q p;
  }

  serve-Sound :
      (c : Db F Time) (t : Turn R ⊥ × World F Time)
      → Sound (λ b c w. Unit) c t
      → k.commits (answered_by t).0 c (answered_by t).1.db
  unfolding Sound
  serve-Sound c (proceed b, w) h = absurd b
  serve-Sound c (respond r, w) h = h

  pub serve-leaves_if :
      (m : Service F Time R ⊥)
      → RunsIf (λ c w. c ≡ w) m (λ b c w. Unit)
      → (w : World F Time) → (k.calm → IsCalm w.calls)
      → k.commits (serve m w).0 w.db (serve m w).1.db
  unfolding serve
  serve-leaves_if m runs w q = serve-Sound w.db (m w) (runs.holds w.db w q refl)

module _ {F Time R : Type 0} (Leaves : R → Db F Time → Db F Time → Type 0) where
  -- Under any schedule.
  abbrev pub Runs :
      {A : Type 0}
      → (Db F Time → Db F Time → Type 0)
      → Service F Time R A
      → (A → Db F Time → Db F Time → Type 0)
      → Type 0
  Runs pre m post = RunsIf (always Leaves) pre m post

  pub serve-leaves :
      (m : Service F Time R ⊥)
      → Runs (λ c w. c ≡ w) m (λ b c w. Unit)
      → (w : World F Time) → Leaves (serve m w).0 w.db (serve m w).1.db
  serve-leaves m runs w = serve-leaves_if (always Leaves) m runs w (λ calm. absurd calm)

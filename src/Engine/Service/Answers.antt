-- ===== src/Engine/Service/Answers.antt =====
-- Requests that answer whether they have done their work.
use skyward.Base.{◌≡◌, true, false, Option, some, ◌⊎◌, inl, inr, subst}
use skyward.Float.{Float}
use skyward.Engine.Db.{Db}
use skyward.Engine.Fleet.{MutationResult}
use skyward.Engine.Tx.Laws.{Contract}
use skyward.Engine.Service.{Service, query, execute, or_answer, answer, ◌>>=◌}
use skyward.Engine.Service.Laws.{
  RunsIf, Runs-bind, Runs-weaken, Runs-answer, Runs-query, Runs-execute, Runs-or_answer, Finds,
  Writes,
}

-- An answer that says what was done: a refusal leaves the rows as they were.
abbrev pub Answers :
    {F Time : Type 0}
    → (Db F Time → Db F Time → Type 0)
    → MutationResult F
    → Db F Time
    → Db F Time
    → Type 0
Answers Change r c w = ((r.success ≡ false) × (w ≡ c)) ⊎ ((r.success ≡ true) × Change c w)

abbrev pub Unchanged : {F Time : Type 0} → Db F Time → Db F Time → Type 0
Unchanged c w = w ≡ c

abbrev pub answering :
    {F Time : Type 0}
    → Type 0
    → (Db F Time → Db F Time → Type 0)
    → Contract F Time (MutationResult F)
answering calm Change = record { calm = calm; commits = Answers Change }

module _ {F Time : Type 0} ⦃num : Float F⦄ where
  -- A refusal before any write.
  pub Runs-refuse :
      {A calm : Type 0} {Change pre : Db F Time → Db F Time → Type 0}
      {post : A → Db F Time → Db F Time → Type 0} (r : MutationResult F)
      → r.success ≡ false
      → ((c w : Db F Time) → pre c w → w ≡ c)
      → RunsIf (answering calm Change) pre (answer r) post
  Runs-refuse r e h = Runs-answer _ r (λ c w p. inl (e, h c w p))

  -- A read before any write, of which a failure is answered.
  pub Runs-read_or :
      {A B : Type 0} {k : Contract F Time (MutationResult F)} (f : Db F Time → Option A)
      (r : MutationResult F) {g : A → Service F Time (MutationResult F) B}
      {post : B → Db F Time → Db F Time → Type 0} (pre : Db F Time → Db F Time → Type 0)
      → ((c w : Db F Time) → pre c w → k.commits r c w)
      → ((c w : Db F Time) → pre c w → w ≡ c)
      → ((a : A) → RunsIf k (λ c w. pre c w × (f c ≡ some a)) (g a) post)
      → RunsIf k pre (query f >>= (λ reply. or_answer reply r >>= g)) post
  unfolding Finds
  Runs-read_or {k = k} f r pre refuse h go = Runs-bind _ _ (Runs-query _ f) (λ reply.
      Runs-bind _ _
        (Runs-or_answer _ (Finds k pre f) reply r (λ c w h. refuse c w h.0)
          (λ c w h. refuse c w h.0))
        (λ a.
          Runs-weaken _ (λ c w (p, found). (p, subst (λ x. f x ≡ some a) (h c w p) found)) (go a)))

  pub Runs-read :
      {A B calm : Type 0} {Change : Db F Time → Db F Time → Type 0} (f : Db F Time → Option A)
      (r : MutationResult F) {g : A → Service F Time (MutationResult F) B}
      {post : B → Db F Time → Db F Time → Type 0} (pre : Db F Time → Db F Time → Type 0)
      → r.success ≡ false
      → ((c w : Db F Time) → pre c w → w ≡ c)
      → ((a : A) → RunsIf (answering calm Change) (λ c w. pre c w × (f c ≡ some a)) (g a) post)
      → RunsIf (answering calm Change) pre (query f >>= (λ reply. or_answer reply r >>= g)) post
  Runs-read f r pre e h = Runs-read_or f r pre (λ c w p. inl (e, h c w p)) h

  -- The write, and the answer by its success.
  pub Runs-write_or :
      {A B : Type 0} {k : Contract F Time (MutationResult F)} {pre : Db F Time → Db F Time → Type 0}
      (f : Db F Time → Option (A × Db F Time)) (r good : MutationResult F)
      {post : B → Db F Time → Db F Time → Type 0}
      → ((c w : Db F Time) → pre c w → k.commits r c w)
      → ((c w : Db F Time) → pre c w → w ≡ c)
      → ((c w : Db F Time) (a : A) → pre c c → f c ≡ some (a, w) → k.commits good c w)
      → RunsIf k pre (execute f >>= (λ reply. or_answer reply r >>= (λ a. answer good))) post
  unfolding Writes
  Runs-write_or {k = k} {pre = pre} f r good refuse h go =
      Runs-bind _ _ (Runs-execute _ f) (λ reply.
        Runs-bind _ _ (Runs-or_answer _ (Writes k.commits pre f) reply r refuse refuse) (λ a.
          Runs-answer _ good (λ c w (v, p, written).
            go c w a (subst (λ x. pre c x) (h c v p) p)
              (subst (λ x. f x ≡ some (a, w)) (h c v p) written))))

  pub Runs-write :
      {A B calm : Type 0} {Change pre : Db F Time → Db F Time → Type 0}
      (f : Db F Time → Option (A × Db F Time)) (r good : MutationResult F)
      {post : B → Db F Time → Db F Time → Type 0}
      → r.success ≡ false
      → good.success ≡ true
      → ((c w : Db F Time) → pre c w → w ≡ c)
      → ((c w : Db F Time) (a : A) → pre c c → f c ≡ some (a, w) → Change c w)
      → RunsIf
          (answering calm Change)
          pre
          (execute f >>= (λ reply. or_answer reply r >>= (λ a. answer good)))
          post
  Runs-write f r good e g h k =
      Runs-write_or f r good (λ c w p. inl (e, h c w p)) h
        (λ c w a p written. inr (g, k c w a p written))

-- ===== src/Engine/Ledger/Reads.antt =====
-- Reads of a transaction that has not written yet.
use skyward.Base.{◌≡◌, sym, ap, ◌∙◌, subst, Option, some, arith, Option-cases, inl, inr}
use skyward.Engine.Db.{Db}
use skyward.Engine.Tx.{
  Reply, ok, no_rows, failed, Verdict, Tx, statement, pool_query, or_return, ◌>>=◌,
}
use skyward.Engine.Tx.Laws.{
  Contract, TripleIf, Read, PoolReplies, Replies, Refuses, PoolReplies-pre, Triple-bind,
  Triple-statement, Triple-pool_query, Triple-or_return, Triple-weaken,
}
use skyward.Engine.Ledger.{read_with}
use skyward.Engine.Ledger.Laws.{read_with-same}

module _ {F Time : Type 0} where
  pub read_with-found :
      {A : Type 0} (f : Db F Time → Option A) (a : A) (v w : Db F Time)
      → read_with f v ≡ some (a, w)
      → f v ≡ some a
  read_with-found f a v w h = elim (Option-cases (f v)) [
    | inl n ↦ absurd (ground (arith, h, n))
    | inr (b, e) ↦ ground (arith, h, e)
  ]

PoolReplies-Read :
    {F Time R A : Type 0} (k : Contract F Time R) (pre : Db F Time → Db F Time → Type 0)
    (f : Db F Time → Option A) (reply : Reply A) (c w : Db F Time)
    → PoolReplies k pre f reply c w
    → pre c w × Read k.calm f reply c
unfolding PoolReplies Read
PoolReplies-Read k pre f (ok a) c w h = h
PoolReplies-Read k pre f no_rows c w h = h
PoolReplies-Read k pre f failed c w h = h

module _ {F Time R : Type 0} {k : Contract F Time R} where
  -- A row that is read, or the verdict.
  pub Triple-read :
      {A B : Type 0} (f : Db F Time → Option A) (v : Verdict R) {g : A → Tx F Time R B}
      {post : B → Db F Time → Db F Time → Type 0} (pre : Db F Time → Db F Time → Type 0)
      → Refuses v
      → ((c w : Db F Time) → pre c w → c ≡ w)
      → ((a : A) → TripleIf k (λ c w. pre c w × (f c ≡ some a)) (g a) post)
      → TripleIf k pre (statement (read_with f) >>= (λ reply. or_return reply v >>= g)) post
  unfolding Replies
  Triple-read f v pre refuses same h = Triple-bind _ _ (Triple-statement _ (read_with f)) (λ reply.
      Triple-bind _ _ (Triple-or_return _ (Replies k.commits pre (read_with f)) reply v refuses)
        (λ a.
          Triple-weaken _
            (λ c w (x, before, read). (
              subst (λ y. pre c y) (sym (read_with-same f x w a read)) before,
              ap f (same c x before) ∙ read_with-found f a x w read,
            ))
            (h a)))

  -- A query of the pool, whatever its reply.
  pub Triple-peek :
      {A B : Type 0} (f : Db F Time → Option A) {g : Reply A → Tx F Time R B}
      {post : B → Db F Time → Db F Time → Type 0} (pre : Db F Time → Db F Time → Type 0)
      → ((reply : Reply A) → TripleIf k pre (g reply) post)
      → TripleIf k pre (pool_query f >>= g) post
  Triple-peek f pre h =
      Triple-bind _ _ (Triple-pool_query _ f)
        (λ reply. Triple-weaken _ (PoolReplies-pre _ pre f reply) (h reply))

  -- A query of the pool, of which the reply is kept.
  pub Triple-ask :
      {A B : Type 0} (f : Db F Time → Option A) {g : Reply A → Tx F Time R B}
      {post : B → Db F Time → Db F Time → Type 0} (pre : Db F Time → Db F Time → Type 0)
      → ((reply : Reply A) → TripleIf k (λ c w. pre c w × Read k.calm f reply c) (g reply) post)
      → TripleIf k pre (pool_query f >>= g) post
  Triple-ask f pre h =
      Triple-bind _ _ (Triple-pool_query _ f)
        (λ reply. Triple-weaken _ (PoolReplies-Read k pre f reply) (h reply))

-- ===== src/Engine/Fleet/Tail.antt =====
-- Tail numbers: GenerateTailNumber and getHQPrefix (apps/api/internal/engine/engine.go). The three
-- letters of each attempt are an argument: the library draws them.
pub mod Search
use skyward.Base.{
  ℕ, zero, suc, Bool, true, false, ◌==◌, Option, none, some, String, nat_eq, string_eq,
  if◌then◌else◌,
}
use skyward.Base.Dict.{any_row}
use Prim.Native.String.{◌++◌}
use skyward.Engine.Db.{Db, Platform, Aircraft}
use skyward.Engine.Tx.{Reply, ok, no_rows, failed, or_zero}
use skyward.Engine.Service.{Service, give, query, ◌>>=◌}

abbrev pub has_tail : {F Time : Type 0} → String → ℕ → Aircraft F Time → Bool
has_tail tail k a = elim a.tail_number [ none ↦ false | some t ↦ t == tail ]

-- SELECT EXISTS(SELECT 1 FROM fleet_aircraft WHERE tail_number = …)
unfoldable pub tail_taken : {F Time : Type 0} → String → Db F Time → Option Bool
tail_taken tail db = some (any_row (has_tail tail) db.fleet)

abbrev pub attempts : ℕ
attempts = 100

module _ {F Time R : Type 0} where
  -- The attempts that are left, from the attempt `i` on. A query that fails leaves `exists` at false.
  unfoldable pub try_tails : ℕ → (ℕ → String) → ℕ → String → Service F Time R (Option String)
  try_tails zero draws i prefix = give none
  try_tails (suc left) draws i prefix = query (tail_taken (prefix ++ draws i)) >>= λ exists.
      if or_zero exists false
      then try_tails left draws (suc i) prefix
      else give (some (prefix ++ draws i))

  abbrev pub tails_with : (ℕ → String) → Reply String → Service F Time R (Option String)
  tails_with draws (ok prefix) = try_tails attempts draws 0 prefix
  tails_with draws no_rows = give none
  tails_with draws failed = give none

  unfoldable pub generate_tail_number :
      ⦃p : Platform F Time⦄ → (ℕ → String) → String → Service F Time R (Option String)
  generate_tail_number ⦃p⦄ draws hq_iata = do
    prefix ← query (λ db. some (p.hq_prefix hq_iata))
    tails_with draws prefix

-- ===== src/Bots/Choice.antt =====
-- What the decisions of a bot guarantee.
use skyward.Base.{
  ◌≡◌, refl, true, false, Option, none, some, List, [], ◌∷◌, arith, Bool-cases, inl, inr, ◌⊎◌,
}
use skyward.Base.Int.{ℤ, pos, ◌≤ℤ◌}
use skyward.Float.{Float, IsArithmetic, ◌≼◌, ◌≺◌, ◌⋖◌}
use skyward.Float.Order.{le_of_not_lt, le_of_lt}
use skyward.Bots.{
  RouteCandidate, route_candidate_min_profit, better, pick_from, pick_best_route_candidate,
  bounded_flights, bot_target_flights,
}

-- The flights of a bot's route are at least one and no more than the aircraft can fly, for any demand
-- and ratio, when the aircraft has seats and can fly at all.
pub bot_target_flights-bounds :
    {F : Type 0} ⦃num : Float F⦄ (capacity : ℤ) (daily_demand : F) (max_physical : ℤ)
    (sched_ratio : F)
    → pos 1 ≤ℤ capacity
    → pos 1 ≤ℤ max_physical
    → (pos 1 ≤ℤ bot_target_flights capacity daily_demand max_physical sched_ratio)
      × (bot_target_flights capacity daily_demand max_physical sched_ratio ≤ℤ max_physical)
unfolding bot_target_flights bounded_flights
bot_target_flights-bounds capacity daily_demand max_physical sched_ratio p q = ground arith

module _ {F : Type 0} ⦃num : Float F⦄ (law : IsArithmetic F) where
  open law use {le_refl, le_trans, lt-not-le}

  -- Each of these candidates that reaches the threshold earns no more than `best`.
  pub IsBestOf : F → List (RouteCandidate F) → Type 0
  IsBestOf best [] = Unit
  IsBestOf best (c ∷ cands) =
      (((c.profit ⋖ route_candidate_min_profit) ≡ true) ⊎ (c.profit ≼ best)) × IsBestOf best cands

  -- No candidate reaches the threshold.
  pub AllPoor : List (RouteCandidate F) → Type 0
  AllPoor [] = Unit
  AllPoor (c ∷ cands) = ((c.profit ⋖ route_candidate_min_profit) ≡ true) × AllPoor cands

  Among : RouteCandidate F → List (RouteCandidate F) → Type 0
  Among best [] = ⊥
  Among best (c ∷ cands) = (best ≡ c) ⊎ Among best cands

  -- The choice among the candidates: one of them that reaches the threshold and earns no less than any
  -- other, or none if none reaches it.
  pub IsChoice : List (RouteCandidate F) → Option (RouteCandidate F) → Type 0
  IsChoice cands none = AllPoor cands
  IsChoice cands (some best) =
      Among best cands × (route_candidate_min_profit ≼ best.profit) × IsBestOf best.profit cands

  -- The choice of the loop from the best so far.
  Improves : RouteCandidate F → List (RouteCandidate F) → Option (RouteCandidate F) → Type 0
  Improves b cands none = ⊥
  Improves b cands (some best) =
      ((best ≡ b) ⊎ Among best cands) × (b.profit ≼ best.profit) × IsBestOf best.profit cands

  Poor : RouteCandidate F → Type 0
  Poor c = (c.profit ⋖ route_candidate_min_profit) ≡ true

  skip-IsChoice :
      (c : RouteCandidate F) (cands : List (RouteCandidate F)) (out : Option (RouteCandidate F))
      → Poor c
      → IsChoice cands out
      → IsChoice (c ∷ cands) out
  unfolding IsChoice AllPoor IsBestOf Among Poor
  skip-IsChoice c cands none p h = (p, h)
  skip-IsChoice c cands (some best) p (a, m, b) = (inr a, m, (inl p, b))

  take-IsChoice :
      (c : RouteCandidate F) (cands : List (RouteCandidate F)) (out : Option (RouteCandidate F))
      → (c.profit ⋖ route_candidate_min_profit) ≡ false
      → Improves c cands out
      → IsChoice (c ∷ cands) out
  unfolding IsChoice Improves IsBestOf Among
  take-IsChoice c cands none p h = absurd h
  take-IsChoice c cands (some best) p (a, m, b) =
      (a, le_trans _ _ _ (le_of_not_lt law _ _ p) m, (inr m, b))

  widen :
      (b c best : RouteCandidate F) (cands : List (RouteCandidate F))
      → (best ≡ b) ⊎ Among best cands
      → (best ≡ b) ⊎ Among best (c ∷ cands)
  unfolding Among
  widen b c best cands (inl e) = inl e
  widen b c best cands (inr a) = inr (inr a)

  skip-Improves :
      (b c : RouteCandidate F) (cands : List (RouteCandidate F)) (out : Option (RouteCandidate F))
      → Poor c ⊎ (c.profit ≼ b.profit)
      → Improves b cands out
      → Improves b (c ∷ cands) out
  unfolding Improves IsBestOf Poor
  skip-Improves b c cands none p h = absurd h
  skip-Improves b c cands (some best) (inl p) (a, m, r) = (widen b c best cands a, m, (inl p, r))
  skip-Improves b c cands (some best) (inr p) (a, m, r) =
      (widen b c best cands a, m, (inr (le_trans _ _ _ p m), r))

  take-Improves :
      (b c : RouteCandidate F) (cands : List (RouteCandidate F)) (out : Option (RouteCandidate F))
      → b.profit ≺ c.profit
      → Improves c cands out
      → Improves b (c ∷ cands) out
  unfolding Improves IsBestOf Among
  take-Improves b c cands none p h = absurd h
  take-Improves b c cands (some best) p (a, m, r) =
      (inr a, le_trans _ _ _ (le_of_lt law _ _ p) m, (inr m, r))

  pick_from-Improves :
      (cands : List (RouteCandidate F)) (b : RouteCandidate F)
      → Improves b cands (pick_from cands (some b))
  unfolding pick_from better Improves IsBestOf Poor
  pick_from-Improves [] b = (inl refl, le_refl b.profit, tt)
  pick_from-Improves (c ∷ cands) b = elim (Bool-cases (c.profit ⋖ route_candidate_min_profit)) [
    | inl poor ↦ rw poor (skip-Improves b c cands _ (inl poor) (pick_from-Improves cands b))
    | inr rich ↦ elim (Bool-cases (b.profit ⋖ c.profit)) [
      | inl more ↦ rw (rich, more) (take-Improves b c cands _ more (pick_from-Improves cands c))
      | inr less ↦
          rw (rich, less)
            (skip-Improves b c cands _ (inr (le_of_not_lt law _ _ less))
              (pick_from-Improves cands b))
    ]
  ]

  -- A bot opens one of the candidate routes that reaches the threshold of 1000 a week and earns no less
  -- than any other that does, or none when none reaches it.
  pub pick_best_route_candidate-IsChoice :
      (cands : List (RouteCandidate F)) → IsChoice cands (pick_best_route_candidate cands)
  unfolding pick_best_route_candidate pick_from better IsChoice AllPoor Poor
  pick_best_route_candidate-IsChoice [] = tt
  pick_best_route_candidate-IsChoice (c ∷ cands) =
      elim (Bool-cases (c.profit ⋖ route_candidate_min_profit)) [
        | inl poor ↦
            rw poor (skip-IsChoice c cands _ poor (pick_best_route_candidate-IsChoice cands))
        | inr rich ↦ rw rich (take-IsChoice c cands _ rich (pick_from-Improves cands c))
      ]

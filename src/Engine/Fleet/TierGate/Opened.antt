-- ===== src/Engine/Fleet/TierGate/Opened.antt =====
-- When the gate of credit tiers lets a user through, and what the draw of a tail number leaves.
use skyward.Base.{
  ℕ, zero, suc, ◌≡◌, refl, sym, ◌⊎◌, inl, inr, true, false, ◌==◌, Option, none, some, String,
  nat_eq, string_eq, leb, Bool-cases, Option-cases, subst,
}
use skyward.Economy.Credit.{credit_tier_rank, tier_gate_message}
use skyward.Engine.Db.{Db, Platform}
use skyward.Engine.Tx.{Reply, ok, no_rows, failed, or_zero}
use skyward.Engine.Tx.Laws.{Contract}
use skyward.Engine.Service.Laws.{
  RunsIf, Runs-bind, Runs-weaken, Runs-give, Runs-query, Finds, Finds-pre,
}
use skyward.Engine.Fleet.{Message}
use skyward.Engine.Fleet.TierGate.{
  actor_type_of, tier_row, current_credit_tier, gate_message, check_actor, check_tier_gate,
}
use skyward.Engine.Fleet.Tail.{tail_taken, attempts, try_tails, tails_with, generate_tail_number}

module _ {F Time : Type 0} where
  -- The model asks for no tier, the user is a bot, or the user's tier (Standard, when there is none or
  -- it cannot be read) is high enough.
  pub Opens : ℕ → String → String → Db F Time → Type 0
  Opens user min_tier model_name c =
      ((min_tier == "") ≡ true)
      ⊎ (leb (credit_tier_rank min_tier) 1 ≡ true)
      ⊎ ((actor : String) × (actor_type_of user c ≡ some actor) × ((actor == "REAL") ≡ false))
      ⊎ ((tier : String) × (tier_gate_message tier min_tier model_name ≡ none)
          × ((tier ≡ "Standard") ⊎ (tier_row user c ≡ some tier)))

  unfoldable pub Allows : ℕ → String → String → Option (Message F) → Db F Time → Type 0
  Allows user min_tier model_name none c = Opens user min_tier model_name c
  Allows user min_tier model_name (some message) c = Unit

module _ {F Time R : Type 0} (k : Contract F Time R) (Q : Db F Time → Type 0) (user : ℕ)
    (min_tier model_name : String) where
  abbrev pub Here : Db F Time → Db F Time → Type 0
  Here c w = (c ≡ w) × Q c

  tier_read :
      (reply : Reply String) (c w : Db F Time)
      → Finds k Here (tier_row user) reply c w
      → Here c w
        × ((current_credit_tier reply ≡ "Standard")
            ⊎ (tier_row user c ≡ some (current_credit_tier reply)))
  unfolding Finds current_credit_tier
  tier_read no_rows c w h = (h.0, inl refl)
  tier_read failed c w h = (h.0, inl refl)
  tier_read (ok tier) c w (h, found) = elim (Bool-cases (tier == "")) [
    | inl empty ↦ rw empty (h, inl refl)
    | inr tier_set ↦ rw tier_set (h, inr (subst (λ x. tier_row user x ≡ some tier) (sym h.0) found))
  ]

  abbrev pub Gated : Option (Message F) → Db F Time → Db F Time → Type 0
  Gated message c w = Here c w × Allows user min_tier model_name message c

  allowed :
      (tier : String) (c : Db F Time)
      → ((tier ≡ "Standard") ⊎ (tier_row user c ≡ some tier))
      → Allows user min_tier model_name
          (gate_message (tier_gate_message tier min_tier model_name))
          c
  unfolding Allows Opens
  allowed tier c h = elim (Option-cases (tier_gate_message tier min_tier model_name)) [
    | inl n ↦ rw n (inr (inr (inr (tier, n, h))))
    | inr (words, e) ↦ rw e tt
  ]

  Runs-check_actor :
      (reply : Reply String)
      → RunsIf k
          (Finds k Here (actor_type_of user) reply)
          (check_actor user min_tier model_name reply)
          Gated
  unfolding check_actor Allows Opens Finds
  Runs-check_actor no_rows = Runs-give _ _ (λ c w h. (h.0, tt))
  Runs-check_actor failed = Runs-give _ _ (λ c w h. (h.0, tt))
  Runs-check_actor (ok actor) = elim (Bool-cases (actor == "REAL")) [
    | inr bot ↦ rw bot (
        Runs-give _ none (λ c w h. (
          h.0,
          inr (
              inr
                (inl (actor, subst (λ x. actor_type_of user x ≡ some actor) (sym h.0.0) h.1, bot))),
        )))
    | inl real ↦ rw real (
        Runs-weaken _ (λ c w h. h.0)
          (Runs-bind _ _ (Runs-query _ {pre = Here} (tier_row user)) (λ tier.
            Runs-give _ _ (λ c w h.
              let (here, read) = tier_read tier c w h in
              (here, allowed (current_credit_tier tier) c read)))))
  ]

  pub Runs-check_tier_gate : RunsIf k Here (check_tier_gate user min_tier model_name) Gated
  unfolding check_tier_gate Allows Opens
  Runs-check_tier_gate = elim (Bool-cases (min_tier == "")) [
    | inl any ↦ rw any (Runs-give _ none (λ c w h. (h, inl any)))
    | inr asks ↦ elim (Bool-cases (leb (credit_tier_rank min_tier) 1)) [
      | inl low ↦ rw (asks, low) (Runs-give _ none (λ c w h. (h, inr (inl low))))
      | inr high ↦
          rw (asks, high) (Runs-bind _ _ (Runs-query _ (actor_type_of user)) Runs-check_actor)
    ]
  ]

module _ {F Time R : Type 0} (k : Contract F Time R) (pre : Db F Time → Db F Time → Type 0)
    (draws : ℕ → String) where
  Runs-try_tails :
      (left i : ℕ) (prefix : String) → RunsIf k pre (try_tails left draws i prefix) (λ tail. pre)
  unfolding try_tails
  Runs-try_tails zero i prefix = Runs-give _ none (λ c w h. h)
  Runs-try_tails (suc left) i prefix =
      Runs-bind _ _ (Runs-query _ {pre = pre} (tail_taken _)) (λ exists.
        Runs-weaken _ (Finds-pre _ pre _ exists) (elim (Bool-cases (or_zero exists false)) [
          | inl taken ↦ rw taken (Runs-try_tails left (suc i) prefix)
          | inr free ↦ rw free (Runs-give _ _ (λ c w h. h))
        ]))

  Runs-tails_with : (reply : Reply String) → RunsIf k pre (tails_with draws reply) (λ tail. pre)
  Runs-tails_with (ok prefix) = Runs-try_tails attempts 0 prefix
  Runs-tails_with no_rows = Runs-give _ none (λ c w h. h)
  Runs-tails_with failed = Runs-give _ none (λ c w h. h)

  -- A draw reads only.
  pub Runs-generate_tail_number :
      ⦃p : Platform F Time⦄ (hq : String)
      → RunsIf k pre (generate_tail_number draws hq) (λ tail. pre)
  unfolding generate_tail_number
  Runs-generate_tail_number hq =
      Runs-bind _ _ (Runs-query _ {pre = pre} _)
        (λ prefix. Runs-weaken _ (Finds-pre _ pre _ prefix) (Runs-tails_with prefix))

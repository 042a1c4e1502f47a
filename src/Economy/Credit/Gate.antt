-- ===== src/Economy/Credit/Gate.antt =====
-- What a better score opens.
use skyward.Base.{
  ℕ, ◌≡◌, ◌≤◌, refl, none, String, string_eq, arith, if◌then◌else◌, Bool-cases, inl, inr,
}
use skyward.Base.Int.{ℤ, pos, ◌≤ℤ◌, leb_ℤ}
use skyward.Economy.Credit.{resolve_credit_tier, credit_tier_rank, tier_gate_message}

rank_of : ℤ → ℕ
rank_of score = credit_tier_rank (resolve_credit_tier score)

ranked : ℤ → ℕ
ranked score =
    if leb_ℤ (pos 820) score
    then 4
    else if leb_ℤ (pos 660) score
    then 3
    else if leb_ℤ (pos 520) score
    then 2
    else 1

rank_of-ranked : (score : ℤ) → rank_of score ≡ ranked score
unfolding rank_of credit_tier_rank resolve_credit_tier ranked
rank_of-ranked score = elim (Bool-cases (leb_ℤ (pos 820) score)) [
  | inl platinum ↦ rw platinum refl
  | inr e ↦ elim (Bool-cases (leb_ℤ (pos 660) score)) [
    | inl gold ↦ rw (e, gold) refl
    | inr f ↦ elim (Bool-cases (leb_ℤ (pos 520) score)) [
      | inl silver ↦ rw (e, f, silver) refl
      | inr standard ↦ rw (e, f, standard) refl
    ]
  ]
]

ranked_mono : (s t : ℤ) → s ≤ℤ t → ranked s ≤ ranked t
unfolding ranked
ranked_mono s t h = ground arith

rank_mono : (s t : ℤ) → s ≤ℤ t → rank_of s ≤ rank_of t
rank_mono s t h = omega (arith, rank_of-ranked s, rank_of-ranked t, ranked_mono s t h)

-- A better score opens every aircraft that a lower one opens, whatever tier the model
-- asks for.
pub tier_gate_message_mono :
    (s t : ℤ) (min_tier model_name : String)
    → s ≤ℤ t
    → tier_gate_message (resolve_credit_tier s) min_tier model_name ≡ none
    → tier_gate_message (resolve_credit_tier t) min_tier model_name ≡ none
unfolding tier_gate_message rank_of
tier_gate_message_mono s t min_tier model_name h e = ground (arith, rank_mono s t h)

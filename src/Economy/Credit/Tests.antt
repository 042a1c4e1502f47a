-- ===== src/Economy/Credit/Tests.antt =====
-- Tiers of two scores (dayboundary.go, fleet.go), and the theorem there.
use skyward.Base.{◌≡◌, refl, none, some, [], ◌∷◌, string_eq, arith}
use skyward.Base.Int.{pos}
use skyward.Economy.Credit.{resolve_credit_tier, credit_tier_rank, tier_gate_message}
use skyward.Economy.Credit.Gate.{tier_gate_message_mono}

refused_below :
    tier_gate_message (resolve_credit_tier (pos 530)) "Gold" "A380"
    ≡ some ("A380" ∷ "Gold" ∷ "Silver" ∷ [])
unfolding tier_gate_message resolve_credit_tier credit_tier_rank
refused_below = refl

allowed : tier_gate_message (resolve_credit_tier (pos 700)) "Gold" "A380" ≡ none
unfolding tier_gate_message resolve_credit_tier credit_tier_rank
allowed = refl

tier_gate_message_mono_example :
    tier_gate_message (resolve_credit_tier (pos 830)) "Gold" "A380" ≡ none
tier_gate_message_mono_example =
    tier_gate_message_mono (pos 700) (pos 830) "Gold" "A380" (omega arith) allowed

-- ===== src/Economy/Credit.antt =====
-- Credit tiers: resolveCreditTier and creditTierRank of apps/api/internal/engine/dayboundary.go, and
-- the gate that they decide, tierGateMessage of engine/fleet.go.
pub mod Gate
pub mod Tests
use skyward.Base.{
  ℕ, ◌≡◌, Bool, true, false, ◌==◌, Option, none, some, List, [], ◌∷◌, String, string_eq, leb, ltb,
  if◌then◌else◌,
}
use skyward.Base.Int.{ℤ, pos, leb_ℤ}

unfoldable pub resolve_credit_tier : ℤ → String
resolve_credit_tier score =
    if leb_ℤ (pos 820) score
    then "Platinum"
    else if leb_ℤ (pos 660) score
    then "Gold"
    else if leb_ℤ (pos 520) score
    then "Silver"
    else "Standard"

unfoldable pub credit_tier_rank : String → ℕ
credit_tier_rank tier =
    if tier == "Platinum"
    then 4
    else if tier == "Gold"
    then 3
    else if tier == "Silver"
    then 2
    else if tier == "Standard"
    then 1
    else 0

-- The arguments of the refusal's format; `none` is the empty message, which allows.
unfoldable pub tier_gate_message : String → String → String → Option (List String)
tier_gate_message current_tier min_tier model_name =
    if min_tier == ""
    then none
    else if leb (credit_tier_rank min_tier) 1
    then none
    else if ltb (credit_tier_rank current_tier) (credit_tier_rank min_tier)
    then some (model_name ∷ min_tier ∷ current_tier ∷ [])
    else none

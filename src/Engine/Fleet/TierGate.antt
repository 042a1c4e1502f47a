-- ===== src/Engine/Fleet/TierGate.antt =====
-- The credit tier that a model asks for: checkTierGate (apps/api/internal/engine/fleet.go) and
-- CurrentCreditTier (engine/dayboundary.go).
pub mod Opened
use skyward.Base.{
  ℕ, ◌≡◌, refl, ◌⊎◌, inl, inr, Bool, true, false, not, ◌==◌, Option, none, some, List, [], String,
  nat_eq, string_eq, leb, if◌then◌else◌, Bool-cases, Option-cases, arith,
}
use skyward.Base.Dict.{lookup}
use skyward.Economy.Credit.{credit_tier_rank, tier_gate_message}
use skyward.Engine.Db.{Db}
use skyward.Engine.Tx.{Reply, ok, no_rows, failed}
use skyward.Engine.Service.{Service, give, query, ◌>>=◌}
use skyward.Engine.Fleet.{Message, text, about}

-- COALESCE(actor_type, 'REAL')
unfoldable pub actor_type_of : {F Time : Type 0} → ℕ → Db F Time → Option String
actor_type_of user db = elim (lookup user db.users) [
  | none ↦ none
  | some u ↦ elim u.actor_type [ none ↦ some "REAL" | some t ↦ some t ]
]

abbrev pub tier_row : {F Time : Type 0} → ℕ → Db F Time → Option String
tier_row user db = lookup user db.credit_tiers

-- CurrentCreditTier, by the reply of its query.
unfoldable pub current_credit_tier : Reply String → String
current_credit_tier (ok tier) = if tier == "" then "Standard" else tier
current_credit_tier no_rows = "Standard"
current_credit_tier failed = "Standard"

abbrev pub gate_message : {F : Type 0} → Option (List String) → Option (Message F)
gate_message none = none
gate_message (some arguments) = some (about "%s requires %s credit tier (you are %s)." arguments [])

module _ {F Time R : Type 0} where
  unfoldable pub check_actor :
      ℕ → String → String → Reply String → Service F Time R (Option (Message F))
  check_actor user min_tier model_name (ok actor_type) =
      if not (actor_type == "REAL") then give none else do
        tier ← query (tier_row user)
        give (gate_message (tier_gate_message (current_credit_tier tier) min_tier model_name))
  check_actor user min_tier model_name no_rows =
      give (some (text "Credit tier could not be verified. Please try again."))
  check_actor user min_tier model_name failed =
      give (some (text "Credit tier could not be verified. Please try again."))

  -- A message refuses; none allows.
  unfoldable pub check_tier_gate : ℕ → String → String → Service F Time R (Option (Message F))
  check_tier_gate user min_tier model_name =
      if min_tier == ""
      then give none
      else if leb (credit_tier_rank min_tier) 1
      then give none
      else query (actor_type_of user) >>= check_actor user min_tier model_name

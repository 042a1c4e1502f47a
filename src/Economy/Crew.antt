-- ===== src/Economy/Crew.antt =====
-- The cost of a crew by the size of the aircraft: crewScale, defaultCrewScale and crewCostFor of
-- apps/api/internal/engine/simulation.go.
pub mod Tests
use skyward.Base.{ℕ, ◌≡◌, true, false, refl, if◌then◌else◌}
use skyward.Float.{Float, IsArithmetic, ◌⊗◌, ◌⊘◌, ◌⩽◌, ◌⋖◌, ◌≼◌, ◌≺◌, whole}
use skyward.Float.Order.{not_le_of_lt, le_raised, raised_mono, capped_le, le_capped, capped_mono}

pub record CrewScale (F : Type 0) : Type 0 where
  pub anchor : F
  pub min_mult : F
  pub max_mult : F

unfoldable pub default_crew_scale : {F : Type 0} ⦃num : Float F⦄ → CrewScale F
default_crew_scale ⦃num⦄ = record {
  anchor = whole 180;
  min_mult = num.decimal 5 1;
  max_mult = num.decimal 25 1;
}

-- The scale in use: the default one when none was filled in.
unfoldable pub in_use : {F : Type 0} ⦃num : Float F⦄ → CrewScale F → CrewScale F
in_use scale = if scale.anchor ⩽ whole 0 then default_crew_scale else scale

unfoldable pub clamped : {F : Type 0} ⦃num : Float F⦄ → CrewScale F → F → F
clamped scale mult =
    let mult = if mult ⋖ scale.min_mult then scale.min_mult else mult in
    if scale.max_mult ⋖ mult then scale.max_mult else mult

unfoldable pub crew_cost_for : {F : Type 0} ⦃num : Float F⦄ → F → F → CrewScale F → F
crew_cost_for base_rate capacity scale =
    if capacity ⩽ whole 0
    then base_rate
    else base_rate ⊗ clamped (in_use scale) (capacity ⊘ (in_use scale).anchor)

module _ {F : Type 0} ⦃num : Float F⦄ (law : IsArithmetic F) (scale : CrewScale F)
    (ordered : scale.min_mult ≼ scale.max_mult) (filled : whole 0 ≺ scale.anchor) where
  open law use {le_refl, le_trans, mul_mono_left, div_mono}

  clamped-bounds :
      (mult : F) → (scale.min_mult ≼ clamped scale mult) × (clamped scale mult ≼ scale.max_mult)
  unfolding clamped
  clamped-bounds mult = (
    le_capped law _ _ _ (le_raised law mult scale.min_mult) ordered,
    capped_le law _ scale.max_mult,
  )

  clamped_mono : (m n : F) → m ≼ n → clamped scale m ≼ clamped scale n
  unfolding clamped
  clamped_mono m n h = capped_mono law _ _ _ (raised_mono law m n _ h)

  crew_cost_for_eq :
      (rate capacity : F)
      → (capacity ⩽ whole 0) ≡ false
      → crew_cost_for rate capacity scale ≡ rate ⊗ clamped scale (capacity ⊘ scale.anchor)
  unfolding crew_cost_for in_use
  crew_cost_for_eq rate capacity sized = rw (sized, not_le_of_lt law _ _ filled) refl

  -- Of aircraft with a positive capacity, a crew costs between the least and the greatest multiple of
  -- the base rate, and a larger aircraft's crew costs no less. The rate is not negative, the scale is
  -- filled in and its multiples are in order.
  pub crew_cost_for-bounds :
      (rate small large : F)
      → whole 0 ≼ rate
      → (small ⩽ whole 0) ≡ false
      → (large ⩽ whole 0) ≡ false
      → small ≼ large
      → (rate ⊗ scale.min_mult ≼ crew_cost_for rate small scale)
        × (crew_cost_for rate small scale ≼ crew_cost_for rate large scale)
        × (crew_cost_for rate large scale ≼ rate ⊗ scale.max_mult)
  crew_cost_for-bounds rate small large paid p q h =
      rw (crew_cost_for_eq rate small p, crew_cost_for_eq rate large q)
        (
          mul_mono_left _ _ _ paid (clamped-bounds _).0,
          mul_mono_left _ _ _ paid (clamped_mono _ _ (div_mono _ _ _ filled h)),
          mul_mono_left _ _ _ paid (clamped-bounds _).1,
        )

-- ===== src/Economy/Snapshot.antt =====
-- The values that one tick reads: num and eventValue of apps/api/internal/engine/snapshot.go, with
-- the four multipliers. `none` is the nil snapshot.
pub mod Routes
pub mod Tests
use skyward.Base.{
  ◌≡◌, Bool, true, false, ◌==◌, ◌||◌, ◌&&◌, not, Option, none, some, List, [], ◌∷◌, String,
  string_eq, if◌then◌else◌,
}
use skyward.Base.Dict.{Dict, lookup}
use skyward.Float.{Float, whole}

pub record ActiveEvent (F : Type 0) : Type 0 where
  pub event_type : String
  pub effect_type : Option String
  pub effect_target : Option String
  pub value : F

pub record TickSnapshot (F : Type 0) : Type 0 where
  pub cfg : Dict String F
  pub events : List (ActiveEvent F)  -- the newest first

abbrev pub or_else : {A : Type 0} → Option A → A → A
or_else none fallback = fallback
or_else (some a) fallback = a

unfoldable pub num_of : {F : Type 0} → Option (TickSnapshot F) → String → F → F
num_of none key fallback = fallback
num_of (some s) key fallback = or_else (lookup key s.cfg) fallback

-- The loop over the targets.
unfoldable pub names_one : String → List String → Bool
names_one target [] = false
names_one target (t ∷ targets) = (target == t) || names_one target targets

abbrev pub effect_is : String → Option String → Bool
effect_is wanted none = false
effect_is wanted (some effect) = effect == wanted

abbrev pub effect_fits : String → Option String → Bool
effect_fits wanted effect = if wanted == "" then true else effect_is wanted effect

unfoldable pub target_fits : List String → Option String → Bool
target_fits [] target = true
target_fits (t ∷ targets) none = false
target_fits (t ∷ targets) (some target) = names_one target (t ∷ targets)

unfoldable pub fits : {F : Type 0} → String → String → List String → ActiveEvent F → Bool
fits event_type effect_type targets e =
    (e.event_type == event_type)
    && effect_fits effect_type e.effect_type
    && target_fits targets e.effect_target

unfoldable pub first_value :
    {F : Type 0} ⦃num : Float F⦄ → (ActiveEvent F → Bool) → List (ActiveEvent F) → F
first_value wanted [] = whole 1
first_value wanted (e ∷ events) =
    let later = first_value wanted events in if wanted e then e.value else later

unfoldable pub event_value :
    {F : Type 0} ⦃num : Float F⦄ → Option (TickSnapshot F) → String → String → List String → F
event_value none event_type effect_type targets = whole 1
event_value (some s) event_type effect_type targets =
    first_value (fits event_type effect_type targets) s.events

module _ {F : Type 0} ⦃num : Float F⦄ where
  unfoldable pub fuel_mult : Option (TickSnapshot F) → F
  fuel_mult s = event_value s "fuel_shock" "fuel_price" []

  unfoldable pub maint_mult : Option (TickSnapshot F) → F
  maint_mult s = event_value s "maintenance_shock" "maintenance_cost" []

  unfoldable pub demand_mult : Option (TickSnapshot F) → String → String → F
  demand_mult s origin dest = event_value s "demand_surge" "" (origin ∷ dest ∷ [])

  unfoldable pub capacity_mult : Option (TickSnapshot F) → String → String → F
  capacity_mult s origin dest = event_value s "weather_disruption" "" (origin ∷ dest ∷ [])

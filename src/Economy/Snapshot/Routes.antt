-- ===== src/Economy/Snapshot/Routes.antt =====
-- The multipliers of a route.
use skyward.Base.{◌≡◌, refl, Option, none, some, [], ◌∷◌, String, string_eq, ap, fun_ext, arith}
use skyward.Float.{Float}
use skyward.Economy.Snapshot.{
  TickSnapshot, names_one, target_fits, fits, first_value, event_value, demand_mult, capacity_mult,
}

target_fits_swapped :
    (o d : String) (target : Option String)
    → target_fits (o ∷ d ∷ []) target ≡ target_fits (d ∷ o ∷ []) target
unfolding target_fits names_one
target_fits_swapped o d none = refl
target_fits_swapped o d (some t) = ground (arith, string_eq.equal_iff t o, string_eq.equal_iff t d)

event_value_swapped :
    {F : Type 0} ⦃num : Float F⦄ (s : Option (TickSnapshot F)) (event_type effect_type o d : String)
    → event_value s event_type effect_type (o ∷ d ∷ [])
      ≡ event_value s event_type effect_type (d ∷ o ∷ [])
unfolding event_value fits
event_value_swapped none event_type effect_type o d = refl
event_value_swapped (some s) event_type effect_type o d =
    ap (λ f. first_value f s.events)
      (fun_ext (λ e. rw (target_fits_swapped o d e.effect_target) refl))

-- A surge of demand and a disruption by weather count for a route in both directions: the multipliers
-- of a route and of the way back are the same, for any events.
pub route_mult_symmetric :
    {F : Type 0} ⦃num : Float F⦄ (s : Option (TickSnapshot F)) (o d : String)
    → (demand_mult s o d ≡ demand_mult s d o) × (capacity_mult s o d ≡ capacity_mult s d o)
unfolding demand_mult capacity_mult
route_mult_symmetric s o d =
    (event_value_swapped s "demand_surge" "" o d, event_value_swapped s "weather_disruption" "" o d)

-- ===== src/Economy/Demand/Bounds.antt =====
-- Bounds of the demand, and how it follows the price.
use skyward.Base.{◌≡◌, false, arith, Bool-cases, inl, inr}
use skyward.Base.Int.{ℤ, pos, ◌≤ℤ◌}
use skyward.Float.{Float, IsArithmetic, ◌⊕◌, ◌⊖◌, ◌⊗◌, ◌≼◌, ◌≺◌, ◌⩽◌, whole}
use skyward.Float.Order.{le_of_lt, min_mono, max_mono}
use skyward.Economy.Demand.{
  DemandCurve, default_demand_curve, usable, in_use, demand_weight, slope, factor_on,
  distance_demand_factor, price_elasticity, route_daily_demand,
}

module _ {F : Type 0} ⦃num : Float F⦄ (law : IsArithmetic F) where
  open law use {
    le_refl, le_trans, lt-not-le, sub_mono, mul_mono, mul_mono_left, div_mono, le_max_left,
    zero_le_mul, zero_le_div, zero_le_sub, sub_le, le_one_mul, zero_le_decimal, decimal_le_one,
    zero_lt_whole, zero_le_of_int, zero_lt_sub, div_self_le, sub_mul_le, le_sub_mul,
  }

  lt_of_not_le : (a b : F) → (a ⩽ b) ≡ false → b ≺ a
  lt_of_not_le a b h = ground (arith, lt-not-le b a)

  -- On the slope between the two distances the share of the way lies between 0 and 1.
  slope-bounds :
      (d : F) (c : DemandCurve F)
      → (d ⩽ c.short_km) ≡ false
      → (c.long_km ⩽ c.short_km) ≡ false
      → (c.long_km ⩽ d) ≡ false
      → (whole 0 ≼ slope d c) × (slope d c ≼ whole 1)
  unfolding slope
  slope-bounds d c far ordered short = (
    zero_le_div _ _ (zero_le_sub _ _ (le_of_lt law _ _ (lt_of_not_le _ _ far))) positive,
    le_trans _ _ _
        (div_mono _ _ _ positive
          (sub_mono _ _ _ _ (le_of_lt law _ _ (lt_of_not_le _ _ short)) (le_refl c.short_km)))
        (div_self_le _ positive),
  )
    where
      positive : whole 0 ≺ c.long_km ⊖ c.short_km
      positive = zero_lt_sub _ _ (lt_of_not_le _ _ ordered)

  -- 1 + t * (m - 1) lies between 0 and 1 when t and m do.
  interpolation-bounds :
      (t m : F)
      → whole 0 ≼ t
      → t ≼ whole 1
      → whole 0 ≼ m
      → m ≼ whole 1
      → (whole 0 ≼ whole 1 ⊕ t ⊗ (m ⊖ whole 1)) × (whole 1 ⊕ t ⊗ (m ⊖ whole 1) ≼ whole 1)
  interpolation-bounds t m t0 t1 m0 m1 = (
    le_trans _ _ _ (zero_le_sub _ _ (le_trans _ _ _ (le_one_mul t _ t0 (sub_le _ _ m0)) t1))
        (sub_mul_le (whole 1) t m (whole 1)),
    le_trans _ _ _ (le_sub_mul (whole 1) t m (whole 1))
        (sub_le _ _ (zero_le_mul _ _ t0 (zero_le_sub _ _ m1))),
  )

  factor_on-bounds :
      (d : F) (c : DemandCurve F)
      → whole 0 ≼ c.min_factor
      → c.min_factor ≼ whole 1
      → (whole 0 ≼ factor_on d c) × (factor_on d c ≼ whole 1)
  unfolding factor_on
  factor_on-bounds d c p q = elim (Bool-cases (d ⩽ c.short_km)) [
    | inl near ↦ rw near (zero_le_decimal 1 0, le_refl (whole 1))
    | inr far ↦ elim (Bool-cases (c.long_km ⩽ c.short_km)) [
      | inl flat ↦ rw (far, flat) (p, q)
      | inr ordered ↦ elim (Bool-cases (c.long_km ⩽ d)) [
        | inl long ↦ rw (far, ordered, long) (p, q)
        | inr short ↦
            let share = slope-bounds d c far ordered short in
            rw (far, ordered, short) (interpolation-bounds _ _ share.0 share.1 p q)
      ]
    ]
  ]

  -- The factor of a distance lies between 0 and 1 at every distance, when the least factor of the
  -- curve does: the curve that was not filled in is replaced, and a curve with no slope never divides
  -- by 0.
  pub distance_demand_factor-bounds :
      (d : F) (c : DemandCurve F)
      → whole 0 ≼ c.min_factor
      → c.min_factor ≼ whole 1
      → (whole 0 ≼ distance_demand_factor d c) × (distance_demand_factor d c ≼ whole 1)
  unfolding distance_demand_factor in_use usable default_demand_curve
  distance_demand_factor-bounds d c p q = elim (Bool-cases (c.short_km ⩽ whole 0)) [
    | inl unfilled ↦ rw unfilled (
        factor_on-bounds d default_demand_curve (zero_le_decimal 35 2)
          (decimal_le_one 35 2 (omega arith)))
    | inr filled ↦ rw filled (factor_on-bounds d c p q)
  ]

  -- A higher price never draws more.
  price_elasticity_antitone :
      (r s : F) (c : DemandCurve F)
      → whole 0 ≼ c.elasticity_quadratic
      → whole 0 ≼ r
      → r ≼ s
      → price_elasticity s c ≼ price_elasticity r c
  unfolding price_elasticity
  price_elasticity_antitone r s c p q h = max_mono law _ _ _ _ (le_refl _) (
      min_mono law _ _ _ _ (le_refl _) (
        sub_mono _ _ _ _ (le_refl _) (
          le_trans _ (c.elasticity_quadratic ⊗ r ⊗ s) _
            (mul_mono_left _ _ _ (zero_le_mul _ _ p q) h)
            (mul_mono _ _ _ (le_trans _ _ _ q h) (mul_mono_left _ _ _ p h)))))

  zero_le_price_elasticity : (r : F) (c : DemandCurve F) → whole 0 ≼ price_elasticity r c
  unfolding price_elasticity
  zero_le_price_elasticity r c = le_max_left _ _

  zero_le_weight : (n : ℤ) → pos 0 ≤ℤ n → whole {F = F} 0 ≼ demand_weight n
  unfolding demand_weight
  zero_le_weight n h = zero_le_div _ _ (zero_le_of_int n h) (zero_lt_whole 100 (omega arith))

  -- A curve is sound when its least factor lies between 0 and 1 and it does not reward a higher price.
  unfoldable pub IsSound : DemandCurve F → Type 0
  IsSound c =
      (whole 0 ≼ c.min_factor) × (c.min_factor ≼ whole 1) × (whole 0 ≼ c.elasticity_quadratic)

  in_use-IsSound : (c : DemandCurve F) → IsSound c → IsSound (in_use c)
  unfolding in_use usable default_demand_curve IsSound
  in_use-IsSound c sound = elim (Bool-cases (c.short_km ⩽ whole 0)) [
    | inl unfilled ↦
        rw unfilled (zero_le_decimal 35 2, decimal_le_one 35 2 (omega arith), zero_le_decimal 8 1)
    | inr filled ↦ rw filled sound
  ]

  -- A route's pool is never negative, and a higher price never fills it more. The demand of both
  -- airports and the lower price are not negative, and the curve is sound; nothing is asked of the
  -- fares and of the scale, since the code answers 0 when they are not positive.
  pub route_daily_demand_antitone :
      (o d : ℤ) (km low high fare per_km scale : F) (c : DemandCurve F)
      → pos 0 ≤ℤ o
      → pos 0 ≤ℤ d
      → whole 0 ≼ low
      → low ≼ high
      → IsSound c
      → (whole 0 ≼ route_daily_demand o d km high fare per_km scale c)
        × (route_daily_demand o d km high fare per_km scale c
            ≼ route_daily_demand o d km low fare per_km scale c)
  unfolding route_daily_demand IsSound
  route_daily_demand_antitone o d km low high fare per_km scale c o0 d0 l0 h sound =
      elim (Bool-cases (scale ⩽ whole 0)) [
        | inl empty ↦ rw empty (le_refl _, le_refl _)
        | inr scaled ↦ elim (Bool-cases (fare ⊕ km ⊗ per_km ⩽ whole 0)) [
          | inl free ↦ rw (scaled, free) (le_refl _, le_refl _)
          | inr paid ↦
              let used = in_use-IsSound c sound in
              let factor = distance_demand_factor-bounds km (in_use c) used.0 used.1 in
              let base = lt_of_not_le _ _ paid in
              let share =
                zero_le_mul _ _
                  (zero_le_mul _ _
                    (zero_le_mul _ _ (le_of_lt law _ _ (lt_of_not_le _ _ scaled))
                      (zero_le_weight o o0))
                    (zero_le_weight d d0))
                  factor.0 in
              rw (scaled, paid)
                (
                  zero_le_mul _ _ share (zero_le_price_elasticity _ _),
                  mul_mono_left _ _ _ share (
                      price_elasticity_antitone _ _ (in_use c) used.2 (zero_le_div _ _ l0 base)
                        (div_mono _ _ _ base h)),
                )
        ]
      ]

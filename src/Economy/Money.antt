-- ===== src/Economy/Money.antt =====
-- The rules of money (apps/api/internal/money/money.go, with their aliases in
-- apps/api/internal/engine/money.go and fleet.go) and the lease deposit (engine/fleet.go).
-- Times are time.Time of the library: the model takes the test IsZero and the hours between two
-- times as parameters.
pub mod Bounds
pub mod Tests
use skyward.Base.{ℕ, ◌≡◌, Bool, true, false, Option, none, some, if◌then◌else◌}
use skyward.Float.{Float, ◌⊕◌, ◌⊖◌, ◌⊗◌, ◌⊘◌, ◌⩽◌, ◌⋖◌, whole}

-- Half away from zero to the cent; a value so large that v*100 overflows is returned as it is.
unfoldable pub round2 : {F : Type 0} ⦃num : Float F⦄ → F → F
round2 ⦃num⦄ v = if num.is_inf (v ⊗ whole 100) then v else num.round (v ⊗ whole 100) ⊘ whole 100

-- a >= b at the cent.
unfoldable pub at_least : {F : Type 0} ⦃num : Float F⦄ → F → F → Bool
at_least a b = round2 b ⩽ round2 a

-- a < b at the cent.
unfoldable pub less_than : {F : Type 0} ⦃num : Float F⦄ → F → F → Bool
less_than a b = round2 a ⋖ round2 b

unfoldable pub repair_cost_for : {F : Type 0} ⦃num : Float F⦄ → F → F → F
repair_cost_for ⦃num⦄ condition purchase_price =
    if whole 100 ⩽ condition
    then whole 0
    else (whole 100 ⊖ condition) ⊗ (purchase_price ⊗ num.decimal 5 4)

unfoldable pub sale_base : {F : Type 0} ⦃num : Float F⦄ → F → F → F
sale_base condition purchase_price = purchase_price ⊗ (condition ⊘ whole 100)

-- The age in years, no less than 0; 365.25 * 24 is a constant of the code.
unfoldable pub age_years : {F : Type 0} ⦃num : Float F⦄ → F → F
age_years hours = let age = hours ⊘ whole 8_766 in if age ⋖ whole 0 then whole 0 else age

-- The share of its value that an aircraft of this age keeps.
unfoldable pub depreciation : {F : Type 0} ⦃num : Float F⦄ → F → F
depreciation ⦃num⦄ hours = num.max (num.decimal 10 2) (whole 1 ⊖ num.decimal 5 2 ⊗ age_years hours)

unfoldable pub sale_value_for :
    {F Time : Type 0} ⦃num : Float F⦄ (is_zero : Time → Bool) (hours_since : Time → Time → F)
    → F
    → F
    → Option Time
    → Time
    → F
sale_value_for is_zero hours_since condition purchase_price none game_time =
    sale_base condition purchase_price
sale_value_for is_zero hours_since condition purchase_price (some acquired) game_time =
    if is_zero game_time
    then sale_base condition purchase_price
    else round2 (sale_base condition purchase_price ⊗ depreciation (hours_since game_time acquired))

unfoldable pub lease_exit_fee_for : {F : Type 0} ⦃num : Float F⦄ → F → F
lease_exit_fee_for ⦃num⦄ lease_price_per_month = round2 (lease_price_per_month ⊗ num.decimal 25 2)

-- maxf of fleet.go, which is not math.Max.
unfoldable pub maxf : {F : Type 0} ⦃num : Float F⦄ → F → F → F
maxf a b = if b ⋖ a then a else b

unfoldable pub asset_pct : {F : Type 0} ⦃num : Float F⦄ → F → F
asset_pct ⦃num⦄ purchase_price =
    if purchase_price ⋖ whole 25_000_000
    then num.decimal 2 2
    else if purchase_price ⋖ whole 60_000_000
    then num.decimal 3 2
    else if purchase_price ⋖ whole 120_000_000
    then num.decimal 5 2
    else num.decimal 8 2

unfoldable pub calc_lease_deposit : {F : Type 0} ⦃num : Float F⦄ → F → F → F → F
calc_lease_deposit purchase_price lease_price base_pct =
    let monthly_floor = lease_price ⊗ maxf (whole 2) (base_pct ⊗ whole 20) in
    round2 (maxf monthly_floor (purchase_price ⊗ asset_pct purchase_price))

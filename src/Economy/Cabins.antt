-- ===== src/Economy/Cabins.antt =====
-- How a day's pool of passengers fills three cabins: allocateCabins of
-- apps/api/internal/engine/simulation.go.
pub mod Bounds
pub mod Tests
use skyward.Base.{ℕ, ◌≡◌, if◌then◌else◌}
use skyward.Base.Int.{ℤ}
use skyward.Float.{Float, ◌⊕◌, ◌⊖◌, ◌⊗◌, ◌⊘◌, ◌⩽◌, whole}

pub record CabinResult (F : Type 0) : Type 0 where
  pub passengers : F
  pub revenue : F

-- One number for each cabin: seats as configured, shares, multiples of the fare.
pub record Cabins (A : Type 0) : Type 0 where
  pub economy : A
  pub business : A
  pub first : A

-- The willingness shares in use: all economy when they sum to nothing.
unfoldable pub normalised : {F : Type 0} ⦃num : Float F⦄ → Cabins F → Cabins F
normalised willing =
    if willing.economy ⊕ willing.business ⊕ willing.first ⩽ whole 0
    then record { economy = whole 1; business = whole 0; first = whole 0 }
    else willing

unfoldable pub total_of : {F : Type 0} ⦃num : Float F⦄ → Cabins F → F
total_of willing =
    let total = willing.economy ⊕ willing.business ⊕ willing.first in
    if total ⩽ whole 0 then whole 1 else total

-- What the pool demands of each cabin.
unfoldable pub demanded : {F : Type 0} ⦃num : Float F⦄ → Cabins F → F → Cabins F
demanded willing pool =
    let share = normalised willing in
    let total = total_of willing in
    record {
      economy = pool ⊗ share.economy ⊘ total;
      business = pool ⊗ share.business ⊘ total;
      first = pool ⊗ share.first ⊘ total;
    }

unfoldable pub seats : {F : Type 0} ⦃num : Float F⦄ → F → ℤ → F
seats ⦃num⦄ capacity_factor n = num.of_int n ⊗ capacity_factor

-- Who travels in each cabin: those of the premium cabins who find no seat there go to economy.
unfoldable pub carried : {F : Type 0} ⦃num : Float F⦄ → Cabins ℤ → F → Cabins F → Cabins F
carried ⦃num⦄ configured capacity_factor demand =
    let first_pax = num.min (seats capacity_factor configured.first) demand.first in
    let biz_pax = num.min (seats capacity_factor configured.business) demand.business in
    let downgrades = (demand.business ⊖ biz_pax) ⊕ (demand.first ⊖ first_pax) in
    record {
      economy = num.min (seats capacity_factor configured.economy) (demand.economy ⊕ downgrades);
      business = biz_pax;
      first = first_pax;
    }

unfoldable pub allocate_cabins :
    {F : Type 0} ⦃num : Float F⦄ (configured : Cabins ℤ) (base_fare business_mult first_mult : F)
    (willing : Cabins F) (demand_pool capacity_factor : F)
    → CabinResult F
allocate_cabins configured base_fare business_mult first_mult willing demand_pool capacity_factor =
    let pax = carried configured capacity_factor (demanded willing demand_pool) in
    record {
      passengers = pax.economy ⊕ pax.business ⊕ pax.first;
      revenue =
          pax.economy ⊗ base_fare
          ⊕ pax.business ⊗ base_fare ⊗ business_mult
          ⊕ pax.first ⊗ base_fare ⊗ first_mult;
    }

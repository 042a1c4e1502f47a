-- ===== src/Economy/Cabins/Tests.antt =====
-- A three-cabin aircraft (simulation.go), and the theorems at concrete values.
use skyward.Base.{ℕ, ◌*◌, ◌≡◌, refl}
use skyward.Base.Int.{ℤ, pos, ◌+ℤ◌, ◌-ℤ◌}
use skyward.Float.{◌≼◌, ◌⊕◌}
use skyward.Float.Fixed.{fixed, fixed-IsArithmetic, fixed_mul, fixed_div, fixed_of_int, scale}
use skyward.Economy.Cabins.{Cabins, allocate_cabins, seats, carried, demanded, normalised, total_of}
use skyward.Economy.Cabins.Bounds.{allocate_cabins-seats, allocate_cabins_mono, IsShare}

abbrev units : ℕ → ℤ
units n = pos (n * scale)

abbrev configured : Cabins ℤ
configured = record { economy = pos 100; business = pos 20; first = pos 10 }

abbrev willing : Cabins ℤ
willing = record { economy = pos 7_000; business = pos 2_000; first = pos 1_000 }

-- 150 would travel: 30 in business of whom 10 find no seat there, 15 in first of whom 5 find none;
-- economy's 105 and those 15 share 100 seats.
full :
    (allocate_cabins configured
      (units 100)
      (units 3)
      (units 5)
      willing
      (units 150)
      (units 1)).passengers
    ≡ units 130
unfolding allocate_cabins carried demanded normalised total_of seats fixed_mul fixed_div
    fixed_of_int ◌+ℤ◌ ◌-ℤ◌
full = refl

allocate_cabins-seats_example :
    (allocate_cabins configured
      (units 100)
      (units 3)
      (units 5)
      willing
      (units 150)
      (units 1)).passengers
    ≼ seats (units 1) (pos 100) ⊕ seats (units 1) (pos 20) ⊕ seats (units 1) (pos 10)
allocate_cabins-seats_example =
    allocate_cabins-seats fixed-IsArithmetic configured (units 100) (units 3) (units 5) willing
      (units 150) (units 1)

willing-IsShare : IsShare fixed-IsArithmetic willing
unfolding IsShare
willing-IsShare = (refl, refl, refl)

allocate_cabins_mono_example :
    ((allocate_cabins configured
        (units 100)
        (units 3)
        (units 5)
        willing
        (units 90)
        (units 1)).passengers
      ≼ (allocate_cabins configured
          (units 100)
          (units 3)
          (units 5)
          willing
          (units 150)
          (units 1)).passengers)
    × ((allocate_cabins configured
          (units 100)
          (units 3)
          (units 5)
          willing
          (units 90)
          (units 1)).revenue
        ≼ (allocate_cabins configured
            (units 100)
            (units 3)
            (units 5)
            willing
            (units 150)
            (units 1)).revenue)
allocate_cabins_mono_example =
    allocate_cabins_mono fixed-IsArithmetic configured (units 100) (units 3) (units 5) willing
      (units 90) (units 150) (units 1) refl refl refl willing-IsShare refl

-- ===== src/Engine/Fleet/Seats.antt =====
-- The seats that validateSeats accepts.
use skyward.Base.{◌≡◌, true, arith, ◌↔◌}
use skyward.Base.Int.{ℤ, pos, ◌≤ℤ◌, ◌<ℤ◌}
use skyward.Engine.Fleet.{slots, validate_seats}

-- A configuration is accepted when no cabin has a negative number of seats and its slots are more
-- than none and fit the aircraft, and only then.
pub validate_seats_iff :
    (economy business first capacity : ℤ)
    → (validate_seats economy business first capacity ≡ true) ↔ (
        (pos 0 ≤ℤ economy)
        × (pos 0 ≤ℤ business)
        × (pos 0 ≤ℤ first)
        × (pos 0 <ℤ slots economy business first)
        × (slots economy business first ≤ℤ capacity))
unfolding validate_seats
validate_seats_iff economy business first capacity = ground arith

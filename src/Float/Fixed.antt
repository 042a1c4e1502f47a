-- ===== src/Float/Fixed.antt =====
-- A concrete float64: fixed-point numbers of four decimals, rounded towards zero. It shows that the
-- laws of `IsArithmetic` can hold together, and lets the tests run the formulas.
use native.Mathlib.Nat.{
  mul-le-mul_right, mul-le-mul_left, le-div_iff_mul-le, div-mul-le_self, div-le_of_le-mul, le_trans,
  mul_comm,
}
use skyward.Base.{
  ℕ, suc, ◌+◌, ◌*◌, ◌/◌, ◌^◌, ◌≤◌, ◌<◌, ◌≡◌, refl, ap, true, false, arith, if◌then◌else◌,
}
use skyward.Base.Int.{
  ℤ, pos, negsuc, pos_part, neg_part, sub_ℕ, ◌+ℤ◌, ◌-ℤ◌, ◌≤ℤ◌, ltb_ℤ, leb_ℤ, +ℤ_parts, -ℤ_parts,
}
use skyward.Float.{Float, IsArithmetic}

abbrev pub scale : ℕ
scale = 10_000

-- -n
abbrev negated : ℕ → ℤ
negated n = sub_ℕ 0 n

unfoldable pub fixed_mul : ℤ → ℤ → ℤ
fixed_mul (pos a) (pos b) = pos (a * b / scale)
fixed_mul (pos a) (negsuc b) = negated (a * suc b / scale)
fixed_mul (negsuc a) (pos b) = negated (suc a * b / scale)
fixed_mul (negsuc a) (negsuc b) = pos (suc a * suc b / scale)

unfoldable pub fixed_div : ℤ → ℤ → ℤ
fixed_div (pos a) (pos b) = pos (a * scale / b)
fixed_div (pos a) (negsuc b) = negated (a * scale / suc b)
fixed_div (negsuc a) (pos b) = negated (suc a * scale / b)
fixed_div (negsuc a) (negsuc b) = pos (suc a * scale / suc b)

unfoldable pub fixed_of_int : ℤ → ℤ
fixed_of_int (pos n) = pos (n * scale)
fixed_of_int (negsuc n) = negated (suc n * scale)

unfoldable pub fixed_to_int : ℤ → ℤ
fixed_to_int (pos n) = pos (n / scale)
fixed_to_int (negsuc n) = negated (suc n / scale)

unfoldable pub fixed_floor : ℤ → ℤ
fixed_floor (pos n) = pos (n / scale * scale)
fixed_floor (negsuc n) = negated ((n / scale + 1) * scale)

unfoldable pub fixed_ceil : ℤ → ℤ
fixed_ceil (pos n) = pos ((n + 9_999) / scale * scale)
fixed_ceil (negsuc n) = negated (suc n / scale * scale)

-- Half away from zero.
unfoldable pub fixed_round : ℤ → ℤ
fixed_round (pos n) = pos ((n + 5_000) / scale * scale)
fixed_round (negsuc n) = negated ((suc n + 5_000) / scale * scale)

instance abbrev pub fixed : Float ℤ
fixed = record {
  add = ◌+ℤ◌;
  sub = ◌-ℤ◌;
  mul = fixed_mul;
  div = fixed_div;
  le = leb_ℤ;
  lt = ltb_ℤ;
  of_int = fixed_of_int;
  decimal = λ n k. pos (n * scale / 10 ^ k);
  to_int = fixed_to_int;
  floor = fixed_floor;
  ceil = fixed_ceil;
  round = fixed_round;
  min = λ a b. if leb_ℤ a b then a else b;
  max = λ a b. if leb_ℤ a b then b else a;
  is_inf = λ a. false;
}

nat_div_mono : (m n k : ℕ) → m ≤ n → 0 < k → m / k ≤ n / k
nat_div_mono m n k h p = (le-div_iff_mul-le p).1 (le_trans (div-mul-le_self m k) h)

fixed_mul_mono : (a b c : ℤ) → pos 0 ≤ℤ c → a ≤ℤ b → fixed_mul a c ≤ℤ fixed_mul b c
unfolding fixed_mul
fixed_mul_mono a b (negsuc c) p h = absurd (omega arith)
fixed_mul_mono (pos a) (pos b) (pos c) p h =
    omega (arith, mul-le-mul_right {m = a} {n = b} c (omega arith))
fixed_mul_mono (negsuc a) (pos b) (pos c) p h = ground arith
fixed_mul_mono (pos a) (negsuc b) (pos c) p h = absurd (omega arith)
fixed_mul_mono (negsuc a) (negsuc b) (pos c) p h =
    ground (arith, mul-le-mul_right {m = suc b} {n = suc a} c (omega arith))

fixed_mul_comm : (a b : ℤ) → fixed_mul a b ≡ fixed_mul b a
unfolding fixed_mul
fixed_mul_comm (pos a) (pos b) = rw (mul_comm a b)
fixed_mul_comm (pos a) (negsuc b) = rw (mul_comm a (suc b))
fixed_mul_comm (negsuc a) (pos b) = rw (mul_comm (suc a) b)
fixed_mul_comm (negsuc a) (negsuc b) = rw (mul_comm (suc a) (suc b))

fixed_div_mono : (a b c : ℤ) → ltb_ℤ (pos 0) c ≡ true → a ≤ℤ b → fixed_div a c ≤ℤ fixed_div b c
unfolding fixed_div
fixed_div_mono a b (negsuc c) p h = absurd (ground arith)
fixed_div_mono (pos a) (pos b) (pos c) p h =
    omega (arith, nat_div_mono (a * scale) (b * scale) c (omega arith) (ground arith))
fixed_div_mono (negsuc a) (pos b) (pos c) p h = ground arith
fixed_div_mono (pos a) (negsuc b) (pos c) p h = absurd (omega arith)
fixed_div_mono (negsuc a) (negsuc b) (pos c) p h =
    ground (arith, nat_div_mono (suc b * scale) (suc a * scale) c (omega arith))

fixed_le_one_mul : (a b : ℤ) → pos 0 ≤ℤ a → b ≤ℤ pos scale → fixed_mul a b ≤ℤ a
unfolding fixed_mul
fixed_le_one_mul (pos a) (pos b) p h =
    omega (arith, mul-le-mul_left {m = b} {n = scale} a (omega arith))
fixed_le_one_mul (pos a) (negsuc b) p h = ground arith
fixed_le_one_mul (negsuc a) b p h = absurd (omega arith)

fixed_zero_le_mul : (a b : ℤ) → pos 0 ≤ℤ a → pos 0 ≤ℤ b → pos 0 ≤ℤ fixed_mul a b
unfolding fixed_mul
fixed_zero_le_mul (pos a) (pos b) p q = omega arith
fixed_zero_le_mul (negsuc a) b p q = absurd (omega arith)
fixed_zero_le_mul (pos a) (negsuc b) p q = absurd (omega arith)

fixed_zero_le_div : (a b : ℤ) → pos 0 ≤ℤ a → ltb_ℤ (pos 0) b ≡ true → pos 0 ≤ℤ fixed_div a b
unfolding fixed_div
fixed_zero_le_div (pos a) (pos b) p q = omega arith
fixed_zero_le_div (negsuc a) b p q = absurd (omega arith)
fixed_zero_le_div (pos a) (negsuc b) p q = absurd (ground arith)

floor_mono : (a b : ℤ) → leb_ℤ a b ≡ true → leb_ℤ (fixed_floor a) (fixed_floor b) ≡ true
unfolding fixed_floor
floor_mono (pos a) (pos b) h = ground arith
floor_mono (pos a) (negsuc b) h = ground arith
floor_mono (negsuc a) (pos b) h = ground arith
floor_mono (negsuc a) (negsuc b) h = ground arith

ceil_mono : (a b : ℤ) → leb_ℤ a b ≡ true → leb_ℤ (fixed_ceil a) (fixed_ceil b) ≡ true
unfolding fixed_ceil
ceil_mono (pos a) (pos b) h = ground arith
ceil_mono (pos a) (negsuc b) h = ground arith
ceil_mono (negsuc a) (pos b) h = ground arith
ceil_mono (negsuc a) (negsuc b) h = ground arith

round_mono : (a b : ℤ) → leb_ℤ a b ≡ true → leb_ℤ (fixed_round a) (fixed_round b) ≡ true
unfolding fixed_round
round_mono (pos a) (pos b) h = ground arith
round_mono (pos a) (negsuc b) h = ground arith
round_mono (negsuc a) (pos b) h = ground arith
round_mono (negsuc a) (negsuc b) h = ground arith

to_int_mono : (a b : ℤ) → leb_ℤ a b ≡ true → fixed_to_int a ≤ℤ fixed_to_int b
unfolding fixed_to_int
to_int_mono (pos a) (pos b) h = ground arith
to_int_mono (pos a) (negsuc b) h = ground arith
to_int_mono (negsuc a) (pos b) h = ground arith
to_int_mono (negsuc a) (negsuc b) h = ground arith

of_int_mono : (m n : ℤ) → m ≤ℤ n → leb_ℤ (fixed_of_int m) (fixed_of_int n) ≡ true
unfolding fixed_of_int
of_int_mono (pos a) (pos b) h = ground arith
of_int_mono (pos a) (negsuc b) h = ground arith
of_int_mono (negsuc a) (pos b) h = ground arith
of_int_mono (negsuc a) (negsuc b) h = ground arith

zero_le_of_int : (n : ℤ) → pos 0 ≤ℤ n → leb_ℤ (pos 0) (fixed_of_int n) ≡ true
unfolding fixed_of_int
zero_le_of_int (pos a) h = ground arith
zero_le_of_int (negsuc a) h = absurd (omega arith)

mul_mono :
    (a b c : ℤ)
    → leb_ℤ (pos 0) c ≡ true
    → leb_ℤ a b ≡ true
    → leb_ℤ (fixed_mul a c) (fixed_mul b c) ≡ true
mul_mono a b c p h = ground (arith, fixed_mul_mono a b c (ground arith) (ground arith))

mul_mono_left :
    (a b c : ℤ)
    → leb_ℤ (pos 0) c ≡ true
    → leb_ℤ a b ≡ true
    → leb_ℤ (fixed_mul c a) (fixed_mul c b) ≡ true
mul_mono_left a b c p h = rw (fixed_mul_comm c a, fixed_mul_comm c b) (mul_mono a b c p h)

div_mono :
    (a b c : ℤ)
    → ltb_ℤ (pos 0) c ≡ true
    → leb_ℤ a b ≡ true
    → leb_ℤ (fixed_div a c) (fixed_div b c) ≡ true
div_mono a b c p h = ground (arith, fixed_div_mono a b c p (ground arith))

zero_le_mul :
    (a b : ℤ)
    → leb_ℤ (pos 0) a ≡ true
    → leb_ℤ (pos 0) b ≡ true
    → leb_ℤ (pos 0) (fixed_mul a b) ≡ true
zero_le_mul a b p q = ground (arith, fixed_zero_le_mul a b (ground arith) (ground arith))

zero_le_div :
    (a b : ℤ)
    → leb_ℤ (pos 0) a ≡ true
    → ltb_ℤ (pos 0) b ≡ true
    → leb_ℤ (pos 0) (fixed_div a b) ≡ true
zero_le_div a b p q = ground (arith, fixed_zero_le_div a b (ground arith) q)

le_one_mul :
    (a b : ℤ) → leb_ℤ (pos 0) a ≡ true → leb_ℤ b (pos scale) ≡ true → leb_ℤ (fixed_mul a b) a ≡ true
le_one_mul a b p h = ground (arith, fixed_le_one_mul a b (ground arith) (ground arith))

decimal_le_one :
    (n k : ℕ) → n ≤ 10 ^ k → leb_ℤ (pos (n * scale / 10 ^ k)) (pos (1 * scale / 1)) ≡ true
decimal_le_one n k h = ground (
  arith,
  div-le_of_le-mul (10 ^ k) {m = n * scale} {n = scale} (omega (arith, mul-le-mul_right scale h)),
)

div_self_le : (a : ℤ) → ltb_ℤ (pos 0) a ≡ true → leb_ℤ (fixed_div a a) (pos (1 * scale / 1)) ≡ true
unfolding fixed_div
div_self_le (pos a) h = ground (arith, div-le_of_le-mul a {m = a * scale} {n = scale} (omega arith))
div_self_le (negsuc a) h = absurd (ground arith)

negated_parts : (n : ℕ) → (pos_part (negated n) ≡ 0) × (neg_part (negated n) ≡ n)
negated_parts n = ground arith

-- Opposite factors give opposite products.
fixed_mul_opposite :
    (t x y : ℤ)
    → pos_part x ≡ neg_part y
    → neg_part x ≡ pos_part y
    → (pos_part (fixed_mul t x) ≡ neg_part (fixed_mul t y))
      × (neg_part (fixed_mul t x) ≡ pos_part (fixed_mul t y))
unfolding fixed_mul
fixed_mul_opposite (pos t) (pos x) (pos y) p q = ground (
  arith,
  ap (λ z. t * z / scale) p,
  ap (λ z. t * z / scale) q,
  negated_parts (t * x / scale),
  negated_parts (t * y / scale),
)
fixed_mul_opposite (pos t) (pos x) (negsuc y) p q =
    ground (arith, ap (λ z. t * z / scale) p, negated_parts (t * suc y / scale))
fixed_mul_opposite (pos t) (negsuc x) (pos y) p q =
    ground (arith, ap (λ z. t * z / scale) q, negated_parts (t * suc x / scale))
fixed_mul_opposite (pos t) (negsuc x) (negsuc y) p q = absurd (omega arith)
fixed_mul_opposite (negsuc t) (pos x) (pos y) p q = ground (
  arith,
  ap (λ z. suc t * z / scale) p,
  ap (λ z. suc t * z / scale) q,
  negated_parts (suc t * x / scale),
  negated_parts (suc t * y / scale),
)
fixed_mul_opposite (negsuc t) (pos x) (negsuc y) p q =
    ground (arith, ap (λ z. suc t * z / scale) p, negated_parts (suc t * suc y / scale))
fixed_mul_opposite (negsuc t) (negsuc x) (pos y) p q =
    ground (arith, ap (λ z. suc t * z / scale) q, negated_parts (suc t * suc x / scale))
fixed_mul_opposite (negsuc t) (negsuc x) (negsuc y) p q = absurd (omega arith)

sub_mul_le : (a t b c : ℤ) → leb_ℤ (a -ℤ fixed_mul t (c -ℤ b)) (a +ℤ fixed_mul t (b -ℤ c)) ≡ true
sub_mul_le a t b c = ground (
  arith,
  -ℤ_parts a (fixed_mul t (c -ℤ b)),
  +ℤ_parts a (fixed_mul t (b -ℤ c)),
  fixed_mul_opposite t (b -ℤ c) (c -ℤ b) (ground (arith, -ℤ_parts b c, -ℤ_parts c b))
      (ground (arith, -ℤ_parts b c, -ℤ_parts c b)),
)

le_sub_mul : (a t b c : ℤ) → leb_ℤ (a +ℤ fixed_mul t (b -ℤ c)) (a -ℤ fixed_mul t (c -ℤ b)) ≡ true
le_sub_mul a t b c = ground (
  arith,
  -ℤ_parts a (fixed_mul t (c -ℤ b)),
  +ℤ_parts a (fixed_mul t (b -ℤ c)),
  fixed_mul_opposite t (b -ℤ c) (c -ℤ b) (ground (arith, -ℤ_parts b c, -ℤ_parts c b))
      (ground (arith, -ℤ_parts b c, -ℤ_parts c b)),
)

pub fixed-IsArithmetic : IsArithmetic ℤ
unfolding fixed_of_int fixed_to_int fixed_floor fixed_ceil fixed_round
fixed-IsArithmetic = record {
  le_refl = λ a. ground arith;
  le_trans = λ a b c h k. ground arith;
  lt-not-le = λ a b. ground arith;
  le_of_not_le = λ a b h. ground arith;
  add_mono = λ a b c d h k. ground (arith, +ℤ_parts a c, +ℤ_parts b d);
  sub_mono = λ a b c d h k. ground (arith, -ℤ_parts a c, -ℤ_parts b d);
  mul_mono = mul_mono;
  mul_mono_left = mul_mono_left;
  div_mono = div_mono;
  zero_le_mul = zero_le_mul;
  zero_le_div = zero_le_div;
  zero_le_add = λ a b p q. ground (arith, +ℤ_parts a b);
  zero_le_sub = λ a b h. ground (arith, -ℤ_parts a b);
  sub_self_le = λ a. ground (arith, -ℤ_parts a a);
  sub_le = λ a b h. ground (arith, -ℤ_parts a b);
  le_one_mul = le_one_mul;
  min_le_left = λ a b. ground arith;
  min_le_right = λ a b. ground arith;
  le_min = λ a b c h k. ground arith;
  le_max_left = λ a b. ground arith;
  le_max_right = λ a b. ground arith;
  max_le = λ a b c h k. ground arith;
  of_int_mono = of_int_mono;
  zero_le_of_int = zero_le_of_int;
  floor_mono = floor_mono;
  ceil_mono = ceil_mono;
  round_mono = round_mono;
  to_int_mono = to_int_mono;
  zero_le_decimal = λ n k. ground arith;
  decimal_le_one = decimal_le_one;
  zero_lt_whole = λ n h. ground arith;
  zero_lt_sub = λ a b h. ground (arith, -ℤ_parts a b);
  div_self_le = div_self_le;
  sub_mul_le = sub_mul_le;
  le_sub_mul = le_sub_mul;
  is_inf_mono = λ a b h k e. refl;
}

-- ===== src/Float.antt =====
-- What the economy's formulas use of float64 and of package math. float64 is no part of the
-- repository: it is a parameter of the model, a type with the operations that the code calls, and
-- `IsArithmetic` names the behaviour that the theorems rely on. Those laws hold of the values that
-- are no NaN, in computations that neither overflow nor give NaN: IEEE 754 rounding is monotone, so
-- each operation is monotone where the exact one is, and nothing is assumed to be exact. `≼` is the
-- comparison, under which 0 and -0 are alike.
pub mod Order
pub mod Fixed
use skyward.Base.{◌≡◌, Bool, true, false, not, ℕ, ◌≤◌, ◌<◌, ◌^◌}
use skyward.Base.Int.{ℤ, pos, ◌≤ℤ◌}

pub record Float (F : Type 0) : Type 0 where
  pub add : F → F → F
  pub sub : F → F → F
  pub mul : F → F → F
  pub div : F → F → F
  pub le : F → F → Bool  -- <=
  pub lt : F → F → Bool  -- <
  pub of_int : ℤ → F  -- float64(n)
  pub decimal : ℕ → ℕ → F  -- the literal n / 10^k
  pub to_int : F → ℤ  -- int(x)
  pub floor : F → F  -- math.Floor
  pub ceil : F → F  -- math.Ceil
  pub round : F → F  -- math.Round
  pub min : F → F → F  -- math.Min
  pub max : F → F → F  -- math.Max
  pub is_inf : F → Bool  -- math.IsInf(x, 0)

infixl 65 ◌⊕◌ ◌⊖◌
infixl 70 ◌⊗◌ ◌⊘◌
infix 50 ◌≼◌ ◌≺◌ ◌⩽◌ ◌⋖◌
abbrev pub ◌⊕◌ : {F : Type 0} ⦃num : Float F⦄ → F → F → F
◌⊕◌ ⦃num⦄ a b = num.add a b

abbrev pub ◌⊖◌ : {F : Type 0} ⦃num : Float F⦄ → F → F → F
◌⊖◌ ⦃num⦄ a b = num.sub a b

abbrev pub ◌⊗◌ : {F : Type 0} ⦃num : Float F⦄ → F → F → F
◌⊗◌ ⦃num⦄ a b = num.mul a b

abbrev pub ◌⊘◌ : {F : Type 0} ⦃num : Float F⦄ → F → F → F
◌⊘◌ ⦃num⦄ a b = num.div a b

abbrev pub ◌⩽◌ : {F : Type 0} ⦃num : Float F⦄ → F → F → Bool
◌⩽◌ ⦃num⦄ a b = num.le a b

abbrev pub ◌⋖◌ : {F : Type 0} ⦃num : Float F⦄ → F → F → Bool
◌⋖◌ ⦃num⦄ a b = num.lt a b

abbrev pub ◌≼◌ : {F : Type 0} ⦃num : Float F⦄ → F → F → Type 0
◌≼◌ ⦃num⦄ a b = num.le a b ≡ true

abbrev pub ◌≺◌ : {F : Type 0} ⦃num : Float F⦄ → F → F → Type 0
◌≺◌ ⦃num⦄ a b = num.lt a b ≡ true

-- A literal with no fraction.
abbrev pub whole : {F : Type 0} ⦃num : Float F⦄ → ℕ → F
whole ⦃num⦄ n = num.decimal n 0

-- The behaviour that the theorems rely on.
pub record IsArithmetic (F : Type 0) ⦃num : Float F⦄ : Type 0 where
  pub le_refl : (a : F) → a ≼ a
  pub le_trans : (a b c : F) → a ≼ b → b ≼ c → a ≼ c
  pub lt-not-le : (a b : F) → (a ⋖ b) ≡ not (b ⩽ a)
  pub le_of_not_le : (a b : F) → (a ⩽ b) ≡ false → b ≼ a
  pub add_mono : (a b c d : F) → a ≼ b → c ≼ d → a ⊕ c ≼ b ⊕ d
  pub sub_mono : (a b c d : F) → a ≼ b → d ≼ c → a ⊖ c ≼ b ⊖ d
  pub mul_mono : (a b c : F) → whole 0 ≼ c → a ≼ b → a ⊗ c ≼ b ⊗ c
  pub mul_mono_left : (a b c : F) → whole 0 ≼ c → a ≼ b → c ⊗ a ≼ c ⊗ b
  pub div_mono : (a b c : F) → whole 0 ≺ c → a ≼ b → a ⊘ c ≼ b ⊘ c
  pub zero_le_mul : (a b : F) → whole 0 ≼ a → whole 0 ≼ b → whole 0 ≼ a ⊗ b
  pub zero_le_div : (a b : F) → whole 0 ≼ a → whole 0 ≺ b → whole 0 ≼ a ⊘ b
  pub zero_le_add : (a b : F) → whole 0 ≼ a → whole 0 ≼ b → whole 0 ≼ a ⊕ b
  pub zero_le_sub : (a b : F) → b ≼ a → whole 0 ≼ a ⊖ b
  pub sub_self_le : (a : F) → a ⊖ a ≼ whole 0
  pub sub_le : (a b : F) → whole 0 ≼ b → a ⊖ b ≼ a
  pub le_one_mul : (a b : F) → whole 0 ≼ a → b ≼ whole 1 → a ⊗ b ≼ a
  pub min_le_left : (a b : F) → num.min a b ≼ a
  pub min_le_right : (a b : F) → num.min a b ≼ b
  pub le_min : (a b c : F) → c ≼ a → c ≼ b → c ≼ num.min a b
  pub le_max_left : (a b : F) → a ≼ num.max a b
  pub le_max_right : (a b : F) → b ≼ num.max a b
  pub max_le : (a b c : F) → a ≼ c → b ≼ c → num.max a b ≼ c
  pub of_int_mono : (m n : ℤ) → m ≤ℤ n → num.of_int m ≼ num.of_int n
  pub zero_le_of_int : (n : ℤ) → pos 0 ≤ℤ n → whole 0 ≼ num.of_int n
  pub floor_mono : (a b : F) → a ≼ b → num.floor a ≼ num.floor b
  pub ceil_mono : (a b : F) → a ≼ b → num.ceil a ≼ num.ceil b
  pub round_mono : (a b : F) → a ≼ b → num.round a ≼ num.round b
  pub to_int_mono : (a b : F) → a ≼ b → num.to_int a ≤ℤ num.to_int b
  pub zero_le_decimal : (n k : ℕ) → whole 0 ≼ num.decimal n k
  pub decimal_le_one : (n k : ℕ) → n ≤ 10 ^ k → num.decimal n k ≼ whole 1
  pub zero_lt_whole : (n : ℕ) → 0 < n → num.lt (num.decimal 0 0) (num.decimal n 0) ≡ true
  pub zero_lt_sub : (a b : F) → b ≺ a → whole 0 ≺ a ⊖ b
  pub div_self_le : (a : F) → whole 0 ≺ a → a ⊘ a ≼ whole 1
  pub sub_mul_le : (a t b c : F) → a ⊖ t ⊗ (c ⊖ b) ≼ a ⊕ t ⊗ (b ⊖ c)
  pub le_sub_mul : (a t b c : F) → a ⊕ t ⊗ (b ⊖ c) ≼ a ⊖ t ⊗ (c ⊖ b)
  pub is_inf_mono : (a b : F) → whole 0 ≼ a → a ≼ b → num.is_inf b ≡ false → num.is_inf a ≡ false

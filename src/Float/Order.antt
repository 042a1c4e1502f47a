-- ===== src/Float/Order.antt =====
-- Consequences of the laws of float64.
use skyward.Base.{◌≡◌, false, arith, inl, inr, Bool-cases, if◌then◌else◌}
use skyward.Float.{Float, IsArithmetic, ◌⊖◌, ◌≼◌, ◌≺◌, ◌⩽◌, ◌⋖◌, whole}

module _ {F : Type 0} ⦃num : Float F⦄ (law : IsArithmetic F) where
  open law use {
    le_refl, le_trans, lt-not-le, le_of_not_le, add_mono, mul_mono, min_le_left, min_le_right,
    le_min, sub_mono, zero_le_sub,
  }

  pub le_of_lt : (a b : F) → a ≺ b → a ≼ b
  le_of_lt a b h = elim (Bool-cases (b ⩽ a)) [
    | inl e ↦ cc (h, lt-not-le a b, e)
    | inr e ↦ le_of_not_le b a e
  ]

  pub le_of_not_lt : (a b : F) → (a ⋖ b) ≡ false → b ≼ a
  le_of_not_lt a b h = ground (arith, lt-not-le a b)

  pub lt_of_not_le : (a b : F) → (a ⩽ b) ≡ false → b ≺ a
  lt_of_not_le a b h = ground (arith, lt-not-le b a)

  pub not_le_of_lt : (a b : F) → a ≺ b → (b ⩽ a) ≡ false
  not_le_of_lt a b h = ground (arith, lt-not-le a b)

  pub lt_of_lt_of_le : (a b c : F) → a ≺ b → b ≼ c → a ≺ c
  lt_of_lt_of_le a b c h k = elim (Bool-cases (c ⩽ a)) [
    | inl e ↦ cc (not_le_of_lt a b h, le_trans b c a k e)
    | inr e ↦ ground (arith, lt-not-le a c)
  ]

  pub min_mono : (a b c d : F) → a ≼ b → c ≼ d → num.min a c ≼ num.min b d
  min_mono a b c d h k =
      le_min b d (num.min a c) (le_trans _ a b (min_le_left a c) h)
        (le_trans _ c d (min_le_right a c) k)

  pub max_mono : (a b c d : F) → a ≼ b → c ≼ d → num.max a c ≼ num.max b d
  max_mono a b c d h k =
      law.max_le a c _ (le_trans a b _ h (law.le_max_left b d))
        (le_trans c d _ k (law.le_max_right b d))

  -- What a bound cuts off grows with what is bounded.
  pub excess_mono : (a b s : F) → a ≼ b → a ⊖ num.min s a ≼ b ⊖ num.min s b
  excess_mono a b s h = elim (Bool-cases (a ⩽ s)) [
    | inl fits ↦
        le_trans _ (a ⊖ a) _
          (sub_mono a a (num.min s a) a (le_refl a) (le_min s a a fits (le_refl a)))
          (le_trans _ (whole 0) _ (law.sub_self_le a) (zero_le_sub b _ (min_le_right s b)))
    | inr over ↦
        sub_mono a b (num.min s a) (num.min s b) h
          (le_trans _ s _ (min_le_left s b) (le_min s a s (le_refl s) (le_of_not_le a s over)))
  ]

  -- if a < b { a = b }
  pub le_raised : (a b : F) → b ≼ (if a ⋖ b then b else a)
  le_raised a b = elim (Bool-cases (a ⋖ b)) [
    | inl e ↦ rw e (le_refl b)
    | inr e ↦ rw e (le_of_not_lt a b e)
  ]

  pub raised_mono : (a c b : F) → a ≼ c → (if a ⋖ b then b else a) ≼ (if c ⋖ b then b else c)
  raised_mono a c b h = elim (Bool-cases (a ⋖ b)) [
    | inl e ↦ rw e (le_raised c b)
    | inr e ↦ elim (Bool-cases (c ⋖ b)) [
      | inl f ↦ rw (e, f) (le_trans a c b h (le_of_lt c b f))
      | inr f ↦ rw (e, f) h
    ]
  ]

  -- if b < a { a = b }
  pub capped_le : (a b : F) → (if b ⋖ a then b else a) ≼ b
  capped_le a b = elim (Bool-cases (b ⋖ a)) [
    | inl e ↦ rw e (le_refl b)
    | inr e ↦ rw e (le_of_not_lt b a e)
  ]

  pub le_capped : (a b c : F) → c ≼ a → c ≼ b → c ≼ (if b ⋖ a then b else a)
  le_capped a b c h k = elim (Bool-cases (b ⋖ a)) [ inl e ↦ rw e k | inr e ↦ rw e h ]

  pub capped_mono : (a c b : F) → a ≼ c → (if b ⋖ a then b else a) ≼ (if b ⋖ c then b else c)
  capped_mono a c b h = elim (Bool-cases (b ⋖ c)) [
    | inl e ↦ rw e (capped_le a b)
    | inr e ↦ elim (Bool-cases (b ⋖ a)) [
      | inl f ↦ rw (e, f) (le_trans b a c (le_of_lt b a f) h)
      | inr f ↦ rw (e, f) h
    ]
  ]

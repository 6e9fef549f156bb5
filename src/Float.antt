-- ===== src/Float.antt =====
-- The interface of Python's floats. The model takes their type and operations as an argument,
-- since the rounding of IEEE 754 is not code of the repository: any value of `Float F` will do.
-- NaN is left out: `<` is the negation of `≥`.
pub mod Fixed
use adviser_ai_constructor.Prelude.{ℕ, ◌≡◌, Bool, true, not, ◌&&◌, ◌⊎◌, if◌then◌else◌}

pub record Float (F : Type 0) : Type 0 where
  -- `ratio n d` is the float nearest to n / d; it stands for the literals.
  pub ratio : ℕ → ℕ → F
  pub add : F → F → F
  pub sub : F → F → F
  pub mul : F → F → F
  pub div : F → F → F
  pub leq : F → F → Bool

-- What the code relies on of the order of the floats other than NaN.
pub record IsOrdered (F : Type 0) (fl : Float F) : Type 0 where
  pub leq_total : (a b : F) → (fl.leq a b ≡ true) ⊎ (fl.leq b a ≡ true)
  pub leq_trans : (a b c : F) → fl.leq a b ≡ true → fl.leq b c ≡ true → fl.leq a c ≡ true

-- A finite float less itself is zero.
pub record IsCancelling (F : Type 0) (fl : Float F) : Type 0 where
  pub sub_self : (a : F) → fl.sub a a ≡ fl.ratio 0 1

-- The literals are not negative.
pub record IsLiteral (F : Type 0) (fl : Float F) : Type 0 where
  pub ratio_nonneg : (n d : ℕ) → fl.leq (fl.ratio 0 1) (fl.ratio n d) ≡ true

module _ {F : Type 0} ⦃fl : Float F⦄ where
  infixl 65 ◌⊕◌ ◌⊖◌
  infixl 70 ◌⊗◌ ◌⊘◌
  infix 50 ◌⊑◌ ◌⊏◌ ◌≐◌
  abbrev pub ◌⊕◌ : F → F → F
  a ⊕ b = fl.add a b

  abbrev pub ◌⊖◌ : F → F → F
  a ⊖ b = fl.sub a b

  abbrev pub ◌⊗◌ : F → F → F
  a ⊗ b = fl.mul a b

  abbrev pub ◌⊘◌ : F → F → F
  a ⊘ b = fl.div a b

  -- `a <= b`, `a < b` and `a == b`
  abbrev pub ◌⊑◌ : F → F → Bool
  a ⊑ b = fl.leq a b

  abbrev pub ◌⊏◌ : F → F → Bool
  a ⊏ b = not (fl.leq b a)

  abbrev pub ◌≐◌ : F → F → Bool
  a ≐ b = fl.leq a b && fl.leq b a

  -- `float(n)` of an int, and the literals 0.0, 1.0 and 100.0
  abbrev pub of_ℕ : ℕ → F
  of_ℕ n = fl.ratio n 1

  -- `max(a, b)` and `min(a, b)`: the first argument, unless the second is beyond it
  abbrev pub max_f : F → F → F
  max_f a b = if a ⊏ b then b else a

  abbrev pub min_f : F → F → F
  min_f a b = if b ⊏ a then b else a

  -- `-x` and `abs(x)`
  abbrev pub neg : F → F
  neg x = of_ℕ 0 ⊖ x

  abbrev pub abs : F → F
  abs x = if x ⊏ of_ℕ 0 then neg x else x

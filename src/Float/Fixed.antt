-- ===== src/Float/Fixed.antt =====
-- Integers, and with them decimal numbers in units of one billionth: a model of the interface of
-- floats at which the theorems are tried on concrete inputs.
use adviser_ai_constructor.Prelude.{ℕ, suc, ◌+◌, ◌-◌, ◌*◌, ◌/◌, arith, leb, if◌then◌else◌}
use adviser_ai_constructor.Float.{Float, IsOrdered, IsCancelling, IsLiteral}

-- `negsuc n` is -(n + 1).
pub data ℤ : Type 0 where
  pos : ℕ → ℤ
  negsuc : ℕ → ℤ

abbrev pos_part : ℤ → ℕ
pos_part (pos n) = n
pos_part (negsuc n) = 0

abbrev neg_part : ℤ → ℕ
neg_part (pos n) = 0
neg_part (negsuc n) = suc n

abbrev sub_ℕ : ℕ → ℕ → ℤ
sub_ℕ a b = if leb b a then pos (a - b) else negsuc (b - a - 1)

abbrev unit : ℕ
unit = 1000000000

-- The magnitude f of a number, with its sign.
abbrev signed : ℤ → (ℕ → ℕ) → ℤ
signed (pos n) f = pos (f n)
signed (negsuc n) f = sub_ℕ 0 (f (suc n))

abbrev magnitude : ℤ → ℕ
magnitude a = pos_part a + neg_part a

abbrev flip_by : ℤ → ℤ → ℤ
flip_by (pos n) a = a
flip_by (negsuc n) a = sub_ℕ (neg_part a) (pos_part a)

instance abbrev pub fixed : Float ℤ
fixed = record {
  ratio = λ n d. pos (n * unit / d);
  add = λ a b. sub_ℕ (pos_part a + pos_part b) (neg_part a + neg_part b);
  sub = λ a b. sub_ℕ (pos_part a + neg_part b) (neg_part a + pos_part b);
  mul = λ a b. flip_by b (signed a (λ m. m * magnitude b / unit));
  div = λ a b. flip_by b (signed a (λ m. m * unit / magnitude b));
  leq = λ a b. leb (pos_part a + neg_part b) (pos_part b + neg_part a);
}

pub fixed-IsOrdered : IsOrdered ℤ fixed
fixed-IsOrdered = record { leq_total = λ a b. ground arith; leq_trans = λ a b c h k. ground arith }

pub fixed-IsCancelling : IsCancelling ℤ fixed
fixed-IsCancelling = record { sub_self = λ a. ground arith }

pub fixed-IsLiteral : IsLiteral ℤ fixed
fixed-IsLiteral = record { ratio_nonneg = λ n d. ground arith }

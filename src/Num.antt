-- ===== src/Num.antt =====
-- The program's floating-point numbers. A finite double is a whole multiple of the least positive
-- one, so it is modelled by that integer: comparisons are exact. The arithmetic rounds, and is a
-- parameter; NaN and the infinities are not modelled.
pub mod Whole
use igthon.Prelude.{ℕ, zero, suc, Bool, true, not, List, All, ◌≡◌, if◌then◌else◌, arith}
use igthon.Prelude.Int.{ℤ, pos, negsuc, ltb_ℤ, ◌≤ℤ◌}

abbrev pub Float : Type 0
Float = ℤ

-- `lit p q` is the double that the source writes for p / q, and the quotient of two whole numbers;
-- `square x` is `x ** 2`, `sqrt` is `math.sqrt`, `sum` is Python's sum of a list, and `round5 x` and
-- `round3 x` are `round(x, 5)` and `round(x, 3)`, so too `round6 x`; `half_pow x` is `0.5 ** x`.
pub record Arith : Type 0 where
  pub add : Float → Float → Float
  pub sub : Float → Float → Float
  pub mul : Float → Float → Float
  pub div : Float → Float → Float
  pub lit : ℕ → ℕ → Float
  pub square : Float → Float
  pub sqrt : Float → Float
  pub sum : List Float → Float
  pub round5 : Float → Float
  pub round3 : Float → Float
  pub round6 : Float → Float
  pub half_pow : Float → Float

abbrev pub zero_float : Float
zero_float = pos 0

infix 50 ◌<f◌ ◌≤f◌
abbrev pub ◌<f◌ : Float → Float → Bool
x <f y = ltb_ℤ x y

abbrev pub ◌≤f◌ : Float → Float → Bool
x ≤f y = not (ltb_ℤ y x)

-- A change of sign does not round.
abbrev pub neg : Float → Float
neg (pos zero) = pos 0
neg (pos (suc n)) = negsuc n
neg (negsuc n) = pos (suc n)

abbrev pub abs : Float → Float
abs x = if x <f zero_float then neg x else x

-- Python's `max` and `min` of two floats.
abbrev pub larger : Float → Float → Float
larger x y = if x <f y then y else x

abbrev pub smaller : Float → Float → Float
smaller x y = if y <f x then y else x

pub le-larger_left : (x y : Float) → x ≤ℤ larger x y
le-larger_left x y = ground arith

pub le-larger_right : (x y : Float) → y ≤ℤ larger x y
le-larger_right x y = ground arith

-- What IEEE 754 says of the arithmetic, for results that are finite: one is positive and neutral, minus one flips
-- the sign, a difference has the sign of the comparison, a product, a quotient, a square, a root and
-- a sum of numbers that are not negative is not negative, a number does not grow when such a number
-- is taken from it nor shrink when it is added, and a quotient of whole numbers is not negative.
pub record Ieee (a : Arith) : Type 0 where
  pub one_positive : (zero_float <f a.lit 1 1) ≡ true
  pub mul_one : (x : Float) → a.mul (a.lit 1 1) x ≡ x
  pub mul_minus_one : (x : Float) → a.mul (neg (a.lit 1 1)) x ≡ neg x
  pub sub_sign : (x y : Float) → (zero_float <f a.sub x y) ≡ (y <f x)
  pub sub_sign_below : (x y : Float) → (a.sub x y <f zero_float) ≡ (x <f y)
  pub mul_nonneg : (x y : Float) → zero_float ≤ℤ x → zero_float ≤ℤ y → zero_float ≤ℤ a.mul x y
  pub div_nonneg : (x y : Float) → zero_float ≤ℤ x → zero_float ≤ℤ y → zero_float ≤ℤ a.div x y
  pub add_nonneg : (x y : Float) → zero_float ≤ℤ x → zero_float ≤ℤ y → zero_float ≤ℤ a.add x y
  pub sqrt_nonneg : (x : Float) → zero_float ≤ℤ x → zero_float ≤ℤ a.sqrt x
  pub square_nonneg : (x : Float) → zero_float ≤ℤ a.square x
  pub sum_nonneg : (xs : List Float) → All (λ x. zero_float ≤ℤ x) xs → zero_float ≤ℤ a.sum xs
  pub sub_le : (x d : Float) → zero_float ≤ℤ d → a.sub x d ≤ℤ x
  pub le_sub : (x d : Float) → d ≤ℤ zero_float → x ≤ℤ a.sub x d
  pub le_add : (x d : Float) → zero_float ≤ℤ d → x ≤ℤ a.add x d
  pub lit_nonneg : (p q : ℕ) → zero_float ≤ℤ a.lit p q

-- Rounding to five places keeps the order and is done once.
pub record Rounding (a : Arith) : Type 0 where
  pub round5_mono : (x y : Float) → x ≤ℤ y → a.round5 x ≤ℤ a.round5 y
  pub round5_idem : (x : Float) → a.round5 (a.round5 x) ≡ a.round5 x

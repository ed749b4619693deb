-- ===== src/Num/Whole.antt =====
-- Whole numbers, at which the theorems on floating-point numbers are run.
use igthon.Prelude.{All, ◌≡◌, refl, List, [], ◌∷◌, arith}
use igthon.Prelude.Int.{pos, negsuc, ◌+ℤ◌, ◌-ℤ◌, ◌*ℤ◌, ◌≤ℤ◌, +ℤ_parts, -ℤ_parts}
use igthon.Num.{Float, Arith, Ieee, Rounding, neg, zero_float, ◌<f◌}

abbrev pub total : List Float → Float
total [] = zero_float
total (x ∷ xs) = x +ℤ total xs

abbrev pub whole : Arith
whole = record {
  add = ◌+ℤ◌;
  sub = ◌-ℤ◌;
  mul = ◌*ℤ◌;
  div = λ x y. x;
  lit = λ p q. pos p;
  square = λ x. x *ℤ x;
  sqrt = λ x. x;
  sum = total;
  round5 = λ x. x;
  round3 = λ x. x;
  round6 = λ x. x;
  half_pow = λ x. pos 1;
}

one_mul : (x : Float) → pos 1 *ℤ x ≡ x
unfolding ◌*ℤ◌
one_mul (pos n) = ground arith
one_mul (negsuc n) = ground arith

minus_mul : (x : Float) → neg (pos 1) *ℤ x ≡ neg x
unfolding ◌*ℤ◌
minus_mul x = ground arith

above : (x y : Float) → (zero_float <f x -ℤ y) ≡ (y <f x)
unfolding ◌-ℤ◌
above x y = ground arith

below : (x y : Float) → (x -ℤ y <f zero_float) ≡ (x <f y)
unfolding ◌-ℤ◌
below x y = ground arith

times : (x y : Float) → zero_float ≤ℤ x → zero_float ≤ℤ y → zero_float ≤ℤ x *ℤ y
unfolding ◌*ℤ◌
times (pos n) (pos m) h k = ground arith
times (pos n) (negsuc m) h k = ground arith
times (negsuc n) y h k = ground arith

nonneg_square : (x : Float) → zero_float ≤ℤ x *ℤ x
unfolding ◌*ℤ◌
nonneg_square (pos n) = ground arith
nonneg_square (negsuc n) = ground arith

nonneg_total : (xs : List Float) → All (λ x. zero_float ≤ℤ x) xs → zero_float ≤ℤ total xs
nonneg_total [] h = omega arith
nonneg_total (x ∷ xs) h = omega (arith, h.0, +ℤ_parts x (total xs), nonneg_total xs h.1)

pub whole-Ieee : Ieee whole
whole-Ieee = record {
  one_positive = refl;
  mul_one = one_mul;
  mul_minus_one = minus_mul;
  sub_sign = above;
  sub_sign_below = below;
  mul_nonneg = times;
  div_nonneg = λ x y h k. h;
  add_nonneg = λ x y h k. omega (arith, +ℤ_parts x y);
  sqrt_nonneg = λ x h. h;
  square_nonneg = nonneg_square;
  sum_nonneg = nonneg_total;
  sub_le = λ x d h. omega (arith, -ℤ_parts x d);
  le_sub = λ x d h. omega (arith, -ℤ_parts x d);
  le_add = λ x d h. omega (arith, +ℤ_parts x d);
  lit_nonneg = λ p q. omega arith;
}

pub whole-Rounding : Rounding whole
whole-Rounding = record { round5_mono = λ x y h. h; round5_idem = λ x. refl }

-- ===== src/Prelude/Fixed.antt =====
-- Decimal fixed-point numbers with three places, as an instance of the interface of Float.antt for
-- tests: they are ordered, and round down.
use native.Mathlib.Nat.{
  div-le_of_le-mul, le-div_iff_mul-le, div-lt_iff_lt-mul, mul-div_cancel_left, div-mul-le_self,
  mul-le-mul_left, mul-le-mul_right,
}
use eous.Prelude.{ℕ, ◌+◌, ◌-◌, ◌*◌, ◌/◌, ◌<◌, ◌≤◌, List, [], ◌∷◌, leb, arith, leb→le}
use eous.Prelude.Text.{decimal}
use eous.Prelude.Float.{Float, IsOrdered}

abbrev pub scale : ℕ
scale = 1000

abbrev add_up : List ℕ → ℕ
add_up [] = 0
add_up (x ∷ xs) = x + add_up xs

-- The roots, the logarithm and the negation are only good enough for tests.
abbrev pub fixed_point : Float
fixed_point = record {
  F = ℕ;
  of_ℕ = λ n. n * scale;
  add = ◌+◌;
  sub = ◌-◌;
  mul = λ a b. a * b / scale;
  div = λ a b. a * scale / b;
  sqrt = λ a. a / 2;
  neg = λ a. a;
  log2 = λ a. a;
  sum = add_up;
  percent = λ a. decimal (a / 10);
  fixed = λ digits a. decimal a;
  general = decimal;
  round = λ digits a. a;
  le = leb;
}

div_mono : (a b c : ℕ) → 0 < c → a ≤ b → a / c ≤ b / c
div_mono a b c pos h = (le-div_iff_mul-le pos).1 (omega (arith, div-mul-le_self a c))

div_antimono : (a b c : ℕ) → 0 < b → b ≤ c → a / c ≤ a / b
div_antimono a b c pos h =
    (le-div_iff_mul-le pos).1 (omega (arith, div-mul-le_self a c, mul-le-mul_left (a / c) h))

pub fixed_point-IsOrdered : IsOrdered fixed_point
fixed_point-IsOrdered = record {
  le_total = λ a b. ground arith;
  le_trans = λ a b c h k. ground arith;
  le_antisymm = λ a b h k. ground arith;
  of_ℕ_mono = λ m n h. ground arith;
  of_ℕ_strict = λ m n h k. ground arith;
  add_comm = λ a b. omega arith;
  le-add_right = λ a b h. ground arith;
  sub-le = λ a b h. ground arith;
  sub_nonneg = λ a b h. ground arith;
  sub_pos = λ a b h. ground arith;
  mul_mono = λ a b c h k. ground (
    arith,
    div_mono (a * c) (b * c) scale (omega arith),
    mul-le-mul_right {m = a} {n = b} c (leb→le a b k),
  );
  one_mul = λ a. omega arith;
  zero_mul = λ a. omega arith;
  div_nonneg = λ a b h k. ground arith;
  div-le-one =
      λ a b h k. ground (arith, div-le_of_le-mul b {m = a * scale} {n = 1000} (ground arith));
  div-lt-one = λ a b h k. ground (
    arith,
    (div-lt_iff_lt-mul {k = b} {x = a * scale} {y = 1000} (ground arith)).1 (ground arith),
  );
  div_self = λ a h. mul-div_cancel_left 1000 (ground arith);
  div_antitone = λ a b c h k l. ground (arith, div_antimono (a * scale) b c);
  sqrt_nonneg = λ a h. ground arith;
}

-- ===== src/Prelude/Float.antt =====
-- The double-precision numbers that the program computes with: an interface, since the arithmetic
-- is the processor's. `F` stands for the finite values, which the program's operations stay among,
-- with the two zeros taken as one. `IsOrdered` holds what IEEE 754 says of rounding to nearest: it
-- is monotone, exact on exact results, and keeps signs.
use eous.Prelude.{ℕ, ◌<◌, ◌≤◌, ◌≡◌, ◌⊎◌, Bool, true, false, not, if◌then◌else◌, ◌^◌, List}
use eous.Prelude.Text.{Text}

pub record Float : Type 1 where
  pub F : Type 0
  pub of_ℕ : ℕ → F
  pub add : F → F → F
  pub sub : F → F → F
  pub mul : F → F → F
  pub div : F → F → F
  pub sqrt : F → F
  pub neg : F → F
  pub log2 : F → F
  -- `numpy.sum`, which adds up in an order of its own.
  pub sum : List F → F
  -- `f"{x:.0%}"`, `f"{x:.{digits}f}"` and `f"{x:g}"`
  pub percent : F → Text
  pub fixed : ℕ → F → Text
  pub general : F → Text
  -- `round(x, digits)`
  pub round : ℕ → F → F
  -- `a <= b`
  pub le : F → F → Bool

module _ (N : Float) where
  open N use {F, of_ℕ, add, sub, mul, div, sqrt, le}

  -- `a < b`, of values that are not NaN.
  abbrev pub lt : F → F → Bool
  lt a b = not (le b a)

  abbrev pub minimum : F → F → F
  minimum a b = if le a b then a else b

  abbrev pub maximum : F → F → F
  maximum a b = if le a b then b else a

  pub record IsOrdered : Type 0 where
    pub le_total : (a b : F) → (le a b ≡ true) ⊎ (le b a ≡ true)
    pub le_trans : (a b c : F) → le a b ≡ true → le b c ≡ true → le a c ≡ true
    pub le_antisymm : (a b : F) → le a b ≡ true → le b a ≡ true → a ≡ b
    pub of_ℕ_mono : (m n : ℕ) → m ≤ n → le (of_ℕ m) (of_ℕ n) ≡ true
    pub of_ℕ_strict : (m n : ℕ) → m < n → n ≤ 2 ^ 53 → le (of_ℕ n) (of_ℕ m) ≡ false
    pub add_comm : (a b : F) → add a b ≡ add b a
    pub le-add_right : (a b : F) → le (of_ℕ 0) b ≡ true → le a (add a b) ≡ true
    pub sub-le : (a b : F) → le (of_ℕ 0) b ≡ true → le (sub a b) a ≡ true
    pub sub_nonneg : (a b : F) → le b a ≡ true → le (of_ℕ 0) (sub a b) ≡ true
    pub sub_pos : (a b : F) → le a b ≡ false → le (sub a b) (of_ℕ 0) ≡ false
    pub mul_mono :
        (a b c : F) → le (of_ℕ 0) c ≡ true → le a b ≡ true → le (mul a c) (mul b c) ≡ true
    pub one_mul : (a : F) → mul (of_ℕ 1) a ≡ a
    pub zero_mul : (a : F) → mul (of_ℕ 0) a ≡ of_ℕ 0
    pub div_nonneg :
        (a b : F) → le (of_ℕ 0) a ≡ true → le b (of_ℕ 0) ≡ false → le (of_ℕ 0) (div a b) ≡ true
    pub div-le-one :
        (a b : F) → le b (of_ℕ 0) ≡ false → le a b ≡ true → le (div a b) (of_ℕ 1) ≡ true
    pub div-lt-one :
        (a b : F) → le b (of_ℕ 0) ≡ false → le b a ≡ false → le (of_ℕ 1) (div a b) ≡ false
    pub div_self : (a : F) → le a (of_ℕ 0) ≡ false → div a a ≡ of_ℕ 1
    pub div_antitone :
        (a b c : F)
        → le (of_ℕ 0) a ≡ true
        → le b (of_ℕ 0) ≡ false
        → le b c ≡ true
        → le (div a c) (div a b) ≡ true
    pub sqrt_nonneg : (a : F) → le (of_ℕ 0) a ≡ true → le (of_ℕ 0) (sqrt a) ≡ true

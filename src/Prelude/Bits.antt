-- ===== src/Prelude/Bits.antt =====
-- `|` of a shifted number and one that fits in the bits that the shift left free.
use Prim.Native.Nat.{digits, bit_or, bit_or-bitwise}
use Prim.Native.Nat.{ℕ, zero, suc, ◌+◌, ◌*◌, ◌/◌, ◌≤◌, ◌<◌, max}
use mathlib.Core.Path.{◌≡◌, refl, ap, ◌∙◌}
use native.Mathlib.Nat.{mul_left_comm}
use native.Mathlib.Omega.{arith}

-- What the operation stands for: a count of digits to go, then the two numbers.
abbrev either_digit : ℕ → ℕ → ℕ → ℕ
either_digit = digits (λ b. b) max

-- 2 ^ k
abbrev pub doubled : ℕ → ℕ
doubled zero = 1
doubled (suc k) = 2 * doubled k

either_digit-alone : (n a : ℕ) → a ≤ n → either_digit n a 0 ≡ a
either_digit-alone zero a h = omega (arith, h)
either_digit-alone (suc n) zero h = refl
either_digit-alone (suc n) (suc a) h = ground (arith, either_digit-alone n (suc a / 2))

either_digit-zero : (n b : ℕ) → either_digit n 0 b ≡ b
either_digit-zero zero b = refl
either_digit-zero (suc n) b = refl

-- By the number of bits of the shift.
either_digit-fields :
    (k n q a r : ℕ) → a ≡ q * doubled k → a ≤ n → r < doubled k → either_digit n a r ≡ a + r
either_digit-fields k n q zero r e h fits = omega (arith, either_digit-zero n r)
either_digit-fields zero n q (suc a) r e h fits =
    ap (either_digit n (suc a)) (let none_left : r ≡ 0 = omega arith in none_left)
    ∙ either_digit-alone n (suc a) h
    ∙ omega arith
either_digit-fields (suc k) zero q (suc a) r e h fits = absurd (omega (arith, h))
either_digit-fields (suc k) (suc n) q (suc a) r e h fits =
    let half : suc a / 2 ≡ q * doubled k = omega (arith, e, mul_left_comm q 2 (doubled k)) in
    let ih = either_digit-fields k n q (suc a / 2) (r / 2) half (omega arith) (omega arith) in
    ground (arith, ih)

pub bit_or_fields : (k q r : ℕ) → r < doubled k → bit_or (q * doubled k) r ≡ q * doubled k + r
bit_or_fields k q r fits =
    let a = q * doubled k in
    (λ i. bit_or-bitwise a r i) ∙ either_digit-fields k a q a r refl (omega arith) fits

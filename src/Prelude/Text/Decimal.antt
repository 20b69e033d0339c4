-- ===== src/Prelude/Text/Decimal.antt =====
-- `str(n)` and `int(s)`, in decimal.
use native.Mathlib.Nat.{pow-suc, div-lt_iff_lt-mul}
use eous.Prelude.{
  ℕ, zero, suc, ◌+◌, ◌-◌, ◌*◌, ◌/◌, ◌%◌, ◌^◌, ◌≤◌, ◌<◌, ◌≡◌, refl, ◌∙◌, ap, ◌≢◌, Bool, true, ◌&&◌,
  [], ◌∷◌, arith, ltb, leb, if◌then◌else◌, length, all, inl, inr, Bool-cases,
}
use eous.Prelude.Text.Base.{Text, codes}

-- `str(n)`: the fuel bounds the number of digits.
decimal_from : ℕ → ℕ → Text → Text
decimal_from zero n out = out
decimal_from (suc fuel) n out =
    let rest = decimal_from fuel (n / 10) ((b'0' + n % 10) ∷ out) in
    if ltb n 10 then (b'0' + n) ∷ out else rest

unfoldable pub decimal : ℕ → Text
unfolding decimal_from
decimal n = decimal_from (suc n) n []

-- One ASCII digit.
abbrev pub is_digit : ℕ → Bool
is_digit c = leb b'0' c && leb c b'9'

decimal_value : Text → ℕ → ℕ
decimal_value [] acc = acc
decimal_value (c ∷ s) acc = decimal_value s (acc * 10 + (c - b'0'))

-- `int(s)` for a text of ASCII digits.
unfoldable pub read_decimal : Text → ℕ
unfolding decimal_value
read_decimal s = decimal_value s 0

decimal_value-decimal_from :
    (fuel n : ℕ) (out : Text)
    → n < fuel
    → decimal_value (decimal_from fuel n out) 0 ≡ decimal_value out n
unfolding decimal_value decimal_from
decimal_value-decimal_from zero n out h = absurd (omega arith)
decimal_value-decimal_from (suc fuel) n out h = elim (Bool-cases (ltb n 10)) [
  | inl short ↦ rw short (ap (decimal_value out) (omega arith))
  | inr long ↦ rw long (
      decimal_value-decimal_from fuel (n / 10) ((b'0' + n % 10) ∷ out) (ground arith)
      ∙ ap (decimal_value out) (omega arith))
]

-- Reading a printed number gives the number.
pub read_decimal-decimal : (n : ℕ) → read_decimal (decimal n) ≡ n
unfolding read_decimal decimal
read_decimal-decimal n =
    decimal_value-decimal_from (suc n) n [] (omega arith) ∙ unfold decimal_value in refl

decimal_from-digits :
    (fuel n : ℕ) (out : Text)
    → all is_digit out ≡ true
    → all is_digit (decimal_from fuel n out) ≡ true
unfolding decimal_from
decimal_from-digits zero n out h = h
decimal_from-digits (suc fuel) n out h = elim (Bool-cases (ltb n 10)) [
  | inl short ↦ rw short (ground arith)
  | inr long ↦ rw long (decimal_from-digits fuel (n / 10) ((b'0' + n % 10) ∷ out) (ground arith))
]

pub decimal-digits : (n : ℕ) → all is_digit (decimal n) ≡ true
unfolding decimal
decimal-digits n = decimal_from-digits (suc n) n [] refl

length-decimal_from :
    (fuel n count : ℕ) (out : Text)
    → n < 10 ^ suc count
    → length (decimal_from fuel n out) ≤ suc count + length out
unfolding decimal_from
length-decimal_from zero n count out h = omega arith
length-decimal_from (suc fuel) n zero out h = ground arith
length-decimal_from (suc fuel) n (suc count) out h = elim (Bool-cases (ltb n 10)) [
  | inl short ↦ rw short (omega arith)
  | inr long ↦ rw long (
      omega (arith, length-decimal_from fuel (n / 10) count ((b'0' + n % 10) ∷ out) quotient_small))
]
  where
    quotient_small : n / 10 < 10 ^ suc count
    quotient_small = (div-lt_iff_lt-mul {k = 10} (omega arith)).1 (rw (← pow-suc) h)

-- A number below a power of ten has no more digits than its exponent.
pub length-decimal : (n count : ℕ) → n < 10 ^ suc count → length (decimal n) ≤ suc count
unfolding decimal
length-decimal n count h = omega (arith, length-decimal_from (suc n) n count [] h)

decimal_from-ne-nil : (fuel n c : ℕ) (out : Text) → decimal_from fuel n (c ∷ out) ≢ []
unfolding decimal_from
decimal_from-ne-nil zero n c out = λ h. cc
decimal_from-ne-nil (suc fuel) n c out =
    ground (arith, decimal_from-ne-nil fuel (n / 10) (b'0' + n % 10) (c ∷ out))

pub decimal-ne-nil : (n : ℕ) → decimal n ≢ []
unfolding decimal decimal_from
decimal-ne-nil n = ground (arith, decimal_from-ne-nil n (n / 10) (b'0' + n % 10) [])

decimal_runs : decimal 9007199254740992 ≡ codes "9007199254740992"
unfolding decimal
decimal_runs = refl

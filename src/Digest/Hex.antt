-- ===== src/Digest/Hex.antt =====
-- The sketch field of a digest: what its pattern lets through, and the number that it spells.
use eous.Prelude.{
  ℕ, zero, suc, ◌+◌, ◌-◌, ◌*◌, ◌^◌, ◌<◌, ◌≡◌, refl, true, List, [], ◌∷◌, ◌++◌, map, arith, ltb,
  if◌then◌else◌, length, All,
}
use eous.Prelude.Text.{Text, read_digits, read_digits-lt}
use eous.Digest.{is_lower_hex, hex_match, hex_value, hex_values, newline}

-- `{:x}` of a number below 16.
abbrev pub hex_digit : ℕ → ℕ
hex_digit d = if ltb d 10 then b'0' + d else b'a' + (d - 10)

hex_digit-is_lower_hex : (d : ℕ) → d < 16 → is_lower_hex (hex_digit d) ≡ true
hex_digit-is_lower_hex d h = ground arith

hex_value-hex_digit : (d : ℕ) → d < 16 → hex_value (hex_digit d) ≡ d
hex_value-hex_digit d h = ground arith

pub hex_match-map :
    (ds : List ℕ) → All (λ d. d < 16) ds → hex_match (length ds) (map hex_digit ds) ≡ true
unfolding hex_match
hex_match-map [] h = refl
hex_match-map (d ∷ ds) h = ground (arith, hex_match-map ds h.1)

-- The same with a newline behind the digits.
pub hex_match-map-newline :
    (ds : List ℕ)
    → All (λ d. d < 16) ds
    → hex_match (length ds) (map hex_digit ds ++ newline ∷ []) ≡ true
unfolding hex_match
hex_match-map-newline [] h = refl
hex_match-map-newline (d ∷ ds) h = ground (arith, hex_match-map-newline ds h.1)

pub hex_values-map :
    (ds : List ℕ) (rest : Text)
    → All (λ d. d < 16) ds
    → hex_values (map hex_digit ds ++ rest) ≡ ds ++ hex_values rest
unfolding hex_values
hex_values-map [] rest h = refl
hex_values-map (d ∷ ds) rest h = ground (arith, hex_values-map ds rest h.1)

pub hex_values-below :
    (count : ℕ) (s : Text) → hex_match count s ≡ true → All (λ d. d < 16) (hex_values s)
unfolding hex_match hex_values
hex_values-below zero [] h = tt
hex_values-below zero (c ∷ []) h = ground arith
hex_values-below zero (c ∷ d ∷ s) h = cc
hex_values-below (suc count) [] h = cc
hex_values-below (suc count) (c ∷ s) h = ground (arith, hex_values-below count s)

pub length-hex_values :
    (count : ℕ) (s : Text) → hex_match count s ≡ true → length (hex_values s) ≡ count
unfolding hex_match hex_values
length-hex_values zero [] h = refl
length-hex_values zero (c ∷ []) h = ground arith
length-hex_values zero (c ∷ d ∷ s) h = cc
length-hex_values (suc count) [] h = cc
length-hex_values (suc count) (c ∷ s) h = ground (arith, length-hex_values count s)

-- The number has four bits for each digit.
pub read_digits-hex_values-lt :
    (count : ℕ) (s : Text) → hex_match count s ≡ true → read_digits 16 0 (hex_values s) < 16 ^ count
read_digits-hex_values-lt count s h = omega (arith, bound)
  where
    bound : read_digits 16 0 (hex_values s) < (0 + 1) * 16 ^ count
    bound =
        rw (length-hex_values count s h) at
          (read_digits-lt 16 0 (hex_values s) (hex_values-below count s h))

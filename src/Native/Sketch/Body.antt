-- ===== src/Native/Sketch/Body.antt =====
-- `sketch` of native/src/lib.rs: two bits of each slot, as the hex digits of bytes.
use eous.Prelude.{
  ℕ, zero, suc, ◌+◌, ◌*◌, ◌/◌, ◌%◌, ◌^◌, ◌<◌, ◌≡◌, refl, sym, ap, ap₂, ◌∙◌, List, [], ◌∷◌, map,
  arith, length, All,
}
use Prim.Native.Nat.{bit_or}
use eous.Prelude.Bits.{bit_or_fields}
use eous.Prelude.Text.{read_digits, write_digits, write_digits-read_digits, read_digits-lt}
use eous.Digest.{sketch_hex}
use eous.Digest.Hex.{hex_digit}
use eous.Digest.RoundTrip.{hex_body}
use eous.Native
use eous.Native.Sketch.{pack, pack_chunks, hex_bytes}

-- The two bits that are kept of each slot.
abbrev pub low_bits : List ℕ → List ℕ
low_bits slots = map (λ slot. slot % 4) slots

-- Two slots as a hex digit.
abbrev pairs : List ℕ → List ℕ
pairs [] = []
pairs (a ∷ []) = []
pairs (a ∷ b ∷ slots) = (a % 4 * 4 + b % 4) ∷ pairs slots

-- Two bits behind a number of six.
or_two : (byte q r : ℕ) → byte ≡ q → q < 64 → r < 4 → bit_or (byte * 4 % 256) r ≡ q * 4 + r
or_two byte q r e h k =
    ap (λ shifted. bit_or shifted r)
      (let whole : byte * 4 % 256 ≡ q * 4 = omega (arith, e, h) in whole)
    ∙ bit_or_fields 2 q r k

pack_four :
    (a b c d : ℕ) → pack 0 (a ∷ b ∷ c ∷ d ∷ []) ≡ ((a % 4 * 4 + b % 4) * 4 + c % 4) * 4 + d % 4
unfolding pack
pack_four a b c d =
    let alone : 0 * 4 + a % 4 ≡ a % 4 = omega arith in
    let first = or_two 0 0 (a % 4) refl (omega arith) (omega arith) ∙ alone in
    let second = or_two _ (a % 4) (b % 4) first (omega arith) (omega arith) in
    let third = or_two _ (a % 4 * 4 + b % 4) (c % 4) second (omega arith) (omega arith) in
    or_two _ ((a % 4 * 4 + b % 4) * 4 + c % 4) (d % 4) third (omega arith) (omega arith)

hex_bytes-pack_chunks :
    (n : ℕ) (slots : List ℕ)
    → length slots ≡ n * 4
    → hex_bytes (pack_chunks slots) ≡ map hex_digit (pairs slots)
unfolding hex_bytes pack_chunks
hex_bytes-pack_chunks n [] e = refl
hex_bytes-pack_chunks n (a ∷ []) e = absurd (omega (arith, e))
hex_bytes-pack_chunks n (a ∷ b ∷ []) e = absurd (omega (arith, e))
hex_bytes-pack_chunks n (a ∷ b ∷ c ∷ []) e = absurd (omega (arith, e))
hex_bytes-pack_chunks zero (a ∷ b ∷ c ∷ d ∷ slots) e = absurd (omega (arith, e))
hex_bytes-pack_chunks (suc n) (a ∷ b ∷ c ∷ d ∷ slots) e =
    let byte = pack_four a b c d in
    let high : pack 0 (a ∷ b ∷ c ∷ d ∷ []) / 16 ≡ a % 4 * 4 + b % 4 = omega (arith, byte) in
    let low : pack 0 (a ∷ b ∷ c ∷ d ∷ []) % 16 ≡ c % 4 * 4 + d % 4 = omega (arith, byte) in
    ap₂ (λ x y. hex_digit x ∷ hex_digit y ∷ hex_bytes (pack_chunks slots)) high low
    ∙ ap (λ rest. hex_digit (a % 4 * 4 + b % 4) ∷ hex_digit (c % 4 * 4 + d % 4) ∷ rest)
        (hex_bytes-pack_chunks n slots (omega (arith, e)))

-- The pairs as digits in base 16, and the bits as digits in base 4.
pairs-digits :
    (n acc : ℕ) (slots : List ℕ)
    → length slots ≡ n * 2
    → All (λ d. d < 16) (pairs slots)
      × (length (pairs slots) ≡ n)
      × (read_digits 16 acc (pairs slots) ≡ read_digits 4 acc (low_bits slots))
unfolding read_digits
pairs-digits zero acc [] e = (tt, refl, refl)
pairs-digits (suc n) acc [] e = absurd (omega (arith, e))
pairs-digits n acc (a ∷ []) e = absurd (omega (arith, e))
pairs-digits zero acc (a ∷ b ∷ slots) e = absurd (omega (arith, e))
pairs-digits (suc n) acc (a ∷ b ∷ slots) e =
    let (below, long, same) =
      pairs-digits n (acc * 16 + (a % 4 * 4 + b % 4)) slots (omega (arith, e)) in
    (
      (omega arith, below),
      ap suc long,
      same
          ∙ ap (λ m. read_digits 4 m (low_bits slots))
              (let shape : acc * 16 + (a % 4 * 4 + b % 4) ≡ (acc * 4 + a % 4) * 4 + b % 4 =
                  omega arith in
                shape),
    )

-- The number that the two bits of each slot spell in base 4.
abbrev pub number : List ℕ → ℕ
number slots = read_digits 4 0 (low_bits slots)

pub number-lt :
    (slots : List ℕ) → length slots ≡ Native.permutations → number slots < 16 ^ sketch_hex
number-lt slots e =
    let (below, long, same) = pairs-digits 128 0 slots (omega (arith, e)) in
    let bound : read_digits 16 0 (pairs slots) < (0 + 1) * 16 ^ length (pairs slots) =
      read_digits-lt 16 0 (pairs slots) below in
    let bound' = rw long at bound in omega (arith, same, bound')

-- Chunk by chunk the bytes in hex are those of that number.
pub hex_bytes-number :
    (slots : List ℕ)
    → length slots ≡ Native.permutations
    → hex_bytes (pack_chunks slots) ≡ hex_body (number slots)
unfolding hex_body
hex_bytes-number slots e =
    let (below, long, same) = pairs-digits 128 0 slots (omega (arith, e)) in
    hex_bytes-pack_chunks 64 slots (omega (arith, e))
    ∙ ap (map hex_digit) (
        sym (write_digits-read_digits 16 (pairs slots) (omega arith) below)
        ∙ ap₂ (λ count m. write_digits 16 count m []) long same)

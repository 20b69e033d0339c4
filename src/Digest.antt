-- ===== src/Digest.antt =====
-- src/eous/digest.py: the constants, `Sketch`, `DigestError` and `parse`. An error is kept as its
-- raise site with what its message names; the children prove what `parse` accepts, and model the
-- slots and the scores.
pub mod Hex
pub mod Accepts
pub mod RoundTrip
pub mod Spelling
pub mod Slots
pub mod Score
pub mod Ranges
pub mod Bounds
pub mod Symmetry
pub mod Visible
mod Tests
use eous.Prelude.{
  ℕ, zero, suc, ◌+◌, ◌-◌, ◌*◌, ◌/◌, ◌^◌, Bool, true, false, ◌&&◌, ◌||◌, not, List, [], ◌∷◌, ltb,
  leb, ◌==◌, if◌then◌else◌, length, all,
}
use eous.Prelude.Text.{Text, text_eq, contains, split, decimal, read_decimal, read_digits, is_digit}
use eous.Prelude.Outcome.{Outcome, ok, raise}
use eous.Native

abbrev pub max_cardinality : ℕ
max_cardinality = 2 ^ 53

abbrev pub mask : ℕ
mask = 2 ^ Native.slot_bits - 1

abbrev pub sketch_bytes : ℕ
sketch_bytes = Native.permutations * Native.slot_bits / 8

abbrev pub sketch_hex : ℕ
sketch_hex = sketch_bytes * 2

pub record Sketch : Type 0 where
  pub target : Text
  pub cardinality : ℕ
  pub slots : ℕ

-- One constructor for each `raise DigestError` of the module.
pub data DigestError : Type 0 where
  field_count : ℕ → DigestError
  wrong_version : Text → DigestError
  unsupported_target : Text → DigestError
  not_a_cardinality : Text → DigestError
  cardinality_exceeds : DigestError
  not_a_sketch : DigestError
  different_targets : Text → Text → DigestError

-- `[0-9a-f]`
abbrev pub is_lower_hex : ℕ → Bool
is_lower_hex c = is_digit c || (leb b'a' c && leb c b'f')

abbrev pub newline : ℕ
newline = 10

-- `^[0-9a-f]{count}$` under `re.match`: without MULTILINE, `$` matches at the end and also just
-- before a newline that ends the text.
unfoldable pub hex_match : ℕ → Text → Bool
hex_match zero [] = true
hex_match zero (c ∷ []) = c == newline
hex_match zero (c ∷ d ∷ s) = false
hex_match (suc count) [] = false
hex_match (suc count) (c ∷ s) = is_lower_hex c && hex_match count s

abbrev pub hex_value : ℕ → ℕ
hex_value c = if leb c b'9' then c - b'0' else c - b'a' + 10

-- The digits of a text that the pattern let through: `int` strips the newline at its end.
unfoldable pub hex_values : Text → List ℕ
hex_values [] = []
hex_values (c ∷ s) = let rest = hex_values s in if c == newline then rest else hex_value c ∷ rest

-- `cardinality.isascii() and cardinality.isdigit()`: the empty text is no number.
unfoldable pub is_cardinality : Text → Bool
is_cardinality [] = false
is_cardinality (c ∷ s) = all is_digit (c ∷ s)

unfoldable pub parse_fields : Text → Text → Text → Text → Outcome DigestError Sketch
parse_fields version target cardinality body =
    if not (text_eq version Native.version)
    then raise (wrong_version version)
    else if not (contains Native.targets target)
    then raise (unsupported_target target)
    else if not (is_cardinality cardinality)
    then raise (not_a_cardinality cardinality)
    else if ltb (length (decimal max_cardinality)) (length cardinality)
        || ltb max_cardinality (read_decimal cardinality)
    then raise cardinality_exceeds
    else if not (hex_match sketch_hex body)
    then raise not_a_sketch
    else ok (record {
      target = target;
      cardinality = read_decimal cardinality;
      slots = read_digits 16 0 (hex_values body);
    })

-- The unpacking of the four fields.
parse_split : List Text → Outcome DigestError Sketch
unfolding parse_fields
parse_split (version ∷ target ∷ cardinality ∷ body ∷ []) =
    parse_fields version target cardinality body
parse_split fields = raise (field_count (length fields))

unfoldable pub parse : Text → Outcome DigestError Sketch
unfolding parse_split
parse text = parse_split (split b':' text)

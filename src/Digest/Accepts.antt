-- ===== src/Digest/Accepts.antt =====
-- What `parse` of src/eous/digest.py accepts and refuses.
use eous.Prelude.{
  suc, ◌^◌, ◌≤◌, ◌<◌, ◌≡◌, refl, sym, ◌∙◌, ap, ◌≢◌, true, List, [], ◌∷◌, ◌++◌, arith, length,
}
use eous.Prelude.Text.{
  Text, text_eq_iff, contains, split, join, join-split, length-split, count, decimal, read_decimal,
  read_digits,
}
use eous.Prelude.Outcome.{ok, raise}
use eous.Native
use eous.Digest.{
  Sketch, field_count, max_cardinality, sketch_hex, hex_match, hex_values, is_cardinality,
  parse_fields, parse_split, parse,
}
use eous.Digest.Hex.{read_digits-hex_values-lt}

-- A sketch of a known target, whose cardinality a double holds exactly, with 512 bits of slots.
pub record IsValid (s : Sketch) : Type 0 where
  pub known_target : contains Native.targets s.target ≡ true
  pub bounded : s.cardinality ≤ max_cardinality
  pub fits : s.slots < 16 ^ sketch_hex

-- The four fields of a digest text, and what each must be.
pub record Spells (version target cardinality body : Text) (s : Sketch) : Type 0 where
  pub right_version : version ≡ Native.version
  pub known_target : contains Native.targets target ≡ true
  pub digits : is_cardinality cardinality ≡ true
  pub short : length cardinality ≤ length (decimal max_cardinality)
  pub bounded : read_decimal cardinality ≤ max_cardinality
  pub hex : hex_match sketch_hex body ≡ true
  pub sketched : s ≡ record {
    target = target;
    cardinality = read_decimal cardinality;
    slots = read_digits 16 0 (hex_values body);
  }

parse_fields-Spells :
    (version target cardinality body : Text) (s : Sketch)
    → parse_fields version target cardinality body ≡ ok s
    → Spells version target cardinality body s
unfolding parse_fields
parse_fields-Spells version target cardinality body s h =
    ground (arith, text_eq_iff version Native.version)

pub Spells-parse_fields :
    (version target cardinality body : Text) (s : Sketch)
    → Spells version target cardinality body s
    → parse_fields version target cardinality body ≡ ok s
unfolding parse_fields
Spells-parse_fields version target cardinality body s h =
    ground (arith, text_eq_iff version Native.version)

parse_split_four :
    (fields : List Text) (s : Sketch)
    → parse_split fields ≡ ok s
    → (v : Text) × (t : Text) × (c : Text) × (b : Text) × (fields ≡ v ∷ t ∷ c ∷ b ∷ [])
      × Spells v t c b s
unfolding parse_split
parse_split_four (v ∷ t ∷ c ∷ b ∷ []) s h = (v, t, c, b, refl, parse_fields-Spells v t c b s h)
parse_split_four _ s h = cc

parse_split_count :
    (fields : List Text)
    → length fields ≢ 4
    → parse_split fields ≡ raise (field_count (length fields))
unfolding parse_split
parse_split_count (v ∷ t ∷ c ∷ b ∷ []) h = absurd (h refl)
parse_split_count _ h = refl

-- What `parse` accepts: the four fields behind one another, and the sketch that they spell.
pub parse-Spells :
    (text : Text) (s : Sketch)
    → parse text ≡ ok s
    → (v : Text) × (t : Text) × (c : Text) × (b : Text) × (text
        ≡ v ++ b':' ∷ (t ++ b':' ∷ (c ++ b':' ∷ b)))
      × Spells v t c b s
unfolding parse
parse-Spells text s h =
    let (v, t, c, b, e, spells) = parse_split_four (split b':' text) s h in
    (v, t, c, b, sym (join-split b':' text) ∙ ap (join b':') e ∙ unfold join in refl, spells)

-- Whatever `parse` accepts is a valid sketch.
pub parse-IsValid : (text : Text) (s : Sketch) → parse text ≡ ok s → IsValid s
parse-IsValid text s h =
    let (v, t, c, b, e, spells) = parse-Spells text s h in
    ground (arith, spells, read_digits-hex_values-lt sketch_hex b spells.hex)

-- A text that does not hold exactly three colons is refused, with its number of fields.
parse-field_count :
    (text : Text) → count b':' text ≢ 3 → parse text ≡ raise (field_count (suc (count b':' text)))
unfolding parse
parse-field_count text h =
    parse_split_count (split b':' text) (λ e. h (omega (arith, length-split b':' text)))
    ∙ ap (λ n. raise (field_count n)) (length-split b':' text)

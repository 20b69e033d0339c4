-- ===== src/Digest/RoundTrip.antt =====
-- `parse` of src/eous/digest.py on the texts that the extension module lays out.
use mathlib.Core.List.{append-nil, append_assoc}
use eous.Prelude.{
  ℕ, ◌^◌, ◌≤◌, ◌<◌, ◌≡◌, refl, sym, ◌∙◌, ap, ◌≢◌, true, List, [], ◌∷◌, ◌++◌, map, arith, length,
  all, All-append, All,
}
use eous.Prelude.Text.{
  Text, text_eq_iff, contains, split, split-append, split_single, Lacks, decimal,
  read_decimal-decimal, decimal-digits, length-decimal, decimal-ne-nil, is_digit, read_digits,
  write_digits, length-write_digits, write_digits-below, read_digits-write_digits, codes,
}
use eous.Prelude.Outcome.{ok}
use eous.Native
use eous.Digest.{
  Sketch, max_cardinality, sketch_hex, newline, hex_match, hex_values, is_cardinality, parse_split,
  parse,
}
use eous.Digest.Hex.{hex_digit, hex_match-map, hex_match-map-newline, hex_values-map}
use eous.Digest.Accepts.{IsValid, Spells-parse_fields}

-- The slots as lower-case hex digits.
unfoldable pub hex_body : ℕ → Text
hex_body slots = map hex_digit (write_digits 16 sketch_hex slots [])

unfoldable pub sketch_text : Sketch → Text
sketch_text s = Native.layout s.target s.cardinality (hex_body s.slots)

pub hex_digits-below : (slots : ℕ) → All (λ d. d < 16) (write_digits 16 sketch_hex slots [])
hex_digits-below slots = write_digits-below 16 sketch_hex slots [] (omega arith) tt

hex_match-hex_body : (slots : ℕ) → hex_match sketch_hex (hex_body slots) ≡ true
unfolding hex_body
hex_match-hex_body slots =
    rw length-write_digits at
      (hex_match-map (write_digits 16 sketch_hex slots []) (hex_digits-below slots))

hex_match-hex_body-newline :
    (slots : ℕ) → hex_match sketch_hex (hex_body slots ++ newline ∷ []) ≡ true
unfolding hex_body
hex_match-hex_body-newline slots =
    rw length-write_digits at
      (hex_match-map-newline (write_digits 16 sketch_hex slots []) (hex_digits-below slots))

layout-append :
    (target : Text) (cardinality : ℕ) (body rest : Text)
    → Native.layout target cardinality body ++ rest
      ≡ Native.layout target cardinality (body ++ rest)
unfolding Native.layout
layout-append target cardinality body rest = simp append_assoc

pub known_target-Lacks : (target : Text) → contains Native.targets target ≡ true → Lacks b':' target
unfolding contains
known_target-Lacks target h = ground (
  arith,
  text_eq_iff (codes "pe32") target,
  text_eq_iff (codes "pe64") target,
  text_eq_iff (codes "elf32") target,
  text_eq_iff (codes "elf64") target,
)

pub digits-Lacks : (s : Text) → all is_digit s ≡ true → Lacks b':' s
digits-Lacks [] h = tt
digits-Lacks (c ∷ s) h = ground (arith, digits-Lacks s)

pub hex_digits-Lacks : (ds : List ℕ) → All (λ d. d < 16) ds → Lacks b':' (map hex_digit ds)
hex_digits-Lacks [] h = tt
hex_digits-Lacks (d ∷ ds) h = ground (arith, hex_digits-Lacks ds h.1)

hex_body-Lacks : (slots : ℕ) → Lacks b':' (hex_body slots)
unfolding hex_body
hex_body-Lacks slots = hex_digits-Lacks _ (hex_digits-below slots)

-- Splitting the text of a digest gives back its four fields.
split-layout :
    (target : Text) (cardinality : ℕ) (body : Text)
    → contains Native.targets target ≡ true
    → Lacks b':' body
    → split b':' (Native.layout target cardinality body)
      ≡ Native.version ∷ target ∷ decimal cardinality ∷ body ∷ []
unfolding Native.layout
split-layout target cardinality body known plain =
    split-append b':' Native.version _ (omega arith)
    ∙ ap (λ ps. Native.version ∷ ps)
        (split-append b':' target _ (known_target-Lacks target known)
          ∙ ap (λ ps. target ∷ ps)
              (split-append b':' (decimal cardinality) body
                  (digits-Lacks (decimal cardinality) (decimal-digits cardinality))
                ∙ ap (λ ps. decimal cardinality ∷ ps) (split_single b':' body plain)))

decimal-is_cardinality : (n : ℕ) → is_cardinality (decimal n) ≡ true
unfolding is_cardinality
decimal-is_cardinality n = from_digits (decimal n) (decimal-ne-nil n) (decimal-digits n)
  where
    from_digits : (s : Text) → s ≢ [] → all is_digit s ≡ true → is_cardinality s ≡ true
    from_digits [] h k = absurd (h refl)
    from_digits (c ∷ s) h k = k

decimal-short :
    (n : ℕ) → n ≤ max_cardinality → length (decimal n) ≤ length (decimal max_cardinality)
decimal-short n h = omega (arith, length-decimal n 15 (omega arith), max_length)
  where
    max_length : length (decimal max_cardinality) ≡ 16
    max_length = unfold decimal in refl

-- A layout whose last field passes the pattern is read field by field.
parse-layout :
    (target body : Text) (cardinality : ℕ)
    → contains Native.targets target ≡ true
    → cardinality ≤ max_cardinality
    → Lacks b':' body
    → hex_match sketch_hex body ≡ true
    → parse (Native.layout target cardinality body)
      ≡ ok (record {
        target = target;
        cardinality = cardinality;
        slots = read_digits 16 0 (hex_values body);
      })
unfolding parse parse_split
parse-layout target body cardinality known bounded plain hex =
    rw (split-layout target cardinality body known plain, parse_split)
      (Spells-parse_fields Native.version target (decimal cardinality) body _ (record {
        right_version = refl;
        known_target = known;
        digits = decimal-is_cardinality cardinality;
        short = decimal-short cardinality bounded;
        bounded = rw read_decimal-decimal bounded;
        hex = hex;
        sketched = rw read_decimal-decimal;
      }))

read_hex_body :
    (slots : ℕ) (rest : Text)
    → slots < 16 ^ sketch_hex
    → hex_values rest ≡ []
    → read_digits 16 0 (hex_values (hex_body slots ++ rest)) ≡ slots
unfolding hex_body
read_hex_body slots rest fits blank =
    rw (hex_values-map _ rest (hex_digits-below slots), blank, append-nil)
      (read_digits-write_digits 16 sketch_hex slots 0 [] (omega arith) fits
        ∙ unfold read_digits in omega arith)

-- Reading the text of a valid sketch gives the sketch.
pub parse-sketch_text : (s : Sketch) → IsValid s → parse (sketch_text s) ≡ ok s
unfolding sketch_text
parse-sketch_text s v =
    parse-layout s.target (hex_body s.slots) s.cardinality v.known_target v.bounded
      (hex_body-Lacks s.slots) (hex_match-hex_body s.slots)
    ∙ ap (λ n. ok (record s { slots = n }))
        (ap (λ b. read_digits 16 0 (hex_values b)) (sym (append-nil (hex_body s.slots)))
          ∙ read_hex_body s.slots [] v.fits (unfold hex_values in refl))

-- The text of a valid sketch with a newline behind it is read as that sketch, too.
pub parse-sketch_text-newline :
    (s : Sketch) → IsValid s → parse (sketch_text s ++ newline ∷ []) ≡ ok s
unfolding sketch_text
parse-sketch_text-newline s v =
    ap parse (layout-append s.target s.cardinality (hex_body s.slots) (newline ∷ []))
    ∙ parse-layout s.target (hex_body s.slots ++ newline ∷ []) s.cardinality v.known_target
        v.bounded
        (All-append _ (hex_body s.slots) (newline ∷ []) (hex_body-Lacks s.slots) (omega arith))
        (hex_match-hex_body-newline s.slots)
    ∙ ap (λ n. ok (record s { slots = n }))
        (read_hex_body s.slots (newline ∷ []) v.fits (unfold hex_values in refl))

-- ===== src/Digest/Spelling.antt =====
-- The texts that `parse` of src/eous/digest.py accepts, described without its tests.
use eous.Prelude.{
  ℕ, zero, suc, ◌^◌, ◌≤◌, ◌<◌, ◌≡◌, refl, sym, ◌∙◌, ap, ◌↔◌, ◌⊎◌, inl, inr, true, List, [], ◌∷◌,
  ◌++◌, map, arith, length, all, All, All-append, append-nil,
}
use eous.Prelude.Text.{
  Text, codes, contains, split, split-append, split_single, Lacks, decimal, read_decimal,
  read_digits, is_digit,
}
use eous.Prelude.Outcome.{ok}
use eous.Digest.{
  Sketch, newline, sketch_hex, hex_match, hex_values, is_cardinality, is_lower_hex, hex_value,
  parse_split, parse,
}
use eous.Digest.Hex.{
  hex_digit, hex_match-map, hex_match-map-newline, hex_values-map, hex_values-below,
  length-hex_values,
}
use eous.Digest.Accepts.{parse-Spells, Spells-parse_fields}
use eous.Digest.RoundTrip.{known_target-Lacks, digits-Lacks, hex_digits-Lacks}

-- Nothing, or a newline.
abbrev pub IsEnding : Text → Type 0
IsEnding ending = (ending ≡ []) ⊎ (ending ≡ newline ∷ [])

-- A text of the version, a target, a decimal number of at most 16 digits, up to 2^53, and the slots in
-- 128 lower-case hexadecimal digits, between colons, and perhaps a newline behind them.
pub record IsSpelt (text : Text) (s : Sketch) : Type 0 where
  pub number : Text
  pub values : List ℕ
  pub ending : Text
  pub joined :
      text
      ≡ codes "EO1"
        ++ b':' ∷ (s.target ++ b':' ∷ (number ++ b':' ∷ (map hex_digit values ++ ending)))
  pub known_target :
      contains (codes "pe32" ∷ codes "pe64" ∷ codes "elf32" ∷ codes "elf64" ∷ []) s.target ≡ true
  pub some_digit : 0 < length number
  pub digits : All (λ c. (b'0' ≤ c) × (c ≤ b'9')) number
  pub short : length number ≤ 16
  pub counts : s.cardinality ≡ read_decimal number
  pub bounded : s.cardinality ≤ 2 ^ 53
  pub all_slots : length values ≡ 128
  pub below : All (λ d. d < 16) values
  pub slots : s.slots ≡ read_digits 16 0 values
  pub ends : IsEnding ending

all-digits : (s : Text) → all is_digit s ≡ true → All (λ c. (b'0' ≤ c) × (c ≤ b'9')) s
all-digits [] h = tt
all-digits (c ∷ s) h = (ground arith, all-digits s (ground arith))

digits-all : (s : Text) → All (λ c. (b'0' ≤ c) × (c ≤ b'9')) s → all is_digit s ≡ true
digits-all [] h = refl
digits-all (c ∷ s) (h, k) = ground (arith, digits-all s k)

is_cardinality-digits :
    (s : Text) → is_cardinality s ≡ true → (0 < length s) × All (λ c. (b'0' ≤ c) × (c ≤ b'9')) s
unfolding is_cardinality
is_cardinality-digits [] h = cc
is_cardinality-digits (c ∷ s) h = (omega arith, all-digits (c ∷ s) h)

digits-is_cardinality :
    (s : Text) → 0 < length s → All (λ c. (b'0' ≤ c) × (c ≤ b'9')) s → is_cardinality s ≡ true
unfolding is_cardinality
digits-is_cardinality [] h k = absurd (omega arith)
digits-is_cardinality (c ∷ s) h k = digits-all (c ∷ s) k

hex_digit-hex_value : (c : ℕ) → is_lower_hex c ≡ true → hex_digit (hex_value c) ≡ c
hex_digit-hex_value c h = ground arith

-- The pattern lets through the digits that are read, and an ending.
hex_match-digits :
    (count : ℕ) (s : Text)
    → hex_match count s ≡ true
    → (ending : Text) × (s ≡ map hex_digit (hex_values s) ++ ending) × IsEnding ending
unfolding hex_match hex_values
hex_match-digits zero [] h = ([], refl, inl refl)
hex_match-digits zero (c ∷ []) h = (newline ∷ [], ground arith, inr refl)
hex_match-digits zero (c ∷ d ∷ s) h = cc
hex_match-digits (suc count) [] h = cc
hex_match-digits (suc count) (c ∷ s) h =
    let (ending, spelt, ends) = hex_match-digits count s (ground arith) in
    (ending, ground (arith, spelt, hex_digit-hex_value c), ends)

digits-hex_match :
    (values : List ℕ) (ending : Text)
    → All (λ d. d < 16) values
    → length values ≡ 128
    → IsEnding ending
    → hex_match sketch_hex (map hex_digit values ++ ending) ≡ true
digits-hex_match values ending below long (inl e) =
    rw (e, append-nil) (rw long at (hex_match-map values below))
digits-hex_match values ending below long (inr e) =
    rw e (rw long at (hex_match-map-newline values below))

digits-hex_values :
    (values : List ℕ) (ending : Text)
    → All (λ d. d < 16) values
    → IsEnding ending
    → hex_values (map hex_digit values ++ ending) ≡ values
unfolding hex_values
digits-hex_values values ending below (inl e) =
    rw e (hex_values-map values [] below ∙ append-nil values)
digits-hex_values values ending below (inr e) =
    rw e (hex_values-map values (newline ∷ []) below ∙ append-nil values)

ending-Lacks : (ending : Text) → IsEnding ending → Lacks b':' ending
ending-Lacks ending (inl e) = rw e tt
ending-Lacks ending (inr e) = rw e (omega arith)

split_joined :
    (target number body : Text)
    → Lacks b':' target
    → Lacks b':' number
    → Lacks b':' body
    → split b':' (codes "EO1" ++ b':' ∷ (target ++ b':' ∷ (number ++ b':' ∷ body)))
      ≡ codes "EO1" ∷ target ∷ number ∷ body ∷ []
split_joined target number body t n b =
    split-append b':' (codes "EO1") _ (omega arith)
    ∙ ap (λ ps. codes "EO1" ∷ ps)
        (split-append b':' target _ t
          ∙ ap (λ ps. target ∷ ps)
              (split-append b':' number body n ∙ ap (λ ps. number ∷ ps) (split_single b':' body b)))

longest : length (decimal (2 ^ 53)) ≡ 16
longest = unfold decimal in refl

parse-IsSpelt_if : (text : Text) (s : Sketch) → parse text ≡ ok s → IsSpelt text s
parse-IsSpelt_if text s h =
    let (v, t, c, b, joined, spells) = parse-Spells text s h in
    let (ending, spelt, ends) = hex_match-digits sketch_hex b spells.hex in
    let (some_digit, digits) = is_cardinality-digits c spells.digits in
    let same = spells.sketched in
    record {
      number = c;
      values = hex_values b;
      ending = ending;
      joined =
          joined
          ∙ ap (λ w. w ++ b':' ∷ (t ++ b':' ∷ (c ++ b':' ∷ b))) spells.right_version
          ∙ ap (λ w. codes "EO1" ++ b':' ∷ (w ++ b':' ∷ (c ++ b':' ∷ b)))
              (sym (ap (λ u. u.target) same))
          ∙ ap (λ w. codes "EO1" ++ b':' ∷ (s.target ++ b':' ∷ (c ++ b':' ∷ w))) spelt;
      known_target = ap (contains _) (ap (λ u. u.target) same) ∙ spells.known_target;
      some_digit = some_digit;
      digits = digits;
      short = omega (arith, spells.short, longest);
      counts = ap (λ u. u.cardinality) same;
      bounded = omega (arith, spells.bounded, ap (λ u. u.cardinality) same);
      all_slots = length-hex_values sketch_hex b spells.hex;
      below = hex_values-below sketch_hex b spells.hex;
      slots = ap (λ u. u.slots) same;
      ends = ends;
    }

same_sketch :
    (r s : Sketch) → r.target ≡ s.target → r.cardinality ≡ s.cardinality → r.slots ≡ s.slots → r ≡ s
same_sketch r s e f g = λ i. record { target = e i; cardinality = f i; slots = g i }

IsSpelt-parse : (text : Text) (s : Sketch) → IsSpelt text s → parse text ≡ ok s
unfolding parse parse_split
IsSpelt-parse text s h =
    let body : Text = map hex_digit h.values ++ h.ending in
    let plain =
      All-append _ (map hex_digit h.values) h.ending (hex_digits-Lacks h.values h.below)
        (ending-Lacks h.ending h.ends) in
    ap parse_split (
      ap (split b':') h.joined
      ∙ split_joined s.target h.number body (known_target-Lacks s.target h.known_target)
          (digits-Lacks h.number (digits-all h.number h.digits)) plain)
    ∙ Spells-parse_fields (codes "EO1") s.target h.number body s (record {
      right_version = refl;
      known_target = h.known_target;
      digits = digits-is_cardinality h.number h.some_digit h.digits;
      short = omega (arith, h.short, longest);
      bounded = omega (arith, h.bounded, h.counts);
      hex = digits-hex_match h.values h.ending h.below h.all_slots h.ends;
      sketched = same_sketch s _ refl h.counts (
          h.slots
          ∙ ap (read_digits 16 0) (sym (digits-hex_values h.values h.ending h.below h.ends)));
    })

-- `parse` accepts a text, and reads it as a sketch, exactly where the text spells the sketch: the
-- version, one of the four targets, a decimal number of at most 16 digits, up to 2^53, and 128
-- lower-case hexadecimal digits, joined by colons, and perhaps a newline at the end.
pub parse-IsSpelt : (text : Text) (s : Sketch) → (parse text ≡ ok s) ↔ IsSpelt text s
parse-IsSpelt text s = (parse-IsSpelt_if text s, IsSpelt-parse text s)

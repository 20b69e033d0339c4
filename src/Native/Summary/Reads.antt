-- ===== src/Native/Summary/Reads.antt =====
-- `digest_of` of native/src/lib.rs under `parse` and `unpack` of src/eous/digest.py.
use eous.Prelude.{
  ℕ, ◌%◌, ◌^◌, ◌≤◌, ◌<◌, ◌≡◌, refl, sym, ap, ◌∙◌, inl, inr, true, Option, some, List, [], ◌∷◌, map,
  arith, ltb, Bool-cases, Option-cases, length, All, length-map,
}
use eous.Prelude.Text.{Text, contains, write_digits, write_digits-read_digits}
use eous.Prelude.Outcome.{ok}
use eous.Native
use eous.Native.Vocabulary.{Vocabulary, vocabulary}
use eous.Native.Disassemble.{Decoder, Advances}
use eous.Native.Sections.{keys_of}
use eous.Native.Sections.Keys.{keys_of-named}
use eous.Native.Sketch.{Hash, sketch, slots_of, indices}
use eous.Native.Sketch.Slots.{least_of, slots_of-least, length-slots_of}
use eous.Native.Sketch.Body.{low_bits, number, number-lt, hex_bytes-number}
use eous.Native.Summary.{summary, summarise, distinct_roots}
use eous.Digest.{Sketch, parse}
use eous.Digest.Accepts.{IsValid}
use eous.Digest.RoundTrip.{hex_body, sketch_text, parse-sketch_text}
use eous.Digest.Slots.{unpack, unpack-write_digits}
use eous.Report.Emits.{IsSummary}

sketch-number :
    (h64 : Hash) (names : List Text) (keys : List ℕ)
    → sketch h64 names keys ≡ hex_body (number (slots_of h64 names keys))
unfolding sketch
sketch-number h64 names keys =
    hex_bytes-number (slots_of h64 names keys) (length-slots_of h64 names keys)

low_bits-below : (slots : List ℕ) → All (λ d. d < 4) (low_bits slots)
low_bits-below [] = tt
low_bits-below (slot ∷ slots) = (omega arith, low_bits-below slots)

unpack-number :
    (s : Sketch) (slots : List ℕ)
    → length slots ≡ Native.permutations
    → s.slots ≡ number slots
    → unpack s ≡ low_bits slots
unpack-number s slots long same =
    unpack-write_digits s
    ∙ ap (λ n. write_digits 4 256 n []) same
    ∙ ap (λ count. write_digits 4 count (number slots) [])
        (sym (length-map (λ slot. slot % 4) slots ∙ long))
    ∙ write_digits-read_digits 4 (low_bits slots) (omega arith) (low_bits-below slots)

summary-eq :
    (h64 : Hash) (names : List Text) (keys : List ℕ) (cardinality : ℕ) (body : Text)
    → summary h64 names keys ≡ some (cardinality, body)
    → (cardinality ≡ length keys) × (body ≡ sketch h64 names keys)
unfolding summary
summary-eq h64 names keys cardinality body e = elim (Bool-cases (ltb (distinct_roots keys) 2)) [
  | inl f ↦ cc
  | inr f ↦
      let same : ◌≡◌ {A = Option (ℕ × Text)} (some (length keys, sketch h64 names keys))
          (some (cardinality, body)) =
        rw f at e in
      (cc, cc)
]

-- What `digest_of` returned a text for.
pub returned-layout :
    (summarised : List (List ℕ) → ℕ → Option (ℕ × Text)) (sections : List (List ℕ)) (bitness : ℕ)
    (target text : Text)
    → Native.digest_of summarised sections bitness target ≡ ok (some text)
    → (contains Native.targets target ≡ true)
      × ((found : ℕ × Text) × (summarised sections bitness ≡ some found)
          × (Native.layout target found.0 found.1 ≡ text))
unfolding Native.digest_of
returned-layout summarised sections bitness target text e =
    elim (Bool-cases (Native.among Native.bitnesses bitness)) [
      | inr f ↦ cc
      | inl f ↦ elim (Bool-cases (contains Native.targets target)) [
        | inr g ↦ cc
        | inl g ↦ elim (Option-cases (summarised sections bitness)) [
          | inl h ↦ cc
          | inr (found, h) ↦ (g, (found, h, cc))
        ]
      ]
    ]

module _ (h64 : Hash) (decode : Decoder) (advances : Advances decode) (table : Text → Option Text)
    (mnemonic : Text) (mnemonics : List Text) (v : Vocabulary)
    (made : vocabulary table (mnemonic ∷ mnemonics) ≡ some v) where
  -- The keys behind a summary.
  summarise-keys :
      (sections : List (List ℕ)) (bitness cardinality : ℕ) (body : Text)
      → summarise decode v h64 sections bitness ≡ some (cardinality, body)
      → (keys : List ℕ) × (keys_of decode bitness v.ids sections ≡ some keys)
        × (length keys ≤ 2 ^ 21)
        × (cardinality ≡ length keys)
        × (body ≡ hex_body (number (slots_of h64 v.names keys)))
  unfolding summarise
  summarise-keys sections bitness cardinality body e =
      let (keys, f, few, increases, named) =
        keys_of-named table mnemonic mnemonics v made decode advances bitness sections in
      let (counted, sketched) = summary-eq h64 v.names keys cardinality body (rw f at e) in
      (keys, f, few, counted, sketched ∙ sketch-number h64 v.names keys)

  -- Where a valid instruction has a byte or more and the vocabulary is made of the mnemonics: a summary
  -- has a number of keys that a double holds, and the bytes of a sketch in hex.
  pub summarise-IsSummary : IsSummary (summarise decode v h64)
  summarise-IsSummary sections bitness cardinality body e =
      let (keys, f, few, counted, sketched) = summarise-keys sections bitness cardinality body e in
      (
        omega (arith, few, counted),
        number (slots_of h64 v.names keys),
        number-lt (slots_of h64 v.names keys) (length-slots_of h64 v.names keys),
        sketched,
      )

  -- Where a valid instruction has a byte or more and the vocabulary is made of the mnemonics: `parse`
  -- reads every text that `digest_of` returns, as the target, the number of keys that the loops over the
  -- sections leave, and 256 slots. `unpack` gives of each slot the low two bits of the least value that
  -- the permutation of the slot's index has over the hashes of the keys, modulo 2^61 - 1.
  pub digest_of-unpack :
      (sections : List (List ℕ)) (bitness : ℕ) (target text : Text)
      → Native.digest_of (summarise decode v h64) sections bitness target ≡ ok (some text)
      → (keys : List ℕ) × (s : Sketch) × (keys_of decode bitness v.ids sections ≡ some keys)
        × (parse text ≡ ok s)
        × (s.target ≡ target)
        × (s.cardinality ≡ length keys)
        × (unpack s ≡ low_bits (map (least_of h64 v.names keys) (indices 0 Native.permutations)))
  unfolding sketch_text
  digest_of-unpack sections bitness target text e =
      let (known, ((cardinality, body), found, laid_out)) =
        returned-layout (summarise decode v h64) sections bitness target text e in
      let (keys, f, few, counted, sketched) =
        summarise-keys sections bitness cardinality body found in
      let slots = slots_of h64 v.names keys in
      let long = length-slots_of h64 v.names keys in
      let s : Sketch = record {
        target = target;
        cardinality = cardinality;
        slots = number slots;
      } in
      let valid : IsValid s = record {
        known_target = known;
        bounded = omega (arith, few, counted);
        fits = number-lt slots long;
      } in
      (
        keys,
        s,
        f,
        ap parse (sym laid_out ∙ ap (Native.layout target cardinality) sketched)
            ∙ parse-sketch_text s valid,
        refl,
        counted,
        unpack-number s slots long refl ∙ ap low_bits (slots_of-least h64 v.names keys),
      )

-- ===== src/Native/Tests.antt =====
-- The theorems on native/src/lib.rs at concrete hashes and roots.

use eous.Prelude.Sort.{sorted, insert}
use eous.Prelude.{
  ℕ, ◌+◌, ◌^◌, ◌≤◌, ◌<◌, ◌≡◌, refl, ◌↔◌, true, Option, none, some, List, [], ◌∷◌, map, arith, ◌==◌,
  if◌then◌else◌, length, get_elem?, All,
}
use mathlib.Core.List.Perm
use eous.Prelude.Text.{Text, codes, text_eq, contains}
use eous.Prelude.Outcome.{ok}
use eous.Native
use eous.Digest.{Sketch, parse}
use eous.Digest.Slots.{unpack}
use eous.Report.Emits.{IsSummary}
use eous.Native.Vocabulary.{
  Vocabulary, vocabulary, collect, intern, position, root_of, IsVocabulary, vocabulary-IsVocabulary,
}
use eous.Native.Disassemble.{
  Decoder, Advances, disassemble_all, disassemble, scan, step, Instruction,
}
use eous.Native.Sections.{keys_of, in_any, keys_of-sections}
use eous.Native.Sections.Keys.{keys_of-named}
use eous.Native.Sketch.{Hash, root_ids, indices, sketch}
use eous.Native.Sketch.Slots.{least_of}
use eous.Native.Sketch.Body.{low_bits}
use eous.Native.Summary.{summary, summarise, all_root_ids, mark, distinct_roots}
use eous.Native.Summary.Reads.{summarise-IsSummary, digest_of-unpack}
use eous.Native.Summary.Order.{digest_of-Perm}
use eous.Native.Summary.Seen.{summary-none_iff}
use eous.Native.Shingles.{finish, push, compact_full, dedup, dedup_from}
use eous.Native.Shingles.Compact.{mem, Increases}

-- Two mnemonics with a root each, and one without.
abbrev mnemonics : List Text
mnemonics = codes "add" ∷ codes "nop" ∷ []

abbrev table : Text → Option Text
table mnemonic =
    if text_eq mnemonic (codes "mov")
    then some (codes "move")
    else if text_eq mnemonic (codes "add")
    then some (codes "arith")
    else none

abbrev known : Vocabulary
known = record { names = codes "move" ∷ codes "arith" ∷ codes "<oov>" ∷ []; ids = 0 ∷ 1 ∷ 2 ∷ [] }

known_vocabulary : vocabulary table (codes "mov" ∷ mnemonics) ≡ some known
unfolding vocabulary collect intern position text_eq
known_vocabulary = refl

vocabulary-IsVocabulary_example : IsVocabulary (map (root_of table) (codes "mov" ∷ mnemonics)) known
vocabulary-IsVocabulary_example =
    vocabulary-IsVocabulary table (codes "mov" ∷ mnemonics) known known_vocabulary

-- An instruction for each byte, of which 3 is none and the others are mnemonics.
abbrev decode_byte : Option ℕ → ℕ → Instruction
decode_byte none position = record {
  invalid = true;
  mnemonic = 0;
  next = position + 1;
  falls_through = true;
}
decode_byte (some byte) position = record {
  invalid = byte == 3;
  mnemonic = byte;
  next = position + 1;
  falls_through = true;
}

abbrev one_byte : Decoder
one_byte bitness code position = decode_byte (get_elem? code position) position

one_byte-Advances : Advances one_byte
one_byte-Advances bitness code position inside valid = advances (get_elem? code position)
  where
    advances : (byte : Option ℕ) → position < (decode_byte byte position).next
    advances none = omega arith
    advances (some byte) = omega arith

abbrev first_section : List ℕ
first_section = 0 ∷ 1 ∷ 2 ∷ 3 ∷ 1 ∷ []

abbrev second_section : List ℕ
second_section = 1 ∷ 1 ∷ 0 ∷ []

abbrev sections : List (List ℕ)
sections = first_section ∷ second_section ∷ []

-- The length of the payload.
abbrev length_hash : Hash
length_hash payload person = length payload

keys_of-named_example :
    (keys : List ℕ) × (keys_of one_byte 64 known.ids sections ≡ some keys)
    × (length keys ≤ 2 ^ 21)
    × Increases keys
    × All (λ key. All (λ id. id < length known.names) (root_ids key)) keys
keys_of-named_example =
    keys_of-named table (codes "mov") mnemonics known known_vocabulary one_byte one_byte-Advances 64
      sections

keys_of-sections_example :
    (keys : List ℕ) × (keys_of one_byte 64 known.ids sections ≡ some keys)
    × Increases keys
    × ((k : ℕ) → mem k keys ≡ in_any one_byte 64 known.ids k sections)
keys_of-sections_example =
    keys_of-sections one_byte 64 known.ids one_byte-Advances
      (omega arith, (omega arith, (omega arith, tt))) sections

summarise-IsSummary_example : IsSummary (summarise one_byte known length_hash)
summarise-IsSummary_example =
    summarise-IsSummary length_hash one_byte one_byte-Advances table (codes "mov") mnemonics known
      known_vocabulary

digest_of-Perm_example :
    Native.digest_of (summarise one_byte known length_hash) sections 64 (codes "pe64")
    ≡ Native.digest_of
        (summarise one_byte known length_hash)
        (second_section ∷ first_section ∷ [])
        64
        (codes "pe64")
digest_of-Perm_example =
    digest_of-Perm length_hash one_byte one_byte-Advances table (codes "mov") mnemonics known
      known_vocabulary sections (second_section ∷ first_section ∷ [])
      (Perm.swap second_section first_section []) 64 (codes "pe64")

-- The windows of the sections: move arith oov, and arith arith move.
abbrev found_keys : List ℕ
found_keys = 130 ∷ 16512 ∷ []

abbrev found_text : Text
found_text = Native.layout (codes "pe64") 2 (sketch length_hash known.names found_keys)

returned :
    Native.digest_of (summarise one_byte known length_hash) sections 64 (codes "pe64")
    ≡ ok (some found_text)
unfolding Native.digest_of summarise summary keys_of disassemble_all disassemble scan step
    all_root_ids mark Native.among contains text_eq push finish compact_full dedup dedup_from sorted
    insert distinct_roots
returned = refl

digest_of-unpack_example :
    (keys : List ℕ) × (s : Sketch) × (keys_of one_byte 64 known.ids sections ≡ some keys)
    × (parse found_text ≡ ok s)
    × (s.target ≡ codes "pe64")
    × (s.cardinality ≡ length keys)
    × (unpack s
        ≡ low_bits (map (least_of length_hash known.names keys) (indices 0 Native.permutations)))
digest_of-unpack_example =
    digest_of-unpack length_hash one_byte one_byte-Advances table (codes "mov") mnemonics known
      known_vocabulary sections 64 (codes "pe64") found_text returned

summary-none_iff_example : (summary length_hash known.names found_keys ≡ none) ↔ (
    (i j : ℕ)
    → mem i (all_root_ids found_keys) ≡ true
    → mem j (all_root_ids found_keys) ≡ true
    → i ≡ j)
summary-none_iff_example = summary-none_iff length_hash known.names found_keys

-- ===== src/Report/Tests.antt =====
-- The analysis of a short ELF file.
use eous.Prelude.{
  ℕ, ◌+◌, ◌%◌, ◌≡◌, refl, true, false, Option, none, some, List, [], ◌∷◌, map, arith, if◌then◌else◌,
  length, get_elem?,
}
use eous.Prelude.Text.{decimal, Text, codes, contains, text_eq}
use eous.Prelude.Fixed.{fixed_point}
use eous.Native
use eous.Prelude.Outcome.{ok}
use eous.Digest.{Sketch, parse}
use eous.Loader.{Bytes, Binary, target}
use eous.Loader.Load.{load}
use eous.Report.{Analysis}
use eous.Report.Digests.{readable_contents}
use eous.Report.Sketches.{analyse-unpack}
use eous.Native.Vocabulary.{Vocabulary, vocabulary, collect, intern, position}
use eous.Native.Shingles.{push, finish, compact_full, dedup, dedup_from}
use eous.Native.Disassemble.{
  Decoder, Advances, Instruction, disassemble_all, disassemble, scan, step,
}
use eous.Native.Sections.{keys_of}
use eous.Native.Sketch.{Hash, sketch, indices}
use eous.Native.Sketch.Slots.{least_of}
use eous.Native.Sketch.Body.{low_bits}
use eous.Native.Summary.{summarise, summary, all_root_ids, mark, distinct_roots}
use eous.Prelude.Sort.{sorted, insert}
use eous.Digest.Slots.{unpack}
use eous.Loader.Tests.{elf_world, elf_world-IsDocumented, loads_elf}
use eous.Loader.Entropy.{data_entropy, chunked_counts, count_chunks, add_counts, count, values_from}
use eous.Report.Analyse.{
  analyse, analyse_loaded, analyse_binary, check_writable, writable_section, digest_readable,
  readable_sections, compressed_share, bits_for,
}
use eous.Report.Total.{Settles, analyse-Settles}

-- An extension module that finds one shingle in any code.
abbrev one_shingle : List Bytes → ℕ → Option (ℕ × Text)
one_shingle sections bits = some (1, codes "00")

analyse-Settles_example :
    Settles (codes "a") (analyse fixed_point one_shingle elf_world (codes "a"))
analyse-Settles_example =
    analyse-Settles fixed_point one_shingle elf_world elf_world-IsDocumented (codes "a")

-- A vocabulary of two mnemonics, of which one has a root.
abbrev table : Text → Option Text
table mnemonic = if text_eq mnemonic (codes "push") then some (codes "push") else none

abbrev known : Vocabulary
known = record { names = codes "push" ∷ codes "<oov>" ∷ []; ids = 0 ∷ 1 ∷ [] }

known_vocabulary : vocabulary table (codes "push" ∷ codes "nop" ∷ []) ≡ some known
unfolding vocabulary collect intern position text_eq
known_vocabulary = refl

-- An instruction for each byte, of one or the other mnemonic.
abbrev decode_byte : Option ℕ → ℕ → Instruction
decode_byte byte position = record {
  invalid = false;
  mnemonic = elim byte [ none ↦ 0 | some b ↦ b % 2 ];
  next = position + 1;
  falls_through = true;
}

abbrev one_byte : Decoder
one_byte bitness code position = decode_byte (get_elem? code position) position

one_byte-Advances : Advances one_byte
one_byte-Advances bitness code position inside valid = omega arith

abbrev length_hash : Hash
length_hash payload person = length payload

-- The keys of the windows in the code of the file.
abbrev code_keys : List ℕ
code_keys = 129 ∷ 16385 ∷ []

abbrev code_text : Text
code_text = Native.layout (codes "elf64") 2 (sketch length_hash known.names code_keys)

abbrev code_analysis : Analysis
code_analysis = record { path = codes "a"; digest = some code_text; refusal = none }

analysed :
    analyse fixed_point (summarise one_byte known length_hash) elf_world (codes "a")
    ≡ ok code_analysis
unfolding analyse analyse_loaded analyse_binary check_writable writable_section digest_readable
    readable_sections compressed_share bits_for Native.digest_of Native.among contains text_eq
    target data_entropy chunked_counts count_chunks add_counts count values_from decimal summarise
    summary keys_of disassemble_all disassemble scan step all_root_ids mark distinct_roots push
    finish compact_full dedup dedup_from sorted insert
analysed = rw loads_elf refl

analyse-unpack_example :
    (b : Binary) × (bits : ℕ) × (keys : List ℕ) × (s : Sketch) × (load elf_world (codes "a") ≡ ok b)
    × (bits_for b.arch ≡ ok bits)
    × (keys_of one_byte bits known.ids (readable_contents fixed_point b) ≡ some keys)
    × (parse code_text ≡ ok s)
    × (s.target ≡ target b)
    × (s.cardinality ≡ length keys)
    × (unpack s
        ≡ low_bits (map (least_of length_hash known.names keys) (indices 0 Native.permutations)))
analyse-unpack_example =
    analyse-unpack length_hash one_byte one_byte-Advances table (codes "push") (codes "nop" ∷ [])
      known known_vocabulary fixed_point elf_world (codes "a") code_analysis code_text analysed refl

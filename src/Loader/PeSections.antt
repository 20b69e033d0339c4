-- ===== src/Loader/PeSections.antt =====
-- src/eous/loader.py: `_check_pe_sections`, and `struct.unpack_from`, which raises where the bytes
-- end too early.
pub mod Safety
use eous.Prelude.{
  ℕ, zero, suc, ◌+◌, ◌-◌, ◌*◌, ◌/◌, ◌≤◌, min, Bool, true, false, ◌||◌, not, List, [], ◌∷◌, ◌++◌,
  ltb, leb, ◌==◌, if◌then◌else◌, length, take, drop,
}
use eous.Prelude.Text.{Text, codes, decimal, text_eq}
use eous.Prelude.Outcome.{Outcome, ok, raise, ◌>>=◌, ◌>>◌, raise_if}
use eous.Prelude.Exception.{Exception, loader_error, other_error}
use eous.Loader.{Bytes}

abbrev pub dos_header_size : ℕ
dos_header_size = 0x40

abbrev pub dos_lfanew_offset : ℕ
dos_lfanew_offset = 0x3c

abbrev pub coff_section_count_offset : ℕ
coff_section_count_offset = 6

abbrev pub coff_header_end : ℕ
coff_header_end = 24

abbrev pub section_header_size : ℕ
section_header_size = 40

abbrev pub section_raw_size_offset : ℕ
section_raw_size_offset = 16

abbrev pub section_data_ratio : ℕ
section_data_ratio = 2

-- A little-endian number.
unfoldable pub le_word : Bytes → ℕ
le_word [] = 0
le_word (b ∷ bs) = b + 256 * le_word bs

-- `raw[start : start + count]`
abbrev pub slice : Bytes → ℕ → ℕ → Bytes
slice raw start count = take count (drop start raw)

-- `struct.unpack_from` of a format of `size` bytes: the bytes that the fields are read from.
unfoldable pub unpack_from : ℕ → Bytes → ℕ → Outcome Exception Bytes
unpack_from size raw offset =
    if leb (offset + size) (length raw)
    then ok (slice raw offset size)
    else raise (other_error (codes "error") (codes "unpack_from requires a larger buffer"))

-- The number of entries of `range(start, stop, step)`.
abbrev pub range_length : ℕ → ℕ → ℕ → ℕ
range_length start stop step = (stop - start + (step - 1)) / step

-- The loop over the section table: `rounds` entries are left, and `claimed` is the sum so far.
unfoldable pub claimed_from : Bytes → ℕ → ℕ → ℕ → Outcome Exception ℕ
claimed_from raw zero entry claimed = ok claimed
claimed_from raw (suc rounds) entry claimed = do
  fields ← unpack_from 8 raw (entry + section_raw_size_offset)
  let raw_size = le_word (take 4 fields)
  let pointer = le_word (drop 4 fields)
  claimed_from raw rounds (entry + section_header_size)
      (claimed + min raw_size (length raw - pointer))

unfoldable pub overlap_message : ℕ → ℕ → Text
overlap_message claimed size =
    codes "sections overlap, "
    ++ (decimal claimed
        ++ (codes " bytes of section data in a " ++ (decimal size ++ codes " byte file")))

-- The table of a file whose header stands at `header`.
unfoldable pub check_table : Bytes → ℕ → Outcome Exception (Unit {0})
check_table raw header = do
  fields ← unpack_from 16 raw (header + coff_section_count_offset)
  let count = le_word (take 2 fields)
  let optional_size = le_word (drop 14 fields)
  let table = header + coff_header_end + optional_size
  let end = min (table + section_header_size * count) (length raw)
  claimed ←
      claimed_from raw (range_length table (end + 1 - section_header_size) section_header_size)
        table 0
  raise_if (ltb (section_data_ratio * length raw) claimed)
      (loader_error (overlap_message claimed (length raw)))

abbrev pub mz : Bytes
mz = b'M' ∷ b'Z' ∷ []

abbrev pub pe_signature : Bytes
pe_signature = b'P' ∷ b'E' ∷ 0 ∷ 0 ∷ []

-- The second of the two early returns.
unfoldable pub check_coff_header : Bytes → ℕ → Outcome Exception (Unit {0})
check_coff_header raw header =
    if ltb (length raw) (header + coff_header_end)
      || not (text_eq (slice raw header 4) pe_signature)
    then ok tt
    else check_table raw header

unfoldable pub check_pe_sections : Bytes → Outcome Exception (Unit {0})
check_pe_sections raw =
    if ltb (length raw) dos_header_size || not (text_eq (take 2 raw) mz)
    then ok tt
    else do field ← unpack_from 4 raw dos_lfanew_offset; check_coff_header raw (le_word field)

-- ===== src/Loader/PeSections/Safety.antt =====
-- What `_check_pe_sections` of src/eous/loader.py reads, and what it raises.
use eous.Prelude.{
  ℕ, zero, suc, ◌+◌, ◌-◌, ◌*◌, ◌/◌, ◌≤◌, ◌≡◌, refl, ◌∙◌, ap, min, Bool, arith, ltb, leb, length,
  take, drop, ◌&&◌, take-take, drop-take, drop-drop, ◌<◌,
}
use eous.Prelude.Text.{text_eq}
use eous.Prelude.Outcome.{ok, raise_if}
use eous.Prelude.Exception.{loader_error}
use eous.Loader.{Bytes}
use eous.Loader.PeSections.{
  dos_header_size, dos_lfanew_offset, coff_section_count_offset, coff_header_end,
  section_header_size, section_raw_size_offset, section_data_ratio, le_word, slice, unpack_from,
  range_length, claimed_from, overlap_message, check_table, mz, pe_signature, check_pe_sections,
  check_coff_header,
}

unpack_from_inside :
    (size : ℕ) (raw : Bytes) (offset : ℕ)
    → offset + size ≤ length raw
    → unpack_from size raw offset ≡ ok (slice raw offset size)
unfolding unpack_from
unpack_from_inside size raw offset h = ground arith

abbrev pub pe_header : Bytes → ℕ
pe_header raw = le_word (slice raw dos_lfanew_offset 4)

-- The data that one section header claims: no more than the file holds behind its pointer.
section_claim : Bytes → ℕ → ℕ
section_claim raw entry =
    min (le_word (slice raw (entry + section_raw_size_offset) 4))
      (length raw - le_word (slice raw (entry + section_raw_size_offset + 4) 4))

-- The claims of `rounds` headers from `entry` on.
pub total_claim : Bytes → ℕ → ℕ → ℕ
unfolding section_claim
total_claim raw zero entry = 0
total_claim raw (suc rounds) entry =
    section_claim raw entry + total_claim raw rounds (entry + section_header_size)

-- A part of a slice is a slice.
take-slice :
    (count size : ℕ) (raw : Bytes) (start : ℕ)
    → count ≤ size
    → take count (slice raw start size) ≡ slice raw start count
take-slice count size raw start h = take-take count size (drop start raw) h

drop-slice :
    (skip count size : ℕ) (raw : Bytes) (start : ℕ)
    → skip + count ≡ size
    → drop skip (slice raw start size) ≡ slice raw (start + skip) count
drop-slice skip count size raw start e =
    drop-take skip count size (drop start raw) e ∙ ap (take count) (drop-drop skip start raw)

claimed_from-total_claim :
    (raw : Bytes) (rounds entry claimed : ℕ)
    → (0 < rounds → entry + section_header_size * rounds ≤ length raw)
    → claimed_from raw rounds entry claimed ≡ ok (claimed + total_claim raw rounds entry)
unfolding claimed_from total_claim
claimed_from-total_claim raw zero entry claimed inside = ap ok (omega arith)
claimed_from-total_claim raw (suc rounds) entry claimed inside =
    let fits : entry + section_header_size * suc rounds ≤ length raw = inside (omega arith) in
    let start = entry + section_raw_size_offset in
    rw (unpack_from_inside 8 raw start (omega arith)) (
      rw (take-slice 4 8 raw start (omega arith), drop-slice 4 4 8 raw start refl)
        (claimed_from-total_claim raw rounds (entry + section_header_size) _ (λ _. omega arith)
          ∙ ap ok (omega arith)))

-- What the section headers that lie inside the file claim, all together.
claimed_at : Bytes → ℕ → ℕ
claimed_at raw header =
    let count = le_word (slice raw (header + coff_section_count_offset) 2) in
    let optional_size = le_word (slice raw (header + 20) 2) in
    let table = header + coff_header_end + optional_size in
    total_claim raw (min count ((length raw - table) / section_header_size)) table

-- The loop visits as many headers as the count says and the file holds.
range_length-min :
    (table count size : ℕ)
    → 0 < table
    → range_length table
        (min (table + section_header_size * count) size + 1 - section_header_size)
        section_header_size
      ≡ min count ((size - table) / section_header_size)
range_length-min table count size h = omega arith

table_loop :
    (raw : Bytes) (table count : ℕ)
    → 0 < table
    → claimed_from raw
        (range_length table
          (min (table + section_header_size * count) (length raw) + 1 - section_header_size)
          section_header_size)
        table
        0
      ≡ ok (total_claim raw (min count ((length raw - table) / section_header_size)) table)
table_loop raw table count h =
    rw (range_length-min table count (length raw) h)
      (claimed_from-total_claim raw _ table 0 (λ some_rounds. omega arith) ∙ ap ok (omega arith))

optional_size_slice :
    (raw : Bytes) (header : ℕ)
    → drop 14 (slice raw (header + coff_section_count_offset) 16) ≡ slice raw (header + 20) 2
optional_size_slice raw header =
    drop-slice 14 2 16 raw (header + coff_section_count_offset) refl
    ∙ ap (λ start. slice raw start 2) (omega arith)

check_table-eq :
    (raw : Bytes) (header : ℕ)
    → header + coff_header_end ≤ length raw
    → check_table raw header
      ≡ raise_if
          (ltb (section_data_ratio * length raw) (claimed_at raw header))
          (loader_error (overlap_message (claimed_at raw header) (length raw)))
unfolding check_table claimed_at
check_table-eq raw header h =
    rw (unpack_from_inside 16 raw (header + coff_section_count_offset) (omega arith)) (
      rw
        (
          take-slice 2 16 raw (header + coff_section_count_offset) (omega arith),
          optional_size_slice raw header,
        )
        (rw (
          table_loop raw (header + coff_header_end + le_word (slice raw (header + 20) 2))
            (le_word (slice raw (header + coff_section_count_offset) 2)) (omega arith))))

-- A file that is long enough for the headers and begins as a PE file does.
has_pe_header : Bytes → ℕ → Bool
has_pe_header raw header =
    leb (header + coff_header_end) (length raw) && text_eq (slice raw header 4) pe_signature

pub has_headers : Bytes → Bool
has_headers raw =
    leb dos_header_size (length raw) && text_eq (take 2 raw) mz && has_pe_header raw (pe_header raw)

pub claimed : Bytes → ℕ
claimed raw = claimed_at raw (pe_header raw)

check_coff_header-eq :
    (raw : Bytes) (header : ℕ)
    → check_coff_header raw header
      ≡ raise_if
          (has_pe_header raw header
            && ltb (section_data_ratio * length raw) (claimed_at raw header))
          (loader_error (overlap_message (claimed_at raw header) (length raw)))
unfolding check_coff_header has_pe_header
check_coff_header-eq raw header = ground (arith, check_table-eq raw header)

-- The check of the section table reads inside the file, whatever the file holds: it raises nothing
-- but its complaint, and that exactly if the file is a PE file whose section headers claim more
-- than twice its length.
pub check_pe_sections-eq :
    (raw : Bytes)
    → check_pe_sections raw
      ≡ raise_if
          (has_headers raw && ltb (section_data_ratio * length raw) (claimed raw))
          (loader_error (overlap_message (claimed raw) (length raw)))
unfolding check_pe_sections has_headers claimed
check_pe_sections-eq raw =
    ground
      (arith, unpack_from_inside 4 raw dos_lfanew_offset, check_coff_header-eq raw (pe_header raw))

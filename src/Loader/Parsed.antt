-- ===== src/Loader/Parsed.antt =====
-- src/eous/loader.py: `read_clr`, `_load_pe`, `_load_elf` and their helpers, on what lief parsed.
use eous.Prelude.{
  ℕ, suc, ◌%◌, Bool, false, not, List, [], ◌∷◌, ◌++◌, Option, none, some, ltb, leb, ◌==◌,
  if◌then◌else◌, length, drop, sum_by, filter,
}
use eous.Prelude.Text.{Text, codes, decimal, text_eq}
use eous.Prelude.Outcome.{Outcome, ok, raise, ◌>>=◌, ◌>>◌, raise_if}
use eous.Prelude.Exception.{
  Exception, loader_error, unsupported_arch_error, type_error, value_error, runtime_error, catch,
}
use eous.Prelude.Sort.{sorted}
use eous.Loader.{Bytes, Section, Binary}
use eous.Loader.Lief.{Region, Machine, Width, narrow, wide, other, Directory, Pe, Elf}
use eous.Loader.PeSections.{le_word, unpack_from}

abbrev pub cor20_size : ℕ
cor20_size = 72

abbrev cor20_flags_offset : ℕ
cor20_flags_offset = 16

abbrev cor20_native_offset : ℕ
cor20_native_offset = 64

-- `except (TypeError, ValueError, RuntimeError): header = b""`
abbrev no_header : Exception → Outcome Exception Bytes
no_header (type_error text) = ok []
no_header (value_error text) = ok []
no_header (runtime_error text) = ok []
no_header e = raise e

-- The reading of a header that has its fixed size. `flags & COR20_IL_ONLY` is the lowest bit.
unfoldable pub read_header : Bytes → Outcome Exception (Bool × Bool)
read_header header = do
  flags ← unpack_from 4 header cor20_flags_offset
  directory ← unpack_from 8 header cor20_native_offset
  ok (le_word flags % 2 == 1, not (le_word (drop 4 directory) == 0))

-- `len(header) < COR20_SIZE or struct.unpack_from(...) != COR20_SIZE`: the field is only read of a
-- header that is long enough.
unfoldable pub check_header : Bytes → Outcome Exception (Bool × Bool)
check_header header = if ltb (length header) cor20_size then ok (false, false) else do
  field ← unpack_from 4 header 0
  if le_word field == cor20_size then read_header header else ok (false, false)

unfoldable pub read_directory : Pe → Option Directory → Outcome Exception (Bool × Bool)
read_directory binary none = ok (false, false)
read_directory binary (some directory) =
    if directory.size == 0
    then ok (false, false)
    else catch (binary.content_at directory.rva cor20_size) no_header >>= check_header

unfoldable pub read_clr : Pe → Outcome Exception (Bool × Bool)
read_clr binary = binary.clr_directory >>= read_directory binary

-- `_check_overlap`
unfoldable pub contents : List Region → Outcome Exception (List Bytes)
contents [] = ok []
contents (r ∷ rs) = r.content >>= λ content. contents rs >>= λ rest. ok (content ∷ rest)

abbrev pub code_size : List Bytes → ℕ
code_size = sum_by length

unfoldable pub code_message : ℕ → ℕ → Text
code_message code size =
    codes "executable code overlaps, "
    ++ (decimal code ++ (codes " bytes of code in a " ++ (decimal size ++ codes " byte file")))

unfoldable pub check_overlap : List Region → ℕ → Outcome Exception (Unit {0})
check_overlap regions size = do
  data_of ← contents regions
  raise_if (ltb size (code_size data_of)) (loader_error (code_message (code_size data_of) size))

-- The list of the sections of some regions, and of the segments, which are named by their place
-- among all segments.
unfoldable pub sections_of : List Region → Outcome Exception (List Section)
sections_of [] = ok []
sections_of (r ∷ rs) = r.content >>= λ content. sections_of rs >>= λ rest. ok (
    record {
      name = r.name;
      virtual_address = r.virtual_address;
      writable = r.writable;
      content = content;
    }
    ∷ rest)

unfoldable pub executable_of : List Region → List Region
executable_of = filter (λ (r : Region). r.executable)

-- `enumerate(parsed.segments)`, with the name that the place gives.
unfoldable pub named_from : ℕ → List Region → List Region
named_from index [] = []
named_from index (r ∷ rs) =
    record r { name = codes "segment" ++ decimal index } ∷ named_from (suc index) rs

-- Both loops over the executable regions: the check of their size, and their sections.
unfoldable pub checked_sections : List Region → ℕ → Outcome Exception (List Section)
checked_sections regions size = do check_overlap regions size; sections_of regions

unfoldable pub executable_segments : Elf → ℕ → Outcome Exception (List Section)
executable_segments parsed size =
    checked_sections (executable_of (named_from 0 parsed.segments)) size

abbrev pub address_le : Section → Section → Bool
address_le s t = leb s.virtual_address t.virtual_address

-- `_ordered`
abbrev pub ordered : List Section → List Section
ordered = sorted address_le

-- `_arch`, over a table of the machines' names.
unfoldable pub look_up : Text → List (Text × Text) → Option Text
look_up machine [] = none
look_up machine ((name, arch) ∷ rest) =
    if text_eq name machine then some arch else look_up machine rest

abbrev pub x86 : Text
x86 = codes "x86"

abbrev pub x86_64 : Text
x86_64 = codes "x86-64"

abbrev pub pe_arches : List (Text × Text)
pe_arches = (codes "I386", x86) ∷ (codes "AMD64", x86_64) ∷ []

abbrev pub elf_arches : List (Text × Text)
elf_arches = (codes "I386", x86) ∷ (codes "X86_64", x86_64) ∷ []

abbrev machine_text : Machine → Text
machine_text m = elim m.name [ none ↦ m.text | some name ↦ name ]

unfoldable pub arch_of : Outcome Exception Machine → List (Text × Text) → Outcome Exception Text
arch_of read arches = read >>= λ value. elim (look_up (machine_text value) arches) [
  | none ↦ raise (unsupported_arch_error (machine_text value))
  | some arch ↦ ok arch
]

-- `_bits`: both tables give 32 for the narrow value and 64 for the wide one.
unfoldable pub bits_of : Outcome Exception Width → Outcome Exception ℕ
bits_of read = read >>= λ value. elim value [
  | narrow ↦ ok 32
  | wide ↦ ok 64
  | other text ↦ raise (loader_error (codes "unknown header class " ++ text))
]

unfoldable pub load_pe : Pe → ℕ → Outcome Exception Binary
load_pe parsed size = do
  arch ← arch_of parsed.machine pe_arches
  sections ← checked_sections (executable_of parsed.sections) size
  clr ← read_clr parsed
  bits ← bits_of parsed.magic
  ok (record {
    format = codes "pe";
    arch = arch;
    bits = bits;
    sections = ordered sections;
    is_il_only = clr.0;
    has_managed_native = clr.1;
  })

-- A stripped ELF file has no sections, and keeps its segments.
unfoldable pub elf_sections : Elf → ℕ → List Section → Outcome Exception (List Section)
elf_sections parsed size [] = executable_segments parsed size
elf_sections parsed size (s ∷ ss) = ok (s ∷ ss)

unfoldable pub load_elf : Elf → ℕ → Outcome Exception Binary
load_elf parsed size = do
  arch ← arch_of parsed.machine elf_arches
  found ← checked_sections (executable_of parsed.sections) size
  sections ← elf_sections parsed size found
  bits ← bits_of parsed.identity_class
  ok (record {
    format = codes "elf";
    arch = arch;
    bits = bits;
    sections = ordered sections;
    is_il_only = false;
    has_managed_native = false;
  })

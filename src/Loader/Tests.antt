-- ===== src/Loader/Tests.antt =====
-- The loader's theorems at concrete files, and runs of the code on them.
use eous.Prelude.{
  ℕ, ◌≡◌, refl, true, false, List, [], ◌∷◌, ◌++◌, some, replicate, arith, length, if◌then◌else◌,
  ltb, ◌&&◌, ◌==◌, ◌*◌, ◌≤◌,
}
use eous.Prelude.Text.{codes, text_eq}
use eous.Prelude.Outcome.{ok, raise, raise_if}
use eous.Prelude.Exception.{loader_error, os_error, value_error, Raises}
use eous.Prelude.Fixed.{fixed_point}
use eous.Loader.{Bytes, Binary}
use eous.Loader.PeSections.{
  check_pe_sections, mz, overlap_message, section_data_ratio, check_coff_header, check_table,
  claimed_from, unpack_from, le_word,
}
use eous.Loader.PeSections.Safety.{check_pe_sections-eq, has_headers, claimed}
use eous.Loader.Entropy.{
  data_entropy, data_entropy-eq, entropy_of, bincount, chunked_counts, chunked_counts-eq,
}
use eous.Loader.Lief.{Region, wide, Elf, World}
use eous.Loader.Load.{elf_magic, load, read_file, check_container, parse_binary}
use eous.Prelude.Sort.{sorted}
use eous.Loader.Parsed.{
  load_elf, arch_of, look_up, checked_sections, check_overlap, contents, executable_of, sections_of,
  elf_sections, bits_of,
}
use eous.Loader.Fits.{code_of, load-fits}
use eous.Loader.Loads.{IsLoadable}
use eous.Loader.Errors.{IsDocumented, load_error, load-IsLoadable, load-Raises}

-- The headers of a PE file, in 64 and 24 bytes, and two entries of a section table whose sections
-- both claim 400 bytes from the start of the file.
abbrev overlapping : Bytes
overlapping =
    mz
    ++ replicate 58 0
    ++ (64 ∷ 0 ∷ 0 ∷ 0 ∷ [])
    ++ (b'P' ∷ b'E' ∷ 0 ∷ 0 ∷ 0x64 ∷ 0x86 ∷ 3 ∷ 0 ∷ [])
    ++ replicate 16 0
    ++ entry
    ++ entry
    ++ entry
  where
    entry : List ℕ
    entry = replicate 17 0 ++ 1 ∷ replicate 22 0

check_pe_sections-eq_example :
    check_pe_sections overlapping
    ≡ raise_if
        (has_headers overlapping
          && ltb (section_data_ratio * length overlapping) (claimed overlapping))
        (loader_error (overlap_message (claimed overlapping) (length overlapping)))
check_pe_sections-eq_example = check_pe_sections-eq overlapping

refused_overlap : check_pe_sections overlapping ≡ raise (loader_error (overlap_message 624 208))
unfolding check_pe_sections check_coff_header check_table claimed_from unpack_from le_word text_eq
    overlap_message
refused_overlap = refl

abbrev code : Bytes
code = 0x55 ∷ 0x48 ∷ 0x55 ∷ 0xc3 ∷ []

chunked_counts-eq_example : chunked_counts 3 code ≡ bincount code
chunked_counts-eq_example = chunked_counts-eq 3 code (omega arith)

data_entropy-eq_example :
    data_entropy fixed_point code
    ≡ (if length code == 0 then 0 else entropy_of fixed_point (length code) (bincount code))
data_entropy-eq_example = data_entropy-eq fixed_point code

abbrev text_section : Region
text_section = record {
  name = codes ".text";
  virtual_address = 4096;
  executable = true;
  writable = false;
  content = ok code;
}

abbrev parsed_elf : Elf
parsed_elf = record {
  machine = ok (record { name = some (codes "X86_64"); text = codes "62" });
  identity_class = ok wide;
  sections = text_section ∷ [];
  segments = [];
}

-- A file system in which every path is a short ELF file, and parsers that know only that.
abbrev pub elf_world : World
elf_world = record {
  parse_pe = λ raw. raise (value_error (codes "not a PE file"));
  parse_elf = λ raw. ok (some parsed_elf);
  is_macho = λ head. ok false;
  is_coff = λ path. raise (os_error (codes "gone"));
  is_dir = λ path. ok false;
  is_file = λ path. ok true;
  head = λ path. ok (elf_magic ++ code);
  rest = λ path. ok [];
}

pub elf_world-IsDocumented : IsDocumented elf_world
elf_world-IsDocumented = record {
  is_dir = λ path. tt;
  is_file = λ path. tt;
  head = λ path. tt;
  rest = λ path. tt;
  is_macho = λ head. tt;
  is_coff = λ path. refl;
}

abbrev loaded_elf : Binary
loaded_elf = record {
  format = codes "elf";
  arch = codes "x86-64";
  bits = 64;
  sections =
      record { name = codes ".text"; virtual_address = 4096; writable = false; content = code }
      ∷ [];
  is_il_only = false;
  has_managed_native = false;
}

pub loads_elf : load elf_world (codes "a") ≡ ok loaded_elf
unfolding load read_file check_container text_eq check_pe_sections parse_binary load_elf arch_of
    look_up checked_sections check_overlap contents executable_of sections_of elf_sections bits_of
    sorted
loads_elf = refl

load-IsLoadable_example : IsLoadable loaded_elf
load-IsLoadable_example = load-IsLoadable elf_world (codes "a") loaded_elf loads_elf

load-Raises_example : Raises load_error (load elf_world (codes "a"))
load-Raises_example = load-Raises elf_world elf_world-IsDocumented (codes "a")

load-fits_example :
    (raw : Bytes) × (read_file elf_world (codes "a") ≡ ok raw)
    × (code_of loaded_elf.sections ≤ length raw)
load-fits_example = load-fits elf_world (codes "a") loaded_elf loads_elf

-- ===== src/Loader/Loads.antt =====
-- The binaries that `_load_pe` and `_load_elf` of src/eous/loader.py return.
use eous.Prelude.{ℕ, ◌≡◌, refl, ◌⊎◌, inl, inr, true, List, arith}
use eous.Prelude.Text.{Text, codes, contains, decimal}
use eous.Prelude.Outcome.{Outcome, Ensures, Ensures->>=, Ensures-then}
use eous.Prelude.Exception.{Exception}
use eous.Prelude.Sort.{IsSorted, sorted-IsSorted}
use eous.Native
use eous.Loader.{Section, Binary, target}
use eous.Loader.Lief.{Pe, Elf, Machine, Width}
use eous.Loader.Parsed.{
  x86, x86_64, pe_arches, elf_arches, look_up, arch_of, bits_of, address_le, ordered, executable_of,
  checked_sections, read_clr, elf_sections, load_pe, load_elf,
}

-- A binary that the rest of the program can take: of a known format, instruction set and width,
-- with its sections in the order of their addresses.
pub record IsLoadable (b : Binary) : Type 0 where
  pub format : (b.format ≡ codes "pe") ⊎ (b.format ≡ codes "elf")
  pub arch : (b.arch ≡ x86) ⊎ (b.arch ≡ x86_64)
  pub bits : (b.bits ≡ 32) ⊎ (b.bits ≡ 64)
  pub in_order : IsSorted address_le b.sections

-- The target of a loadable binary is one that the extension module takes.
pub target_known : (b : Binary) → IsLoadable b → contains Native.targets (target b) ≡ true
unfolding target contains decimal
target_known b l = elim l.format [
  | inl pe ↦ elim l.bits [
    | inl narrow_bits ↦ rw (pe, narrow_bits)
    | inr wide_bits ↦ rw (pe, wide_bits)
  ]
  | inr elf ↦ elim l.bits [
    | inl narrow_bits ↦ rw (elf, narrow_bits)
    | inr wide_bits ↦ rw (elf, wide_bits)
  ]
]

abbrev Known : Text → Type 0
Known arch = (arch ≡ x86) ⊎ (arch ≡ x86_64)

arch_of-pe : (read : Outcome Exception Machine) → Ensures Known (arch_of read pe_arches)
unfolding arch_of look_up
arch_of-pe read = ground arith

arch_of-elf : (read : Outcome Exception Machine) → Ensures Known (arch_of read elf_arches)
unfolding arch_of look_up
arch_of-elf read = ground arith

bits_of-known : (read : Outcome Exception Width) → Ensures (λ b. (b ≡ 32) ⊎ (b ≡ 64)) (bits_of read)
unfolding bits_of
bits_of-known read = ground arith

ordered-IsSorted : (sections : List Section) → IsSorted address_le (ordered sections)
ordered-IsSorted = sorted-IsSorted address_le (λ s t. ground arith) (λ s t u h k. ground arith)

pub load_pe-IsLoadable : (parsed : Pe) (size : ℕ) → Ensures IsLoadable (load_pe parsed size)
unfolding load_pe
load_pe-IsLoadable parsed size =
    Ensures->>= Known IsLoadable (arch_of parsed.machine pe_arches) _ (arch_of-pe parsed.machine)
      λ arch known.
        Ensures-then IsLoadable (checked_sections (executable_of parsed.sections) size) _
          λ sections. Ensures-then IsLoadable (read_clr parsed) _ λ clr.
            Ensures->>= _ IsLoadable (bits_of parsed.magic) _ (bits_of-known parsed.magic)
              λ bits width. record {
                format = inl refl;
                arch = known;
                bits = width;
                in_order = ordered-IsSorted sections;
              }

pub load_elf-IsLoadable : (parsed : Elf) (size : ℕ) → Ensures IsLoadable (load_elf parsed size)
unfolding load_elf
load_elf-IsLoadable parsed size =
    Ensures->>= Known IsLoadable (arch_of parsed.machine elf_arches) _ (arch_of-elf parsed.machine)
      λ arch known.
        Ensures-then IsLoadable (checked_sections (executable_of parsed.sections) size) _ λ found.
          Ensures-then IsLoadable (elf_sections parsed size found) _ λ sections.
            Ensures->>= _ IsLoadable (bits_of parsed.identity_class) _
              (bits_of-known parsed.identity_class)
              λ bits width. record {
                format = inr refl;
                arch = known;
                bits = width;
                in_order = ordered-IsSorted sections;
              }

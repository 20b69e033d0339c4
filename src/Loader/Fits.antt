-- ===== src/Loader/Fits.antt =====
-- The size of the code that `load` of src/eous/loader.py returns.
use eous.Prelude.{
  ℕ, ◌≤◌, ◌≡◌, sym, ap, ◌∙◌, not, List, [], ◌∷◌, Option, none, some, arith, length, sum_by,
  Bool-cases, inl, inr, take,
}
use eous.Prelude.Text.{text_eq}
use eous.Prelude.Outcome.{
  Outcome, ok, raise_if, >>=-eq-ok, ok-injective, Ensures, Ensures->>=, Ensures-then, Ensures-ok,
  Ensures-intro,
}
use eous.Prelude.Exception.{Exception, catch, catch-eq-ok}
use eous.Prelude.Sort.{sorted-sum_by}
use eous.Loader.{Bytes, Section, Binary}
use eous.Loader.Lief.{Region, Pe, Elf, World}
use eous.Loader.PeSections.{check_pe_sections, mz}
use eous.Loader.Parsed.{
  contents, code_size, check_overlap, sections_of, executable_of, checked_sections,
  executable_segments, elf_sections, address_le, arch_of, pe_arches, elf_arches, read_clr, bits_of,
  load_pe, load_elf,
}
use eous.Loader.Load.{check_kind, read_file, loaded, parse_binary, load, unreadable_file, unparsed}
use eous.Report.{FilePath}

-- The number of bytes in some sections.
abbrev pub code_of : List Section → ℕ
code_of = sum_by (λ (s : Section). length s.content)

-- Sections with no more code than a file of the size.
abbrev Fit : ℕ → List Section → Type 0
Fit size sections = code_of sections ≤ size

sections_of-code :
    (regions : List Region) {sections : List Section} {data_of : List Bytes}
    → contents regions ≡ ok data_of
    → sections_of regions ≡ ok sections
    → code_of sections ≡ code_size data_of
unfolding contents sections_of
sections_of-code [] h k = ap code_of (sym (ok-injective k)) ∙ ap code_size (ok-injective h)
sections_of-code (r ∷ rs) h k =
    let (content, read, more) = >>=-eq-ok r.content _ h in
    let (data_of, rest, made) = >>=-eq-ok (contents rs) _ more in
    let (content', read', more') = >>=-eq-ok r.content _ k in
    let (sections, rest', made') = >>=-eq-ok (sections_of rs) _ more' in
    ap code_of (sym (ok-injective made'))
    ∙ omega (arith, sections_of-code rs rest rest', ap length (ok-injective (sym read' ∙ read)))
    ∙ ap code_size (ok-injective made)

check_overlap-eq-ok :
    (regions : List Region) (size : ℕ) {done : Unit {0}}
    → check_overlap regions size ≡ ok done
    → (data_of : List Bytes) × (contents regions ≡ ok data_of) × (code_size data_of ≤ size)
unfolding check_overlap
check_overlap-eq-ok regions size h =
    let (data_of, read, checked) = >>=-eq-ok (contents regions) _ h in (data_of, read, ground arith)

checked_sections-Fit :
    (regions : List Region) (size : ℕ) → Ensures (Fit size) (checked_sections regions size)
unfolding checked_sections
checked_sections-Fit regions size =
    Ensures-intro (Fit size) (checked_sections regions size) λ sections h.
      let (done, checked, made) = >>=-eq-ok (check_overlap regions size) _ h in
      let (data_of, read, small) = check_overlap-eq-ok regions size checked in
      omega (arith, sections_of-code regions read made)

load_pe-Fit :
    (parsed : Pe) (size : ℕ) → Ensures (λ (b : Binary). Fit size b.sections) (load_pe parsed size)
unfolding load_pe
load_pe-Fit parsed size = Ensures-then _ (arch_of parsed.machine pe_arches) _ λ arch.
    Ensures->>= (Fit size) _ (checked_sections (executable_of parsed.sections) size) _
      (checked_sections-Fit _ size)
      λ sections small. Ensures-then _ (read_clr parsed) _ λ clr.
        Ensures-then _ (bits_of parsed.magic) _ λ bits.
          omega (arith, sorted-sum_by address_le (λ (s : Section). length s.content) sections)

elf_sections-Fit :
    (parsed : Elf) (size : ℕ) (found : List Section)
    → Fit size found
    → Ensures (Fit size) (elf_sections parsed size found)
unfolding elf_sections executable_segments
elf_sections-Fit parsed size [] h = checked_sections-Fit _ size
elf_sections-Fit parsed size (s ∷ ss) h = h

load_elf-Fit :
    (parsed : Elf) (size : ℕ) → Ensures (λ (b : Binary). Fit size b.sections) (load_elf parsed size)
unfolding load_elf
load_elf-Fit parsed size = Ensures-then _ (arch_of parsed.machine elf_arches) _ λ arch.
    Ensures->>= (Fit size) _ (checked_sections (executable_of parsed.sections) size) _
      (checked_sections-Fit _ size)
      λ found small.
        Ensures->>= (Fit size) _ (elf_sections parsed size found) _
          (elf_sections-Fit parsed size found small)
          λ sections kept. Ensures-then _ (bits_of parsed.identity_class) _ λ bits.
            omega (arith, sorted-sum_by address_le (λ (s : Section). length s.content) sections)

module _ (w : World) where
  loaded-Fit {ℓ} :
      {A : Type ℓ} (f : A → ℕ → Outcome Exception Binary) (size : ℕ) (parsed : Option A)
      → ((a : A) → Ensures (λ (b : Binary). Fit size b.sections) (f a size))
      → Ensures (λ (b : Binary). Fit size b.sections) (loaded w f size parsed)
  unfolding loaded
  loaded-Fit f size none h = tt
  loaded-Fit f size (some a) h = h a

  parse_binary-Fit :
      (raw : Bytes) → Ensures (λ (b : Binary). Fit (length raw) b.sections) (parse_binary w raw)
  unfolding parse_binary
  parse_binary-Fit raw = elim (Bool-cases (text_eq (take 2 raw) mz)) [
    | inl e ↦ rw e (
        Ensures-then _ (w.parse_pe raw) _
          λ parsed. loaded-Fit load_pe (length raw) parsed (λ a. load_pe-Fit a _))
    | inr e ↦ rw e (
        Ensures-then _ (w.parse_elf raw) _
          λ parsed. loaded-Fit load_elf (length raw) parsed (λ a. load_elf-Fit a _))
  ]

  -- The sections of a binary that `load` returns hold no more bytes than the file that was read.
  pub load-fits :
      (path : FilePath) (b : Binary)
      → load w path ≡ ok b
      → (raw : Bytes) × (read_file w path ≡ ok raw) × (code_of b.sections ≤ length raw)
  unfolding load
  load-fits path b h =
      let (kind, _, h1) = >>=-eq-ok (catch (check_kind w path) _) _ h in
      let (_, _, h2) = >>=-eq-ok (raise_if kind.0 _) _ h1 in
      let (_, _, h3) = >>=-eq-ok (raise_if (not kind.1) _) _ h2 in
      let (raw, read, h4) = >>=-eq-ok (catch (read_file w path) _) _ h3 in
      let (_, _, h5) = >>=-eq-ok (check_pe_sections raw) _ h4 in
      (
        raw,
        catch-eq-ok (read_file w path) unreadable_file read,
        Ensures-ok (λ (x : Binary). Fit (length raw) x.sections) (parse_binary w raw) b
            (parse_binary-Fit raw) (catch-eq-ok (parse_binary w raw) unparsed h5),
      )

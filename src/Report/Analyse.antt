-- ===== src/Report/Analyse.antt =====
-- src/eous/report.py: `analyse`, `_analyse` and `_compressed_share`.
use eous.Prelude.{
  ℕ, ◌-◌, Bool, true, false, ◌&&◌, not, List, [], ◌∷◌, ◌++◌, map, Option, none, some, ◌==◌,
  if◌then◌else◌, length, filter, sum_by,
}
use eous.Prelude.Text.{Text, codes, text_eq}
use eous.Prelude.Outcome.{Outcome, ok, raise, ◌>>=◌}
use eous.Prelude.Exception.{
  Exception, loader_error, unsupported_format_error, unsupported_arch_error, memory_error,
  other_error, catch,
}
use eous.Prelude.Float.{Float, lt}
use eous.Native
use eous.Loader.{Bytes, Section, Binary, target}
use eous.Loader.Lief.{World}
use eous.Loader.Entropy.{data_entropy}
use eous.Loader.Parsed.{x86, x86_64}
use eous.Loader.Load.{load}
use eous.Report.{
  FilePath, unreadable, unsupported_format, unsupported_arch, packed, managed, no_code, Analysis,
  refuse,
}

abbrev entropy_threshold : ℕ
entropy_threshold = 7

-- `BITS[arch]`
unfoldable pub bits_for : Text → Outcome Exception ℕ
bits_for arch =
    if text_eq arch x86
    then ok 32
    else if text_eq arch x86_64
    then ok 64
    else raise (other_error (codes "KeyError") arch)

abbrev pub bytes_of : List Section → ℕ
bytes_of = sum_by (λ (s : Section). length s.content)

abbrev has_content : Bytes → Bool
has_content [] = false
has_content (b ∷ bs) = true

-- The first section that is writable and not empty.
unfoldable pub writable_name : List Section → Option Text
writable_name [] = none
writable_name (s ∷ ss) =
    if s.writable && has_content s.content then some s.name else writable_name ss

-- The end of `_analyse`, with the text of the digest.
abbrev pub conclude : FilePath → Option Text → Analysis
conclude path none = refuse path unreadable (codes "too little readable code")
conclude path (some text) = record { path = path; digest = some text; refusal = none }

abbrev writable_detail : Text → Text
writable_detail name = codes "executable section " ++ (name ++ codes " is writable")

-- In a PE file, a writable section with code in it.
unfoldable pub writable_section : Binary → Option Text
writable_section binary =
    if text_eq binary.format (codes "pe") then writable_name binary.sections else none

abbrev pub has_sections : List Section → Bool
has_sections [] = false
has_sections (s ∷ ss) = true

-- The `except` clauses round the loading.
unfoldable pub refuse_unloaded : FilePath → Exception → Outcome Exception Analysis
refuse_unloaded path (unsupported_format_error text) = ok (refuse path unsupported_format text)
refuse_unloaded path (unsupported_arch_error text) = ok (refuse path unsupported_arch text)
refuse_unloaded path (loader_error text) = ok (refuse path unreadable text)
refuse_unloaded path e = raise e

abbrev pub out_of_memory : FilePath → Exception → Outcome Exception Analysis
out_of_memory path memory_error = ok (refuse path unreadable (codes "out of memory"))
out_of_memory path e = raise e

module _ (N : Float) where
  open N use {F, of_ℕ, div, le, percent}

  -- `PACKED_SHARE`
  abbrev pub packed_share : F
  packed_share = div (of_ℕ 1) (of_ℕ 2)

  unfoldable pub readable_sections : List Section → List Section
  readable_sections =
      filter (λ (s : Section). lt N (data_entropy N s.content) (of_ℕ entropy_threshold))

  -- `_compressed_share`
  unfoldable pub compressed_share : List Section → List Section → F
  compressed_share sections readable =
      let total = bytes_of sections in
      if total == 0 then of_ℕ 0 else div (of_ℕ (total - bytes_of readable)) (of_ℕ total)

  module _ (summarise : List Bytes → ℕ → Option (ℕ × Text)) where
    -- From the entropy on.
    unfoldable pub digest_readable : FilePath → Binary → Outcome Exception Analysis
    digest_readable path binary =
        let readable = readable_sections binary.sections in
        let share = compressed_share binary.sections readable in
        if le packed_share share
        then ok (refuse path packed (percent share ++ codes " of executable code is compressed"))
        else bits_for binary.arch >>= λ bits.
            Native.digest_of summarise (map (λ (s : Section). s.content) readable) bits
              (target binary)
            >>= λ text. ok (conclude path text)

    unfoldable pub check_writable : FilePath → Binary → Outcome Exception Analysis
    check_writable path binary = elim (writable_section binary) [
      | none ↦ digest_readable path binary
      | some name ↦ ok (refuse path packed (writable_detail name))
    ]

    -- The part of `_analyse` behind the loading.
    unfoldable pub analyse_binary : FilePath → Binary → Outcome Exception Analysis
    analyse_binary path binary =
        if binary.is_il_only && not binary.has_managed_native
        then ok (refuse path managed (codes "il only, no native code"))
        else if not (has_sections binary.sections)
        then ok (refuse path no_code (codes "no executable section"))
        else check_writable path binary

    -- `_analyse`: what the loading raises is caught, and what follows it is not.
    unfoldable pub analyse_loaded : FilePath → Outcome Exception Binary → Outcome Exception Analysis
    analyse_loaded path (ok binary) = analyse_binary path binary
    analyse_loaded path (raise e) = refuse_unloaded path e

    unfoldable pub analyse : World → FilePath → Outcome Exception Analysis
    analyse w path = catch (analyse_loaded path (load w path)) (out_of_memory path)

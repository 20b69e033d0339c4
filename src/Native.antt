-- ===== src/Native.antt =====
-- native/src/lib.rs: the constants of the digest format, which the Python package reads from the
-- extension module.
pub mod Permute
pub mod Shingles
pub mod Vocabulary
pub mod Disassemble
pub mod Sections
pub mod Sketch
pub mod Summary
mod Tests
use eous.Prelude.{
  ℕ, Bool, false, ◌||◌, not, List, [], ◌∷◌, ◌++◌, Option, none, some, ◌==◌, if◌then◌else◌,
}
use eous.Prelude.Text.{Text, codes, decimal, contains}
use eous.Prelude.Outcome.{Outcome, ok, raise}
use eous.Prelude.Exception.{Exception, value_error}

abbrev pub version : Text
version = codes "EO1"

abbrev pub targets : List Text
targets = codes "pe32" ∷ codes "pe64" ∷ codes "elf32" ∷ codes "elf64" ∷ []

abbrev pub bitnesses : List ℕ
bitnesses = 32 ∷ 64 ∷ []

abbrev pub permutations : ℕ
permutations = 256

abbrev pub slot_bits : ℕ
slot_bits = 2

-- The last line of `digest_of`: the text of a digest.
unfoldable pub layout : Text → ℕ → Text → Text
layout target cardinality body =
    version ++ b':' ∷ (target ++ b':' ∷ (decimal cardinality ++ b':' ∷ body))

-- Whether a number is listed.
unfoldable pub among : List ℕ → ℕ → Bool
among [] n = false
among (m ∷ ms) n = m == n || among ms n

-- `{target:?}`: between quotes, with Rust's escapes but for those of characters that do not print.
abbrev pub debug_escaped : Text → Text
debug_escaped [] = []
debug_escaped (c ∷ cs) =
    (if c == b'"' || c == b'\\'
      then b'\\' ∷ c ∷ []
      else if c == b'\n'
      then codes "\\n"
      else if c == b'\r'
      then codes "\\r"
      else if c == b'\t'
      then codes "\\t"
      else if c == 0
      then codes "\\0"
      else c ∷ [])
    ++ debug_escaped cs

abbrev pub quoted : Text → Text
quoted text = b'"' ∷ (debug_escaped text ++ b'"' ∷ [])

-- `digest_of`, with the disassembly and the sketch as a parameter: the number of distinct shingles
-- and the body of the sketch, or nothing for too little code.
unfoldable pub digest_of :
    (List (List ℕ) → ℕ → Option (ℕ × Text))
    → List (List ℕ)
    → ℕ
    → Text
    → Outcome Exception (Option Text)
digest_of summarise sections bitness target =
    if not (among bitnesses bitness)
    then raise (value_error (codes "unsupported bitness " ++ decimal bitness))
    else if not (contains targets target)
    then raise (value_error (codes "unsupported target " ++ quoted target))
    else ok (elim (summarise sections bitness) [
      | none ↦ none
      | some (cardinality, body) ↦ some (layout target cardinality body)
    ])

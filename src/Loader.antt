-- ===== src/Loader.antt =====
-- src/eous/loader.py: the constants, `Section` and `Binary`, and what the module reads of the lief
-- library, whose parsers are parameters. The children model the checks of a PE file's section
-- table, the entropy, the CLR header and `load`.
pub mod PeSections
pub mod Entropy
pub mod Lief
pub mod Parsed
pub mod Load
pub mod Loads
pub mod Errors
pub mod Fits
pub mod Tests
use eous.Prelude.{ℕ, ◌++◌, ◌≡◌, Bool, List, [], ◌∷◌, Option, none, some, if◌then◌else◌}
use eous.Prelude.Text.{Text, codes, decimal, text_eq}
use eous.Prelude.Outcome.{Outcome}
use eous.Prelude.Exception.{Exception}

-- The bytes of a file, each below 256.
abbrev pub Bytes : Type 0
Bytes = List ℕ

pub record Section : Type 0 where
  pub name : Text
  pub virtual_address : ℕ
  pub writable : Bool
  pub content : Bytes

pub record Binary : Type 0 where
  pub format : Text
  pub arch : Text
  pub bits : ℕ
  pub sections : List Section
  pub is_il_only : Bool
  pub has_managed_native : Bool

-- The property `Binary.target`.
unfoldable pub target : Binary → Text
target binary = binary.format ++ decimal binary.bits

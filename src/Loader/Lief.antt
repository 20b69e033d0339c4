-- ===== src/Loader/Lief.antt =====
-- What src/eous/loader.py reads of the objects that the lief library parses, and of the file system.
-- Both are outside the program: a reading is a value, or the exception that it raised.
use eous.Prelude.{ℕ, Bool, List, Option}
use eous.Prelude.Text.{Text}
use eous.Prelude.Outcome.{Outcome}
use eous.Prelude.Exception.{Exception}
use eous.Loader.{Bytes}
use eous.Report.{FilePath}

-- A section or a segment. The name is after `_text`.
pub record Region : Type 0 where
  pub name : Text
  pub virtual_address : ℕ
  pub executable : Bool
  pub writable : Bool
  pub content : Outcome Exception Bytes

-- A machine field: its `name`, if that is a string, and `str` of it.
pub record Machine : Type 0 where
  pub name : Option Text
  pub text : Text

-- The header field that gives the width: one of the two known values, or another with its `str`.
pub data Width : Type 0 where
  narrow wide : Width
  other : Text → Width

pub record Directory : Type 0 where
  pub size : ℕ
  pub rva : ℕ

pub record Pe : Type 0 where
  pub machine : Outcome Exception Machine
  pub magic : Outcome Exception Width
  pub sections : List Region
  pub clr_directory : Outcome Exception (Option Directory)
  pub content_at : ℕ → ℕ → Outcome Exception Bytes

pub record Elf : Type 0 where
  pub machine : Outcome Exception Machine
  pub identity_class : Outcome Exception Width
  pub sections : List Region
  pub segments : List Region

-- The parsers and the tests of other formats, and the three calls on the file system: an open file
-- gives its first 32 bytes, and then the rest.
pub record World : Type 0 where
  pub parse_pe : Bytes → Outcome Exception (Option Pe)
  pub parse_elf : Bytes → Outcome Exception (Option Elf)
  pub is_macho : Bytes → Outcome Exception Bool
  pub is_coff : FilePath → Outcome Exception Bool
  pub is_dir : FilePath → Outcome Exception Bool
  pub is_file : FilePath → Outcome Exception Bool
  pub head : FilePath → Outcome Exception Bytes
  pub rest : FilePath → Outcome Exception Bytes

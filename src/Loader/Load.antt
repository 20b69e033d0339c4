-- ===== src/Loader/Load.antt =====
-- src/eous/loader.py: `load` and `_parse`.
use eous.Prelude.{
  ℕ, Bool, ◌&&◌, ◌||◌, not, [], ◌∷◌, ◌++◌, Option, none, some, if◌then◌else◌, length, take,
}
use eous.Prelude.Text.{codes, text_eq}
use eous.Prelude.Outcome.{Outcome, ok, raise, ◌>>=◌, ◌>>◌, raise_if}
use eous.Prelude.Exception.{
  Exception, loader_error, unsupported_format_error, os_error, value_error, message,
  is_loader_error, is_memory_error, catch, broken_pipe,
}
use eous.Loader.{Bytes, Binary}
use eous.Loader.Lief.{World}
use eous.Loader.PeSections.{check_pe_sections, mz}
use eous.Loader.Parsed.{load_pe, load_elf}
use eous.Report.{FilePath}

abbrev pub elf_magic : Bytes
elf_magic = 0x7f ∷ b'E' ∷ b'L' ∷ b'F' ∷ []

abbrev pub no_container : Exception
no_container = loader_error (codes "no recognised container")

-- `except (OSError, ValueError)`
abbrev pub unreadable_path : Exception → Exception
unreadable_path (os_error text) = loader_error (codes "path cannot be read")
unreadable_path (broken_pipe text) = loader_error (codes "path cannot be read")
unreadable_path (value_error text) = loader_error (codes "path cannot be read")
unreadable_path e = e

-- `except OSError`
abbrev pub unreadable_file : Exception → Exception
unreadable_file (os_error text) = loader_error (codes "cannot read: " ++ text)
unreadable_file (broken_pipe text) = loader_error (codes "cannot read: " ++ text)
unreadable_file e = e

-- `except (LoaderError, MemoryError): raise` and `except Exception`
abbrev pub unparsed : Exception → Exception
unparsed e =
    if is_loader_error e || is_memory_error e
    then e
    else loader_error (codes "cannot parse: " ++ message e)

module _ (w : World) where
  abbrev pub check_kind : FilePath → Outcome Exception (Bool × Bool)
  check_kind path = do directory ← w.is_dir path; regular ← w.is_file path; ok (directory, regular)

  unfoldable pub refuse_container : FilePath → Bytes → Outcome Exception (Unit {0})
  refuse_container path head = do
    macho ← w.is_macho head
    raise_if macho (unsupported_format_error (codes "macho"))
    coff ← w.is_coff path
    raise_if coff (unsupported_format_error (codes "coff"))
    raise no_container

  -- A file that is neither PE nor ELF is refused, with its format where lief tells it.
  unfoldable pub check_container : FilePath → Bytes → Outcome Exception (Unit {0})
  unfolding refuse_container
  check_container path head =
      if not (text_eq (take 2 head) mz) && not (text_eq (take 4 head) elf_magic)
      then refuse_container path head
      else ok tt

  unfoldable pub read_file : FilePath → Outcome Exception Bytes
  read_file path = do
    head ← w.head path
    check_container path head
    rest ← w.rest path
    ok (head ++ rest)

  unfoldable pub loaded {ℓ} :
      {A : Type ℓ} → (A → ℕ → Outcome Exception Binary) → ℕ → Option A → Outcome Exception Binary
  loaded f size none = raise no_container
  loaded f size (some parsed) = f parsed size

  -- `_parse`, and the loading of what it gives.
  unfoldable pub parse_binary : Bytes → Outcome Exception Binary
  unfolding loaded
  parse_binary raw =
      if text_eq (take 2 raw) mz
      then w.parse_pe raw >>= loaded load_pe (length raw)
      else w.parse_elf raw >>= loaded load_elf (length raw)

  unfoldable pub load : FilePath → Outcome Exception Binary
  load path = do
    kind ← catch (check_kind path) (λ e. raise (unreadable_path e))
    raise_if kind.0 (loader_error (codes "path is a directory"))
    raise_if (not kind.1) (loader_error (codes "file is absent"))
    raw ← catch (read_file path) (λ e. raise (unreadable_file e))
    check_pe_sections raw
    catch (parse_binary raw) (λ e. raise (unparsed e))

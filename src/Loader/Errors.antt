-- ===== src/Loader/Errors.antt =====
-- `load` of src/eous/loader.py as a whole: the binaries that it returns, and the exceptions that it
-- raises.
use eous.Prelude.{
  ℕ, ◌≡◌, refl, Bool, true, false, ◌||◌, not, Option, none, some, arith, length, Bool-cases, inl,
  inr, take,
}
use eous.Prelude.Text.{text_eq}
use eous.Prelude.Outcome.{Outcome, ok, raise, raise_if, Ensures, Ensures-then, Ensures-ok}
use eous.Prelude.Exception.{
  Exception, Raises, Raises->>=, Raises-catch, Ensures-catch, is_loader_error, is_memory_error,
  is_os_error, is_value_error, catch,
}
use eous.Loader.{Bytes, Binary}
use eous.Loader.Lief.{World}
use eous.Loader.PeSections.{check_pe_sections, mz}
use eous.Loader.PeSections.Safety.{check_pe_sections-eq}
use eous.Loader.Parsed.{load_pe, load_elf}
use eous.Loader.Load.{
  check_kind, check_container, refuse_container, read_file, loaded, parse_binary, load,
  unreadable_path, unreadable_file, unparsed,
}
use eous.Loader.Loads.{IsLoadable, load_pe-IsLoadable, load_elf-IsLoadable}
use eous.Report.{FilePath}

-- The exceptions of `os.stat`, of reading a file, and of `load`.
abbrev pub stat_error : Exception → Bool
stat_error e = is_os_error e || is_value_error e || is_memory_error e

abbrev pub read_error : Exception → Bool
read_error e = is_os_error e || is_memory_error e

abbrev pub load_error : Exception → Bool
load_error e = is_loader_error e || is_memory_error e

-- What Python documents of the calls on the file system, and lief of its two tests of other formats:
-- `lief.is_macho` and `lief.is_coff` return whether the bytes, or the file, have the format. They stand
-- outside `except Exception`. The first, which gets bytes, raises nothing but MemoryError, and the
-- second, which reads the file again, also what that reading raises. Of the parsers nothing is assumed.
pub record IsDocumented (w : World) : Type 0 where
  pub is_dir : (path : FilePath) → Raises stat_error (w.is_dir path)
  pub is_file : (path : FilePath) → Raises stat_error (w.is_file path)
  pub head : (path : FilePath) → Raises read_error (w.head path)
  pub rest : (path : FilePath) → Raises read_error (w.rest path)
  pub is_macho : (head : Bytes) → Raises is_memory_error (w.is_macho head)
  pub is_coff : (path : FilePath) → Raises read_error (w.is_coff path)

module _ (w : World) where
  loaded-IsLoadable {ℓ} :
      {A : Type ℓ} (f : A → ℕ → Outcome Exception Binary) (size : ℕ) (parsed : Option A)
      → ((a : A) → Ensures IsLoadable (f a size))
      → Ensures IsLoadable (loaded w f size parsed)
  unfolding loaded
  loaded-IsLoadable f size none h = tt
  loaded-IsLoadable f size (some a) h = h a

  parse_binary-IsLoadable : (raw : Bytes) → Ensures IsLoadable (parse_binary w raw)
  unfolding parse_binary
  parse_binary-IsLoadable raw = elim (Bool-cases (text_eq (take 2 raw) mz)) [
    | inl e ↦ rw e (
        Ensures-then IsLoadable (w.parse_pe raw) _
          λ parsed. loaded-IsLoadable load_pe (length raw) parsed (λ a. load_pe-IsLoadable a _))
    | inr e ↦ rw e (
        Ensures-then IsLoadable (w.parse_elf raw) _
          λ parsed. loaded-IsLoadable load_elf (length raw) parsed (λ a. load_elf-IsLoadable a _))
  ]

  load-Ensures : (path : FilePath) → Ensures IsLoadable (load w path)
  unfolding load
  load-Ensures path = Ensures-then IsLoadable (catch (check_kind w path) _) _ λ kind.
      Ensures-then IsLoadable (raise_if kind.0 _) _ λ _.
        Ensures-then IsLoadable (raise_if (not kind.1) _) _ λ _.
          Ensures-then IsLoadable (catch (read_file w path) _) _ λ raw.
            Ensures-then IsLoadable (check_pe_sections raw) _ λ _.
              Ensures-catch IsLoadable (parse_binary w raw) unparsed (parse_binary-IsLoadable raw)

  -- Every binary that `load` returns is loadable.
  pub load-IsLoadable : (path : FilePath) (b : Binary) → load w path ≡ ok b → IsLoadable b
  load-IsLoadable path b e = Ensures-ok IsLoadable (load w path) b (load-Ensures path) e

  Raises-if :
      (p : Exception → Bool) (b : Bool) (e : Exception) → p e ≡ true → Raises p (raise_if b e)
  Raises-if p true e h = h
  Raises-if p false e h = tt

  Raises-any {ℓ} : {A : Type ℓ} (m : Outcome Exception A) → Raises (λ _. true) m
  Raises-any (ok a) = tt
  Raises-any (raise e) = refl

  Raises-weaken {ℓ} :
      {A : Type ℓ} (p q : Exception → Bool) (m : Outcome Exception A)
      → Raises p m
      → ((e : Exception) → p e ≡ true → q e ≡ true)
      → Raises q m
  Raises-weaken p q (ok a) h k = tt
  Raises-weaken p q (raise e) h k = k e h

  module _ (d : IsDocumented w) where
    -- Inside the `try`, an OSError is still one.
    abbrev in_try : Exception → Bool
    in_try e = load_error e || is_os_error e

    refuse_container-Raises :
        (path : FilePath) (head : Bytes) → Raises in_try (refuse_container w path head)
    unfolding refuse_container
    refuse_container-Raises path head =
        Raises->>= in_try (w.is_macho head) _
          (Raises-weaken is_memory_error in_try (w.is_macho head) (d.is_macho head)
            (λ e h. ground arith))
          λ macho. Raises->>= in_try (raise_if macho _) _ (Raises-if in_try macho _ refl) λ _.
            Raises->>= in_try (w.is_coff path) _
              (Raises-weaken read_error in_try (w.is_coff path) (d.is_coff path)
                (λ e h. ground arith))
              λ coff.
                Raises->>= in_try (raise_if coff _) _ (Raises-if in_try coff _ refl) (λ _. refl)

    check_container-Raises :
        (path : FilePath) (head : Bytes) → Raises in_try (check_container w path head)
    unfolding check_container
    check_container-Raises path head = ground (arith, refuse_container-Raises path head)

    read_file-Raises : (path : FilePath) → Raises in_try (read_file w path)
    unfolding read_file
    read_file-Raises path =
        Raises->>= in_try (w.head path) _
          (Raises-weaken read_error in_try (w.head path) (d.head path) (λ e h. ground arith))
          λ head.
            Raises->>= in_try (check_container w path head) _ (check_container-Raises path head)
              λ _.
                Raises->>= in_try (w.rest path) _
                  (Raises-weaken read_error in_try (w.rest path) (d.rest path)
                    (λ e h. ground arith))
                  (λ _. tt)

    check_kind-Raises : (path : FilePath) → Raises stat_error (check_kind w path)
    check_kind-Raises path =
        Raises->>= stat_error (w.is_dir path) _ (d.is_dir path)
          λ _. Raises->>= stat_error (w.is_file path) _ (d.is_file path) (λ _. tt)

    check_pe_sections-Raises : (raw : Bytes) → Raises load_error (check_pe_sections raw)
    check_pe_sections-Raises raw = rw check_pe_sections-eq (Raises-if load_error _ _ refl)

    -- With the file system as documented, and lief's tests of other formats, `load` returns a binary or raises one of the loader's
    -- exceptions or MemoryError, whatever the file holds and whatever the parsers raise.
    pub load-Raises : (path : FilePath) → Raises load_error (load w path)
    unfolding load
    load-Raises path =
        Raises->>= load_error (catch (check_kind w path) (λ e. raise (unreadable_path e))) _
          (Raises-catch stat_error load_error (check_kind w path) unreadable_path
            (check_kind-Raises path) (λ e h. ground arith))
          λ kind.
            Raises->>= load_error (raise_if kind.0 _) _ (Raises-if load_error kind.0 _ refl) λ _.
              Raises->>= load_error (raise_if (not kind.1) _) _
                (Raises-if load_error (not kind.1) _ refl)
                λ _.
                  Raises->>= load_error (catch (read_file w path) (λ e. raise (unreadable_file e)))
                    _
                    (Raises-catch in_try load_error (read_file w path) unreadable_file
                      (read_file-Raises path) (λ e h. ground arith))
                    λ raw.
                      Raises->>= load_error (check_pe_sections raw) _ (check_pe_sections-Raises raw)
                        λ _.
                          Raises-catch (λ _. true) load_error (parse_binary w raw) unparsed
                            (Raises-any (parse_binary w raw)) (λ e _. ground arith)

-- ===== src/Report/Total.antt =====
-- `analyse` of src/eous/report.py: whether it returns, and with what.
use eous.Prelude.{
  ℕ, ◌≡◌, refl, ◌⊎◌, inl, inr, true, ◌&&◌, not, List, map, Option, none, some, arith, Bool-cases,
  Option-cases, ◌≢◌,
}
use eous.Prelude.Text.{Text, text_eq, contains}
use eous.Prelude.Outcome.{Outcome, ok, raise, Outcome-cases, returns_of_no_raise}
use eous.Prelude.Exception.{
  Exception, loader_error, unsupported_format_error, unsupported_arch_error, memory_error, catch,
  os_error, value_error, type_error, runtime_error, other_error, Raises-raise, broken_pipe,
}
use eous.Prelude.Float.{Float}
use eous.Native
use eous.Loader.{Bytes, Section, Binary, target}
use eous.Loader.Lief.{World}
use eous.Loader.Parsed.{x86, x86_64}
use eous.Loader.Load.{load}
use eous.Loader.Loads.{IsLoadable, target_known}
use eous.Loader.Errors.{IsDocumented, load_error, load-IsLoadable, load-Raises}
use eous.Report.{
  FilePath, Analysis, refuse, Reason, unreadable, unsupported_format, unsupported_arch, packed,
  managed, no_code,
}
use eous.Report.Analyse.{
  bits_for, readable_sections, compressed_share, conclude, digest_readable, writable_section,
  check_writable, analyse_binary, refuse_unloaded, analyse_loaded, analyse, out_of_memory,
  has_sections, packed_share,
}

-- An analysis of a path, with a digest or a refusal and not both.
pub record IsSettled (path : FilePath) (a : Analysis) : Type 0 where
  pub same_path : a.path ≡ path
  pub one :
      ((text : Text) × (a.digest ≡ some text) × (a.refusal ≡ none))
      ⊎ ((a.digest ≡ none) × (a.refusal ≢ none))

-- A call that returns, with an analysis of the path.
abbrev pub Settles : FilePath → Outcome Exception Analysis → Type 0
Settles path (ok a) = IsSettled path a
Settles path (raise e) = ⊥

bits_for-known :
    (arch : Text)
    → (arch ≡ x86) ⊎ (arch ≡ x86_64)
    → (bits : ℕ) × (bits_for arch ≡ ok bits) × (Native.among Native.bitnesses bits ≡ true)
unfolding bits_for text_eq Native.among
bits_for-known arch (inl e) = (32, rw e, refl)
bits_for-known arch (inr e) = (64, rw e, refl)

digest_of-known :
    (summarise : List Bytes → ℕ → Option (ℕ × Text)) (sections : List Bytes) (bits : ℕ)
    (text : Text)
    → Native.among Native.bitnesses bits ≡ true
    → contains Native.targets text ≡ true
    → (found : Option Text) × (Native.digest_of summarise sections bits text ≡ ok found)
unfolding Native.digest_of
digest_of-known summarise sections bits text h k =
    returns_of_no_raise (Native.digest_of summarise sections bits text) (λ e. ground arith)

refuse-IsSettled :
    (path : FilePath) (reason : Reason) (detail : Text) → IsSettled path (refuse path reason detail)
refuse-IsSettled path reason detail = record { same_path = refl; one = inr (refl, λ e. cc) }

refuse_unloaded-Settles :
    (path : FilePath) (e : Exception)
    → load_error e ≡ true
    → Settles path (catch (refuse_unloaded path e) (out_of_memory path))
unfolding refuse_unloaded
refuse_unloaded-Settles path (loader_error text) h = refuse-IsSettled path unreadable text
refuse_unloaded-Settles path (unsupported_format_error text) h =
    refuse-IsSettled path unsupported_format text
refuse_unloaded-Settles path (unsupported_arch_error text) h =
    refuse-IsSettled path unsupported_arch text
refuse_unloaded-Settles path memory_error h = refuse-IsSettled path unreadable _
refuse_unloaded-Settles path (os_error text) h = cc
refuse_unloaded-Settles path (broken_pipe text) h = cc
refuse_unloaded-Settles path (value_error text) h = cc
refuse_unloaded-Settles path (type_error text) h = cc
refuse_unloaded-Settles path (runtime_error text) h = cc
refuse_unloaded-Settles path (other_error name text) h = cc

conclude-IsSettled : (path : FilePath) (found : Option Text) → IsSettled path (conclude path found)
conclude-IsSettled path none = refuse-IsSettled path unreadable _
conclude-IsSettled path (some text) = record { same_path = refl; one = inl (text, refl, refl) }

module _ (N : Float) (summarise : List Bytes → ℕ → Option (ℕ × Text)) where
  open N use {le}

  digest_readable-Settles :
      (path : FilePath) (b : Binary)
      → IsLoadable b
      → Settles path (digest_readable N summarise path b)
  unfolding digest_readable
  digest_readable-Settles path b l =
      elim (Bool-cases
        (le (packed_share N) (compressed_share N b.sections (readable_sections N b.sections)))) [
          | inl high ↦ rw high (refuse-IsSettled path packed _)
          | inr low ↦
              let (bits, known, width) = bits_for-known b.arch l.arch in
              let (found, made) =
                digest_of-known summarise
                  (map (λ (s : Section). s.content) (readable_sections N b.sections)) bits
                  (target b) width (target_known b l) in
              rw (low, known, made) (conclude-IsSettled path found)
        ]

  check_writable-Settles :
      (path : FilePath) (b : Binary)
      → IsLoadable b
      → Settles path (check_writable N summarise path b)
  unfolding check_writable
  check_writable-Settles path b l = elim (Option-cases (writable_section b)) [
    | inl e ↦ rw (e, Settles) (digest_readable-Settles path b l)
    | inr (name, e) ↦ rw (e, Settles) (refuse-IsSettled path packed _)
  ]

  analyse_binary-Settles :
      (path : FilePath) (b : Binary)
      → IsLoadable b
      → Settles path (analyse_binary N summarise path b)
  unfolding analyse_binary
  analyse_binary-Settles path b l = elim (Bool-cases (b.is_il_only && not b.has_managed_native)) [
    | inl e ↦ rw e (refuse-IsSettled path managed _)
    | inr e ↦ elim (Bool-cases (not (has_sections b.sections))) [
      | inl f ↦ rw (e, f) (refuse-IsSettled path no_code _)
      | inr f ↦ rw (e, f) (check_writable-Settles path b l)
    ]
  ]

  settled_returns :
      (path : FilePath) (o : Outcome Exception Analysis)
      → Settles path o
      → Settles path (catch o (out_of_memory path))
  settled_returns path (ok a) h = h
  settled_returns path (raise e) h = absurd h

  -- Where the calls on the file system raise what Python documents, and lief's tests of other formats
  -- no more than reading the file does, the analysis of any path returns, whatever the file holds and whatever the parsers do: it is an analysis of that path,
  -- with a digest and no refusal, or with a refusal and no digest.
  pub analyse-Settles :
      (w : World) → IsDocumented w → (path : FilePath) → Settles path (analyse N summarise w path)
  unfolding analyse analyse_loaded
  analyse-Settles w d path = elim (Outcome-cases (load w path)) [
    | inl (b, e) ↦ rw e (
        settled_returns path (analyse_binary N summarise path b)
          (analyse_binary-Settles path b (load-IsLoadable w path b e)))
    | inr (x, e) ↦ rw e (
        refuse_unloaded-Settles path x
          (Raises-raise load_error (load w path) e (load-Raises w d path)))
  ]

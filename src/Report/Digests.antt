-- ===== src/Report/Digests.antt =====
-- The digests of `analyse`, as the extension module returns them: src/eous/report.py.
use eous.Prelude.{
  ℕ, ◌≡◌, ap, ◌∙◌, inl, inr, ◌&&◌, not, Option, none, some, List, map, Bool-cases, Option-cases,
}
use eous.Prelude.Text.{Text}
use eous.Prelude.Outcome.{
  Outcome, ok, raise, Outcome-cases, Ensures, Ensures->>=, Ensures-intro, Ensures-ok,
}
use eous.Prelude.Exception.{
  Exception, loader_error, unsupported_format_error, unsupported_arch_error, os_error, value_error,
  type_error, runtime_error, memory_error, other_error, catch, broken_pipe,
}
use eous.Prelude.Float.{Float}
use eous.Native
use eous.Loader.{Section, Bytes, Binary, target}
use eous.Loader.Lief.{World}
use eous.Loader.Load.{load}
use eous.Report.{FilePath, Analysis}
use eous.Report.Analyse.{
  bits_for, packed_share, readable_sections, compressed_share, conclude, digest_readable,
  writable_section, check_writable, has_sections, analyse_binary, refuse_unloaded, analyse_loaded,
  analyse, out_of_memory,
}

-- What the analysis passes to the extension module for a binary.
abbrev pub readable_contents : Float → Binary → List Bytes
readable_contents N b = map (λ (s : Section). s.content) (readable_sections N b.sections)

module _ (summarise : List Bytes → ℕ → Option (ℕ × Text)) (N : Float) (w : World)
    (path : FilePath) where
  open N use {le}

  -- The text is what the extension module returns for a binary.
  abbrev pub IsDigest : Binary → Text → Type 0
  IsDigest b text =
      (bits : ℕ) × (bits_for b.arch ≡ ok bits)
      × (Native.digest_of summarise (readable_contents N b) bits (target b) ≡ ok (some text))

  -- The analysis has no digest, or that of the file that was loaded.
  abbrev Backed : Analysis → Type 0
  Backed a =
      (text : Text) → a.digest ≡ some text → (b : Binary) × (load w path ≡ ok b) × IsDigest b text

  conclude-Backed :
      (b : Binary) (bits : ℕ) (found : Option Text)
      → load w path ≡ ok b
      → bits_for b.arch ≡ ok bits
      → Native.digest_of summarise (readable_contents N b) bits (target b) ≡ ok found
      → Backed (conclude path found)
  conclude-Backed b bits none loaded known returned text e = cc
  conclude-Backed b bits (some made) loaded known returned text e =
      (b, loaded, (bits, known, returned ∙ ap ok e))

  digest_readable-Backed :
      (b : Binary) → load w path ≡ ok b → Ensures Backed (digest_readable N summarise path b)
  unfolding digest_readable
  digest_readable-Backed b loaded =
      elim (Bool-cases
        (le (packed_share N) (compressed_share N b.sections (readable_sections N b.sections)))) [
          | inl high ↦ rw high (λ text h. cc)
          | inr low ↦ rw low (
              Ensures->>= (λ bits. bits_for b.arch ≡ ok bits) Backed (bits_for b.arch) _
                (Ensures-intro _ (bits_for b.arch) (λ bits e. e))
                λ bits known.
                  Ensures->>=
                    (λ found.
                      Native.digest_of summarise (readable_contents N b) bits (target b) ≡ ok found)
                    Backed (Native.digest_of summarise (readable_contents N b) bits (target b)) _
                    (Ensures-intro _
                      (Native.digest_of summarise (readable_contents N b) bits (target b))
                      (λ found e. e))
                    λ found returned. conclude-Backed b bits found loaded known returned)
        ]

  check_writable-Backed :
      (b : Binary) → load w path ≡ ok b → Ensures Backed (check_writable N summarise path b)
  unfolding check_writable
  check_writable-Backed b loaded = elim (Option-cases (writable_section b)) [
    | inl e ↦ rw (e, Ensures) (digest_readable-Backed b loaded)
    | inr (name, e) ↦ rw (e, Ensures) (λ text h. cc)
  ]

  analyse_binary-Backed :
      (b : Binary) → load w path ≡ ok b → Ensures Backed (analyse_binary N summarise path b)
  unfolding analyse_binary
  analyse_binary-Backed b loaded = elim (Bool-cases (b.is_il_only && not b.has_managed_native)) [
    | inl e ↦ rw e (λ text h. cc)
    | inr e ↦ elim (Bool-cases (not (has_sections b.sections))) [
      | inl f ↦ rw (e, f) (λ text h. cc)
      | inr f ↦ rw (e, f) (check_writable-Backed b loaded)
    ]
  ]

  -- Both handlers refuse or raise again.
  out_of_memory-Backed : (e : Exception) → Ensures Backed (out_of_memory path e)
  out_of_memory-Backed memory_error = λ text' h. cc
  out_of_memory-Backed (loader_error text) = tt
  out_of_memory-Backed (unsupported_format_error text) = tt
  out_of_memory-Backed (unsupported_arch_error text) = tt
  out_of_memory-Backed (os_error text) = tt
  out_of_memory-Backed (broken_pipe text) = tt
  out_of_memory-Backed (value_error text) = tt
  out_of_memory-Backed (type_error text) = tt
  out_of_memory-Backed (runtime_error text) = tt
  out_of_memory-Backed (other_error name text) = tt

  refuse_unloaded-Backed : (e : Exception) → Ensures Backed (refuse_unloaded path e)
  unfolding refuse_unloaded
  refuse_unloaded-Backed (loader_error text) = λ text' h. cc
  refuse_unloaded-Backed (unsupported_format_error text) = λ text' h. cc
  refuse_unloaded-Backed (unsupported_arch_error text) = λ text' h. cc
  refuse_unloaded-Backed memory_error = tt
  refuse_unloaded-Backed (os_error text) = tt
  refuse_unloaded-Backed (broken_pipe text) = tt
  refuse_unloaded-Backed (value_error text) = tt
  refuse_unloaded-Backed (type_error text) = tt
  refuse_unloaded-Backed (runtime_error text) = tt
  refuse_unloaded-Backed (other_error name text) = tt

  caught-Backed :
      (m : Outcome Exception Analysis)
      → Ensures Backed m
      → Ensures Backed (catch m (out_of_memory path))
  caught-Backed (ok a) h = h
  caught-Backed (raise e) h = out_of_memory-Backed e

  -- Every digest that an analysis returns is the text that the extension module returns for the binary
  -- that was loaded from the path: of its readable sections, the width of its instruction set and its
  -- target.
  pub analyse-IsDigest :
      (a : Analysis) (text : Text)
      → analyse N summarise w path ≡ ok a
      → a.digest ≡ some text
      → (b : Binary) × (load w path ≡ ok b) × IsDigest b text
  unfolding analyse analyse_loaded
  analyse-IsDigest a text returned made = elim (Outcome-cases (load w path)) [
    | inl (b, e) ↦
        Ensures-ok Backed (catch (analyse_binary N summarise path b) (out_of_memory path)) a
          (caught-Backed (analyse_binary N summarise path b) (analyse_binary-Backed b e))
          (rw e at returned) text made
    | inr (x, e) ↦
        Ensures-ok Backed (catch (refuse_unloaded path x) (out_of_memory path)) a
          (caught-Backed (refuse_unloaded path x) (refuse_unloaded-Backed x)) (rw e at returned)
          text made
  ]

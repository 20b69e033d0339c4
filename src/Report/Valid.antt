-- ===== src/Report/Valid.antt =====
-- The digest of an analysis of src/eous/report.py, as the text of a valid sketch.
use eous.Prelude.{ℕ, ◌≡◌, sym, ap, ◌∙◌, ◌⊎◌, inl, inr, Option, none, some, List, Option-cases}
use eous.Prelude.Text.{Text}
use eous.Prelude.Outcome.{ok}
use eous.Prelude.Float.{Float}
use eous.Native
use eous.Native.Summary.Reads.{returned-layout}
use eous.Digest.{Sketch}
use eous.Digest.Accepts.{IsValid}
use eous.Digest.RoundTrip.{sketch_text}
use eous.Loader.{Bytes, target}
use eous.Loader.Lief.{World}
use eous.Report.{FilePath, Analysis}
use eous.Report.Analyse.{analyse}
use eous.Report.Digests.{readable_contents, analyse-IsDigest}
use eous.Report.Emits.{IsSummary}

-- No digest, or the text of a valid sketch.
abbrev pub HasSketch : Analysis → Type 0
HasSketch a =
    (a.digest ≡ none)
    ⊎ ((sketch : Sketch) × (a.digest ≡ some (sketch_text sketch)) × IsValid sketch)

module _ (N : Float) (summarise : List Bytes → ℕ → Option (ℕ × Text))
    (summary : IsSummary summarise) (w : World) where
  pub analyse-HasSketch :
      (path : FilePath) (a : Analysis) → analyse N summarise w path ≡ ok a → HasSketch a
  unfolding sketch_text
  analyse-HasSketch path a returned = elim (Option-cases a.digest) [
    | inl e ↦ inl e
    | inr (text, e) ↦
        let (b, loaded, (bits, known, digested)) =
          analyse-IsDigest summarise N w path a text returned e in
        let (known_target, ((cardinality, body), found, laid_out)) =
          returned-layout summarise (readable_contents N b) bits (target b) text digested in
        let (bounded, slots, fits, same) =
          summary (readable_contents N b) bits cardinality body found in
        inr (
          record { target = target b; cardinality = cardinality; slots = slots },
          e ∙ ap some (sym laid_out ∙ ap (Native.layout (target b) cardinality) same),
          record { known_target = known_target; bounded = bounded; fits = fits },
        )
  ]

-- ===== src/Report/Emits.antt =====
-- The digests of `analyse` under `parse`: the format and the targets of src/eous/report.py,
-- loader.py, digest.py and the extension module.
use eous.Prelude.{
  ℕ, ◌^◌, ◌≤◌, ◌<◌, ◌≡◌, refl, subst, inl, inr, true, List, Option, some, Bool-cases, Option-cases,
}
use eous.Prelude.Text.{Text, contains}
use eous.Prelude.Outcome.{ok, Ensures, Ensures-ok}
use eous.Prelude.Float.{Float}
use eous.Native
use eous.Digest.{Sketch, max_cardinality, sketch_hex, parse}
use eous.Digest.Accepts.{IsValid}
use eous.Digest.RoundTrip.{hex_body, sketch_text, parse-sketch_text}
use eous.Loader.{Bytes, Binary, target}
use eous.Loader.Lief.{World}
use eous.Loader.Load.{load}
use eous.Loader.Loads.{target_known}
use eous.Loader.Errors.{load-IsLoadable}
use eous.Report.{FilePath, Analysis}
use eous.Report.Digests.{analyse-IsDigest, readable_contents}
use eous.Report.Analyse.{analyse}

-- What the extension module computes: the number of distinct shingles, that a double holds, and the
-- bytes of the sketch in hex.
abbrev pub IsSummary : (List Bytes → ℕ → Option (ℕ × Text)) → Type 0
IsSummary summarise =
    (sections : List Bytes) (bits cardinality : ℕ) (body : Text)
    → summarise sections bits ≡ some (cardinality, body)
    → (cardinality ≤ max_cardinality)
      × (slots : ℕ) × (slots < 16 ^ sketch_hex)
      × (body ≡ hex_body slots)

-- A text that parses, as a valid sketch of a target.
abbrev Reads : Text → Text → Type 0
Reads goal text = (s : Sketch) × (parse text ≡ ok s) × IsValid s × (s.target ≡ goal)

-- A digest that reads, if there is one.
abbrev Emits : Text → Option Text → Type 0
Emits goal found = (text : Text) → found ≡ some text → Reads goal text

layout-Reads :
    (goal : Text) (cardinality slots : ℕ)
    → contains Native.targets goal ≡ true
    → cardinality ≤ max_cardinality
    → slots < 16 ^ sketch_hex
    → Reads goal (Native.layout goal cardinality (hex_body slots))
unfolding sketch_text
layout-Reads goal cardinality slots known bounded fits =
    let s : Sketch = record { target = goal; cardinality = cardinality; slots = slots } in
    let valid : IsValid s = record { known_target = known; bounded = bounded; fits = fits } in
    (s, parse-sketch_text s valid, valid, refl)

module _ (summarise : List Bytes → ℕ → Option (ℕ × Text)) (summary : IsSummary summarise) where
  digest_of-Emits :
      (sections : List Bytes) (bits : ℕ) (goal : Text)
      → contains Native.targets goal ≡ true
      → Ensures (Emits goal) (Native.digest_of summarise sections bits goal)
  unfolding Native.digest_of
  digest_of-Emits sections bits goal known =
      elim (Bool-cases (Native.among Native.bitnesses bits)) [
        | inr e ↦ rw e tt
        | inl e ↦ elim (Option-cases (summarise sections bits)) [
          | inl f ↦ rw (e, known, f) (λ text h. cc)
          | inr ((cardinality, body), f) ↦
              let (bounded, slots, fits, same) = summary sections bits cardinality body f in
              rw (e, known, f)
                (λ text h.
                  let laid_out : Native.layout goal cardinality (hex_body slots) ≡ text = cc in
                  subst (Reads goal) laid_out
                    (layout-Reads goal cardinality slots known bounded fits))
        ]
      ]

  -- Where the extension module gives a cardinality that a double holds and a sketch in hex, every
  -- digest that an analysis returns is parsed as a valid sketch, of the target of the binary that
  -- was loaded from the path.
  analyse-parse :
      (N : Float) (w : World) (path : FilePath) (a : Analysis) (text : Text)
      → analyse N summarise w path ≡ ok a
      → a.digest ≡ some text
      → (b : Binary) × (load w path ≡ ok b)
        × ((s : Sketch) × (parse text ≡ ok s) × IsValid s × (s.target ≡ target b))
  analyse-parse N w path a text returned made =
      let (b, loaded, (bits, known, digested)) =
        analyse-IsDigest summarise N w path a text returned made in
      let emits =
        Ensures-ok (Emits (target b)) _ (some text)
          (digest_of-Emits (readable_contents N b) bits (target b)
            (target_known b (load-IsLoadable w path b loaded)))
          digested in
      (b, loaded, emits text refl)

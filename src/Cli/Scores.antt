-- ===== src/Cli/Scores.antt =====
-- src/eous/cli.py: `_scored`, `_print_scores`, `_rounded`, `_as_scores`, `_as_record`, `_meta` and
-- `_installed_version`, and `engines` of src/eous/toolchain.py.
use eous.Prelude.{ℕ, List, [], ◌∷◌, ◌++◌, Option, none, some, length, max}
use eous.Prelude.Text.{Text, codes}
use eous.Prelude.Float.{Float}
use eous.Digest.Score.{Scores, max_containment_ratio}
use eous.Report.{Analysis, Refusal}
use eous.Cli.Json.{Json, text, real, object, Fields, end, field, or_null}
use eous.Cli.Messages.{left_aligned, right_aligned, reason_text}
use eous.Cli.Readable.{readable}
use eous.Cli.Env.{Env}

module _ (N : Float) (E : Env N) where
  open N use {F, of_ℕ, fixed, general, round}

  -- `_scored`
  unfoldable pub scored : F → F → Text
  scored score margin =
      right_aligned 5 (fixed 1 score) ++ (codes "% +/- " ++ right_aligned 3 (fixed 1 margin))

  abbrev containment_line : ℕ → Text → Text → Text → F → Text
  containment_line width head one other share =
      head
      ++ (left_aligned width one
          ++ (codes " in "
              ++ (left_aligned width other
                  ++ (codes "  " ++ (right_aligned 5 (fixed 1 share) ++ codes "%")))))

  abbrev containment_lines : Text → Text → Option F → Option F → List Text
  containment_lines left right (some left_in_right) (some right_in_left) =
      let width = max (length left) (length right) in
      containment_line width (codes "containment: ") left right left_in_right
      ∷ containment_line width (codes "             ") right left right_in_left
      ∷ []
  containment_lines left right _ _ =
      (codes "containment: n/a (the two differ in size by more than "
        ++ (general (of_ℕ max_containment_ratio) ++ codes "x)"))
      ∷ []

  -- The lines of `_print_scores`.
  unfoldable pub score_lines : Scores N → Text → Text → List Text
  score_lines scores left right =
      (codes "similarity:  "
        ++ (fixed 1 scores.similarity ++ (codes "% +/- " ++ fixed 1 scores.uncertainty)))
      ∷ containment_lines (readable E.printable left) (readable E.printable right)
          scores.left_in_right scores.right_in_left

  -- `_rounded`, before some other fields.
  abbrev pub rounded_fields : F → F → Fields F → Fields F
  rounded_fields score margin rest =
      field (codes "similarity") (real (round 4 score))
        (field (codes "uncertainty") (real (round 4 margin)) rest)

  -- `_as_scores`
  unfoldable pub as_scores : Scores N → Option Text → Option Text → Json F
  as_scores scores left right = object (
      field (codes "left") (or_null text left) (
        field (codes "right") (or_null text right) (
          rounded_fields scores.similarity scores.uncertainty (
            field (codes "left_in_right") (or_null (λ x. real (round 4 x)) scores.left_in_right) (
              field (codes "right_in_left") (or_null (λ x. real (round 4 x)) scores.right_in_left)
                end)))))

  -- `_as_record`
  unfoldable pub as_record : Analysis → Json F
  as_record result = object (
      field (codes "path") (text result.path) (
        field (codes "digest") (or_null text result.digest) (
          field (codes "reason")
            (or_null (λ (refusal : Refusal). text (reason_text refusal.reason)) result.refusal)
            (field (codes "detail")
              (or_null (λ (refusal : Refusal). text refusal.detail) result.refusal) end))))

  -- `_installed_version`
  abbrev pub installed_version : Text
  installed_version = elim E.installed [ none ↦ codes "0.0.0+unknown" | some version ↦ version ]

  -- `engines`, in the order of the dictionary.
  abbrev pub engines : List (Text × Text)
  engines = (codes "iced-x86", E.iced_version) ∷ (codes "lief", E.lief_version) ∷ []

  abbrev text_fields : List (Text × Text) → Fields F
  text_fields [] = end
  text_fields ((name, value) ∷ rest) = field name (text value) (text_fields rest)

  -- `_meta`
  unfoldable pub meta : Json F
  meta = object (text_fields ((codes "eous", installed_version) ∷ engines))

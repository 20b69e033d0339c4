-- ===== src/Cli/Digests/Reads.antt =====
-- What `_read_digests` of src/eous/cli.py returns for any file.
use eous.Prelude.{
  ℕ, suc, ◌+◌, ◌≡◌, refl, ap, Bool, none, List, [], ◌∷◌, some, arith, length, All, Option-cases,
  inl, inr,
}
use eous.Prelude.Text.{Text}
use eous.Prelude.Outcome.{ok, raise, Outcome-cases}
use eous.Digest.{Sketch, DigestError, parse}
use eous.Digest.Accepts.{IsValid, parse-IsValid}
use eous.Cli.Fields.{words, last, before_last, strip}
use eous.Cli.Fields.Laws.{last-words-occurs}
use eous.Cli.Digests.{
  Line, blank, unparsed, labelled, Read, add_line, or_else, label_of, read_field, read_line,
  read_lines,
}

-- The sketches of the fields that parse.
abbrev pub sketches_of : List Text → List Sketch
sketches_of [] = []
sketches_of (field ∷ fields) = elim (parse field) [
  | ok sketch ↦ sketch ∷ sketches_of fields
  | raise e ↦ sketches_of fields
]

module _ (is_space : ℕ → Bool) where
  -- The last fields of the lines that are not blank.
  abbrev pub last_fields : List Text → List Text
  last_fields [] = []
  last_fields (line ∷ lines) = elim (last (words is_space line)) [
    | none ↦ last_fields lines
    | some field ↦ field ∷ last_fields lines
  ]

  -- The sketches are those of the last fields that parse, and the count is that of the other last
  -- fields. Each sketch has a label, and is valid.
  pub record IsRead (lines : List Text) (r : Read) : Type 0 where
    pub parsed : r.sketches ≡ sketches_of (last_fields lines)
    pub counted : length r.sketches + r.unparsed ≡ length (last_fields lines)
    pub paired : length r.labels ≡ length r.sketches
    pub valid : All IsValid r.sketches

  -- What a line is, by its last field.
  abbrev Describes : Text → Line → Type 0
  Describes line blank = last (words is_space line) ≡ none
  Describes line unparsed =
      (field : Text) × (last (words is_space line) ≡ some field)
      × (e : DigestError) × (parse field ≡ raise e)
  Describes line (labelled label sketch) =
      (field : Text) × (last (words is_space line) ≡ some field) × (parse field ≡ ok sketch)

  add_line-IsRead :
      (line : Text) (lines : List Text) (l : Line) (r : Read)
      → Describes line l
      → IsRead lines r
      → IsRead (line ∷ lines) (add_line l r)
  add_line-IsRead line lines blank r h k = record {
    parsed = rw (h, last_fields) k.parsed;
    counted = rw (h, last_fields) k.counted;
    paired = k.paired;
    valid = k.valid;
  }
  add_line-IsRead line lines unparsed r (field, h, e, refused) k = record {
    parsed = rw (h, last_fields) (rw (refused, sketches_of) k.parsed);
    counted = rw (h, last_fields) (omega (arith, k.counted));
    paired = k.paired;
    valid = k.valid;
  }
  add_line-IsRead line lines (labelled label sketch) r (field, h, parses) k = record {
    parsed = rw (h, last_fields) (rw (parses, sketches_of) (ap (◌∷◌ sketch) k.parsed));
    counted = rw (h, last_fields) (omega (arith, k.counted));
    paired = ap suc k.paired;
    valid = (parse-IsValid field sketch parses, k.valid);
  }

  -- A line whose last field parses.
  pub read_line_entry :
      (line field before : Text) (s : Sketch)
      → last (words is_space line) ≡ some field
      → parse field ≡ ok s
      → before_last field line ≡ some before
      → read_line is_space line ≡ ok (labelled (or_else (strip is_space before) field) s)
  unfolding read_line read_field label_of
  read_line_entry line field before s e parsed found =
      rw (e, read_line, parsed, read_field, found, label_of) refl

  read_field_returns :
      (field line before : Text)
      → last (words is_space line) ≡ some field
      → before_last field line ≡ some before
      → (l : Line) × (read_field is_space field line ≡ ok l) × Describes line l
  unfolding read_field label_of
  read_field_returns field line before is_last found = elim (Outcome-cases (parse field)) [
    | inl (sketch, e) ↦ (
      labelled (or_else (strip is_space before) field) sketch,
      rw (e, read_field, found, label_of) refl,
      (field, is_last, e),
    )
    | inr (x, e) ↦ (unparsed, rw (e, read_field) refl, (field, is_last, x, e))
  ]

  read_line_returns :
      (line : Text) → (l : Line) × (read_line is_space line ≡ ok l) × Describes line l
  unfolding read_line
  read_line_returns line = elim (Option-cases (last (words is_space line))) [
    | inl e ↦ (blank, rw (e, read_line) refl, e)
    | inr (field, e) ↦
        let (before, found) = last-words-occurs is_space line field e in
        let (l, read, described) = read_field_returns field line before e found in
        (l, rw (e, read_line) read, described)
  ]

  -- Reading the lines of any text returns: the last field of a line is always found in it. The sketches
  -- are those that `parse` gives of the last fields of the lines, in order, where it gives one. All are
  -- valid, and there is a label for each. The lines whose last field does not parse are counted, and
  -- blank lines are not.
  pub read_lines-IsRead :
      (lines : List Text) → (r : Read) × (read_lines is_space lines ≡ ok r) × IsRead lines r
  unfolding read_lines
  read_lines-IsRead [] = (
    record { labels = []; sketches = []; unparsed = 0 },
    refl,
    record { parsed = refl; counted = refl; paired = refl; valid = tt },
  )
  read_lines-IsRead (line ∷ lines) =
      let (l, first, described) = read_line_returns line in
      let (r, rest, is_read) = read_lines-IsRead lines in
      (add_line l r, rw first (rw rest refl), add_line-IsRead line lines l r described is_read)

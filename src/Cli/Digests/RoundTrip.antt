-- ===== src/Cli/Digests/RoundTrip.antt =====
-- The lines that `eous hash` writes, under `_read_digests` of src/eous/cli.py.
use eous.Cli.Console.{unlines}
use eous.Cli.Digests.Reads.{read_line_entry}
use eous.Prelude.{
  ℕ, ◌≡◌, refl, sym, ap, ◌∙◌, Bool, true, false, List, [], ◌∷◌, ◌++◌, append_assoc, map, arith,
  length, All, All-append, All-map, if◌then◌else◌, ◌<◌,
}
use eous.Prelude.Text.{Text}
use eous.Prelude.Outcome.{ok}
use eous.Prelude.Float.{Float}
use eous.Digest.{Sketch, parse}
use eous.Digest.Accepts.{IsValid}
use eous.Digest.RoundTrip.{sketch_text, parse-sketch_text}
use eous.Digest.Visible.{IsVisible, sketch_text-IsVisible, sketch_text_shape}
use eous.Report.{FilePath}
use eous.Cli.Fields.{last, before_last, strip, split_lines}
use eous.Cli.Fields.Laws.{
  before_last-append, last-words-append, words_word, strip-append, split_lines-append,
}
use eous.Cli.Readable.{readable, readable-All}
use eous.Cli.Env.{Env, IsUnicode}
use eous.Cli.Digests.{labelled, or_else, read_line, read_lines, digest_line}

-- A file with the digest of its sketch.
pub record Hashed : Type 0 where
  pub path : FilePath
  pub sketch : Sketch

module _ (N : Float) (E : Env N) (U : IsUnicode N E) where
  abbrev NoBreak : ℕ → Type 0
  NoBreak c = E.is_break c ≡ false

  abbrev NoSpace : ℕ → Type 0
  NoSpace c = E.is_space c ≡ false

  Visible-NoSpace : (w : Text) → All IsVisible w → All NoSpace w
  Visible-NoSpace w h = All-map w (λ c v. U.visible c v.0 v.1) h

  -- A digest behind what ends by a space, and a digest by itself.
  read_line_behind :
      (before field : Text) (s : Sketch)
      → 0 < length field
      → All NoSpace field
      → parse field ≡ ok s
      → read_line E.is_space (before ++ 32 ∷ field)
        ≡ ok (labelled (or_else (strip E.is_space before) field) s)
  read_line_behind before [] s filled plain parsed = absurd (omega arith)
  read_line_behind before (c ∷ w) s filled plain parsed =
      read_line_entry E.is_space (before ++ 32 ∷ c ∷ w) (c ∷ w) (before ++ 32 ∷ []) s
        (last-words-append E.is_space before 32 c w U.space plain) parsed
        (ap (before_last (c ∷ w)) (sym (append_assoc before (32 ∷ []) (c ∷ w)))
          ∙ before_last-append (before ++ 32 ∷ []) c w)
      ∙ ap (λ label. ok (labelled (or_else label (c ∷ w)) s))
          (strip-append E.is_space before 32 U.space)

  read_line_alone :
      (field : Text) (s : Sketch)
      → 0 < length field
      → All NoSpace field
      → parse field ≡ ok s
      → read_line E.is_space field ≡ ok (labelled field s)
  unfolding strip
  read_line_alone [] s filled plain parsed = absurd (omega arith)
  read_line_alone (c ∷ w) s filled plain parsed =
      read_line_entry E.is_space (c ∷ w) (c ∷ w) [] s
        (ap last (words_word E.is_space c w plain) ∙ unfold last in refl) parsed
        (before_last-append [] c w)

  -- The label of a file's line: the path as it is printed, without white space at its ends, or the
  -- digest if that leaves nothing or no path was printed.
  abbrev pub label_for : Bool → Hashed → Text
  label_for is_labelled h =
      if is_labelled
      then or_else (strip E.is_space (readable E.printable h.path)) (sketch_text h.sketch)
      else sketch_text h.sketch

  abbrev pub line_for : Bool → Hashed → Text
  line_for is_labelled h = digest_line N E is_labelled h.path (sketch_text h.sketch)

  filled : (s : Sketch) → 0 < length (sketch_text s)
  filled s = let (rest, shape) = sketch_text_shape s in rw shape (omega arith)

  space_unbroken : NoBreak 32
  space_unbroken = U.unbroken 32 (U.printable_ascii 32 (omega arith) (omega arith))

  read_line-digest_line :
      (is_labelled : Bool) (h : Hashed)
      → IsValid h.sketch
      → read_line E.is_space (line_for is_labelled h)
        ≡ ok (labelled (label_for is_labelled h) h.sketch)
  unfolding digest_line
  read_line-digest_line true h v =
      ap (read_line E.is_space)
        (sym (append_assoc (readable E.printable h.path) (32 ∷ []) (32 ∷ sketch_text h.sketch)))
      ∙ read_line_behind (readable E.printable h.path ++ 32 ∷ []) (sketch_text h.sketch) h.sketch
          (filled h.sketch) (Visible-NoSpace _ (sketch_text-IsVisible h.sketch v))
          (parse-sketch_text h.sketch v)
      ∙ ap (λ label. ok (labelled (or_else label (sketch_text h.sketch)) h.sketch))
          (strip-append E.is_space (readable E.printable h.path) 32 U.space)
  read_line-digest_line false h v =
      read_line_alone (sketch_text h.sketch) h.sketch (filled h.sketch)
        (Visible-NoSpace _ (sketch_text-IsVisible h.sketch v)) (parse-sketch_text h.sketch v)

  sketch_text-NoBreak : (s : Sketch) → IsValid s → All NoBreak (sketch_text s)
  sketch_text-NoBreak s v =
      All-map (sketch_text s)
        (λ c visible. U.unbroken c (U.printable_ascii c (omega (arith, visible.0)) visible.1))
        (sketch_text-IsVisible s v)

  digest_line-NoBreak :
      (is_labelled : Bool) (h : Hashed) → IsValid h.sketch → All NoBreak (line_for is_labelled h)
  unfolding digest_line
  digest_line-NoBreak true h v =
      All-append NoBreak (readable E.printable h.path) _
        (All-map (readable E.printable h.path) (λ c p. U.unbroken c p)
          (readable-All E.printable U.printable_ascii h.path))
        (space_unbroken, (space_unbroken, sketch_text-NoBreak h.sketch v))
  digest_line-NoBreak false h v = sketch_text-NoBreak h.sketch v

  -- Reading what `eous hash` wrote for files with valid sketches gives back these sketches in their
  -- order, each with the label of its file, and nothing that did not parse.
  pub read_lines-unlines :
      (is_labelled : Bool) (hs : List Hashed)
      → All (λ (h : Hashed). IsValid h.sketch) hs
      → read_lines E.is_space (split_lines E.is_break (unlines (map (line_for is_labelled) hs)))
        ≡ ok (record {
          labels = map (label_for is_labelled) hs;
          sketches = map (λ (h : Hashed). h.sketch) hs;
          unparsed = 0;
        })
  unfolding unlines read_lines
  read_lines-unlines is_labelled [] valid = unfold split_lines in refl
  read_lines-unlines is_labelled (h ∷ hs) valid =
      ap (read_lines E.is_space) (
        split_lines-append E.is_break (line_for is_labelled h) 10
          (unlines (map (line_for is_labelled) hs)) (digest_line-NoBreak is_labelled h valid.0)
          U.newline)
      ∙ rw (read_line-digest_line is_labelled h valid.0)
          (rw (read_lines-unlines is_labelled hs valid.1) refl)

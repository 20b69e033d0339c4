-- ===== src/Cli/Digests.antt =====
-- src/eous/cli.py: `_read_digests`, and `_print_line`, which writes what it reads.
pub mod Reads
pub mod RoundTrip
use eous.Prelude.{
  ℕ, suc, ◌+◌, Bool, true, false, not, List, [], ◌∷◌, ◌++◌, Option, none, some, ◌==◌, if◌then◌else◌,
}
use eous.Prelude.Text.{Text, codes}
use eous.Prelude.Outcome
use eous.Prelude.Outcome.{Outcome, ok, raise}
use eous.Prelude.Exception.{Exception, value_error, message, is_os_error}
use eous.Prelude.Float.{Float}
use eous.Digest.{Sketch, parse}
use eous.Report.{FilePath, Analysis}
use eous.Cli.Fields.{words, last, before_last, strip, split_lines}
use eous.Cli.Readable.{readable}
use eous.Cli.Console.{Command, ◌>>=◌, ◌>>◌, returns, lift, warn, warn_if, print}
use eous.Cli.Messages.{plural, refusal_line}
use eous.Cli.Env.{Env}

-- What a line is: nothing, no digest, or a digest with its label.
pub data Line : Type 0 where
  blank unparsed : Line
  labelled : Text → Sketch → Line

-- The lists `labels` and `sketches`, and the count `unparsed`.
pub record Read : Type 0 where
  pub labels : List Text
  pub sketches : List Sketch
  pub unparsed : ℕ

-- A line before those that follow it.
abbrev pub add_line : Line → Read → Read
add_line blank r = r
add_line unparsed r = record r { unparsed = suc r.unparsed }
add_line (labelled label sketch) r = record r {
  labels = label ∷ r.labels;
  sketches = sketch ∷ r.sketches;
}

-- `text or field`
abbrev pub or_else : Text → Text → Text
or_else [] field = field
or_else (c ∷ s) field = c ∷ s

module _ (is_space : ℕ → Bool) where
  -- `line[: line.rindex(field)].strip() or field`
  unfoldable pub label_of : Text → Text → Outcome Exception Text
  label_of field line = elim (before_last field line) [
    | none ↦ raise (value_error (codes "substring not found"))
    | some before ↦ ok (or_else (strip is_space before) field)
  ]

  unfoldable pub read_field : Text → Text → Outcome Exception Line
  read_field field line = elim (parse field) [
    | ok sketch ↦ Outcome.◌>>=◌ (label_of field line) (λ label. ok (labelled label sketch))
    | raise e ↦ ok unparsed
  ]

  unfoldable pub read_line : Text → Outcome Exception Line
  read_line line = elim (last (words is_space line)) [
    | none ↦ ok blank
    | some field ↦ read_field field line
  ]

  -- The loop over the lines.
  unfoldable pub read_lines : List Text → Outcome Exception Read
  read_lines [] = ok (record { labels = []; sketches = []; unparsed = 0 })
  read_lines (line ∷ lines) =
      Outcome.◌>>=◌ (read_line line)
        (λ l. Outcome.◌>>=◌ (read_lines lines) (λ r. ok (add_line l r)))

module _ (N : Float) (E : Env N) where
  unfoldable pub read_digests : FilePath → Command (Option Read)
  read_digests path = elim (E.read_text path) [
    | ok text ↦
        (lift (read_lines E.is_space (split_lines E.is_break text)) >>= λ r.
        warn_if (not (r.unparsed == 0)) (plural r.unparsed (codes "line") ++ codes " did not parse")
        >> returns (some r))
    | raise e ↦
        if is_os_error e
        then (warn (readable E.printable path ++ (codes ": " ++ message e)) >> returns none)
        else lift (raise e)
  ]

  -- The line of a result with a digest.
  unfoldable pub digest_line : Bool → FilePath → Text → Text
  digest_line is_labelled path digest =
      if is_labelled then readable E.printable path ++ 32 ∷ 32 ∷ digest else digest

  -- `_print_line`
  unfoldable pub print_line : Analysis → Bool → Bool → Command (Unit {0})
  print_line result is_labelled quiet = elim result.digest [
    | some digest ↦ print E.stdout (digest_line is_labelled result.path digest)
    | none ↦ elim result.refusal [
      | none ↦ returns tt
      | some refusal ↦ warn_if (not quiet) (refusal_line E.printable result.path refusal)
    ]
  ]

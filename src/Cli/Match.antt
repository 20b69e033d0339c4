-- ===== src/Cli/Match.antt =====
-- src/eous/cli.py: `_run_match`. The children prove what the ranking is.
pub mod Ranking
use eous.Prelude.{
  ℕ, ◌-◌, Bool, true, false, not, List, [], ◌∷◌, ◌++◌, map, filter, length, take, Option, none,
  some, ◌==◌, if◌then◌else◌,
}
use eous.Prelude.Text.{Text, codes, text_eq}
use eous.Prelude.Outcome.{ok, raise}
use eous.Prelude.Float.{Float}
use eous.Prelude.Sort.{sorted}
use eous.Digest.{Sketch, parse}
use eous.Digest.Slots.{unpack, unpack_all}
use eous.Digest.Score.{score, cardinalities}
use eous.Report.{FilePath}
use eous.Cli.Json.{text, number, items, items_of, object, end, field, Json}
use eous.Cli.Console.{Command, ◌>>=◌, ◌>>◌, returns, warn, warn_if, print, print_all}
use eous.Cli.Messages.{digest_message, plural}
use eous.Cli.Readable.{readable}
use eous.Cli.Digests.{Read, read_digests}
use eous.Cli.Scores.{scored, rounded_fields, meta}
use eous.Cli.Hash.{ok_code, usage_code}
use eous.Cli.Compare.{as_digest, with_digest}
use eous.Cli.Env.{Env, Options}

-- `zip(labels, sketches)`, of lists of one length.
abbrev pub zip : List Text → List Sketch → List (Text × Sketch)
zip (label ∷ labels) (sketch ∷ sketches) = (label, sketch) ∷ zip labels sketches
zip _ _ = []

module _ (N : Float) where
  open N use {F, le, general}

  pub record Row : Type 0 where
    pub score : F
    pub margin : F
    pub label : Text

  -- `zip(scored, spread, labels)`
  abbrev pub rows_of : List (F × F) → List Text → List Row
  rows_of ((s, m) ∷ figures) (label ∷ labels) =
      record { score = s; margin = m; label = label } ∷ rows_of figures labels
  rows_of _ _ = []

  -- The order of the keys `-row[0]`.
  abbrev pub ranks_before : Row → Row → Bool
  ranks_before r s = le s.score r.score

  abbrev pub kept_of : Text → List (Text × Sketch) → List (Text × Sketch)
  kept_of target = filter (λ (pair : Text × Sketch). text_eq pair.1.target target)

  abbrev pub scored_rows : Sketch → List (Text × Sketch) → List Row
  scored_rows query kept =
      let sketches = map (λ (pair : Text × Sketch). pair.1) kept in
      rows_of
        (score N (unpack_all sketches) (cardinalities N sketches) (unpack query) query.cardinality)
        (map (λ (pair : Text × Sketch). pair.0) kept)

  unfoldable pub order : Sketch → List (Text × Sketch) → List Row
  order query kept = sorted ranks_before (scored_rows query kept)

  unfoldable pub cleared : F → List Row → List Row
  cleared minimum = filter (λ (row : Row). le minimum row.score)

  module _ (E : Env N) where
    abbrev match_json : Row → Json F
    match_json row =
        object
          (field (codes "label") (text row.label) (rounded_fields N E row.score row.margin end))

    abbrev match_line : Row → Text
    match_line row =
        scored N E row.score row.margin ++ (codes "  " ++ readable E.printable row.label)

    unfoldable pub print_matches : Bool → Text → Text → ℕ → ℕ → ℕ → List Row → Command (Unit {0})
    print_matches json query target other_target unparsed below_minimum ranked =
        if json
        then print E.stdout (
            E.dumps (
              object (
                field (codes "meta") (meta N E) (
                  field (codes "query") (text query) (
                    field (codes "target") (text target) (
                      field (codes "skipped_other_target") (number other_target) (
                        field (codes "unparsed") (number unparsed) (
                          field (codes "below_minimum") (number below_minimum) (
                            field (codes "matches") (items (items_of match_json ranked))
                              end)))))))))
        else print_all E.stdout (map match_line ranked)

    -- The part behind the reading, for the pairs that were kept.
    unfoldable pub rank_kept :
        Options N → Text → FilePath → Sketch → Read → List (Text × Sketch) → Command ℕ
    rank_kept o given known query read [] =
        (warn (
            readable E.printable known
            ++ (codes ": contains no " ++ (query.target ++ codes " digest")))
          >> returns usage_code)
    rank_kept o given known query read (pair ∷ pairs) =
        let other_target = length read.sketches - length (pair ∷ pairs) in
        let ordered = order query (pair ∷ pairs) in
        let clear = cleared o.minimum ordered in
        let below_minimum = length ordered - length clear in
        (print_matches o.json given query.target other_target read.unparsed below_minimum
            (take o.top clear)
          >> warn_if (not (other_target == 0))
              (plural other_target (codes "digest") ++ codes " skipped, built for another target")
          >> warn_if (not (below_minimum == 0)) (
              plural below_minimum (codes "digest")
              ++ (codes " scored below " ++ (general o.minimum ++ codes "%")))
          >> returns ok_code)

    unfoldable pub match_read : Options N → Text → FilePath → Sketch → Option Read → Command ℕ
    match_read o given known query none = returns usage_code
    match_read o given known query (some read) =
        rank_kept o given known query read (kept_of query.target (zip read.labels read.sketches))

    unfoldable pub match_text : Options N → Text → FilePath → Text → Command ℕ
    match_text o given known digest_text = elim (parse digest_text) [
      | raise e ↦ (warn (digest_message E.repr e) >> returns usage_code)
      | ok query ↦ (read_digests N E known >>= match_read o given known query)
    ]

    unfoldable pub run_match : Options N → Text → FilePath → Command ℕ
    run_match o given known = as_digest N E given >>= λ found.
        with_digest N E given found (λ digest_text name. match_text o given known digest_text)

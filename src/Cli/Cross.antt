-- ===== src/Cli/Cross.antt =====
-- src/eous/cli.py: `_by_target` and `_run_cross`. The children prove what the groups and the pairs
-- are.
pub mod Groups
pub mod Targets
pub mod Pairs
use eous.Prelude.{
  ℕ, zero, suc, ◌+◌, ◌-◌, Bool, true, false, not, List, [], ◌∷◌, ◌++◌, map, filter, length, sum_by,
  Option, none, some, ltb, ◌==◌, if◌then◌else◌,
}
use eous.Prelude.Text.{Text, codes, text_eq}
use eous.Prelude.Outcome
use eous.Prelude.Outcome.{Outcome, ok, raise}
use eous.Prelude.Exception.{Exception, other_error}
use eous.Prelude.Float.{Float, lt}
use eous.Digest.{Sketch}
use eous.Digest.Slots.{unpack, unpack_all}
use eous.Digest.Score.{score, cardinalities}
use eous.Report.{FilePath}
use eous.Cli.Json.{Json, text, number, items, items_of, object, end, field}
use eous.Cli.Console.{Command, ◌>>=◌, ◌>>◌, returns, lift, warn, warn_if, print, print_all}
use eous.Cli.Messages.{plural, comma_join}
use eous.Cli.Readable.{readable}
use eous.Cli.Digests.{Read, read_digests}
use eous.Cli.Scores.{scored, rounded_fields, meta}
use eous.Cli.Hash.{ok_code, usage_code}
use eous.Cli.Env.{Env, Options}

-- An entry of the dictionary `grouped`: a target and the indices of its digests.
abbrev pub Group : Type 0
Group = Text × List ℕ

-- `grouped.setdefault(target, []).append(index)`
unfoldable pub add_member : Text → ℕ → List Group → List Group
add_member target index [] = (target, index ∷ []) ∷ []
add_member target index ((t, rows) ∷ groups) =
    let rest = add_member target index groups in
    if text_eq t target then (t, rows ++ index ∷ []) ∷ groups else (t, rows) ∷ rest

-- The loop over `enumerate(sketches)`, from an index on.
unfoldable pub group_from : ℕ → List Sketch → List Group → List Group
group_from index [] groups = groups
group_from index (s ∷ sketches) groups =
    group_from (suc index) sketches (add_member s.target index groups)

abbrev pub has_pair : Group → Bool
has_pair group = ltb 1 (length group.1)

-- `_by_target`
unfoldable pub by_target : List Sketch → List Group
by_target sketches = filter has_pair (group_from 0 sketches [])

-- `xs[index]`
unfoldable pub at {ℓ} : {A : Type ℓ} → List A → ℕ → Outcome Exception A
at [] index = raise (other_error (codes "IndexError") (codes "list index out of range"))
at (x ∷ xs) zero = ok x
at (x ∷ xs) (suc index) = at xs index

-- `[xs[index] for index in indices]`
unfoldable pub pick {ℓ} : {A : Type ℓ} → List A → List ℕ → Outcome Exception (List A)
pick xs [] = ok []
pick xs (index ∷ indices) =
    Outcome.◌>>=◌ (at xs index) (λ x. Outcome.◌>>=◌ (pick xs indices) (λ rest. ok (x ∷ rest)))

-- A digest of a group, with its label.
pub record Member : Type 0 where
  pub label : Text
  pub sketch : Sketch

abbrev pub members_of : List Text → List Sketch → List Member
members_of (label ∷ labels) (sketch ∷ sketches) =
    record { label = label; sketch = sketch } ∷ members_of labels sketches
members_of _ _ = []

module _ (N : Float) where
  open N use {F, le, general}

  pub record Pair : Type 0 where
    pub left : Text
    pub right : Text
    pub score : F
    pub margin : F

  -- The inner loop: the figures of one digest with those behind it.
  abbrev pub pairs_with : Text → List (F × F) → List Member → List Pair
  pairs_with left ((s, m) ∷ figures) (member ∷ members) =
      record { left = left; right = member.label; score = s; margin = m }
      ∷ pairs_with left figures members
  pairs_with left _ _ = []

  -- The loop over the offsets, which leave the suffixes `rows[offset + 1 :]`.
  unfoldable pub group_pairs : List Member → List Pair
  group_pairs [] = []
  group_pairs (member ∷ rest) =
      let sketches = map (λ (m : Member). m.sketch) rest in
      pairs_with member.label
        (score N (unpack_all sketches) (cardinalities N sketches) (unpack member.sketch)
          member.sketch.cardinality)
        rest
      ++ group_pairs rest

  -- `not score < args.minimum`
  abbrev pub reaches : F → Pair → Bool
  reaches minimum pair = not (lt N pair.score minimum)

  -- The pairs of some groups, each with its target.
  unfoldable pub all_pairs :
      List Text → List Sketch → List Group → Outcome Exception (List (Text × Pair))
  all_pairs labels sketches [] = ok []
  all_pairs labels sketches ((target, rows) ∷ groups) =
      Outcome.◌>>=◌ (pick labels rows) (λ group_labels.
        Outcome.◌>>=◌ (pick sketches rows) (λ group_sketches.
          Outcome.◌>>=◌ (all_pairs labels sketches groups) (λ rest. ok (
            map (λ (pair : Pair). (target, pair))
              (group_pairs (members_of group_labels group_sketches))
            ++ rest))))

  module _ (E : Env N) where
    abbrev pair_json : Text × Pair → Json F
    pair_json (target, pair) = object (
        field (codes "left") (text pair.left) (
          field (codes "right") (text pair.right)
            (field (codes "target") (text target) (rounded_fields N E pair.score pair.margin end))))

    abbrev pair_line : Text × Pair → Text
    pair_line (target, pair) =
        scored N E pair.score pair.margin
        ++ (codes "  "
            ++ (readable E.printable pair.left ++ (codes "  " ++ readable E.printable pair.right)))

    abbrev cross_head : Read → List Text → ℕ → Json F
    cross_head read targets alone = object (
        field (codes "meta") (meta N E) (
          field (codes "digests") (number (length read.sketches)) (
            field (codes "targets") (items (items_of text targets)) (
              field (codes "unparsed") (number read.unparsed)
                (field (codes "skipped_alone_in_target") (number alone) end)))))

    abbrev cross_foot : ℕ → ℕ → Json F
    cross_foot total below_minimum = object (
        field (codes "pairs_scored") (number total)
          (field (codes "below_minimum") (number below_minimum) end))

    -- What is written to standard output, in its order.
    unfoldable pub cross_lines :
        Bool → Read → List Text → ℕ → List (Text × Pair) → ℕ → ℕ → List Text
    cross_lines json read targets alone shown total below_minimum =
        if json
        then E.dumps (cross_head read targets alone)
          ∷ (map (λ pair. E.dumps (pair_json pair)) shown
              ++ E.dumps (cross_foot total below_minimum) ∷ [])
        else map pair_line shown

    -- The part behind the grouping, for the groups that were found.
    unfoldable pub cross_groups : Options N → FilePath → Read → List Group → Command ℕ
    cross_groups o known read [] =
        (warn (
            readable E.printable known
            ++ codes ": contains fewer than two digests of any one target")
          >> returns usage_code)
    cross_groups o known read (group ∷ groups) =
        let targets = map (λ (g : Group). g.0) (group ∷ groups) in
        let alone = length read.sketches - sum_by (λ (g : Group). length g.1) (group ∷ groups) in
        (lift (all_pairs read.labels read.sketches (group ∷ groups)) >>= λ pairs.
        let shown = filter (λ (pair : Text × Pair). reaches o.minimum pair.1) pairs in
        let total = length pairs in
        let below_minimum = total - length shown in
        (print_all E.stdout (cross_lines o.json read targets alone shown total below_minimum)
          >> warn (plural total (codes "pair") ++ (codes " scored across " ++ comma_join targets))
          >> warn_if (not (alone == 0))
              (plural alone (codes "digest") ++ codes " skipped, alone in its target")
          >> warn_if (not (below_minimum == 0)) (
              plural below_minimum (codes "pair")
              ++ (codes " scored below " ++ (general o.minimum ++ codes "%")))
          >> returns ok_code))

    unfoldable pub cross_read : Options N → FilePath → Option Read → Command ℕ
    cross_read o known none = returns usage_code
    cross_read o known (some read) = cross_groups o known read (by_target read.sketches)

    unfoldable pub run_cross : Options N → FilePath → Command ℕ
    run_cross o known = read_digests N E known >>= cross_read o known

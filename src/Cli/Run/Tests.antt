-- ===== src/Cli/Run/Tests.antt =====
-- The theorems on the commands at concrete digests, files and consoles.
use eous.Prelude.{
  ℕ, ◌+◌, ◌*◌, ◌≤◌, ◌≡◌, refl, false, List, [], ◌∷◌, map, length, take, ltb, All, none, some, ◌==◌,
}
use eous.Prelude.Text.{Text, codes, contains, text_eq}
use eous.Prelude.Outcome.{ok}
use eous.Prelude.Fixed.{fixed_point, fixed_point-IsOrdered}
use eous.Prelude.Sort.{sorted}
use eous.Digest.{Sketch}
use eous.Digest.RoundTrip.{sketch_text}
use eous.Report.{crashed}
use eous.Cli.Console.{blank_console, unlines}
use eous.Cli.Fields.{split_lines}
use eous.Cli.Expand.{Distinct, expand, unseen}
use eous.Cli.Digests.{Read, read_lines}
use eous.Cli.Digests.Reads.{IsRead, read_lines-IsRead}
use eous.Cli.Digests.RoundTrip.{label_for}
use eous.Cli.Match.{scored_rows, kept_of, cleared, order}
use eous.Cli.Match.Ranking
use eous.Cli.Match.Ranking.{IsBest, order-IsBest, scored_rows-compare}
use eous.Cli.Cross.{Group, Member, by_target, group_pairs, all_pairs, members_of}
use eous.Cli.Cross.Pairs
use eous.Cli.Cross.Pairs.{combinations, OfTarget, group_pairs-compare}
use eous.Cli.Cross.Groups.{indices_of, by_target-eq}
use eous.Cli.Cross.Targets.{target_pairs, all_pairs-by_target}
use eous.Cli.Hash.{hash_code}
use eous.Cli.Hash.Command.{labels, run_hash}
use eous.Cli.Run.{options, main}
use eous.Cli.Run.Returns.{main-returns}
use eous.Cli.Run.Prints.{run_hash-eq}
use eous.Cli.Run.Written.{written, digest_lines, refusal_lines}
use eous.Cli.Run.Reads.{nothing, refused, digested, run_hash-read_lines}
use eous.Cli.Run.Scenario.{
  small, small-IsValid, large, windows, is_space, found, env, open_stdout, closed_stdout, arguments,
  env-IsUnicode,
}

abbrev some_lines : List Text
some_lines = codes "a  EO1:elf64:5" ∷ codes "  " ∷ codes "b" ∷ []

read_lines-IsRead_example :
    (r : Read) × (read_lines is_space some_lines ≡ ok r) × IsRead is_space some_lines r
read_lines-IsRead_example = read_lines-IsRead is_space some_lines

abbrev known : List (Text × Sketch)
known = (codes "a", small) ∷ (codes "b", windows) ∷ (codes "c", large) ∷ []

order-IsBest_example : IsBest fixed_point 10 1 small known (
    take 1
      (cleared fixed_point 10 (order fixed_point small (kept_of fixed_point small.target known))))
order-IsBest_example = order-IsBest fixed_point fixed_point-IsOrdered 10 1 small known

scored_rows-compare_example :
    scored_rows fixed_point small (kept_of fixed_point small.target known)
    ≡ Ranking.compared_rows fixed_point small known
scored_rows-compare_example = scored_rows-compare fixed_point small known

abbrev members : List Member
members =
    record { label = codes "a"; sketch = small }
    ∷ record { label = codes "b"; sketch = large }
    ∷ record { label = codes "c"; sketch = small }
    ∷ []

group_pairs-compare_example :
    (map some (group_pairs fixed_point members)
      ≡ map (Pairs.compared fixed_point) (combinations members))
    × (2 * length (group_pairs fixed_point members) + length members
        ≡ length members * length members)
group_pairs-compare_example =
    group_pairs-compare fixed_point (codes "elf64") members (refl, (refl, (refl, tt)))

abbrev mixed : List Sketch
mixed = small ∷ windows ∷ large ∷ []

by_target-eq_example :
    All (λ (g : Group). g.1 ≡ indices_of g.0 0 mixed) (by_target mixed)
    × ((target : Text)
        → contains (map (λ (g : Group). g.0) (by_target mixed)) target
          ≡ ltb 1 (length (indices_of target 0 mixed)))
    × Distinct (map (λ (g : Group). g.0) (by_target mixed))
by_target-eq_example = by_target-eq mixed

abbrev names : List Text
names = codes "a" ∷ codes "b" ∷ codes "c" ∷ []

all_pairs-by_target_example :
    all_pairs fixed_point names mixed (by_target mixed)
    ≡ ok (target_pairs fixed_point (members_of names mixed) (by_target mixed))
all_pairs-by_target_example = all_pairs-by_target fixed_point names mixed refl

main-returns_example :
    (code : ℕ) × ((main fixed_point (env closed_stdout) (options arguments) blank_console).0
      ≡ ok code)
    × (code ≤ 3)
main-returns_example =
    main-returns fixed_point (env closed_stdout) (λ out e h. cc) (options arguments) blank_console

run_hash-eq_example : run_hash fixed_point (env open_stdout) arguments blank_console ≡ (
  ok (hash_code found false false),
  written fixed_point
      (env open_stdout)
      blank_console
      (digest_lines fixed_point
        (env open_stdout)
        (labels fixed_point (env open_stdout) arguments)
        found)
      (refusal_lines fixed_point (env open_stdout) false found),
)
unfolding expand unseen contains text_eq sorted
run_hash-eq_example =
    run_hash-eq fixed_point (env open_stdout) (λ out line. refl) arguments found blank_console refl
      refl refl

run_hash-read_lines_example :
    read_lines is_space (
      split_lines
        (λ c. c == 10)
        (unlines (run_hash fixed_point (env open_stdout) arguments blank_console).1.out))
    ≡ ok (record {
      labels =
          map
            (label_for fixed_point
              (env open_stdout)
              env-IsUnicode
              (labels fixed_point (env open_stdout) arguments))
            (record { path = codes "a"; sketch = small } ∷ []);
      sketches = small ∷ [];
      unparsed = 0;
    })
unfolding expand unseen contains text_eq sorted crashed
run_hash-read_lines_example =
    run_hash-read_lines fixed_point (env open_stdout) env-IsUnicode (λ out line. refl) arguments
      found (record { path = codes "a"; sketch = small } ∷ []) refl refl refl
      (digested (record { path = codes "a"; digest = some (sketch_text small); refusal = none })
        small refl small-IsValid (refused (crashed (codes "b")) refl nothing))

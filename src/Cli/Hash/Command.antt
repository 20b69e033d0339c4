-- ===== src/Cli/Hash/Command.antt =====
-- src/eous/cli.py: `_run_hash`.
use eous.Prelude.{
  ℕ, Bool, true, false, ◌&&◌, ◌||◌, not, List, [], ◌∷◌, ◌++◌, map, ltb, length, if◌then◌else◌,
}
use eous.Prelude.Text.{Text, codes, text_eq}
use eous.Prelude.Outcome.{Outcome, ok, raise}
use eous.Prelude.Exception.{Exception, is_os_error, is_broken_pipe}
use eous.Prelude.Float.{Float}
use eous.Report.{FilePath, Analysis, unreadable, refuse}
use eous.Cli.Json.{items, object, end, field, items_of}
use eous.Cli.Console.{Console, Command, ◌>>◌, returns, warn, print, quieten}
use eous.Cli.Expand.{expand}
use eous.Cli.Readable.{readable}
use eous.Cli.Messages.{comma_join}
use eous.Cli.Digests.{print_line}
use eous.Cli.Scores.{as_record, meta}
use eous.Cli.Hash.{usage_code, is_refused, is_failed, hash_code}
use eous.Cli.Env.{Env, Options}

-- `args.paths != paths`, turned round.
unfoldable pub same_paths : List FilePath → List FilePath → Bool
same_paths [] [] = true
same_paths (p ∷ ps) (q ∷ qs) = text_eq p q && same_paths ps qs
same_paths _ _ = false

-- The flags of the loop, which are read also where a write has raised.
pub record Flags : Type 0 where
  pub refused : Bool
  pub failed : Bool

abbrev pub code_of : Flags → ℕ
code_of flags = hash_code [] flags.refused flags.failed

-- What the loop returns or raises, the flags then and the console.
abbrev pub Ran : Type 0
Ran = Outcome Exception (Unit {0}) × Flags × Console

abbrev pub with_flags : Flags → Outcome Exception (Unit {0}) × Console → Ran
with_flags flags (o, c) = (o, flags, c)

abbrev pub then_on : Ran → (Flags → Console → Ran) → Ran
then_on (ok done, flags, c) k = k flags c
then_on (raise e, flags, c) k = (raise e, flags, c)

abbrev pub is_nil {ℓ} : {A : Type ℓ} → List A → Bool
is_nil [] = true
is_nil (x ∷ xs) = false

module _ (N : Float) (E : Env N) where
  open N use {F}

  -- The flags with a result's.
  abbrev pub flagged : Flags → Analysis → Flags
  flagged flags result = record {
    refused = flags.refused || is_refused result;
    failed = flags.failed || is_failed result;
  }

  -- The loop over results, where each is written.
  unfoldable pub hash_results : Bool → Bool → Bool → List Analysis → Flags → Console → Ran
  hash_results json labelled quiet [] flags c = (ok tt, flags, c)
  hash_results json labelled quiet (result ∷ results) flags c =
      then_on
        (with_flags (flagged flags result)
          (if json then returns tt c else print_line N E result labelled quiet c))
        (hash_results json labelled quiet results)

  -- The failures of the walk, as analyses.
  abbrev pub unwalked : List FilePath → List Analysis
  unwalked [] = []
  unwalked (path ∷ paths) =
      map (λ (failure : FilePath × Text). refuse failure.0 unreadable failure.1) (E.failures path)
      ++ unwalked paths

  -- `_analyse(paths) if paths else ()`
  abbrev pub analyses_of : List FilePath → Outcome Exception (List Analysis)
  analyses_of [] = ok []
  analyses_of (path ∷ paths) = E.analyse (path ∷ paths)

  abbrev pub print_records : Bool → List Analysis → Command (Unit {0})
  print_records json results =
      if json
      then print E.stdout (
          E.dumps (
            object (
              field (codes "meta") (meta N E)
                (field (codes "results") (items (items_of (as_record N E) results)) end))))
      else returns tt

  -- The body of the `try`: the loop over both lists, and the records.
  unfoldable pub hash_body : Bool → Bool → Bool → List Analysis → List FilePath → Console → Ran
  hash_body json labelled quiet refusals paths c =
      then_on
        (hash_results json labelled quiet refusals (record { refused = false; failed = false }) c)
        (λ flags c'. elim (analyses_of paths) [
          | raise e ↦ (raise e, flags, c')
          | ok results ↦
              then_on (hash_results json labelled quiet results flags c')
                (λ flags' c''. with_flags flags' (print_records json (refusals ++ results) c''))
        ])

  -- The `except OSError` clause and the return.
  unfoldable pub hash_end : Ran → Outcome Exception ℕ × Console
  hash_end (ok done, flags, c) = (ok (code_of flags), c)
  hash_end (raise e, flags, c) =
      if is_os_error e && (flags.refused && is_broken_pipe e)
      then (ok (code_of flags), quieten c)
      else (raise e, c)

  -- `labelled`
  abbrev pub labels : Options N → Bool
  labels o =
      let paths = expand E.path_le E.walk E.real o.paths in
      ltb 1 (length paths) || not (same_paths paths o.paths) || not (is_nil (unwalked o.paths))

  unfoldable pub run_hash : Options N → Command ℕ
  run_hash o c =
      let paths = expand E.path_le E.walk E.real o.paths in
      let refusals = unwalked o.paths in
      if is_nil paths && is_nil refusals
      then (warn (comma_join (map (readable E.printable) o.paths) ++ codes ": no file to hash")
            >> returns usage_code)
          c
      else hash_end (hash_body o.json (labels o) o.quiet refusals paths c)

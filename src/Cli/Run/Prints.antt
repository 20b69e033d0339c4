-- ===== src/Cli/Run/Prints.antt =====
-- What `eous hash` of src/eous/cli.py writes, where standard output takes every line and nothing is
-- written as JSON.
use eous.Prelude.{◌≡◌, refl, ap, sym, Bool, true, false, ◌&&◌, List, [], ◌∷◌, ◌++◌}
use eous.Prelude.Outcome.{ok}
use eous.Prelude.Float.{Float}
use eous.Report.{FilePath, Analysis}
use eous.Cli.Console.{Console, Open}
use eous.Cli.Expand.{expand}
use eous.Cli.Hash.{hash_code}
use eous.Cli.Hash.Command.{
  Flags, flagged, code_of, hash_results, hash_body, hash_end, unwalked, analyses_of, is_nil, labels,
  run_hash,
}
use eous.Cli.Env.{Env, Options}
use eous.Cli.Run.Written.{
  digest_line_of, refusal_line_of, digest_lines, refusal_lines, written, written-nil,
  written-written, print_line-written, digest_lines-append, refusal_lines-append,
}

module _ (N : Float) (E : Env N) where
  -- The flags behind the loop.
  abbrev all_flags : List Analysis → Flags → Flags
  all_flags [] flags = flags
  all_flags (result ∷ results) flags = all_flags results (flagged N E flags result)

  code_of-all_flags :
      (results : List Analysis) (flags : Flags)
      → code_of (all_flags results flags) ≡ hash_code results flags.refused flags.failed
  unfolding hash_code
  code_of-all_flags [] flags = refl
  code_of-all_flags (result ∷ results) flags = code_of-all_flags results (flagged N E flags result)

  all_flags-append :
      (results more : List Analysis) (flags : Flags)
      → all_flags (results ++ more) flags ≡ all_flags more (all_flags results flags)
  all_flags-append [] more flags = refl
  all_flags-append (result ∷ results) more flags =
      all_flags-append results more (flagged N E flags result)

  hash_results-written :
      Open E.stdout
      → (labelled quiet : Bool) (results : List Analysis) (flags : Flags) (c : Console)
      → hash_results N E false labelled quiet results flags c ≡ (
        ok tt,
        all_flags results flags,
        written N E c (digest_lines N E labelled results) (refusal_lines N E quiet results),
      )
  unfolding hash_results
  hash_results-written h labelled quiet [] flags c =
      ap (λ d. (ok tt, flags, d)) (sym (written-nil N E c))
  hash_results-written h labelled quiet (result ∷ results) flags c =
      rw (print_line-written N E h result labelled quiet c) (
        rw
          (hash_results-written h labelled quiet results (flagged N E flags result)
            (written N E c (digest_line_of N E labelled result) (refusal_line_of N E quiet result)))
          (ap (λ d. (ok tt, all_flags results (flagged N E flags result), d))
            (written-written N E c (digest_line_of N E labelled result)
              (refusal_line_of N E quiet result) (digest_lines N E labelled results)
              (refusal_lines N E quiet results))))

  abbrev unset : Flags
  unset = record { refused = false; failed = false }

  hash_body-written :
      Open E.stdout
      → (json labelled quiet : Bool) (refusals results : List Analysis) (paths : List FilePath)
        (c : Console)
      → json ≡ false
      → analyses_of N E paths ≡ ok results
      → hash_body N E json labelled quiet refusals paths c ≡ (
        ok tt,
        all_flags (refusals ++ results) unset,
        written N E c
            (digest_lines N E labelled (refusals ++ results))
            (refusal_lines N E quiet (refusals ++ results)),
      )
  unfolding hash_body
  hash_body-written h true labelled quiet refusals results paths c plain returned = cc
  hash_body-written h false labelled quiet refusals results paths c plain returned =
      rw (hash_results-written h labelled quiet refusals unset c) (
        rw returned (
          rw
            (hash_results-written h labelled quiet results (all_flags refusals unset) (
              written N E c (digest_lines N E labelled refusals)
                (refusal_lines N E quiet refusals)))
            (rw
              (
                written-written N E c (digest_lines N E labelled refusals)
                    (refusal_lines N E quiet refusals) (digest_lines N E labelled results)
                    (refusal_lines N E quiet results),
                all_flags-append refusals results unset,
                digest_lines-append N E labelled refusals results,
                refusal_lines-append N E quiet refusals results,
              )
              refl)))

  -- The files that `eous hash` finds, and the directories that it cannot read.
  abbrev pub files_of : Options N → List FilePath
  files_of o = expand E.path_le E.walk E.real o.paths

  -- Where standard output takes every line, JSON is not asked for, the analyses of the files return,
  -- and there is a file or a directory that cannot be read: `eous hash` writes one line to standard
  -- output for each file with a digest, and one to standard error for each that was refused unless it
  -- is quiet, both in the order of the results with the unread directories first, and returns the code
  -- that these results give.
  pub run_hash-eq :
      Open E.stdout
      → (o : Options N) (results : List Analysis) (c : Console) → o.json ≡ false
      → analyses_of N E (files_of o) ≡ ok results
      → is_nil (files_of o) && is_nil (unwalked N E o.paths) ≡ false
      → run_hash N E o c ≡ (
        ok (hash_code (unwalked N E o.paths ++ results) false false),
        written N E c
            (digest_lines N E (labels N E o) (unwalked N E o.paths ++ results))
            (refusal_lines N E o.quiet (unwalked N E o.paths ++ results)),
      )
  unfolding run_hash hash_end
  run_hash-eq h o results c plain returned found =
      rw
        (
          found,
          hash_body-written h o.json (labels N E o) o.quiet (unwalked N E o.paths) results
              (files_of o) c plain returned,
        )
        (ap
          (λ code. (
            ok code,
            written N E c (digest_lines N E (labels N E o) (unwalked N E o.paths ++ results))
                (refusal_lines N E o.quiet (unwalked N E o.paths ++ results)),
          ))
          (code_of-all_flags (unwalked N E o.paths ++ results) unset))

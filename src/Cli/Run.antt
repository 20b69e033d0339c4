-- ===== src/Cli/Run.antt =====
-- src/eous/cli.py: `_dispatch` and `main`. `CLOSED_PIPE` is that of POSIX.
pub mod Codes
pub mod Returns
pub mod Written
pub mod Prints
pub mod Reads
pub mod Pooled
pub mod Whole
mod Scenario
mod Tests
use eous.Prelude.{
  ℕ, Bool, true, false, ◌&&◌, ◌||◌, not, List, [], ◌∷◌, ◌++◌, map, Option, none, some, ltb, length,
  ◌==◌, if◌then◌else◌,
}
use eous.Prelude.Text.{Text, codes, text_eq}
use eous.Prelude.Outcome.{Outcome, ok, raise}
use eous.Prelude.Exception.{Exception, message, is_os_error, is_broken_pipe}
use eous.Prelude.Float.{Float}
use eous.Report.{FilePath, Analysis, unreadable, refuse}
use eous.Cli.Json.{Json, items, object, end, field, Items, items_of}
use eous.Cli.Console.{
  Console, Command, and_then, ◌>>=◌, ◌>>◌, returns, lift, warn, print, print_all, flush, quieten,
}
use eous.Cli.Expand.{expand}
use eous.Cli.Readable.{readable}
use eous.Cli.Messages.{comma_join}
use eous.Cli.Digests.{print_line}
use eous.Cli.Scores.{as_record, meta, installed_version, engines}
use eous.Cli.Hash.{ok_code, usage_code, internal_code, is_refused, is_failed, hash_code}
use eous.Cli.Hash.Command.{is_nil, run_hash}
use eous.Cli.Compare.{run_compare}
use eous.Cli.Match.{run_match}
use eous.Cli.Cross.{run_cross}
use eous.Cli.Env.{Env, Options}

-- What `parse_args` gives: the arguments, or the code of a SystemExit.
pub data Parsed (O : Type 0) : Type 0 where
  options : O → Parsed O
  exit : ℕ → Parsed O

module _ (N : Float) (E : Env N) where
  open N use {F}

  -- The lines of `--version`.
  abbrev version_lines : List Text
  version_lines =
      (codes "eous " ++ installed_version N E)
      ∷ map (λ (engine : Text × Text). engine.0 ++ 32 ∷ engine.1) (engines N E)

  -- `args.left and args.right`, for texts that may be empty or missing.
  abbrev given : Option Text → Option Text
  given none = none
  given (some []) = none
  given (some (c ∷ s)) = some (c ∷ s)

  abbrev coded : Command ℕ → Command (Option ℕ)
  coded m = m >>= λ code. returns (some code)

  unfoldable pub compare_given : Options N → Option Text → Option Text → Command (Option ℕ)
  compare_given o (some left) (some right) = coded (run_compare N E o.json left right)
  compare_given o _ _ = returns none

  unfoldable pub match_given : Options N → Option Text → Option FilePath → Command (Option ℕ)
  match_given o (some query) (some known) = coded (run_match N E o query known)
  match_given o _ _ = returns none

  unfoldable pub cross_given : Options N → Option FilePath → Command (Option ℕ)
  cross_given o (some known) = coded (run_cross N E o known)
  cross_given o none = returns none

  -- `_dispatch`
  unfoldable pub dispatch : Options N → Command (Option ℕ)
  dispatch o =
      if o.version
      then (print_all E.stdout version_lines >> returns (some ok_code))
      else if text_eq o.command (codes "hash") && not (is_nil o.paths)
      then coded (run_hash N E o)
      else if text_eq o.command (codes "compare")
      then compare_given o (given o.left) (given o.right)
      else if text_eq o.command (codes "match")
      then match_given o (given o.query) o.known
      else if text_eq o.command (codes "cross")
      then cross_given o o.known
      else returns none

  -- The inner `try` of `main`.
  unfoldable pub flushed : Outcome Exception (Unit {0}) × Console → Outcome Exception ℕ × Console
  flushed (ok done, c) = (ok internal_code, c)
  flushed (raise e, c) = if is_os_error e then (ok internal_code, quieten c) else (raise e, c)

  -- An internal error.
  abbrev pub recovered : Exception → Command ℕ
  recovered e c = flushed (
      flush E.stdout
        (record c { err = c.err ++ (codes "eous: internal error: " ++ message e) ∷ [] }))

  -- The `except Exception` clause of `main`.
  unfoldable pub recover : Exception → Command ℕ
  recover e c = if is_broken_pipe e then (ok ok_code, quieten c) else recovered e c

  -- The end of `main`.
  unfoldable pub conclude : Outcome Exception (Option ℕ) × Console → Outcome Exception ℕ × Console
  conclude (ok (some code), c) = (ok code, c)
  conclude (ok none, c) = (ok usage_code, record c { err = c.err ++ E.usage ∷ [] })
  conclude (raise e, c) = recover e c

  unfoldable pub main : Parsed (Options N) → Command ℕ
  main (exit code) c = (ok (if code == 0 then ok_code else usage_code), c)
  main (options o) c = conclude ((dispatch o >>= λ code. flush E.stdout >> returns code) c)

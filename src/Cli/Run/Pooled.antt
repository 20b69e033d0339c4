-- ===== src/Cli/Run/Pooled.antt =====
-- `eous hash` on the pool: `_run_hash` and `_analyse` of src/eous/cli.py with src/eous/pool.py.
mod Tests
use eous.Prelude.{
  ◌≡◌, ◌∙◌, ◌≤◌, ◌<◌, refl, ap, Bool, false, ◌&&◌, List, [], ◌∷◌, ◌++◌, length, min, All, arith,
}
use eous.Prelude.Outcome.{Outcome, ok, ◌>>=◌}
use eous.Prelude.Exception.{Exception}
use eous.Prelude.Float.{Float}
use eous.Report.{FilePath, Analysis}
use eous.Pool.{Pool, begin}
use eous.Pool.Runs.{Undisturbed, EachWakes}
use eous.Pool.Analyse.{analyse_finishes}
use eous.Pool.Invariant.{InOrder}
use eous.Cli.Console.{Console, Open}
use eous.Cli.Hash.{hash_code}
use eous.Cli.Hash.Command.{unwalked, analyses_of, is_nil, labels, run_hash}
use eous.Cli.Run.Prints.{files_of, run_hash-eq}
use eous.Cli.Run.Written.{written, digest_lines, refusal_lines}
use eous.Cli.Analyses.{Machine, job_of, analyse_paths}
use eous.Cli.Env.{Env, Options}

module _ (N : Float) (E : Env N) where
  analyses_of_some :
      (paths : List FilePath) → 0 < length paths → analyses_of N E paths ≡ E.analyse paths
  analyses_of_some [] h = absurd (omega (arith, h))
  analyses_of_some (path ∷ paths) h = refl

  is_nil_some : (paths : List FilePath) (b : Bool) → 0 < length paths → is_nil paths && b ≡ false
  is_nil_some [] b h = absurd (omega (arith, h))
  is_nil_some (path ∷ paths) b h = refl

  -- Where standard output takes every line, JSON is not asked for, there is a file to hash, and the
  -- analyses are those of the pool, with a worker or more, where every new pipe takes its task, every
  -- reply can be read, every process that replaces another starts and each pass ends a task, for as many passes as files: `eous hash` ends. It writes the lines and returns
  -- the code of one analysis for every file, in the order of the files, with those that crashed or
  -- overran among them, behind the directories that cannot be read.
  pub run_hash-pooled :
      Open E.stdout
      → (o : Options N) (c : Console) (m : Machine)
        (analyse_one : FilePath → Outcome Exception Analysis)
      → o.json ≡ false
      → 0 < length (files_of N E o)
      → E.analyse (files_of N E o) ≡ analyse_paths m analyse_one (files_of N E o)
      → 0 < m.workers
      → min (length (files_of N E o)) m.workers ≤ length m.first
      → Undisturbed (job_of m analyse_one (files_of N E o)) m.first
      → All (Undisturbed (job_of m analyse_one (files_of N E o))) m.passes
      → ((p : Pool)
          → begin (job_of m analyse_one (files_of N E o)) m.workers m.first ≡ ok p
          → EachWakes (job_of m analyse_one (files_of N E o)) m.passes p)
      → length (files_of N E o) ≤ length m.passes
      → (results : List Analysis) × (run_hash N E o c ≡ (
        ok (hash_code (unwalked N E o.paths ++ results) false false),
        written N E c
            (digest_lines N E (labels N E o) (unwalked N E o.paths ++ results))
            (refusal_lines N E o.quiet (unwalked N E o.paths ++ results)),
      ))
        × (length results ≡ length (files_of N E o))
        × InOrder (job_of m analyse_one (files_of N E o)) 0 results
  unfolding analyse_paths
  run_hash-pooled h o c m analyse_one plain some_files pooled workers covered sends all_send wakes
        enough =
      let job = job_of m analyse_one (files_of N E o) in
      let (q, finished, counted, in_order) =
        analyse_finishes job m.workers m.first m.passes workers covered sends all_send wakes
          enough in
      let returned : analyses_of N E (files_of N E o) ≡ ok q.yielded =
        analyses_of_some (files_of N E o) some_files
        ∙ pooled
        ∙ ap (λ (r : Outcome Exception Pool). r >>= λ (pool : Pool). ok pool.yielded) finished in
      (
        q.yielded,
        run_hash-eq N E h o q.yielded c plain returned
            (is_nil_some (files_of N E o) (is_nil (unwalked N E o.paths)) some_files),
        counted,
        in_order,
      )

-- ===== src/Cli/Run/Whole.antt =====
-- `eous hash` on the pool and the analysis, read back as `eous match` and `eous cross` do: src/eous/cli.py,
-- pool.py, report.py and digest.py.

use eous.Prelude.{
  ℕ, suc, ◌≤◌, ◌<◌, min, ◌≡◌, refl, sym, ap, ◌∙◌, subst, inl, inr, false, Option, List, [], ◌∷◌,
  ◌++◌, map, length, All, All-append,
}
use eous.Prelude.Text.{Text}
use eous.Prelude.Outcome.{Outcome, ok, raise}
use eous.Prelude.Exception.{Exception}
use eous.Prelude.Float.{Float}
use eous.Loader.{Bytes}
use eous.Loader.Lief.{World}
use eous.Report.{FilePath, Analysis, refuse, unreadable, crashed, overran, failed}
use eous.Report.Analyse.{analyse}
use eous.Report.Emits.{IsSummary}
use eous.Report.Valid.{HasSketch, analyse-HasSketch}
use eous.Pool.{Job, Pool, begin, settle, path_at}
use eous.Pool.Slots.{Outcomes}
use eous.Pool.Invariant.{InOrder}
use eous.Pool.Runs.{Undisturbed, EachWakes}
use eous.Cli.Console.{Open, blank_console, unlines}
use eous.Cli.Fields.{split_lines}
use eous.Cli.Digests.{read_lines}
use eous.Cli.Digests.RoundTrip.{Hashed, label_for, read_lines-unlines}
use eous.Cli.Hash.Command.{unwalked, labels, run_hash}
use eous.Cli.Run.Prints.{files_of}
use eous.Cli.Run.Reads.{
  Digested, nothing, refused, digested, Digested-IsValid, digest_lines-Digested,
}
use eous.Cli.Run.Pooled.{run_hash-pooled}
use eous.Cli.Analyses.{Machine, job_of, analyse_paths}
use eous.Cli.Env.{Env, Options, IsUnicode}

-- What the analyses of a job make, with their sketches.
module _ (job : Job)
    (sound : (path : FilePath) (a : Analysis) → job.analyse_one path ≡ ok a → HasSketch a) where
  settle-HasSketch :
      (path : FilePath) (o : Outcome Exception Analysis)
      → ((a : Analysis) → o ≡ ok a → HasSketch a)
      → HasSketch (settle job path o)
  unfolding failed
  settle-HasSketch path (ok a) h = h a refl
  settle-HasSketch path (raise e) h = inl refl

  Outcomes-HasSketch : (i : ℕ) (a : Analysis) → Outcomes job i a → HasSketch a
  unfolding crashed overran
  Outcomes-HasSketch i a (inl e) =
      subst HasSketch (sym e)
        (settle-HasSketch (path_at job i) (job.analyse_one (path_at job i)) (sound (path_at job i)))
  Outcomes-HasSketch i a (inr (inl e)) = inl (ap (λ (r : Analysis). r.digest) e)
  Outcomes-HasSketch i a (inr (inr e)) = inl (ap (λ (r : Analysis). r.digest) e)

  InOrder-HasSketch :
      (i : ℕ) (results : List Analysis) → InOrder job i results → All HasSketch results
  InOrder-HasSketch i [] h = tt
  InOrder-HasSketch i (a ∷ results) h =
      (Outcomes-HasSketch i a h.0, InOrder-HasSketch (suc i) results h.1)

sketches_of :
    (results : List Analysis) → All HasSketch results → (hs : List Hashed) × Digested results hs
sketches_of [] h = ([], nothing)
sketches_of (a ∷ results) (inl e, h) = let (hs, d) = sketches_of results h in (hs, refused a e d)
sketches_of (a ∷ results) (inr (sketch, e, valid), h) =
    let (hs, d) = sketches_of results h in
    (record { path = a.path; sketch = sketch } ∷ hs, digested a sketch e valid d)

module _ (N : Float) (E : Env N) where
  refused-HasSketch :
      (failures : List (FilePath × Text))
      → All HasSketch
          (map (λ (failure : FilePath × Text). refuse failure.0 unreadable failure.1) failures)
  refused-HasSketch [] = tt
  refused-HasSketch (failure ∷ failures) = (inl refl, refused-HasSketch failures)

  unwalked-HasSketch : (paths : List FilePath) → All HasSketch (unwalked N E paths)
  unwalked-HasSketch [] = tt
  unwalked-HasSketch (path ∷ paths) =
      All-append HasSketch _ (unwalked N E paths) (refused-HasSketch (E.failures path))
        (unwalked-HasSketch paths)

  -- Where standard output takes every line, JSON is not asked for, there is a file to hash, and the
  -- analyses are those of the pool over `report.analyse`, with an extension module whose cardinalities a
  -- double holds and whose sketches are in hex, with a worker or more, where every new pipe takes its
  -- task, every reply can be read, every process that replaces another starts and each pass ends a task, for as many passes as files: `eous hash` ends with one result for
  -- every file in the order of the files, behind the directories that cannot be read, and reading its
  -- output gives exactly the valid sketches of the results that are no refusals, in their order, each
  -- with the label of its file, and no line that does not parse.
  pub run_hash-sketches :
      (U : IsUnicode N E)
      → Open E.stdout
      → (summarise : List Bytes → ℕ → Option (ℕ × Text)) → IsSummary summarise
      → (w : World) (o : Options N) (m : Machine) → o.json ≡ false
      → 0 < length (files_of N E o)
      → E.analyse (files_of N E o) ≡ analyse_paths m (analyse N summarise w) (files_of N E o)
      → 0 < m.workers
      → min (length (files_of N E o)) m.workers ≤ length m.first
      → Undisturbed (job_of m (analyse N summarise w) (files_of N E o)) m.first
      → All (Undisturbed (job_of m (analyse N summarise w) (files_of N E o))) m.passes
      → ((p : Pool)
          → begin (job_of m (analyse N summarise w) (files_of N E o)) m.workers m.first ≡ ok p
          → EachWakes (job_of m (analyse N summarise w) (files_of N E o)) m.passes p)
      → length (files_of N E o) ≤ length m.passes
      → (results : List Analysis) × (hs : List Hashed) × (length results ≡ length (files_of N E o))
        × InOrder (job_of m (analyse N summarise w) (files_of N E o)) 0 results
        × Digested (unwalked N E o.paths ++ results) hs
        × (read_lines E.is_space
              (split_lines E.is_break (unlines (run_hash N E o blank_console).1.out))
            ≡ ok (record {
              labels = map (label_for N E U (labels N E o)) hs;
              sketches = map (λ (h : Hashed). h.sketch) hs;
              unparsed = 0;
            }))
  run_hash-sketches U h summarise summary w o m plain some_files pooled workers covered sends
        all_send wakes enough =
      let job = job_of m (analyse N summarise w) (files_of N E o) in
      let (results, ended, counted, in_order) =
        run_hash-pooled N E h o blank_console m (analyse N summarise w) plain some_files pooled
          workers covered sends all_send wakes enough in
      let (hs, d) = sketches_of (unwalked N E o.paths ++ results) (
        All-append HasSketch (unwalked N E o.paths) results (unwalked-HasSketch o.paths)
          (InOrder-HasSketch job (analyse-HasSketch N summarise summary w) 0 results in_order)) in
      (
        results,
        hs,
        counted,
        in_order,
        d,
        ap (λ r. read_lines E.is_space (split_lines E.is_break (unlines r.1.out))) ended
            ∙ ap (λ lines. read_lines E.is_space (split_lines E.is_break (unlines lines)))
                (digest_lines-Digested N E U (labels N E o) d)
            ∙ read_lines-unlines N E U (labels N E o) hs (Digested-IsValid d),
      )

-- ===== src/Cli/Analyses.antt =====
-- `_analyse` of src/eous/cli.py: the iteration over `pool.analyse(paths, report.analyse)`.
use eous.Prelude.{ℕ, List, none, some, get_elem?}
use eous.Prelude.Outcome.{Outcome, ok, ◌>>=◌}
use eous.Prelude.Exception.{Exception}
use eous.Report.{FilePath, Analysis}
use eous.Pool
use eous.Pool.{Job, Observation}

-- The machine that the pool runs on: the sizes of the files, the number of workers, and what the parent
-- observes at the first assignments and in each pass of its loop.
pub record Machine : Type 0 where
  pub size : FilePath → ℕ
  pub workers : ℕ
  pub first : List Observation
  pub passes : List (List Observation)

abbrev pub job_of : Machine → (FilePath → Outcome Exception Analysis) → List FilePath → Job
job_of machine analyse_one paths = record {
  paths = paths;
  size = λ index. elim (get_elem? paths index) [ none ↦ 0 | some path ↦ machine.size path ];
  analyse_one = analyse_one;
}

-- `_analyse`, as the list of what it yields.
unfoldable pub analyse_paths :
    Machine
    → (FilePath → Outcome Exception Analysis)
    → List FilePath
    → Outcome Exception (List Analysis)
analyse_paths machine analyse_one paths =
    Pool.analyse (job_of machine analyse_one paths) machine.workers machine.first machine.passes
    >>= λ pool. ok pool.yielded

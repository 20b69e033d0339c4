-- ===== src/Pool.antt =====
-- src/eous/pool.py, the parent's side: `analyse` with `_start`, `_replace` and `_assign`. What the
-- parent sees of its workers, its clock and its pipes in one pass of the loop is an `Observation`
-- for each slot, so a run is a function of a schedule. Times are counted in units of 2^-20 seconds,
-- in which the limits are whole numbers.
pub mod Jobs
pub mod Limits
pub mod Work
pub mod Slots
pub mod Passes
pub mod Invariant
pub mod Runs
pub mod Analyse
pub mod Shutdown
mod Tests
use eous.Prelude.{
  ℕ, zero, suc, ◌+◌, ◌-◌, ◌*◌, ◌^◌, ◌≡◌, Bool, true, false, List, [], ◌∷◌, ◌++◌, Option, none, some,
  ltb, leb, ◌==◌, if◌then◌else◌, length, get_elem?, min,
}
use eous.Prelude.Text.{Text, codes}
use eous.Prelude.Outcome.{Outcome, ok, raise, ◌>>=◌}
use eous.Prelude.Exception.{Exception, broken_pipe}
use eous.Report.{FilePath, Analysis, crashed, failed, overran}

-- Thirty seconds, and one second for each MiB.
abbrev pub time_base : ℕ
time_base = 30 * 2 ^ 20

abbrev pub time_per_byte : ℕ
time_per_byte = 1

-- What `analyse` is called with: the files with their sizes, and `analyse_one`, which a worker
-- calls on the path of its task.
pub record Job : Type 0 where
  pub paths : List FilePath
  pub size : ℕ → ℕ
  pub analyse_one : FilePath → Outcome Exception Analysis

-- `_Worker`. A process and its pipe are a number of their own.
pub record Worker : Type 0 where
  pub process : ℕ
  pub index : Option ℕ
  pub deadline : ℕ
  pub seconds : ℕ

-- The locals of `analyse`: the queue by the next index that it yields, and what was yielded so far.
-- `processes` counts the processes started, of which those in `gone` were killed and joined, and their
-- pipes closed.
pub record Pool : Type 0 where
  pub workers : List Worker
  pub queue : ℕ
  pub done : List (ℕ × Analysis)
  pub following : ℕ
  pub yielded : List Analysis
  pub processes : ℕ
  pub gone : List ℕ

-- What a worker's pipe shows: nothing, the reply to the task, or its end.
pub data Signal : Type 0 where
  silent replied broken : Signal

-- For one slot in one pass: the signal, the clock at the test of the deadline, whether the pipe and
-- then a new pipe take a task, and the clock when the task was sent. `recv` may raise another exception
-- than EOFError and OSError, where it cannot read the reply; and `_start` may raise, where `_replace` has
-- ended the worker that crashed or overran, or the one whose pipe did not take the task.
pub record Observation : Type 0 where
  pub signal : Signal
  pub now : ℕ
  pub sends : Bool
  pub resends : Bool
  pub assigned_at : ℕ
  pub recv_raises : Option Exception
  pub start_raises : Option Exception
  pub restart_raises : Option Exception

-- The part of the state that the loop over the slots shares.
pub record Shared : Type 0 where
  pub queue : ℕ
  pub done : List (ℕ × Analysis)
  pub processes : ℕ
  pub gone : List ℕ

-- `done` as an association list.
unfoldable pub find : ℕ → List (ℕ × Analysis) → Option Analysis
find i [] = none
find i ((j, a) ∷ rest) = if j == i then some a else find i rest

unfoldable pub remove : ℕ → List (ℕ × Analysis) → List (ℕ × Analysis)
remove i [] = []
remove i ((j, a) ∷ rest) = if j == i then rest else (j, a) ∷ remove i rest

module _ (job : Job) where
  abbrev pub total : ℕ
  total = length job.paths

  -- `paths[index]`, for an index in range.
  abbrev pub path_at : ℕ → FilePath
  path_at index = elim (get_elem? job.paths index) [ none ↦ [] | some path ↦ path ]

  abbrev pub seconds_for : ℕ → ℕ
  seconds_for index = time_base + time_per_byte * job.size index

  -- `_start`
  abbrev pub start : ℕ → Worker
  start process = record { process = process; index = none; deadline = 0; seconds = 0 }

  -- `_assign` behind a send that went through.
  abbrev give : Observation → Worker → ℕ → Worker
  give o worker index = record worker {
    index = some index;
    seconds = seconds_for index;
    deadline = o.assigned_at + seconds_for index;
  }

  -- `_assign`: the first index of the queue goes to the worker, or to a new one if its pipe broke.
  unfoldable pub assign : Observation → Worker → Shared → Outcome Exception (Worker × Shared)
  assign o worker s =
      if leb total s.queue
      then ok (worker, s)
      else if o.sends
      then ok (give o worker s.queue, record s { queue = suc s.queue })
      else elim o.restart_raises [
        | some e ↦ raise e
        | none ↦
            if o.resends
            then ok (
              give o (start s.processes) s.queue,
              record s {
                queue = suc s.queue;
                processes = suc s.processes;
                gone = worker.process ∷ s.gone;
              },
            )
            else raise (broken_pipe (codes "Broken pipe"))
      ]

  -- What `recv` returned, as an analysis.
  abbrev pub settle : FilePath → Outcome Exception Analysis → Analysis
  settle path (ok analysis) = analysis
  settle path (raise exc) = failed path exc

  -- Whether the pass ends the worker's task.
  abbrev pub ends : Observation → Worker → Bool
  ends o worker = elim o.signal [
    | silent ↦ leb worker.deadline o.now
    | replied ↦ true
    | broken ↦ true
  ]

  -- The outcome that the pass stores for a task that it ends.
  abbrev pub outcome : Observation → Worker → ℕ → Analysis
  outcome o worker index = elim o.signal [
    | silent ↦ overran (path_at index) worker.seconds
    | replied ↦ settle (path_at index) (job.analyse_one (path_at index))
    | broken ↦ crashed (path_at index)
  ]

  -- A worker that crashed or overran is replaced.
  abbrev pub survivor : Observation → Worker → ℕ → Worker
  survivor o worker processes = elim o.signal [
    | silent ↦ start processes
    | replied ↦ record worker { index = none }
    | broken ↦ start processes
  ]

  abbrev pub started_processes : Observation → ℕ → ℕ
  started_processes o processes = elim o.signal [
    | silent ↦ suc processes
    | replied ↦ processes
    | broken ↦ suc processes
  ]

  -- `_replace` ends the process of the worker.
  abbrev pub retired : Observation → Worker → List ℕ → List ℕ
  retired o worker gone = elim o.signal [
    | silent ↦ worker.process ∷ gone
    | replied ↦ gone
    | broken ↦ worker.process ∷ gone
  ]

  -- What `recv`, or `_start` in `_replace`, raises before the outcome is stored.
  abbrev pub interrupts : Observation → Worker → Option Exception
  interrupts o worker = elim o.signal [
    | silent ↦ if leb worker.deadline o.now then o.start_raises else none
    | replied ↦ o.recv_raises
    | broken ↦ o.start_raises
  ]

  -- The body of the loop over the slots, for a worker with a task.
  unfoldable pub visit_busy :
      Observation → Worker → ℕ → Shared → Outcome Exception (Worker × Shared)
  visit_busy o worker index s = elim (interrupts o worker) [
    | some e ↦ raise e
    | none ↦
        if ends o worker
        then assign o (survivor o worker s.processes) (record s {
          done = (index, outcome o worker index) ∷ s.done;
          processes = started_processes o s.processes;
          gone = retired o worker s.gone;
        })
        else ok (worker, s)
  ]

  unfoldable pub visit : Observation → Worker → Shared → Outcome Exception (Worker × Shared)
  visit o worker s = elim worker.index [
    | none ↦ ok (worker, s)
    | some index ↦ visit_busy o worker index s
  ]

  unfoldable pub visit_all :
      List Observation → List Worker → Shared → Outcome Exception (List Worker × Shared)
  visit_all (o ∷ os) (w ∷ ws) s =
      visit o w s >>= λ (w', s'). visit_all os ws s' >>= λ (ws', s''). ok (w' ∷ ws', s'')
  visit_all _ ws s = ok (ws, s)

  -- One pass of `while following < len(paths)`, up to the yielding of what is done in order.
  unfoldable pub round : List Observation → Pool → Outcome Exception Pool
  round os p =
      visit_all os p.workers
        (record { queue = p.queue; done = p.done; processes = p.processes; gone = p.gone })
      >>= λ (ws, s). ok (record p {
        workers = ws;
        queue = s.queue;
        done = s.done;
        processes = s.processes;
        gone = s.gone;
      })

  -- `while following in done: yield done.pop(following); following += 1`. The fuel is the number of
  -- entries, of which each turn takes one.
  unfoldable pub flush : ℕ → Pool → Pool
  flush zero p = p
  flush (suc fuel) p = elim (find p.following p.done) [
    | none ↦ p
    | some analysis ↦ flush fuel (record p {
      done = remove p.following p.done;
      following = suc p.following;
      yielded = p.yielded ++ analysis ∷ [];
    })
  ]

  unfoldable pub pass : List Observation → Pool → Outcome Exception Pool
  pass os p = round os p >>= λ q. ok (flush (length q.done) q)

  -- The loop, over a schedule of passes. It ends by its test, or waits where the schedule ends.
  unfoldable pub run : List (List Observation) → Pool → Outcome Exception Pool
  run [] p = ok p
  run (os ∷ rest) p = if ltb p.following total then (pass os p >>= run rest) else ok p

  -- The workers started before the loop, `min(len(paths), _worker_count())` of them.
  unfoldable pub start_all : ℕ → ℕ → List Worker
  start_all process zero = []
  start_all process (suc n) = start process ∷ start_all (suc process) n

  -- The first assignment to each worker.
  unfoldable pub assign_all :
      List Observation → List Worker → Shared → Outcome Exception (List Worker × Shared)
  assign_all (o ∷ os) (w ∷ ws) s =
      assign o w s >>= λ (w', s'). assign_all os ws s' >>= λ (ws', s''). ok (w' ∷ ws', s'')
  assign_all _ ws s = ok (ws, s)

  unfoldable pub begin : ℕ → List Observation → Outcome Exception Pool
  begin worker_count os =
      let count = min total worker_count in
      assign_all os (start_all 0 count)
        (record { queue = 0; done = []; processes = count; gone = [] })
      >>= λ (ws, s). ok (record {
        workers = ws;
        queue = s.queue;
        done = [];
        following = 0;
        yielded = [];
        processes = s.processes;
        gone = s.gone;
      })

  unfoldable pub analyse : ℕ → List Observation → List (List Observation) → Outcome Exception Pool
  analyse worker_count os schedule = begin worker_count os >>= run schedule

-- ===== src/Pool/Work.antt =====
-- src/eous/pool.py, the worker's side: `_work`, with `_size` and `_worker_count`.
pub mod Replies
pub mod Bounds
mod Tests
use eous.Prelude.{
  ℕ, suc, ◌+◌, ◌-◌, ◌*◌, ◌/◌, ◌^◌, Bool, true, false, List, [], ◌∷◌, ◌++◌, Option, none, some, min,
  ◌==◌, if◌then◌else◌,
}
use eous.Prelude.Outcome.{Outcome, ok, raise}
use eous.Prelude.Exception.{Exception, is_os_error, is_value_error}
use eous.Report.{FilePath, Analysis}
use eous.Pool.{Job, path_at, seconds_for}
use eous.Pool.Limits.{Platform, linux, win32, other, Process, System, limit_memory, limit_time}

-- 512 MiB, and four bytes for each byte.
abbrev pub memory_base : ℕ
memory_base = 512 * 2 ^ 20

abbrev pub memory_per_byte : ℕ
memory_per_byte = 4

-- `WINDOWS_WAIT_LIMIT`
abbrev pub windows_wait_limit : ℕ
windows_wait_limit = 61

-- A task: the path, the budget in bytes and the seconds in units of 2^-20 seconds.
pub record Task : Type 0 where
  pub path : FilePath
  pub budget : ℕ
  pub seconds : ℕ

-- `task` in `_assign`
abbrev pub task_for : Job → ℕ → Task
task_for job index = record {
  path = path_at job index;
  budget = memory_base + memory_per_byte * job.size index;
  seconds = seconds_for job index;
}

-- What `wait` and `recv` show: the parent's end, the pipe's end, another exception, `None`, or a task.
pub data Received : Type 0 where
  parent_gone ended stop : Received
  unreceived : Exception → Received
  given : Task → Received

-- One turn of the loop: what is received, what the system answers, and what sending the reply raises.
pub record Turn : Type 0 where
  pub received : Received
  pub system : System
  pub sending : Option Exception

-- A worker with the replies that it sent.
pub record Serving : Type 0 where
  pub process : Process
  pub sent : List (Outcome Exception Analysis)

-- How the loop stands: it waits for the next turn, it has returned, or it has raised.
pub data Standing : Type 0 where
  waiting returned : Standing
  raised : Exception → Standing

-- `math.ceil(seconds) + 1`
abbrev pub alarm_seconds : ℕ → ℕ
alarm_seconds seconds = (seconds + (2 ^ 20 - 1)) / 2 ^ 20 + 1

abbrev pub then_on : Standing × Serving → (Serving → Standing × Serving) → Standing × Serving
then_on (waiting, s) next = next s
then_on (returned, s) next = (returned, s)
then_on (raised e, s) next = (raised e, s)

-- `_size`, of what `os.stat` gives.
unfoldable pub size : Outcome Exception ℕ → Outcome Exception ℕ
size (ok bytes) = ok bytes
size (raise e) = if is_os_error e then ok 0 else if is_value_error e then ok 0 else raise e

-- `_worker_count`, of what `os.cpu_count` gives.
unfoldable pub worker_count : Platform → Option ℕ → ℕ
worker_count win32 none = min 1 windows_wait_limit
worker_count win32 (some n) = min (if n == 0 then 1 else n) windows_wait_limit
worker_count _ none = 1
worker_count _ (some n) = if n == 0 then 1 else n

module _ (platform : Platform) (analyse_one : FilePath → Outcome Exception Analysis) where
  -- Sending the outcome of a task.
  abbrev pub reply : Option Exception → Outcome Exception Analysis → Serving → Standing × Serving
  reply none outcome s = (waiting, record s { sent = s.sent ++ outcome ∷ [] })
  reply (some e) outcome s = (raised e, s)

  -- The part of a turn behind `_limit_memory`.
  unfoldable pub analyse_task :
      Turn
      → Task
      → List (Outcome Exception Analysis)
      → Outcome Exception (Unit {0}) × Process
      → Standing × Serving
  analyse_task turn task sent (raise e, p) = (raised e, record { process = p; sent = sent })
  analyse_task turn task sent (ok done, p) =
      let limited = limit_time platform (alarm_seconds task.seconds) p in
      reply turn.sending (analyse_one task.path)
        (record { process = limit_time platform 0 limited; sent = sent })

  unfoldable pub serve : Turn → Serving → Standing × Serving
  serve turn s = elim turn.received [
    | parent_gone ↦ (returned, s)
    | ended ↦ (returned, s)
    | stop ↦ (returned, s)
    | unreceived e ↦ (raised e, s)
    | given task ↦
        analyse_task turn task s.sent (limit_memory turn.system platform task.budget s.process)
  ]

  -- `_work`
  unfoldable pub work : List Turn → Serving → Standing × Serving
  work [] s = (waiting, s)
  work (turn ∷ turns) s = then_on (serve turn s) (work turns)

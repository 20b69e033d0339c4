-- ===== src/Pool/Work/Tests.antt =====
-- The theorems on the worker at concrete tasks and limits.
use eous.Prelude.{
  ℕ, ◌+◌, ◌*◌, ◌^◌, ◌≤◌, ◌≡◌, ◌↔◌, ◌⊎◌, refl, List, [], ◌∷◌, map, true, none, some, ltb,
  if◌then◌else◌,
}
use eous.Prelude.Text.{codes}
use eous.Prelude.Outcome.{ok, raise}
use eous.Prelude.Exception.{value_error}
use eous.Report.{refuse, no_code}
use eous.Pool.{Job}
use eous.Pool.Jobs.{Kernel, JobObject, MemoryCounters, no_counters, limit_job}
use eous.Pool.Jobs.Held.{Limited, only_process_memory, limit_job-IsHeld}
use eous.Pool.Limits.{linux, Process, System, limit_memory}
use eous.Pool.Work.{Task, task_for, waiting, work}
use eous.Pool.Work.Bounds.{IsLinux, Within, limit_memory-bounds}
use eous.Pool.Work.Replies.{turn_of, work-replies}

-- A system that takes every limit, for a process that has committed 1000 bytes.
abbrev counters : MemoryCounters
counters = record (no_counters 72) { pagefile_usage = 1000 }

abbrev windows : Kernel
windows = record {
  created = some 7;
  assigned = true;
  counters_size = 72;
  memory_info = λ empty. some counters;
  set_information = λ class limits. true;
}

abbrev system : System
system = record {
  pages = ok 2000;
  page_size = 4096;
  setrlimit = λ old new. ok new;
  kernel = windows;
}

system-IsLinux : IsLinux system
system-IsLinux = record { pages = 2000; statm = refl; may_set = λ old new h k. refl }

abbrev process : Process
process = record {
  limits = record { soft = none; hard = some (2 ^ 30) };
  job_object = record { job = none; holds = none; limits = none };
  alarm = 0;
}

-- The analysis refuses one file, and raises for another.
abbrev job : Job
job = record {
  paths = codes "a" ∷ codes "b" ∷ [];
  size = λ index. 1000 * index;
  analyse_one = λ path.
      if ltb 1 2 then ok (refuse path no_code (codes "too little")) else raise (value_error []);
}

abbrev tasks : List (Task × System)
tasks = (task_for job 0, system) ∷ (task_for job 1, system) ∷ []

limit_memory-bounds_example :
    (soft : ℕ) × (q : Process) × (limit_memory system linux (2 ^ 29) process ≡ (ok tt, q))
    × (q.limits.soft ≡ some soft)
    × (q.limits.hard ≡ process.limits.hard)
    × (q.alarm ≡ process.alarm)
    × Within (some soft) process.limits.hard
    × (soft ≤ 2000 * 4096 + 2 ^ 29)
    × ((soft ≡ 2000 * 4096 + 2 ^ 29) ⊎ (some (2 ^ 30) ≡ some soft))
unfolding system-IsLinux
limit_memory-bounds_example = limit_memory-bounds system system-IsLinux (2 ^ 29) process

abbrev limited_job : JobObject
limited_job = record { job = some 7; holds = some 7; limits = some (only_process_memory 1500) }

limit_job-IsHeld_example :
    (limit_job windows 500 process.job_object ≡ (ok tt, limited_job))
    ↔ Limited windows 500 process.job_object limited_job
limit_job-IsHeld_example = limit_job-IsHeld windows 500 process.job_object limited_job refl

limits_job : limit_job windows 500 process.job_object ≡ (ok tt, limited_job)
unfolding limit_job
limits_job = refl

work-replies_example :
    let (standing, t) =
      work linux job.analyse_one (map turn_of tasks) (record { process = process; sent = [] }) in
    (standing ≡ waiting)
    × (t.sent ≡ map (λ (task : Task × System). job.analyse_one task.0.path) tasks)
    × (t.process.alarm ≡ 0)
work-replies_example =
    work-replies job.analyse_one tasks (record { process = process; sent = [] })
      (system-IsLinux, (system-IsLinux, tt)) refl

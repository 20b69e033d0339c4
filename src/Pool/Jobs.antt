-- ===== src/Pool/Jobs.antt =====
-- `limit_memory` of src/eous/_jobs.py for Windows, with the structures that it passes to the system. The
-- calls of kernel32 are parameters; a `size_t` has 64 bits.
pub mod Held
use eous.Prelude.{
  ℕ, zero, suc, ◌+◌, ◌-◌, ◌*◌, ◌/◌, ◌%◌, ◌^◌, ◌≤◌, ◌<◌, min, ◌≡◌, refl, sym, ap, ap₂, ◌∙◌, subst,
  ◌↔◌, ◌⊎◌, inl, inr, Bool, true, false, ◌&&◌, ◌||◌, not, Option, none, some, List, [], ◌∷◌, ◌++◌,
  map, append-nil, append_assoc, arith, ltb, leb, ◌==◌, if◌then◌else◌, ltb→lt, lt→ltb, leb→le,
  Bool-cases, Option-cases, length, get_elem?, replicate, take, drop, All, All-append, All-map,
  length-append, length-map, all,
}
use eous.Prelude.Text.{codes}
use eous.Prelude.Outcome.{Outcome, ok, raise}
use eous.Prelude.Exception.{Exception, os_error}

abbrev pub job_object_limit_process_memory : ℕ
job_object_limit_process_memory = 0x100

abbrev pub extended_limit_information : ℕ
extended_limit_information = 9

-- `_BasicLimits`
pub record BasicLimits : Type 0 where
  pub per_process_user_time_limit : ℕ
  pub per_job_user_time_limit : ℕ
  pub limit_flags : ℕ
  pub minimum_working_set_size : ℕ
  pub maximum_working_set_size : ℕ
  pub active_process_limit : ℕ
  pub affinity : ℕ
  pub priority_class : ℕ
  pub scheduling_class : ℕ

-- `_ExtendedLimits`
pub record ExtendedLimits : Type 0 where
  pub basic_limit_information : BasicLimits
  pub io_info : List ℕ
  pub process_memory_limit : ℕ
  pub job_memory_limit : ℕ
  pub peak_process_memory_used : ℕ
  pub peak_job_memory_used : ℕ

-- `_MemoryCounters`
pub record MemoryCounters : Type 0 where
  pub cb : ℕ
  pub page_fault_count : ℕ
  pub peak_working_set_size : ℕ
  pub working_set_size : ℕ
  pub quota_peak_paged_pool_usage : ℕ
  pub quota_paged_pool_usage : ℕ
  pub quota_peak_non_paged_pool_usage : ℕ
  pub quota_non_paged_pool_usage : ℕ
  pub pagefile_usage : ℕ
  pub peak_pagefile_usage : ℕ

-- `_ExtendedLimits()`, which ctypes fills with zeros.
abbrev pub no_limits : ExtendedLimits
no_limits = record {
  basic_limit_information = record {
    per_process_user_time_limit = 0;
    per_job_user_time_limit = 0;
    limit_flags = 0;
    minimum_working_set_size = 0;
    maximum_working_set_size = 0;
    active_process_limit = 0;
    affinity = 0;
    priority_class = 0;
    scheduling_class = 0;
  };
  io_info = replicate 6 0;
  process_memory_limit = 0;
  job_memory_limit = 0;
  peak_process_memory_used = 0;
  peak_job_memory_used = 0;
}

-- `_MemoryCounters(cb=...)`
abbrev pub no_counters : ℕ → MemoryCounters
no_counters cb = record {
  cb = cb;
  page_fault_count = 0;
  peak_working_set_size = 0;
  working_set_size = 0;
  quota_peak_paged_pool_usage = 0;
  quota_paged_pool_usage = 0;
  quota_peak_non_paged_pool_usage = 0;
  quota_non_paged_pool_usage = 0;
  pagefile_usage = 0;
  peak_pagefile_usage = 0;
}

-- The job object of a process: `_job`, the job that the process was assigned to, and the limits set.
pub record JobObject : Type 0 where
  pub job : Option ℕ
  pub holds : Option ℕ
  pub limits : Option ExtendedLimits

-- What the system answers to one call: the new job, whether it took the process, `sizeof` of the
-- counters, what they are filled with, if they are, and whether limits of a class are set.
pub record Kernel : Type 0 where
  pub created : Option ℕ
  pub assigned : Bool
  pub counters_size : ℕ
  pub memory_info : MemoryCounters → Option MemoryCounters
  pub set_information : ℕ → ExtendedLimits → Bool

abbrev pub win_error : Exception
win_error = os_error (codes "WinError")

-- The making of a job, of what `CreateJobObjectW` and `AssignProcessToJobObject` return.
abbrev pub make_job : JobObject → Option ℕ → Bool → Outcome Exception (Unit {0}) × JobObject
make_job s none assigned = (raise win_error, s)
make_job s (some job) true = (ok tt, record s { job = some job; holds = some job })
make_job s (some job) false = (raise win_error, record s { job = some job })

-- The limits for the counters of the process.
abbrev pub extended_limits : MemoryCounters → ℕ → ExtendedLimits
extended_limits counters budget = record no_limits {
  basic_limit_information = record (no_limits.basic_limit_information) {
    limit_flags = job_object_limit_process_memory;
  };
  process_memory_limit = (counters.pagefile_usage + budget) % 2 ^ 64;
}

-- The setting of the limits, of what `SetInformationJobObject` returns.
abbrev pub with_information :
    JobObject → ExtendedLimits → Bool → Outcome Exception (Unit {0}) × JobObject
with_information s limits true = (ok tt, record s { limits = some limits })
with_information s limits false = (raise win_error, s)

module _ (kernel : Kernel) where
  -- The setting of the limits, for what `K32GetProcessMemoryInfo` returns.
  abbrev pub set_job :
      ℕ → JobObject → Option MemoryCounters → Outcome Exception (Unit {0}) × JobObject
  set_job budget s none = (raise win_error, s)
  set_job budget s (some counters) =
      with_information s (extended_limits counters budget)
        (kernel.set_information extended_limit_information (extended_limits counters budget))

  -- The job is made by the first call.
  abbrev pub open_job : JobObject → Option ℕ → Outcome Exception (Unit {0}) × JobObject
  open_job s (some job) = (ok tt, s)
  open_job s none = make_job s kernel.created kernel.assigned

  abbrev pub set_limit :
      ℕ → Outcome Exception (Unit {0}) × JobObject → Outcome Exception (Unit {0}) × JobObject
  set_limit budget (ok done, s) =
      set_job budget s (kernel.memory_info (no_counters kernel.counters_size))
  set_limit budget (raise e, s) = (raise e, s)

  -- `limit_memory`
  unfoldable pub limit_job : ℕ → JobObject → Outcome Exception (Unit {0}) × JobObject
  limit_job budget s = set_limit budget (open_job s s.job)

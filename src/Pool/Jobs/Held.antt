-- ===== src/Pool/Jobs/Held.antt =====
-- The job object that `limit_memory` of src/eous/_jobs.py leaves.
use eous.Prelude.{
  ◌+◌, ◌%◌, ◌^◌, ◌↔◌, [], ◌∷◌, ℕ, ◌≡◌, refl, sym, ap, ◌∙◌, ◌⊎◌, inl, inr, Bool, true, false, Option,
  none, some,
}
use eous.Prelude.Outcome.{Outcome, ok, raise}
use eous.Prelude.Exception.{Exception}
use eous.Pool.Jobs.{
  ExtendedLimits, JobObject, Kernel, MemoryCounters, no_counters, extended_limits, make_job,
  set_job, open_job, set_limit, limit_job, extended_limit_information, with_information,
}

-- The job that was made is the one that holds the process.
abbrev pub IsHeld : JobObject → Type 0
IsHeld s = s.job ≡ s.holds

-- The limits of a job that has one on the memory of a process, and no other.
abbrev pub only_process_memory : ℕ → ExtendedLimits
only_process_memory bytes = record {
  basic_limit_information = record {
    per_process_user_time_limit = 0;
    per_job_user_time_limit = 0;
    limit_flags = 0x100;
    minimum_working_set_size = 0;
    maximum_working_set_size = 0;
    active_process_limit = 0;
    affinity = 0;
    priority_class = 0;
    scheduling_class = 0;
  };
  io_info = 0 ∷ 0 ∷ 0 ∷ 0 ∷ 0 ∷ 0 ∷ [];
  process_memory_limit = bytes;
  job_memory_limit = 0;
  peak_process_memory_used = 0;
  peak_job_memory_used = 0;
}

-- Opening a job that holds the process: there is one, or the system makes one and lets it take the
-- process.
abbrev pub Opens : Kernel → JobObject → ℕ → Type 0
Opens kernel s job =
    (s.job ≡ some job) ⊎ ((s.job ≡ none) × (kernel.created ≡ some job) × (kernel.assigned ≡ true))

-- That the memory of a process is limited, from one state to another: a job holds the process in the
-- end, the system told the counters of the process, and it took, under class 9, limits of which the one
-- on the memory of a process alone is set, to the bytes committed and the budget, as a `size_t`.
pub record Limited (kernel : Kernel) (budget : ℕ) (s t : JobObject) : Type 0 where
  pub job : ℕ
  pub opens : Opens kernel s job
  pub has_job : t.job ≡ some job
  pub holds : t.holds ≡ some job
  pub counters : MemoryCounters
  pub measured : kernel.memory_info (no_counters kernel.counters_size) ≡ some counters
  pub taken :
      kernel.set_information 9 (only_process_memory ((counters.pagefile_usage + budget) % 2 ^ 64))
      ≡ true
  pub limits : t.limits ≡ some (only_process_memory ((counters.pagefile_usage + budget) % 2 ^ 64))

raise_not_ok : {x : Exception} → ◌≡◌ {A = Outcome Exception (Unit {0})} (raise x) (ok tt) → ⊥
raise_not_ok h = cc

-- What opening a job ensures.
abbrev Opened : Kernel → JobObject → JobObject → Type 0
Opened kernel s t = (job : ℕ) × (t.job ≡ some job) × (t.holds ≡ some job) × Opens kernel s job

make_job-Opened :
    (kernel : Kernel) (s t : JobObject) (created : Option ℕ) (assigned : Bool)
    → s.job ≡ none
    → kernel.created ≡ created
    → kernel.assigned ≡ assigned
    → make_job s created assigned ≡ (ok tt, t)
    → Opened kernel s t
make_job-Opened kernel s t none assigned closed c a e = absurd (raise_not_ok (ap (λ r. r.0) e))
make_job-Opened kernel s t (some job) true closed c a e =
    (job, ap (λ r. r.1.job) (sym e), ap (λ r. r.1.holds) (sym e), inr (closed, c, a))
make_job-Opened kernel s t (some job) false closed c a e = absurd (raise_not_ok (ap (λ r. r.0) e))

open_job-Opened :
    (kernel : Kernel) (s t : JobObject) (job : Option ℕ)
    → s.job ≡ job
    → IsHeld s
    → open_job kernel s job ≡ (ok tt, t)
    → Opened kernel s t
open_job-Opened kernel s t none closed held e =
    make_job-Opened kernel s t kernel.created kernel.assigned closed refl refl e
open_job-Opened kernel s t (some job) is_open held e =
    let same : s ≡ t = ap (λ r. r.1) e in
    (
      job,
      ap (λ u. u.job) (sym same) ∙ is_open,
      ap (λ u. u.holds) (sym same) ∙ sym held ∙ is_open,
      inl is_open,
    )

limit_job-Limited :
    (kernel : Kernel) (budget : ℕ) (s t : JobObject)
    → IsHeld s
    → limit_job kernel budget s ≡ (ok tt, t)
    → Limited kernel budget s t
unfolding limit_job
limit_job-Limited kernel budget s t held e = by_job (open_job kernel s s.job) refl e
  where
    by_test :
        (u : JobObject) (counters : MemoryCounters) (set : Bool)
        → kernel.memory_info (no_counters kernel.counters_size) ≡ some counters
        → Opened kernel s u
        → kernel.set_information extended_limit_information (extended_limits counters budget) ≡ set
        → with_information u (extended_limits counters budget) set ≡ (ok tt, t)
        → Limited kernel budget s t
    by_test u counters false there opened taken k = absurd (raise_not_ok (ap (λ r. r.0) k))
    by_test u counters true there (job, has_job, has_it, opens) taken k = record {
      job = job;
      opens = opens;
      has_job = ap (λ r. r.1.job) (sym k) ∙ has_job;
      holds = ap (λ r. r.1.holds) (sym k) ∙ has_it;
      counters = counters;
      measured = there;
      taken = taken;
      limits = ap (λ r. r.1.limits) (sym k);
    }

    by_set :
        (u : JobObject) (found : Option MemoryCounters)
        → kernel.memory_info (no_counters kernel.counters_size) ≡ found
        → Opened kernel s u
        → set_job kernel budget u found ≡ (ok tt, t)
        → Limited kernel budget s t
    by_set u none there opened k = absurd (raise_not_ok (ap (λ r. r.0) k))
    by_set u (some counters) there opened k =
        by_test u counters
          (kernel.set_information extended_limit_information (extended_limits counters budget))
          there opened refl k

    by_job :
        (r : Outcome Exception (Unit {0}) × JobObject)
        → open_job kernel s s.job ≡ r
        → set_limit kernel budget r ≡ (ok tt, t)
        → Limited kernel budget s t
    by_job (raise x, u) opens k = absurd (raise_not_ok (ap (λ r. r.0) k))
    by_job (ok done, u) opens k =
        by_set u (kernel.memory_info (no_counters kernel.counters_size)) refl
          (open_job-Opened kernel s u s.job refl held opens) k

same_job_object :
    (a b : JobObject) → a.job ≡ b.job → a.holds ≡ b.holds → a.limits ≡ b.limits → a ≡ b
same_job_object a b e f g = λ i. record { job = e i; holds = f i; limits = g i }

Limited-limit_job :
    (kernel : Kernel) (budget : ℕ) (s t : JobObject)
    → IsHeld s
    → Limited kernel budget s t
    → limit_job kernel budget s ≡ (ok tt, t)
unfolding limit_job
Limited-limit_job kernel budget s t held h = elim h.opens [
  | inl is_open ↦
      rw (is_open, h.measured, h.taken)
        (ap (λ u. (ok tt, u))
          (same_job_object
            (record {
              job = some h.job;
              holds = s.holds;
              limits = some (only_process_memory ((h.counters.pagefile_usage + budget) % 2 ^ 64));
            })
            t (sym h.has_job) (sym held ∙ is_open ∙ sym h.holds) (sym h.limits)))
  | inr (closed, created, assigned) ↦
      rw (closed, created, assigned, h.measured, h.taken)
        (ap (λ u. (ok tt, u)) (same_job_object _ t (sym h.has_job) (sym h.holds) (sym h.limits)))
]

-- For a process whose job, if it has made one, holds it: `limit_memory` of src/eous/_jobs.py returns
-- exactly where there is a job that holds the process, or the system makes one and lets it take the
-- process, where it tells the counters of the process, and where it takes the limits. Then that job
-- holds the process, and its limits are that on the memory of a process alone: the bytes committed and
-- the budget, as a `size_t`.
pub limit_job-IsHeld :
    (kernel : Kernel) (budget : ℕ) (s t : JobObject)
    → IsHeld s
    → (limit_job kernel budget s ≡ (ok tt, t)) ↔ Limited kernel budget s t
limit_job-IsHeld kernel budget s t held =
    (limit_job-Limited kernel budget s t held, Limited-limit_job kernel budget s t held)

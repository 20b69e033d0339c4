-- ===== src/Pool/Limits.antt =====
-- The limits of a worker: `_limit_memory` and `_limit_time` of src/eous/pool.py. The calls of the system
-- are parameters.
use eous.Prelude.{ℕ, ◌+◌, ◌*◌, min, Option, none, some}
use eous.Pool.Jobs.{JobObject, Kernel, limit_job}
use eous.Prelude.Outcome.{Outcome, ok, raise}
use eous.Prelude.Exception.{Exception}

-- `sys.platform`, as far as it is told apart.
pub data Platform : Type 0 where
  linux win32 other : Platform

-- RLIMIT_AS. No number is RLIM_INFINITY.
pub record Limits : Type 0 where
  pub soft : Option ℕ
  pub hard : Option ℕ

-- What a worker's limits are.
pub record Process : Type 0 where
  pub limits : Limits
  pub job_object : JobObject
  -- The seconds of the alarm, where 0 is none.
  pub alarm : ℕ

-- What the system answers to one call of `_limit_memory`: the pages that statm counts, `setrlimit`,
-- and the calls of Windows.
pub record System : Type 0 where
  pub pages : Outcome Exception ℕ
  pub page_size : ℕ
  pub setrlimit : Limits → Limits → Outcome Exception Limits
  pub kernel : Kernel

-- The soft limit, at most the hard one.
abbrev pub soft_limit : ℕ → Option ℕ → ℕ
soft_limit soft none = soft
soft_limit soft (some hard) = min soft hard

module _ (sys : System) where
  abbrev pub set_soft : ℕ → Limits → Outcome Exception ℕ → Outcome Exception Limits
  set_soft budget limits (raise e) = raise e
  set_soft budget limits (ok pages) = sys.setrlimit limits (record {
    soft = some (soft_limit (pages * sys.page_size + budget) limits.hard);
    hard = limits.hard;
  })

  unfoldable pub limit_address_space : ℕ → Limits → Outcome Exception Limits
  limit_address_space budget limits = set_soft budget limits sys.pages

  abbrev pub with_limits :
      Process → Outcome Exception Limits → Outcome Exception (Unit {0}) × Process
  with_limits p (ok limits) = (ok tt, record p { limits = limits })
  with_limits p (raise e) = (raise e, p)

  abbrev with_job :
      Process → Outcome Exception (Unit {0}) × JobObject → Outcome Exception (Unit {0}) × Process
  with_job p (o, s) = (o, record p { job_object = s })

  -- `_limit_memory`
  unfoldable pub limit_memory : Platform → ℕ → Process → Outcome Exception (Unit {0}) × Process
  limit_memory linux budget p = with_limits p (limit_address_space budget p.limits)
  limit_memory win32 budget p = with_job p (limit_job sys.kernel budget p.job_object)
  limit_memory other budget p = (ok tt, p)

-- `_limit_time`
abbrev pub limit_time : Platform → ℕ → Process → Process
limit_time win32 seconds p = p
limit_time linux seconds p = record p { alarm = seconds }
limit_time other seconds p = record p { alarm = seconds }

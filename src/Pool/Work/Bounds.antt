-- ===== src/Pool/Work/Bounds.antt =====
-- The limits that a worker sets: `_limit_memory` and `_limit_time` of src/eous/pool.py.
use eous.Prelude.{
  ◌⊎◌, inl, inr, ℕ, ◌+◌, ◌*◌, ◌^◌, ◌≤◌, ◌<◌, ◌≡◌, ◌∙◌, refl, ap, sym, Option, none, some, arith,
  min,
}
use eous.Prelude.Outcome.{ok}
use eous.Pool.Limits.{
  linux, Limits, Process, System, set_soft, with_limits, soft_limit, limit_address_space,
  limit_memory,
}
use eous.Pool.Work.{alarm_seconds}

-- The alarm of a worker is set behind the parent's deadline, by a second and less than two.
alarm_seconds-bounds :
    (seconds : ℕ)
    → (seconds + 2 ^ 20 ≤ alarm_seconds seconds * 2 ^ 20)
      × (alarm_seconds seconds * 2 ^ 20 < seconds + 2 * 2 ^ 20)
alarm_seconds-bounds seconds = (omega arith, omega arith)

-- A soft limit that `setrlimit` takes.
abbrev pub Within : Option ℕ → Option ℕ → Type 0
Within none none = Unit
Within none (some hard) = ⊥
Within (some soft) none = Unit
Within (some soft) (some hard) = soft ≤ hard

-- What Linux documents: statm can be read, and a process may set a soft limit up to its hard limit.
pub record IsLinux (sys : System) : Type 0 where
  pub pages : ℕ
  pub statm : sys.pages ≡ ok pages
  pub may_set :
      (limits new : Limits)
      → new.hard ≡ limits.hard
      → Within new.soft new.hard
      → sys.setrlimit limits new ≡ ok new

soft_limit-Within : (soft : ℕ) (hard : Option ℕ) → Within (some (soft_limit soft hard)) hard
soft_limit-Within soft none = tt
soft_limit-Within soft (some hard) = ground arith

soft_limit_le : (soft : ℕ) (hard : Option ℕ) → soft_limit soft hard ≤ soft
soft_limit_le soft none = omega arith
soft_limit_le soft (some hard) = ground arith

min_either : (a b : ℕ) → (min a b ≡ a) ⊎ (min a b ≡ b)
min_either a b = ground arith

-- Of what the worker holds and the budget, what the hard limit allows.
abbrev pub limits_for : (sys : System) → IsLinux sys → ℕ → Limits → Limits
limits_for sys L budget limits = record {
  soft = some (soft_limit (L.pages * sys.page_size + budget) limits.hard);
  hard = limits.hard;
}

pub limit_memory-eq :
    (sys : System) (L : IsLinux sys) (budget : ℕ) (p : Process)
    → limit_memory sys linux budget p
      ≡ (ok tt, record p { limits = limits_for sys L budget p.limits })
unfolding limit_memory limit_address_space
limit_memory-eq sys L budget p = ap (with_limits sys p) (
    ap (set_soft sys budget p.limits) L.statm
    ∙ L.may_set p.limits (limits_for sys L budget p.limits) refl
        (soft_limit-Within (L.pages * sys.page_size + budget) p.limits.hard))

-- On Linux, where statm can be read and setrlimit takes what is within the hard limit, limiting the
-- memory returns. It leaves the hard limit and the alarm, and the soft limit is then within the hard
-- limit, at most what the worker holds and the budget, and exactly that if the hard limit allows it.
pub limit_memory-bounds :
    (sys : System) (L : IsLinux sys) (budget : ℕ) (p : Process)
    → (soft : ℕ) × (q : Process) × (limit_memory sys linux budget p ≡ (ok tt, q))
      × (q.limits.soft ≡ some soft)
      × (q.limits.hard ≡ p.limits.hard)
      × (q.alarm ≡ p.alarm)
      × Within (some soft) p.limits.hard
      × (soft ≤ L.pages * sys.page_size + budget)
      × ((soft ≡ L.pages * sys.page_size + budget) ⊎ (p.limits.hard ≡ some soft))
limit_memory-bounds sys L budget p =
    let asked = L.pages * sys.page_size + budget in
    (
      soft_limit asked p.limits.hard,
      record p { limits = limits_for sys L budget p.limits },
      limit_memory-eq sys L budget p,
      refl,
      refl,
      refl,
      soft_limit-Within asked p.limits.hard,
      soft_limit_le asked p.limits.hard,
      exact asked p.limits.hard,
    )
  where
    exact :
        (asked : ℕ) (hard : Option ℕ)
        → (soft_limit asked hard ≡ asked) ⊎ (hard ≡ some (soft_limit asked hard))
    exact asked none = inl refl
    exact asked (some hard) = elim (min_either asked hard) [
      | inl h ↦ inl h
      | inr h ↦ inr (ap some (sym h))
    ]

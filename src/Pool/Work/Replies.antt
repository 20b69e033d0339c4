-- ===== src/Pool/Work/Replies.antt =====
-- What a worker replies: `_work` of src/eous/pool.py.
use eous.Prelude.{
  ◌≡◌, ◌∙◌, refl, sym, List, [], ◌∷◌, ◌++◌, append-nil, append_assoc, map, All, none,
}
use eous.Prelude.Outcome.{Outcome}
use eous.Prelude.Exception.{Exception}
use eous.Report.{FilePath, Analysis}
use eous.Pool.Limits.{linux, System}
use eous.Pool.Work.{Task, Turn, given, Serving, waiting, analyse_task, serve, work}
use eous.Pool.Work.Bounds.{IsLinux, limits_for, limit_memory-eq}

-- A turn with a task, whose reply goes through.
abbrev pub turn_of : Task × System → Turn
turn_of (task, sys) = record { received = given task; system = sys; sending = none }

abbrev pub AllLinux : List (Task × System) → Type 0
AllLinux = All (λ (t : Task × System). IsLinux t.1)

module _ (analyse_one : FilePath → Outcome Exception Analysis) where
  abbrev served : (t : Task × System) → IsLinux t.1 → Serving → Serving
  served (task, sys) L s = record {
    process = record s.process {
      limits = limits_for sys L task.budget s.process.limits;
      alarm = 0;
    };
    sent = s.sent ++ analyse_one task.path ∷ [];
  }

  serve-eq :
      (t : Task × System) (L : IsLinux t.1) (s : Serving)
      → serve linux analyse_one (turn_of t) s ≡ (waiting, served t L s)
  unfolding serve analyse_task
  serve-eq (task, sys) L s = rw (limit_memory-eq sys L task.budget s.process) refl

  -- On Linux, where its memory can be limited and its replies go through: a worker without an alarm
  -- sends one reply for each task, in their order, each what `analyse_one` gives for the path of the
  -- task. It waits then for the next task, without an alarm.
  pub work-replies :
      (tasks : List (Task × System)) (s : Serving)
      → AllLinux tasks
      → s.process.alarm ≡ 0
      → let (standing, t) = work linux analyse_one (map turn_of tasks) s in
        (standing ≡ waiting)
        × (t.sent ≡ s.sent ++ map (λ (task : Task × System). analyse_one task.0.path) tasks)
        × (t.process.alarm ≡ 0)
  unfolding work
  work-replies [] s h off = (refl, sym (append-nil s.sent), off)
  work-replies (t ∷ tasks) s (L, h) off =
      let (waits, sends, quiet) = work-replies tasks (served t L s) h refl in
      rw (serve-eq t L s) (
        waits,
        sends
            ∙ append_assoc s.sent (analyse_one t.0.path ∷ [])
                (map (λ (task : Task × System). analyse_one task.0.path) tasks),
        quiet,
      )

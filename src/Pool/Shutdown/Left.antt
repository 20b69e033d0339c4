-- ===== src/Pool/Shutdown/Left.antt =====
-- What `analyse` of src/eous/pool.py leaves to its `finally` block, where it returns or raises.
use eous.Prelude.{
  ℕ, suc, min, ◌≡◌, inl, inr, Option, none, some, List, [], ◌∷◌, ltb, if◌then◌else◌, Bool-cases,
}
use eous.Prelude.Outcome.{ok, raise, >>=-eq-ok, ok-injective}
use eous.Pool.{
  Job, Worker, Observation, Shared, Pool, assign, visit, start_all, begin, pass, run, analyse,
  total, interrupts, outcome, survivor, started_processes, retired,
}

module _ (job : Job) where
  -- `_assign` where it raises: the pipe of the worker did not take the task, and its process was ended.
  -- Then no new one started, or its pipe did not take the task either: that worker is known to
  -- `_assign` alone.
  abbrev pub left_by_assign : Observation → Worker → Shared → Shared
  left_by_assign o w s = record s {
    queue = suc s.queue;
    processes = elim o.restart_raises [ some e ↦ s.processes | none ↦ suc s.processes ];
    gone = w.process ∷ s.gone;
  }

  -- The body of the loop over the slots, where it raises before the outcome is stored: a worker that
  -- crashed or overran was ended, and stays in its slot.
  abbrev pub left_by_interrupt : Observation → Worker → Shared → Shared
  left_by_interrupt o w s = record s { gone = retired job o w s.gone }

  -- The body of the loop over the slots, where it raises.
  abbrev pub left_by_visit : Observation → Worker → Option ℕ → Shared → Shared
  left_by_visit o w none s = s
  left_by_visit o w (some index) s = elim (interrupts job o w) [
    | some e ↦ left_by_interrupt o w s
    | none ↦ left_by_assign o (survivor job o w s.processes) (record s {
      done = (index, outcome job o w index) ∷ s.done;
      processes = started_processes job o s.processes;
      gone = retired job o w s.gone;
    })
  ]

  -- The loop over the slots, which writes each slot as it goes.
  unfoldable pub left_by_slots : List Observation → List Worker → Shared → List Worker × Shared
  left_by_slots [] ws s = (ws, s)
  left_by_slots (o ∷ os) [] s = ([], s)
  left_by_slots (o ∷ os) (w ∷ ws) s = elim (visit job o w s) [
    | ok (w', s') ↦ (w' ∷ (left_by_slots os ws s').0, (left_by_slots os ws s').1)
    | raise e ↦ (w ∷ ws, left_by_visit o w w.index s)
  ]

  unfoldable pub left_by_pass : List Observation → Pool → Pool
  left_by_pass os p =
      let shared : Shared = record {
        queue = p.queue;
        done = p.done;
        processes = p.processes;
        gone = p.gone;
      } in
      let (ws, s) = left_by_slots os p.workers shared in
      record p {
        workers = ws;
        queue = s.queue;
        done = s.done;
        processes = s.processes;
        gone = s.gone;
      }

  unfoldable pub left_by_run : List (List Observation) → Pool → Pool
  left_by_run [] p = p
  left_by_run (os ∷ rest) p =
      if ltb p.following (total job)
      then elim (pass job os p) [ ok q ↦ left_by_run rest q | raise e ↦ left_by_pass os p ]
      else p

  -- The first assignments, whose list replaces the workers when it is whole.
  unfoldable pub left_by_assigns : List Observation → List Worker → Shared → Shared
  left_by_assigns [] ws s = s
  left_by_assigns (o ∷ os) [] s = s
  left_by_assigns (o ∷ os) (w ∷ ws) s = elim (assign job o w s) [
    | ok (w', s') ↦ left_by_assigns os ws s'
    | raise e ↦ left_by_assign o w s
  ]

  unfoldable pub left_by_begin : ℕ → List Observation → Pool
  left_by_begin worker_count os =
      let count = min (total job) worker_count in
      let workers = start_all job 0 count in
      let s =
        left_by_assigns os workers
          (record { queue = 0; done = []; processes = count; gone = [] }) in
      record {
        workers = workers;
        queue = s.queue;
        done = [];
        following = 0;
        yielded = [];
        processes = s.processes;
        gone = s.gone;
      }

  -- What there is when the `finally` block begins.
  unfoldable pub left : ℕ → List Observation → List (List Observation) → Pool
  left worker_count os schedule = elim (begin job worker_count os) [
    | ok p ↦ left_by_run schedule p
    | raise e ↦ left_by_begin worker_count os
  ]

  left_by_run-eq :
      (schedule : List (List Observation)) (p q : Pool)
      → run job schedule p ≡ ok q
      → left_by_run schedule p ≡ q
  unfolding run left_by_run
  left_by_run-eq [] p q e = ok-injective e
  left_by_run-eq (os ∷ rest) p q e = elim (Bool-cases (ltb p.following (total job))) [
    | inr f ↦ rw (f, left_by_run) (ok-injective (rw (f, run) at e))
    | inl f ↦
        let (r, passed, more) = >>=-eq-ok (pass job os p) (run job rest) (rw (f, run) at e) in
        rw (f, left_by_run) (rw passed (left_by_run-eq rest r q more))
  ]

  -- Where nothing raises, that is what the schedule leaves.
  left-eq :
      (worker_count : ℕ) (os : List Observation) (schedule : List (List Observation)) (p : Pool)
      → analyse job worker_count os schedule ≡ ok p
      → left worker_count os schedule ≡ p
  unfolding analyse left
  left-eq worker_count os schedule p e =
      let (first, begun, more) = >>=-eq-ok (begin job worker_count os) (run job schedule) e in
      rw (begun, left) (left_by_run-eq schedule first p more)

-- ===== src/Pool/Shutdown/Leaks.antt =====
-- The `finally` block of `analyse` in src/eous/pool.py behind a pass that raises.
use eous.Prelude.{
  All, true, ℕ, suc, ◌+◌, ◌-◌, ◌≤◌, ◌<◌, ◌≡◌, sym, ◌∙◌, subst, inl, inr, List, [], ◌∷◌, arith, ltb,
  ◌==◌, if◌then◌else◌, Bool-cases, all,
}
use eous.Prelude.Outcome.{Outcome, ok, raise, >>=-eq-raise}
use eous.Prelude.Exception.{Exception}
use eous.Pool.{
  Job, Worker, Observation, Shared, Pool, assign, visit, visit_busy, visit_all, begin, round, pass,
  run, total,
}
use eous.Pool.Slots.{below}
use eous.Pool.Runs.{Starts}
use eous.Pool.Shutdown.{Exit, Closing, shut_down, shutdown_time, stop_all}
use eous.Pool.Shutdown.Processes.{
  runs, times, Accounted, visit-Moves, pass-Accounted, begin-Accounted,
}
use eous.Pool.Shutdown.Ends.{TakesNone, tell_all_returns, stop_all-gone}
use eous.Pool.Shutdown.Left.{left, left_by_run, left_by_pass, left_by_slots, left_by_visit}

-- Counts of processes, which are all of those that were started, but the last one.
abbrev LosesLast : (ℕ → ℕ) → ℕ → Type 0
LosesLast count processes =
    (last : ℕ) × (processes ≡ suc last) × ((i : ℕ) → i < last → 1 ≤ count i) × (count last ≡ 0)

-- Counts of processes, which are all of those that were started.
abbrev EndsAll : (ℕ → ℕ) → ℕ → Type 0
EndsAll count processes = (i : ℕ) → i < processes → 1 ≤ count i

LosesLast-same : (f g : ℕ → ℕ) (n : ℕ) → ((i : ℕ) → f i ≡ g i) → LosesLast f n → LosesLast g n
LosesLast-same f g n same (last, e, all, none_left) =
    (last, e, λ i l. subst (λ m. 1 ≤ m) (same i) (all i l), sym (same last) ∙ none_left)

EndsAll-same : (f g : ℕ → ℕ) (n : ℕ) → ((i : ℕ) → f i ≡ g i) → EndsAll f n → EndsAll g n
EndsAll-same f g n same all i l = subst (λ m. 1 ≤ m) (same i) (all i l)

-- The new pipe takes the task.
abbrev pub Resends : Observation → Type 0
Resends o = o.resends ≡ true

module _ (job : Job) where
  -- What holds of the processes where a visit raises, if `H` holds of what is observed.
  abbrev Raising : (Observation → Type 0) → ((ℕ → ℕ) → ℕ → Type 0) → Type 0
  Raising H Q =
      (o : Observation) (w : Worker) (s : Shared) (e : Exception) (rest : ℕ → ℕ)
      → H o
      → ((i : ℕ)
          → rest i + (if w.process == i then 1 else 0) + times i s.gone ≡ below i s.processes)
      → visit job o w s ≡ raise e
      → Q
          (λ i.
            rest i
            + (if w.process == i then 1 else 0)
            + times i (left_by_visit job o w w.index s).gone)
          (left_by_visit job o w w.index s).processes

  visit-LosesLast : Raising Starts LosesLast
  unfolding visit visit_busy assign
  visit-LosesLast o w s e rest starts h r =
      let books = left_by_visit job o w w.index s in
      (
        books.processes - 1,
        ground (arith, r, starts),
        λ i l. ground (arith, h i, r, l, starts),
        ground (arith, h (books.processes - 1), h w.process, r, starts),
      )

  visit-EndsAll : Raising Resends EndsAll
  unfolding visit visit_busy assign
  visit-EndsAll o w s e rest resends h r i l = ground (arith, h i, r, l, resends)

  module _ (H : Observation → Type 0) (Q : (ℕ → ℕ) → ℕ → Type 0)
      (Q-same : (f g : ℕ → ℕ) (n : ℕ) → ((i : ℕ) → f i ≡ g i) → Q f n → Q g n)
      (visit-Q : Raising H Q) where
    slots-Q :
        (os : List Observation) (ws : List Worker) (s : Shared) (e : Exception) (rest : ℕ → ℕ)
        → All H os
        → ((i : ℕ) → rest i + runs i ws + times i s.gone ≡ below i s.processes)
        → visit_all job os ws s ≡ raise e
        → let (ws', s') = left_by_slots job os ws s in
          Q (λ i. rest i + runs i ws' + times i s'.gone) s'.processes
    unfolding visit_all left_by_slots
    slots-Q [] ws s e rest a h r = cc
    slots-Q (o ∷ os) [] s e rest a h r = cc
    slots-Q (o ∷ os) (w ∷ ws) s e rest a h r = elim (>>=-eq-raise (visit job o w s) _ r) [
      | inl f ↦
          rw (f, left_by_slots)
            (Q-same _ _ _ (λ i. omega arith)
              (visit-Q o w s e (λ i. rest i + runs i ws) a.0 (λ i. omega (arith, h i)) f))
      | inr ((w', s'), f, more) ↦ elim (>>=-eq-raise (visit_all job os ws s') _ more) [
        | inr (made, g, never) ↦ cc
        | inl g ↦
            let moves = visit-Moves job o w s w' s' f in
            rw (f, left_by_slots)
              (Q-same _ _ _ (λ i. omega arith)
                (slots-Q os ws s' e (λ i. rest i + (if w'.process == i then 1 else 0)) a.1
                  (λ i. omega (arith, h i, moves i)) g))
      ]
    ]

    pass-Q :
        (os : List Observation) (p : Pool) (e : Exception)
        → All H os
        → Accounted p
        → pass job os p ≡ raise e
        → let q = left_by_pass job os p in Q (λ i. runs i q.workers + times i q.gone) q.processes
    unfolding pass round left_by_pass
    pass-Q os p e a h r =
        let shared : Shared = record {
          queue = p.queue;
          done = p.done;
          processes = p.processes;
          gone = p.gone;
        } in
        elim (>>=-eq-raise (round job os p) _ r) [
          | inr (q, g, never) ↦ cc
          | inl f ↦ elim (>>=-eq-raise (visit_all job os p.workers shared) _ f) [
            | inr (made, g, never) ↦ cc
            | inl g ↦
                Q-same _ _ _ (λ i. omega arith)
                  (slots-Q os p.workers shared e (λ i. 0) a (λ i. omega (arith, h i)) g)
          ]
        ]

    run-Q :
        (schedule : List (List Observation)) (p : Pool) (e : Exception)
        → All (All H) schedule
        → Accounted p
        → run job schedule p ≡ raise e
        → let q = left_by_run job schedule p in
          Q (λ i. runs i q.workers + times i q.gone) q.processes
    unfolding run left_by_run
    run-Q [] p e a h r = cc
    run-Q (os ∷ rest) p e a h r = elim (Bool-cases (ltb p.following (total job))) [
      | inr f ↦
          let returned : ◌≡◌ {A = Outcome Exception Pool} (ok p) (raise e) = rw (f, run) at r in cc
      | inl f ↦ elim (>>=-eq-raise (pass job os p) (run job rest) (rw (f, run) at r)) [
        | inl g ↦ rw (f, left_by_run) (rw g (pass-Q os p e a.0 h g))
        | inr (q, g, more) ↦
            rw (f, left_by_run) (rw g (run-Q rest q e a.1 (pass-Accounted job os p q h g) more))
      ]
    ]

-- The `finally` block, on what the loop left: it returns, and each process is gone that a worker has or
-- that was gone before.
shut_down-gone :
    (exits : ℕ → Exit)
    → ((n : ℕ) → TakesNone (exits n))
    → (now : ℕ) (q : Pool)
    → (c : Closing) × (shut_down exits now q ≡ ok c)
      × ((i : ℕ) → times i c.gone ≡ runs i q.workers + times i q.gone)
unfolding shut_down
shut_down-gone exits takes now q =
    let closing : Closing = record { clock = now; gone = q.gone } in
    let gone = stop_all-gone exits (now + shutdown_time) q.workers closing in
    (
      stop_all exits (now + shutdown_time) q.workers closing,
      rw (tell_all_returns exits q.workers takes),
      λ i. omega (arith, gone i),
    )

-- Where sending None raises OSErrors only, the first assignments return, and a pass behind them raises
-- although every reply can be read and every process that replaces another starts: the `finally` block
-- returns, and each process that was started was then killed and joined, but for the last one, which
-- was not.
pub analyse-LosesLast :
    (exits : ℕ → Exit)
    → ((n : ℕ) → TakesNone (exits n))
    → (job : Job) (worker_count : ℕ) (os : List Observation) (schedule : List (List Observation))
      (first : Pool) (e : Exception) (now : ℕ)
    → All (All Starts) schedule
    → begin job worker_count os ≡ ok first
    → run job schedule first ≡ raise e
    → (c : Closing) × (last : ℕ) × (shut_down exits now (left job worker_count os schedule) ≡ ok c)
      × ((left job worker_count os schedule).processes ≡ suc last)
      × ((i : ℕ) → i < last → 1 ≤ times i c.gone)
      × (times last c.gone ≡ 0)
unfolding left
analyse-LosesLast exits takes job worker_count os schedule first e now starts begun raised =
    let (last, last_started, ended, lost) =
      run-Q job Starts LosesLast LosesLast-same (visit-LosesLast job) schedule first e starts
        (begin-Accounted job worker_count os first begun) raised in
    let (c, returns, gone) = shut_down-gone exits takes now (left_by_run job schedule first) in
    rw (begun, left)
      (
        c,
        last,
        returns,
        last_started,
        λ i l. omega (arith, ended i l, gone i),
        omega (arith, lost, gone last),
      )

-- Where sending None raises OSErrors only, the first assignments return, and a pass behind them raises
-- although each new pipe takes its task, so that a reply could not be read or a process that replaces
-- another did not start: the `finally` block returns, and each process that was started was then killed
-- and joined.
pub analyse-EndsAll :
    (exits : ℕ → Exit)
    → ((n : ℕ) → TakesNone (exits n))
    → (job : Job) (worker_count : ℕ) (os : List Observation) (schedule : List (List Observation))
      (first : Pool) (e : Exception) (now : ℕ)
    → All (All Resends) schedule
    → begin job worker_count os ≡ ok first
    → run job schedule first ≡ raise e
    → (c : Closing) × (shut_down exits now (left job worker_count os schedule) ≡ ok c)
      × ((i : ℕ) → i < (left job worker_count os schedule).processes → 1 ≤ times i c.gone)
unfolding left
analyse-EndsAll exits takes job worker_count os schedule first e now resends begun raised =
    let ended =
      run-Q job Resends EndsAll EndsAll-same (visit-EndsAll job) schedule first e resends
        (begin-Accounted job worker_count os first begun) raised in
    let (c, returns, gone) = shut_down-gone exits takes now (left_by_run job schedule first) in
    rw (begun, left) (c, returns, λ i l. omega (arith, ended i l, gone i))

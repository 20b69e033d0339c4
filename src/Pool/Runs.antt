-- ===== src/Pool/Runs.antt =====
-- The loop of `analyse` in src/eous/pool.py over a schedule, from pass to pass and to its end.
use eous.Prelude.{
  none, ℕ, ◌+◌, ◌-◌, ◌≤◌, ◌<◌, ◌≡◌, refl, ap, ◌∙◌, inl, inr, true, List, [], ◌∷◌, arith, length,
  All, subst, ltb, ltb→lt, Bool-cases,
}
use eous.Prelude.Outcome.{ok, >>=-eq-ok, ok-injective, returns_of_no_raise}
use eous.Pool.{
  Job, Worker, Observation, Shared, Pool, total, visit, visit_all, round, flush, pass, run, assign,
  visit_busy,
}
use eous.Pool.Passes.{busy, completions, Passed, visit_all-Passed}
use eous.Pool.Invariant.{Inv, AtHead, flush-AtHead, flush_same, busy_at_head, following-le-queue}

-- Every reply can be read, and every process that replaces another starts.
abbrev pub Starts : Observation → Type 0
Starts o = (o.recv_raises ≡ none) × (o.start_raises ≡ none) × (o.restart_raises ≡ none)

module _ (job : Job) where
  -- The tasks that are held or still queued.
  abbrev pub remaining : Pool → ℕ
  remaining p = busy p.workers + (total job - p.queue)

  -- What a pass makes of a pool.
  pub record Turned (os : List Observation) (p q : Pool) : Type 0 where
    pub head : AtHead job q
    pub same_length : length q.workers ≡ length p.workers
    pub fewer : remaining q + completions job os p.workers ≡ remaining p

  round-Turned :
      (os : List Observation) (p : Pool) (ws : List Worker) (s : Shared)
      → Inv job p
      → Passed job os p.workers
          (record { queue = p.queue; done = p.done; processes = p.processes; gone = p.gone })
          ws
          s
      → let q = record p {
        workers = ws;
        queue = s.queue;
        done = s.done;
        processes = s.processes;
        gone = s.gone;
      } in
        Turned os p (flush job (length q.done) q)
  round-Turned os p ws s v passed =
      let q : Pool = record p {
        workers = ws;
        queue = s.queue;
        done = s.done;
        processes = s.processes;
        gone = s.gone;
      } in
      let same = flush_same job (length q.done) q in
      record {
        head =
            flush-AtHead job (length q.done) q
              (record {
                limited = passed.limited v.limited;
                engaged = passed.engaged v.engaged;
                placed = λ i. omega (arith, passed.placed i, v.placed i);
                answered = passed.answered v.engaged v.answered;
                in_order = v.in_order;
                counted = v.counted;
              })
              (omega arith);
        same_length = ap length same.0 ∙ passed.same_length;
        fewer =
            omega (
              arith,
              ap busy same.0,
              same.1,
              passed.counted,
              passed.grows,
              passed.limited v.limited,
            );
      }

  pub pass-Turned :
      (os : List Observation) (p q : Pool) → Inv job p → pass job os p ≡ ok q → Turned os p q
  unfolding pass round
  pass-Turned os p q v h =
      let (r, turned, flushed) = >>=-eq-ok (round job os p) _ h in
      let ((ws, s), visited, made) =
        >>=-eq-ok (visit_all job os p.workers (shared_of p)) _ turned in
      subst (Turned os p)
        (ap (λ (x : Pool). flush job (length x.done) x) (ok-injective made) ∙ ok-injective flushed)
        (round-Turned os p ws s v (visit_all-Passed job os p.workers (shared_of p) ws s visited))
    where
      shared_of : Pool → Shared
      shared_of p = record {
        queue = p.queue;
        done = p.done;
        processes = p.processes;
        gone = p.gone;
      }

  -- Each new pipe takes its task, and no reading or starting raises.
  abbrev pub Undisturbed : List Observation → Type 0
  Undisturbed = All (λ (o : Observation). (o.resends ≡ true) × Starts o)

  pub assign_returns :
      (o : Observation) (w : Worker) (s : Shared)
      → (o.resends ≡ true) × Starts o
      → (r : Worker × Shared) × (assign job o w s ≡ ok r)
  unfolding assign
  assign_returns o w s sends = returns_of_no_raise (assign job o w s) (λ e h. ground arith)

  visit_returns :
      (o : Observation) (w : Worker) (s : Shared)
      → (o.resends ≡ true) × Starts o
      → (r : Worker × Shared) × (visit job o w s ≡ ok r)
  unfolding visit visit_busy assign
  visit_returns o w s sends = returns_of_no_raise (visit job o w s) (λ e h. ground arith)

  visit_all_returns :
      (os : List Observation) (ws : List Worker) (s : Shared)
      → Undisturbed os
      → (r : List Worker × Shared) × (visit_all job os ws s ≡ ok r)
  unfolding visit_all
  visit_all_returns [] ws s sends = ((ws, s), refl)
  visit_all_returns (o ∷ os) [] s sends = (([], s), refl)
  visit_all_returns (o ∷ os) (w ∷ ws) s sends =
      let ((w', s'), first) = visit_returns o w s sends.0 in
      let ((ws', s''), more) = visit_all_returns os ws s' sends.1 in
      ((w' ∷ ws', s''), rw first (rw more))

  pass_returns :
      (os : List Observation) (p : Pool) → Undisturbed os → (q : Pool) × (pass job os p ≡ ok q)
  unfolding pass round
  pass_returns os p sends =
      let ((ws, s), visited) =
        visit_all_returns os p.workers
          (record { queue = p.queue; done = p.done; processes = p.processes; gone = p.gone })
          sends in
      let turned : Pool = record p {
        workers = ws;
        queue = s.queue;
        done = s.done;
        processes = s.processes;
        gone = s.gone;
      } in
      (flush job (length turned.done) turned, rw visited)

  -- `wait` comes back: in each pass that the loop makes, some task ends, since a pipe is ready or
  -- the nearest deadline has passed.
  abbrev pub EachWakes : List (List Observation) → Pool → Type 0
  EachWakes [] p = Unit
  EachWakes (os ∷ rest) p =
      (p.following < total job → 0 < completions job os p.workers)
      × ((q : Pool) → pass job os p ≡ ok q → EachWakes rest q)

  abbrev pub Finished : List (List Observation) → Pool → Type 0
  Finished schedule p =
      (q : Pool) × (run job schedule p ≡ ok q) × (q.following ≡ total job) × AtHead job q

  nothing_left :
      (p : Pool)
      → AtHead job p
      → (0 < total job → 0 < length p.workers)
      → remaining p ≡ 0
      → p.following ≡ total job
  nothing_left p h some_workers e = ground (
    arith,
    λ (unfinished : p.following < total job).
        busy_at_head job p h.inv h.missing (some_workers (omega arith)) unfinished,
    following-le-queue job p h.inv,
    h.inv.limited,
  )

  pub run-Finished :
      (schedule : List (List Observation)) (p : Pool)
      → AtHead job p
      → (0 < total job → 0 < length p.workers)
      → All Undisturbed schedule
      → EachWakes schedule p
      → remaining p ≤ length schedule
      → Finished schedule p
  unfolding run
  run-Finished [] p h some_workers sends wakes few =
      (p, refl, nothing_left p h some_workers (omega arith), h)
  run-Finished (os ∷ rest) p h some_workers sends wakes few =
      elim (Bool-cases (ltb p.following (total job))) [
        | inl more ↦
            let (q, passed) = pass_returns os p sends.0 in
            let turned = pass-Turned os p q h.inv passed in
            let (r, ran, done, head) =
              run-Finished rest q turned.head
                (λ some_files. omega (arith, turned.same_length, some_workers some_files)) sends.1
                (wakes.1 q passed) (omega (arith, turned.fewer, wakes.0 (ltb→lt _ _ more))) in
            (r, rw more (rw passed ran), done, head)
        | inr last ↦ (p, rw last, ground (arith, following-le-queue job p h.inv, h.inv.limited), h)
      ]

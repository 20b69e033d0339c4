-- ===== src/Pool/Analyse.antt =====
-- `analyse` as a whole: the start of the workers, the first assignments and the loop.
use eous.Prelude.{
  ℕ, zero, suc, ◌+◌, ◌≤◌, ◌<◌, ◌≡◌, refl, ap, ◌∙◌, inl, inr, List, [], ◌∷◌, none, arith, length,
  All, subst, ltb, min, Bool-cases,
}
use eous.Prelude.Outcome.{ok, >>=-eq-ok, ok-injective}
use eous.Pool.{
  Job, Worker, Observation, Shared, Pool, total, pass, run, find, analyse, begin, assign,
  assign_all, start_all,
}
use eous.Pool.Slots.{held, below, AllEngaged, Engaged-mono, Assigned, assign-Assigned}
use eous.Pool.Passes.{busy}
use eous.Pool.Invariant.{AtHead, InOrder, busy_at_head}
use eous.Pool.Runs.{remaining, pass-Turned, Undisturbed, EachWakes, run-Finished, assign_returns}

abbrev AllIdle : List Worker → Type 0
AllIdle = All (λ (w : Worker). w.index ≡ none)

module _ (job : Job) where
  start_all-AllIdle : (process n : ℕ) → AllIdle (start_all job process n)
  unfolding start_all
  start_all-AllIdle process zero = tt
  start_all-AllIdle process (suc n) = (refl, start_all-AllIdle (suc process) n)

  length-start_all : (process n : ℕ) → length (start_all job process n) ≡ n
  unfolding start_all
  length-start_all process zero = refl
  length-start_all process (suc n) = ap suc (length-start_all (suc process) n)

  -- What the first assignments make of idle workers.
  record Manned (ws : List Worker) (s : Shared) (ws' : List Worker) (s' : Shared) : Type 0 where
    same_length : length ws' ≡ length ws
    grows : s.queue ≤ s'.queue
    limited : s.queue ≤ total job → s'.queue ≤ total job
    engaged : AllEngaged job s'.queue ws'
    placed : (i : ℕ) → held i ws' + below i s.queue ≡ below i s'.queue
    counted : busy ws' + s.queue ≡ s'.queue

  Manned-nil : (s : Shared) → Manned [] s [] s
  Manned-nil s = record {
    same_length = refl;
    grows = omega arith;
    limited = λ h. h;
    engaged = tt;
    placed = λ i. omega arith;
    counted = omega arith;
  }

  Manned-cons :
      (s : Shared) (w w' : Worker) (s' : Shared) (ws ws' : List Worker) (s'' : Shared)
      → Assigned job s w' s'
      → Manned ws s' ws' s''
      → Manned (w ∷ ws) s (w' ∷ ws') s''
  Manned-cons s w w' s' ws ws' s'' a m = record {
    same_length = omega (arith, m.same_length);
    grows = omega (arith, a.grows, m.grows);
    limited = λ h. m.limited (a.limited h);
    engaged = (Engaged-mono job w'.index w'.seconds m.grows a.engaged, m.engaged);
    placed = λ i. omega (arith, a.placed i, m.placed i);
    counted = omega (arith, a.counted, m.counted);
  }

  assign_all-Manned :
      (os : List Observation) (ws : List Worker) (s : Shared) (ws' : List Worker) (s' : Shared)
      → AllIdle ws
      → length ws ≤ length os
      → assign_all job os ws s ≡ ok (ws', s')
      → Manned ws s ws' s'
  unfolding assign_all
  assign_all-Manned [] [] s ws' s' idle covered h =
      subst (λ (r : List Worker × Shared). Manned [] s r.0 r.1) (ok-injective h) (Manned-nil s)
  assign_all-Manned (o ∷ os) [] s ws' s' idle covered h =
      subst (λ (r : List Worker × Shared). Manned [] s r.0 r.1) (ok-injective h) (Manned-nil s)
  assign_all-Manned [] (w ∷ ws) s ws' s' idle covered h = absurd (omega arith)
  assign_all-Manned (o ∷ os) (w ∷ ws) s ws' s'' idle covered h =
      let ((w', s'), first, h') = >>=-eq-ok (assign job o w s) _ h in
      let ((rest, s3), more, last) = >>=-eq-ok (assign_all job os ws s') _ h' in
      subst (λ (r : List Worker × Shared). Manned (w ∷ ws) s r.0 r.1) (ok-injective last)
        (Manned-cons s w w' s' ws rest s3 (assign-Assigned job o w s w' s' idle.0 first)
          (assign_all-Manned os ws s' rest s3 idle.1 (omega arith) more))

  assign_all_returns :
      (os : List Observation) (ws : List Worker) (s : Shared)
      → Undisturbed job os
      → (r : List Worker × Shared) × (assign_all job os ws s ≡ ok r)
  unfolding assign_all
  assign_all_returns [] ws s sends = ((ws, s), refl)
  assign_all_returns (o ∷ os) [] s sends = (([], s), refl)
  assign_all_returns (o ∷ os) (w ∷ ws) s sends =
      let ((w', s'), first) = assign_returns job o w s sends.0 in
      let ((ws', s''), more) = assign_all_returns os ws s' sends.1 in
      ((w' ∷ ws', s''), rw first (rw more))

  -- The loop starts with one worker for each file, up to the worker count, and all files to do.
  record Begun (worker_count : ℕ) (p : Pool) : Type 0 where
    head : AtHead job p
    workers : length p.workers ≡ min (total job) worker_count
    all_left : remaining job p ≡ total job

  first_shared : ℕ → Shared
  first_shared count = record { queue = 0; done = []; processes = count; gone = [] }

  begun_pool : List Worker → Shared → Pool
  begun_pool ws s = record {
    workers = ws;
    queue = s.queue;
    done = [];
    following = 0;
    yielded = [];
    processes = s.processes;
    gone = s.gone;
  }

  Manned-Begun :
      (worker_count : ℕ) (ws : List Worker) (s : Shared)
      → Manned
          (start_all job 0 (min (total job) worker_count))
          (first_shared (min (total job) worker_count))
          ws
          s
      → Begun worker_count (begun_pool ws s)
  unfolding begun_pool first_shared
  Manned-Begun worker_count ws s m = record {
    head = record {
      inv = record {
        limited = m.limited (omega arith);
        engaged = m.engaged;
        placed = λ i. omega (arith, m.placed i);
        answered = tt;
        in_order = tt;
        counted = refl;
      };
      missing = unfold find in refl;
    };
    workers = omega (arith, m.same_length, length-start_all 0 (min (total job) worker_count));
    all_left = omega (arith, m.counted, m.limited (omega arith));
  }

  begin-Begun :
      (worker_count : ℕ) (os : List Observation) (p : Pool)
      → min (total job) worker_count ≤ length os
      → begin job worker_count os ≡ ok p
      → Begun worker_count p
  unfolding begin first_shared begun_pool
  begin-Begun worker_count os p covered h =
      let count = min (total job) worker_count in
      let ((ws, s), manned, made) =
        >>=-eq-ok (assign_all job os (start_all job 0 count) (first_shared count)) _ h in
      subst (Begun worker_count) (ok-injective made) (
        Manned-Begun worker_count ws s (
          assign_all-Manned os (start_all job 0 count) (first_shared count) ws s
            (start_all-AllIdle 0 count) (omega (arith, length-start_all 0 count)) manned))

  begin_returns :
      (worker_count : ℕ) (os : List Observation)
      → Undisturbed job os
      → (p : Pool) × (begin job worker_count os ≡ ok p)
  unfolding begin first_shared begun_pool
  begin_returns worker_count os sends =
      let count = min (total job) worker_count in
      let ((ws, s), manned) =
        assign_all_returns os (start_all job 0 count) (first_shared count) sends in
      (begun_pool ws s, rw manned)

  run-AtHead :
      (schedule : List (List Observation)) (p q : Pool)
      → AtHead job p
      → run job schedule p ≡ ok q
      → AtHead job q × (length q.workers ≡ length p.workers)
  unfolding run
  run-AtHead [] p q h e =
      subst (λ (x : Pool). AtHead job x × (length x.workers ≡ length p.workers)) (ok-injective e)
        (h, refl)
  run-AtHead (os ∷ rest) p q h e = elim (Bool-cases (ltb p.following (total job))) [
    | inl more ↦
        let (r, passed, ran) = >>=-eq-ok (pass job os p) (run job rest) (rw more at e) in
        let turned = pass-Turned job os p r h.inv passed in
        let (head, same) = run-AtHead rest r q turned.head ran in (head, same ∙ turned.same_length)
    | inr last ↦
        subst (λ (x : Pool). AtHead job x × (length x.workers ≡ length p.workers))
          (ok-injective (rw last at e)) (h, refl)
  ]

  -- Under any schedule, with a worker or more and an observation for each: what was yielded is the analyses of the first files,
  -- in the order of the files, each from its own file; and while files are left, a worker is busy,
  -- so the loop has a nearest deadline to wait for.
  pub analyse-InOrder :
      (worker_count : ℕ) (os : List Observation) (schedule : List (List Observation)) (q : Pool)
      → 0 < worker_count
      → min (total job) worker_count ≤ length os
      → analyse job worker_count os schedule ≡ ok q
      → InOrder job 0 q.yielded
        × (length q.yielded ≡ q.following)
        × (q.following < total job → 0 < busy q.workers)
  unfolding analyse
  analyse-InOrder worker_count os schedule q some_workers covered e =
      let (p, began, ran) = >>=-eq-ok (begin job worker_count os) (run job schedule) e in
      let begun = begin-Begun worker_count os p covered began in
      let (head, same) = run-AtHead schedule p q begun.head ran in
      (
        head.inv.in_order,
        head.inv.counted,
        λ unfinished.
            busy_at_head job q head.inv head.missing (omega (arith, same, begun.workers))
              unfinished,
      )

  -- With a worker or more and an observation for each, where every new pipe takes its task,
  -- every reply can be read, every process that replaces another starts and each pass ends a task, as
  -- many passes as there are files are enough: the analysis of every file is yielded, in the order of
  -- the files.
  pub analyse_finishes :
      (worker_count : ℕ) (os : List Observation) (schedule : List (List Observation))
      → 0 < worker_count
      → min (total job) worker_count ≤ length os
      → Undisturbed job os
      → All (Undisturbed job) schedule
      → ((p : Pool) → begin job worker_count os ≡ ok p → EachWakes job schedule p)
      → total job ≤ length schedule
      → (q : Pool) × (analyse job worker_count os schedule ≡ ok q)
        × (length q.yielded ≡ total job)
        × InOrder job 0 q.yielded
  unfolding analyse
  analyse_finishes worker_count os schedule some_workers covered sends resends wakes enough =
      let (p, began) = begin_returns worker_count os sends in
      let begun = begin-Begun worker_count os p covered began in
      let (q, ran, done, head) =
        run-Finished job schedule p begun.head (λ some_files. omega (arith, begun.workers)) resends
          (wakes p began) (omega (arith, begun.all_left)) in
      (q, rw began ran, head.inv.counted ∙ done, head.inv.in_order)

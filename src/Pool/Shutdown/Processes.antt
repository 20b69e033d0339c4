-- ===== src/Pool/Shutdown/Processes.antt =====
-- The processes that `analyse` of src/eous/pool.py starts, and those that it ends.
use eous.Prelude.{
  ℕ, zero, suc, ◌+◌, min, ◌≡◌, refl, sym, ap, ap₂, ◌∙◌, subst, inl, inr, List, [], ◌∷◌, ◌++◌, arith,
  ltb, ◌==◌, if◌then◌else◌, Bool-cases, Option-cases, length,
}
use eous.Prelude.Outcome.{Outcome, ok, >>=-eq-ok, ok-injective}
use eous.Prelude.Exception.{Exception}
use eous.Pool.{
  Job, Worker, Observation, Shared, Pool, assign, visit, visit_busy, visit_all, start_all,
  assign_all, begin, round, flush, pass, run, analyse, find, remove, total,
}
use eous.Pool.Slots.{below}

-- How many workers have a process, and how often a process is gone.
abbrev pub runs : ℕ → List Worker → ℕ
runs i [] = 0
runs i (w ∷ ws) = (if w.process == i then 1 else 0) + runs i ws

abbrev pub times : ℕ → List ℕ → ℕ
times i [] = 0
times i (n ∷ ns) = (if n == i then 1 else 0) + times i ns

-- What a step does to the processes: one that is started has a worker, and one that has none is gone.
abbrev pub Moves : List Worker → Shared → List Worker → Shared → Type 0
Moves ws s ws' s' =
    (i : ℕ)
    → runs i ws' + times i s'.gone + below i s.processes
      ≡ runs i ws + times i s.gone + below i s'.processes

-- Every process that was started is that of a worker or gone, and only once.
abbrev pub Accounted : Pool → Type 0
Accounted p = (i : ℕ) → runs i p.workers + times i p.gone ≡ below i p.processes

same-Moves :
    (ws : List Worker) (s : Shared) (ws' : List Worker) (s' : Shared)
    → ◌≡◌ {A = Outcome Exception (List Worker × Shared)} (ok (ws, s)) (ok (ws', s'))
    → Moves ws s ws' s'
same-Moves ws s ws' s' h =
    subst (λ (r : List Worker × Shared). Moves ws s r.0 r.1) (ok-injective h) (λ i. refl)

Moves-cons :
    (s : Shared) (w w' : Worker) (s' : Shared) (ws ws' : List Worker) (s'' : Shared)
    → Moves (w ∷ []) s (w' ∷ []) s'
    → Moves ws s' ws' s''
    → Moves (w ∷ ws) s (w' ∷ ws') s''
Moves-cons s w w' s' ws ws' s'' m n i = omega (arith, m i, n i)

module _ (job : Job) where
  assign-Moves :
      (o : Observation) (w : Worker) (s : Shared) (w' : Worker) (s' : Shared)
      → assign job o w s ≡ ok (w', s')
      → Moves (w ∷ []) s (w' ∷ []) s'
  unfolding assign
  assign-Moves o w s w' s' h i = ground arith

  pub visit-Moves :
      (o : Observation) (w : Worker) (s : Shared) (w' : Worker) (s' : Shared)
      → visit job o w s ≡ ok (w', s')
      → Moves (w ∷ []) s (w' ∷ []) s'
  unfolding visit visit_busy assign
  visit-Moves o w s w' s' h i = ground arith

  visit_all-Moves :
      (os : List Observation) (ws : List Worker) (s : Shared) (ws' : List Worker) (s' : Shared)
      → visit_all job os ws s ≡ ok (ws', s')
      → Moves ws s ws' s'
  unfolding visit_all
  visit_all-Moves [] ws s ws' s' h = same-Moves ws s ws' s' h
  visit_all-Moves (o ∷ os) [] s ws' s' h = same-Moves [] s ws' s' h
  visit_all-Moves (o ∷ os) (w ∷ ws) s ws' s'' h =
      let ((w', s'), first, h') = >>=-eq-ok (visit job o w s) _ h in
      let ((rest, s3), more, last) = >>=-eq-ok (visit_all job os ws s') _ h' in
      subst (λ (r : List Worker × Shared). Moves (w ∷ ws) s r.0 r.1) (ok-injective last)
        (Moves-cons s w w' s' ws rest s3 (visit-Moves o w s w' s' first)
          (visit_all-Moves os ws s' rest s3 more))

  assign_all-Moves :
      (os : List Observation) (ws : List Worker) (s : Shared) (ws' : List Worker) (s' : Shared)
      → assign_all job os ws s ≡ ok (ws', s')
      → Moves ws s ws' s'
  unfolding assign_all
  assign_all-Moves [] ws s ws' s' h = same-Moves ws s ws' s' h
  assign_all-Moves (o ∷ os) [] s ws' s' h = same-Moves [] s ws' s' h
  assign_all-Moves (o ∷ os) (w ∷ ws) s ws' s'' h =
      let ((w', s'), first, h') = >>=-eq-ok (assign job o w s) _ h in
      let ((rest, s3), more, last) = >>=-eq-ok (assign_all job os ws s') _ h' in
      subst (λ (r : List Worker × Shared). Moves (w ∷ ws) s r.0 r.1) (ok-injective last)
        (Moves-cons s w w' s' ws rest s3 (assign-Moves o w s w' s' first)
          (assign_all-Moves os ws s' rest s3 more))

  start_all-runs :
      (i process n : ℕ) → runs i (start_all job process n) + below i process ≡ below i (process + n)
  unfolding start_all
  start_all-runs i process zero = ground arith
  start_all-runs i process (suc n) = ground (arith, start_all-runs i (suc process) n)

  pub begin-Accounted :
      (worker_count : ℕ) (os : List Observation) (p : Pool)
      → begin job worker_count os ≡ ok p
      → Accounted p
  unfolding begin
  begin-Accounted worker_count os p h =
      let count = min (total job) worker_count in
      let first : Shared = record { queue = 0; done = []; processes = count; gone = [] } in
      let ((ws, s), manned, made) =
        >>=-eq-ok (assign_all job os (start_all job 0 count) first) _ h in
      let moves = assign_all-Moves os (start_all job 0 count) first ws s manned in
      subst Accounted (ok-injective made) (λ i. ground (arith, moves i, start_all-runs i 0 count))

  flush-processes :
      (fuel : ℕ) (p : Pool)
      → ((flush job fuel p).processes ≡ p.processes)
        × ((flush job fuel p).gone ≡ p.gone)
        × ((flush job fuel p).workers ≡ p.workers)
  unfolding flush
  flush-processes zero p = (refl, refl, refl)
  flush-processes (suc fuel) p = elim (Option-cases (find p.following p.done)) [
    | inl e ↦ rw (e, flush) (refl, refl, refl)
    | inr (a, e) ↦
        rw (e, flush)
          (flush-processes fuel (record p {
            done = remove p.following p.done;
            following = suc p.following;
            yielded = p.yielded ++ a ∷ [];
          }))
  ]

  flush-Accounted : (fuel : ℕ) (p : Pool) → Accounted p → Accounted (flush job fuel p)
  flush-Accounted fuel p h i =
      let (processes, gone, workers) = flush-processes fuel p in
      ap₂ (λ ws ns. runs i ws + times i ns) workers gone ∙ h i ∙ ap (below i) (sym processes)

  round-Accounted :
      (os : List Observation) (p q : Pool) → Accounted p → round job os p ≡ ok q → Accounted q
  unfolding round
  round-Accounted os p q h e =
      let shared : Shared = record {
        queue = p.queue;
        done = p.done;
        processes = p.processes;
        gone = p.gone;
      } in
      let ((ws, s), visited, made) = >>=-eq-ok (visit_all job os p.workers shared) _ e in
      let moves = visit_all-Moves os p.workers shared ws s visited in
      subst Accounted (ok-injective made) (λ i. omega (arith, moves i, h i))

  pub pass-Accounted :
      (os : List Observation) (p q : Pool) → Accounted p → pass job os p ≡ ok q → Accounted q
  unfolding pass
  pass-Accounted os p q h e =
      let (r, turned, flushed) = >>=-eq-ok (round job os p) _ e in
      subst Accounted (ok-injective flushed)
        (flush-Accounted (length r.done) r (round-Accounted os p r h turned))

  run-Accounted :
      (schedule : List (List Observation)) (p q : Pool)
      → Accounted p
      → run job schedule p ≡ ok q
      → Accounted q
  unfolding run
  run-Accounted [] p q h e = subst Accounted (ok-injective e) h
  run-Accounted (os ∷ rest) p q h e = elim (Bool-cases (ltb p.following (total job))) [
    | inr f ↦ subst Accounted (ok-injective (rw (f, run) at e)) h
    | inl f ↦
        let (r, passed, more) = >>=-eq-ok (pass job os p) (run job rest) (rw (f, run) at e) in
        run-Accounted rest r q (pass-Accounted os p r h passed) more
  ]

  pub analyse-Accounted :
      (worker_count : ℕ) (os : List Observation) (schedule : List (List Observation)) (p : Pool)
      → analyse job worker_count os schedule ≡ ok p
      → Accounted p
  unfolding analyse
  analyse-Accounted worker_count os schedule p e =
      let (first, begun, more) = >>=-eq-ok (begin job worker_count os) (run job schedule) e in
      run-Accounted schedule first p (begin-Accounted worker_count os first begun) more

-- ===== src/Pool/Slots.antt =====
-- What one visit of a slot, and one pass over all slots, do to the books: every index stays in one
-- place, the workers stay engaged while files wait, and a stored outcome belongs to its file.
use eous.Prelude.Exception.{Exception}
use eous.Prelude.{
  refl, ◌∙◌, ℕ, ◌+◌, ◌≤◌, ◌≡◌, ◌⊎◌, inl, inr, true, false, List, [], ◌∷◌, Option, none, some, arith,
  ltb, ◌==◌, if◌then◌else◌, All, Bool-cases, Option-cases,
}
use eous.Prelude.Outcome.{Outcome, ok}
use eous.Report.{Analysis, crashed, overran}
use eous.Pool.{
  Job, Worker, Observation, Shared, total, path_at, seconds_for, settle, outcome, ends, assign,
  visit_busy, visit, interrupts, survivor, started_processes, retired,
}

-- How many workers hold an index, and how many entries it has in `done`.
abbrev pub holds : ℕ → Option ℕ → ℕ
holds i none = 0
holds i (some j) = if j == i then 1 else 0

abbrev pub held : ℕ → List Worker → ℕ
held i [] = 0
held i (w ∷ ws) = holds i w.index + held i ws

abbrev pub stored : ℕ → List (ℕ × Analysis) → ℕ
stored i [] = 0
stored i ((j, a) ∷ rest) = (if j == i then 1 else 0) + stored i rest

-- Whether a worker is busy, as a number.
abbrev pub holds_any : Option ℕ → ℕ
holds_any none = 0
holds_any (some j) = 1

-- Whether an index lies below a bound, as a number.
abbrev pub below : ℕ → ℕ → ℕ
below i m = if ltb i m then 1 else 0

module _ (job : Job) where
  -- The outcomes that the file at an index can have: what the analysis of its path returns or
  -- raises, or a refusal of that path for a worker that died or took longer than the file's limit.
  abbrev pub Outcomes : ℕ → Analysis → Type 0
  Outcomes i a =
      (a ≡ settle job (path_at job i) (job.analyse_one (path_at job i)))
      ⊎ (a ≡ crashed (path_at job i))
      ⊎ (a ≡ overran (path_at job i) (seconds_for job i))

  abbrev pub Entry : ℕ × Analysis → Type 0
  Entry (i, a) = Outcomes i a

  -- An idle worker means that the queue is used up, and a busy one has its file's limit.
  abbrev pub Engaged : ℕ → Option ℕ → ℕ → Type 0
  Engaged queue none seconds = total job ≤ queue
  Engaged queue (some i) seconds = seconds ≡ seconds_for job i

  abbrev pub AllEngaged : ℕ → List Worker → Type 0
  AllEngaged queue = All (λ (w : Worker). Engaged queue w.index w.seconds)

  pub Engaged-mono :
      {m n : ℕ} (index : Option ℕ) (seconds : ℕ)
      → m ≤ n
      → Engaged m index seconds
      → Engaged n index seconds
  Engaged-mono none seconds h e = omega arith
  Engaged-mono (some i) seconds h e = e

  -- What an assignment to an idle worker changes.
  pub record Assigned (s : Shared) (w' : Worker) (s' : Shared) : Type 0 where
    pub grows : s.queue ≤ s'.queue
    pub limited : s.queue ≤ total job → s'.queue ≤ total job
    pub same_done : s'.done ≡ s.done
    pub engaged : Engaged s'.queue w'.index w'.seconds
    pub placed : (i : ℕ) → holds i w'.index + below i s.queue ≡ below i s'.queue
    pub counted : holds_any w'.index + s.queue ≡ s'.queue

  pub assign-Assigned :
      (o : Observation) (w : Worker) (s : Shared) (w' : Worker) (s' : Shared)
      → w.index ≡ none
      → assign job o w s ≡ ok (w', s')
      → Assigned s w' s'
  unfolding assign
  assign-Assigned o w s w' s' idle h = record {
    grows = ground arith;
    limited = ground arith;
    same_done = ground arith;
    engaged = ground arith;
    placed = λ i. ground arith;
    counted = ground arith;
  }

  -- Whether a visit ends the slot's task, as a number.
  abbrev pub completes : Observation → Option ℕ → Worker → ℕ
  completes o none w = 0
  completes o (some i) w = if ends job o w then 1 else 0

  -- What a visit to a slot changes. `remaining` counts the tasks that are held or queued.
  pub record Visited (o : Observation) (w : Worker) (s : Shared) (w' : Worker) (s' : Shared)
      : Type 0 where
    pub grows : s.queue ≤ s'.queue
    pub limited : s.queue ≤ total job → s'.queue ≤ total job
    pub engaged : Engaged s.queue w.index w.seconds → Engaged s'.queue w'.index w'.seconds
    pub placed :
        (i : ℕ)
        → holds i w'.index + stored i s'.done + below i s.queue
          ≡ holds i w.index + stored i s.done + below i s'.queue
    pub answered : Engaged s.queue w.index w.seconds → All Entry s.done → All Entry s'.done
    pub counted :
        holds_any w'.index + s.queue + completes o w.index w ≡ holds_any w.index + s'.queue

  outcome-Outcomes :
      (o : Observation) (w : Worker) (i : ℕ)
      → w.seconds ≡ seconds_for job i
      → Outcomes i (outcome job o w i)
  outcome-Outcomes o w i e = ground arith

  -- A visit that leaves the slot alone.
  unchanged :
      (o : Observation) (w : Worker) (s : Shared) (w' : Worker) (s' : Shared)
      → completes o w.index w ≡ 0
      → w' ≡ w
      → s' ≡ s
      → Visited o w s w' s'
  unchanged o w s w' s' nothing same_worker same = record {
    grows = ground arith;
    limited = ground arith;
    engaged = λ e. rw (same_worker, same) e;
    placed = λ i. rw (same_worker, same);
    answered = λ _ h. rw same h;
    counted = rw (same_worker, same) (omega arith);
  }

  -- The books as an ended task leaves them, before the next assignment.
  abbrev stored_outcome : Observation → Worker → ℕ → Shared → Shared
  stored_outcome o w i s = record s {
    done = (i, outcome job o w i) ∷ s.done;
    processes = started_processes job o s.processes;
    gone = retired job o w s.gone;
  }

  -- A visit that nothing interrupts.
  visit_calm :
      (o : Observation) (w : Worker) (s : Shared) (i : ℕ)
      → w.index ≡ some i
      → interrupts job o w ≡ none
      → visit job o w s ≡ (
          if ends job o w
          then assign job o (survivor job o w s.processes) (stored_outcome o w i s)
          else ok (w, s))
  unfolding visit visit_busy
  visit_calm o w s i busy calm = ground arith

  calm_visit :
      (o : Observation) (w : Worker) (s : Shared) (i : ℕ) (r : Worker × Shared)
      → w.index ≡ some i
      → visit job o w s ≡ ok r
      → interrupts job o w ≡ none
  unfolding visit visit_busy
  calm_visit o w s i r busy h = ground arith

  visit_ended :
      (o : Observation) (w : Worker) (s : Shared) (i : ℕ)
      → w.index ≡ some i
      → interrupts job o w ≡ none
      → ends job o w ≡ true
      → visit job o w s ≡ assign job o (survivor job o w s.processes) (stored_outcome o w i s)
  visit_ended o w s i busy calm e = visit_calm o w s i busy calm ∙ rw e refl

  survivor_idle :
      (o : Observation) (w : Worker) (processes : ℕ) → (survivor job o w processes).index ≡ none
  survivor_idle o w processes = ground arith

  ended-Visited :
      (o : Observation) (w : Worker) (s : Shared) (w' : Worker) (s' : Shared) (i : ℕ)
      → w.index ≡ some i
      → ends job o w ≡ true
      → Assigned (stored_outcome o w i s) w' s'
      → Visited o w s w' s'
  ended-Visited o w s w' s' i busy e a = record {
    grows = a.grows;
    limited = a.limited;
    engaged = λ _. a.engaged;
    placed = λ k. ground (arith, a.placed k, a.same_done);
    answered = λ h k. rw a.same_done (outcome-Outcomes o w i (rw busy at h), k);
    counted = ground (arith, a.counted);
  }

  waiting :
      (o : Observation) (w : Worker) (s : Shared) (w' : Worker) (s' : Shared) (i : ℕ)
      → w.index ≡ some i
      → interrupts job o w ≡ none
      → ends job o w ≡ false
      → visit job o w s ≡ ok (w', s')
      → (w' ≡ w) × (s' ≡ s)
  waiting o w s w' s' i busy calm e h =
      let same : ◌≡◌ {A = Outcome Exception (Worker × Shared)} (ok (w, s)) (ok (w', s')) =
        rw e at (rw (visit_calm o w s i busy calm) at h) in
      (ground arith, ground arith)

  idling :
      (o : Observation) (w : Worker) (s : Shared) (w' : Worker) (s' : Shared)
      → w.index ≡ none
      → visit job o w s ≡ ok (w', s')
      → (w' ≡ w) × (s' ≡ s)
  unfolding visit
  idling o w s w' s' idle h =
      let same : ◌≡◌ {A = Outcome Exception (Worker × Shared)} (ok (w, s)) (ok (w', s')) =
        rw (idle, visit) at h in
      (ground arith, ground arith)

  visit-some :
      (o : Observation) (w : Worker) (s : Shared) (w' : Worker) (s' : Shared) (i : ℕ)
      → w.index ≡ some i
      → visit job o w s ≡ ok (w', s')
      → Visited o w s w' s'
  visit-some o w s w' s' i busy h = elim (Bool-cases (ends job o w)) [
    | inl e ↦ ended-Visited o w s w' s' i busy e (
        assign-Assigned o (survivor job o w s.processes) (stored_outcome o w i s) w' s'
          (survivor_idle o w s.processes)
          (rw (visit_ended o w s i busy (calm_visit o w s i (w', s') busy h) e) at h))
    | inr e ↦
        let same = waiting o w s w' s' i busy (calm_visit o w s i (w', s') busy h) e h in
        unchanged o w s w' s' (rw (busy, completes) (rw e)) same.0 same.1
  ]

  pub visit-Visited :
      (o : Observation) (w : Worker) (s : Shared) (w' : Worker) (s' : Shared)
      → visit job o w s ≡ ok (w', s')
      → Visited o w s w' s'
  visit-Visited o w s w' s' h = elim (Option-cases w.index) [
    | inl idle ↦
        let same = idling o w s w' s' idle h in
        unchanged o w s w' s' (rw (idle, completes)) same.0 same.1
    | inr (i, busy) ↦ visit-some o w s w' s' i busy h
  ]

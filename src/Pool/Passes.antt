-- ===== src/Pool/Passes.antt =====
-- One pass over the slots: the sums of what the visits do.
use eous.Prelude.{ℕ, ◌+◌, ◌≤◌, ◌≡◌, refl, List, [], ◌∷◌, arith, length, All, subst}
use eous.Prelude.Outcome.{ok, >>=-eq-ok, ok-injective}
use eous.Pool.{Job, Worker, Observation, Shared, total, visit, visit_all}
use eous.Pool.Slots.{
  held, stored, holds_any, below, Entry, AllEngaged, Engaged-mono, completes, Visited,
  visit-Visited,
}

-- How many workers have a task.
abbrev pub busy : List Worker → ℕ
busy [] = 0
busy (w ∷ ws) = holds_any w.index + busy ws

module _ (job : Job) where
  -- How many tasks the pass ends.
  abbrev pub completions : List Observation → List Worker → ℕ
  completions (o ∷ os) (w ∷ ws) = completes job o w.index w + completions os ws
  completions _ _ = 0

  AllEngaged-mono : {m n : ℕ} (ws : List Worker) → m ≤ n → AllEngaged job m ws → AllEngaged job n ws
  AllEngaged-mono [] h e = tt
  AllEngaged-mono (w ∷ ws) h e =
      (Engaged-mono job w.index w.seconds h e.0, AllEngaged-mono ws h e.1)

  pub record Passed (os : List Observation) (ws : List Worker) (s : Shared) (ws' : List Worker)
      (s' : Shared) : Type 0 where
    pub same_length : length ws' ≡ length ws
    pub grows : s.queue ≤ s'.queue
    pub limited : s.queue ≤ total job → s'.queue ≤ total job
    pub engaged : AllEngaged job s.queue ws → AllEngaged job s'.queue ws'
    pub placed :
        (i : ℕ)
        → held i ws' + stored i s'.done + below i s.queue
          ≡ held i ws + stored i s.done + below i s'.queue
    pub answered : AllEngaged job s.queue ws → All (Entry job) s.done → All (Entry job) s'.done
    pub counted : busy ws' + s.queue + completions os ws ≡ busy ws + s'.queue

  Passed-refl :
      (os : List Observation) (ws : List Worker) (s : Shared)
      → completions os ws ≡ 0
      → Passed os ws s ws s
  Passed-refl os ws s none_ends = record {
    same_length = refl;
    grows = omega arith;
    limited = λ h. h;
    engaged = λ e. e;
    placed = λ i. refl;
    answered = λ _ h. h;
    counted = omega arith;
  }

  Passed-cons :
      (o : Observation) (os : List Observation) (w : Worker) (ws : List Worker) (s : Shared)
      (w' : Worker) (s' : Shared) (ws' : List Worker) (s'' : Shared)
      → Visited job o w s w' s'
      → Passed os ws s' ws' s''
      → Passed (o ∷ os) (w ∷ ws) s (w' ∷ ws') s''
  Passed-cons o os w ws s w' s' ws' s'' v p = record {
    same_length = omega (arith, p.same_length);
    grows = omega (arith, v.grows, p.grows);
    limited = λ h. p.limited (v.limited h);
    engaged = λ e. (
      Engaged-mono job w'.index w'.seconds p.grows (v.engaged e.0),
      p.engaged (AllEngaged-mono ws v.grows e.1),
    );
    placed = λ i. omega (arith, v.placed i, p.placed i);
    answered = λ e h. p.answered (AllEngaged-mono ws v.grows e.1) (v.answered e.0 h);
    counted = omega (arith, v.counted, p.counted);
  }

  pub visit_all-Passed :
      (os : List Observation) (ws : List Worker) (s : Shared) (ws' : List Worker) (s' : Shared)
      → visit_all job os ws s ≡ ok (ws', s')
      → Passed os ws s ws' s'
  unfolding visit_all
  visit_all-Passed [] ws s ws' s' h =
      subst (λ (r : List Worker × Shared). Passed [] ws s r.0 r.1) (ok-injective h)
        (Passed-refl [] ws s refl)
  visit_all-Passed (o ∷ os) [] s ws' s' h =
      subst (λ (r : List Worker × Shared). Passed (o ∷ os) [] s r.0 r.1) (ok-injective h)
        (Passed-refl (o ∷ os) [] s refl)
  visit_all-Passed (o ∷ os) (w ∷ ws) s ws' s'' h =
      let ((w', s'), first, h') = >>=-eq-ok (visit job o w s) _ h in
      let ((rest, s3), more, last) = >>=-eq-ok (visit_all job os ws s') _ h' in
      subst (λ (r : List Worker × Shared). Passed (o ∷ os) (w ∷ ws) s r.0 r.1) (ok-injective last)
        (Passed-cons o os w ws s w' s' rest s3 (visit-Visited job o w s w' s' first)
          (visit_all-Passed os ws s' rest s3 more))

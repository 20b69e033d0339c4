-- ===== src/Pool/Invariant.antt =====
-- The invariant of the loop: each index that left the queue is with one worker, in `done`, or
-- yielded, and what was yielded belongs to the files in their order.
use native.Mathlib.Decide.{dec_lt}
use eous.Prelude.{
  ℕ, zero, suc, ◌+◌, ◌≤◌, ◌<◌, ◌≡◌, refl, inl, inr, List, [], ◌∷◌, ◌++◌, none, some, arith, length,
  length-append, All, Option-cases, subst, ◌==◌, if◌then◌else◌, Bool-cases, ==_iff,
}
use eous.Report.{Analysis}
use eous.Pool.{Job, Worker, Pool, total, find, remove, flush}
use eous.Pool.Slots.{held, stored, below, Outcomes, Entry, AllEngaged}
use eous.Pool.Passes.{busy}

stored_of_find-none : (i : ℕ) (done : List (ℕ × Analysis)) → find i done ≡ none → stored i done ≡ 0
unfolding find
stored_of_find-none i [] h = refl
stored_of_find-none i ((j, a) ∷ rest) h = ground (arith, stored_of_find-none i rest)

stored-remove :
    (i k : ℕ) (done : List (ℕ × Analysis)) (a : Analysis)
    → find i done ≡ some a
    → stored k (remove i done) + (if i == k then 1 else 0) ≡ stored k done
unfolding find remove
stored-remove i k [] a h = cc
stored-remove i k ((j, b) ∷ rest) a h = ground (arith, stored-remove i k rest a)

length-remove :
    (i : ℕ) (done : List (ℕ × Analysis)) (a : Analysis)
    → find i done ≡ some a
    → suc (length (remove i done)) ≡ length done
unfolding find remove
length-remove i [] a h = cc
length-remove i ((j, b) ∷ rest) a h = ground (arith, length-remove i rest a)

module _ (P : ℕ × Analysis → Type 0) where
  find-All :
      (i : ℕ) (done : List (ℕ × Analysis)) (a : Analysis)
      → All P done
      → find i done ≡ some a
      → P (i, a)
  unfolding find
  find-All i [] a h e = cc
  find-All i ((j, b) ∷ rest) a h e = elim (Bool-cases (j == i)) [
    | inl same ↦
        let here : some b ≡ some a = rw same at e in
        subst (λ (x : ℕ × Analysis). P x) (cc ((==_iff j i).0 same)) h.0
    | inr other ↦ find-All i rest a h.1 (rw other at e)
  ]

  remove-All : (i : ℕ) (done : List (ℕ × Analysis)) → All P done → All P (remove i done)
  unfolding remove
  remove-All i [] h = tt
  remove-All i ((j, b) ∷ rest) h = ground (arith, remove-All i rest h.1)

held-le-busy : (i : ℕ) (ws : List Worker) → held i ws ≤ busy ws
held-le-busy i [] = omega arith
held-le-busy i (w ∷ ws) = ground (arith, held-le-busy i ws)

module _ (job : Job) where
  -- The analyses of the files from an index on.
  abbrev pub InOrder : ℕ → List Analysis → Type 0
  InOrder k [] = Unit
  InOrder k (a ∷ as') = Outcomes job k a × InOrder (suc k) as'

  InOrder-append :
      (k : ℕ) (yielded : List Analysis) (a : Analysis)
      → InOrder k yielded
      → Outcomes job (k + length yielded) a
      → InOrder k (yielded ++ a ∷ [])
  InOrder-append k [] a h e = (subst (λ n. Outcomes job n a) (omega arith) e, tt)
  InOrder-append k (b ∷ yielded) a h e =
      (h.0, InOrder-append (suc k) yielded a h.1 (subst (λ n. Outcomes job n a) (omega arith) e))

  pub record Inv (p : Pool) : Type 0 where
    pub limited : p.queue ≤ total job
    pub engaged : AllEngaged job p.queue p.workers
    pub placed :
        (i : ℕ) → held i p.workers + stored i p.done + below i p.following ≡ below i p.queue
    pub answered : All (Entry job) p.done
    pub in_order : InOrder 0 p.yielded
    pub counted : length p.yielded ≡ p.following

  idle_used :
      (queue : ℕ) (ws : List Worker)
      → AllEngaged job queue ws
      → 0 < length ws
      → busy ws ≡ 0
      → total job ≤ queue
  idle_used queue [] e h b = absurd (omega arith)
  idle_used queue (w ∷ ws) e h b = ground arith

  -- Where the next file is not done and there are workers, one of them is busy: `min` has a deadline
  -- to take.
  pub busy_at_head :
      (p : Pool)
      → Inv p
      → find p.following p.done ≡ none
      → 0 < length p.workers
      → p.following < total job
      → 0 < busy p.workers
  busy_at_head p v missing some_workers unfinished = elim (dec_lt 0 (busy p.workers)) [
    | yes h ↦ h
    | no h ↦ absurd (
        ground (
          arith,
          idle_used p.queue p.workers v.engaged some_workers,
          v.placed p.following,
          held-le-busy p.following p.workers,
          stored_of_find-none p.following p.done missing,
        ))
  ]

  pub following-le-queue : (p : Pool) → Inv p → p.following ≤ p.queue
  following-le-queue p v = ground (arith, v.placed p.queue)

  -- Taking the next entry out of `done`.
  abbrev yield_next : Pool → Analysis → Pool
  yield_next p a = record p {
    done = remove p.following p.done;
    following = suc p.following;
    yielded = p.yielded ++ a ∷ [];
  }

  yield_next-Inv :
      (p : Pool) (a : Analysis) → Inv p → find p.following p.done ≡ some a → Inv (yield_next p a)
  yield_next-Inv p a v e = record {
    limited = v.limited;
    engaged = v.engaged;
    placed = λ i. ground (
      arith,
      v.placed i,
      v.placed p.following,
      stored-remove p.following i p.done a e,
      stored-remove p.following p.following p.done a e,
    );
    answered = remove-All (Entry job) p.following p.done v.answered;
    in_order = InOrder-append 0 p.yielded a v.in_order (
        subst (λ n. Outcomes job n a) (omega (arith, v.counted))
          (find-All (Entry job) p.following p.done a v.answered e));
    counted = omega (arith, v.counted, length-append p.yielded (a ∷ []));
  }

  -- What holds where the loop tests its condition.
  pub record AtHead (p : Pool) : Type 0 where
    pub inv : Inv p
    pub missing : find p.following p.done ≡ none

  pub flush-AtHead :
      (fuel : ℕ) (p : Pool) → Inv p → length p.done ≤ fuel → AtHead (flush job fuel p)
  unfolding flush
  flush-AtHead zero p v h = record { inv = v; missing = empty p.done h }
    where
      empty : (done : List (ℕ × Analysis)) → length done ≤ 0 → find p.following done ≡ none
      empty [] e = unfold find in refl
      empty (x ∷ rest) e = absurd (omega arith)
  flush-AtHead (suc fuel) p v h = elim (Option-cases (find p.following p.done)) [
    | inl e ↦ rw (e, flush) (record { inv = v; missing = e })
    | inr (a, e) ↦
        rw (e, flush)
          (flush-AtHead fuel (yield_next p a) (yield_next-Inv p a v e)
            (omega (arith, length-remove p.following p.done a e)))
  ]

  -- Flushing leaves the workers and the queue alone.
  pub flush_same :
      (fuel : ℕ) (p : Pool)
      → ((flush job fuel p).workers ≡ p.workers) × ((flush job fuel p).queue ≡ p.queue)
  unfolding flush
  flush_same zero p = (refl, refl)
  flush_same (suc fuel) p = elim (Option-cases (find p.following p.done)) [
    | inl e ↦ rw (e, flush) (refl, refl)
    | inr (a, e) ↦ rw (e, flush) (flush_same fuel (yield_next p a))
  ]

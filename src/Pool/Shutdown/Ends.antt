-- ===== src/Pool/Shutdown/Ends.antt =====
-- The `finally` block of `analyse` in src/eous/pool.py ends the processes that were started.
use eous.Prelude.{ℕ, ◌+◌, ◌≤◌, max, ◌≡◌, refl, ◌∙◌, true, Option, none, some, List, [], ◌∷◌, arith}
use eous.Prelude.Outcome.{Outcome, ok, raise}
use eous.Prelude.Exception.{Exception, is_os_error}
use eous.Pool.{Job, Worker, Observation, Pool, analyse}
use eous.Pool.Slots.{below}
use eous.Pool.Shutdown.{
  Exit, Closing, shutdown_time, suppress, tell_all, stop, stop_all, shut_down, join_until,
}
use eous.Pool.Shutdown.Processes.{runs, times, analyse-Accounted}

-- Sending None to a process raises nothing but OSErrors.
abbrev pub TakesNone : Exit → Type 0
TakesNone exit = (e : Exception) → exit.sent ≡ raise e → is_os_error e ≡ true

-- The time that the processes of some workers take to die.
abbrev pub dying : (ℕ → Exit) → List Worker → ℕ
dying exits [] = 0
dying exits (w ∷ ws) = (exits w.process).dies_in + dying exits ws

module _ (exits : ℕ → Exit) where
  suppress_returns :
      (sent : Outcome Exception (Unit {0}))
      → ((e : Exception) → sent ≡ raise e → is_os_error e ≡ true)
      → suppress sent ≡ ok tt
  suppress_returns (ok tt) h = refl
  suppress_returns (raise e) h = rw (h e refl)

  pub tell_all_returns :
      (ws : List Worker) → ((n : ℕ) → TakesNone (exits n)) → tell_all exits ws ≡ ok tt
  unfolding tell_all
  tell_all_returns [] h = refl
  tell_all_returns (w ∷ ws) h =
      rw (suppress_returns (exits w.process).sent (h w.process)) (tell_all_returns ws h)

  joined_bound : (end now : ℕ) (exit : Option ℕ) → join_until end exit now ≤ max now end
  joined_bound end now none = omega arith
  joined_bound end now (some exit) = omega arith

  pub stop_all-gone :
      (end : ℕ) (ws : List Worker) (c : Closing) (i : ℕ)
      → times i (stop_all exits end ws c).gone ≡ runs i ws + times i c.gone
  unfolding stop_all stop
  stop_all-gone end [] c i = omega arith
  stop_all-gone end (w ∷ ws) c i = omega (arith, stop_all-gone end ws (stop exits end w c) i)

  -- A process that did not exit by itself adds the time that it takes to die.
  stop-clock :
      (end : ℕ) (w : Worker) (c : Closing)
      → (stop exits end w c).clock ≤ max c.clock end + (exits w.process).dies_in
  unfolding stop
  stop-clock end w c = ground (arith, joined_bound end c.clock (exits w.process).exits_at)

  stop_all-clock :
      (end : ℕ) (ws : List Worker) (c : Closing)
      → (stop_all exits end ws c).clock ≤ max c.clock end + dying exits ws
  unfolding stop_all
  stop_all-clock end [] c = omega arith
  stop_all-clock end (w ∷ ws) c =
      omega (arith, stop_all-clock end ws (stop exits end w c), stop-clock end w c)

  -- Where sending None raises OSErrors only, and neither the start nor the passes of a schedule raise:
  -- the `finally` block behind them returns, each process that was started, and no other, was then
  -- killed and joined, once, and the block took five seconds at most besides the time that the
  -- processes of the workers take to die.
  pub analyse-shut_down :
      (takes : (n : ℕ) → TakesNone (exits n)) (job : Job) (worker_count : ℕ) (os : List Observation)
      (schedule : List (List Observation)) (p : Pool) (now : ℕ)
      → analyse job worker_count os schedule ≡ ok p
      → (c : Closing) × (shut_down exits now p ≡ ok c)
        × ((i : ℕ) → times i c.gone ≡ below i p.processes)
        × (c.clock ≤ now + shutdown_time + dying exits p.workers)
  unfolding shut_down
  analyse-shut_down takes job worker_count os schedule p now e =
      let first : Closing = record { clock = now; gone = p.gone } in
      let c = stop_all exits (now + shutdown_time) p.workers first in
      (
        c,
        rw (tell_all_returns p.workers takes),
        λ i.
            stop_all-gone (now + shutdown_time) p.workers first i
            ∙ analyse-Accounted job worker_count os schedule p e i,
        omega (arith, stop_all-clock (now + shutdown_time) p.workers first),
      )

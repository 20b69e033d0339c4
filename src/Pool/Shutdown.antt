-- ===== src/Pool/Shutdown.antt =====
-- The `finally` block of `analyse` in src/eous/pool.py. When a process exits by itself, and how long it
-- takes to die when it is killed, are parameters.
pub mod Processes
pub mod Ends
pub mod Left
pub mod Leaks
use eous.Prelude.{
  ℕ, zero, suc, ◌+◌, ◌-◌, ◌*◌, ◌/◌, ◌%◌, ◌^◌, ◌≤◌, ◌<◌, min, max, ◌≡◌, refl, sym, ap, ap₂, ◌∙◌,
  subst, ◌↔◌, ◌⊎◌, inl, inr, Bool, true, false, ◌&&◌, ◌||◌, not, Option, none, some, List, [], ◌∷◌,
  ◌++◌, map, append-nil, append_assoc, arith, ltb, leb, ◌==◌, if◌then◌else◌, ltb→lt, lt→ltb, leb→le,
  Bool-cases, Option-cases, length, get_elem?, replicate, take, drop, All, All-append, All-map,
  length-append, length-map, all,
}
use eous.Prelude.Outcome.{Outcome, ok, raise, ◌>>=◌}
use eous.Prelude.Exception.{Exception, is_os_error}
use eous.Pool.{Worker, Pool}

abbrev pub shutdown_time : ℕ
shutdown_time = 5 * 2 ^ 20

-- Of a process: what sending None to it raises, the clock when it exits by itself, if it does, and the
-- time until it is dead when it is killed.
pub record Exit : Type 0 where
  pub sent : Outcome Exception (Unit {0})
  pub exits_at : Option ℕ
  pub dies_in : ℕ

-- The clock, and the processes that are gone.
pub record Closing : Type 0 where
  pub clock : ℕ
  pub gone : List ℕ

-- `contextlib.suppress(OSError)`
abbrev pub suppress : Outcome Exception (Unit {0}) → Outcome Exception (Unit {0})
suppress (ok done) = ok done
suppress (raise e) = if is_os_error e then ok tt else raise e

-- `process.join(max(0.0, end - time.monotonic()))`, as the clock behind it.
abbrev pub join_until : ℕ → Option ℕ → ℕ → ℕ
join_until end none now = now + (end - now)
join_until end (some exit) now = max now (min exit (now + (end - now)))

-- Whether a process has exited by itself.
abbrev pub has_exited : Option ℕ → ℕ → Bool
has_exited none now = false
has_exited (some exit) now = leb exit now

module _ (exits : ℕ → Exit) where
  -- The first loop.
  unfoldable pub tell_all : List Worker → Outcome Exception (Unit {0})
  tell_all [] = ok tt
  tell_all (w ∷ ws) = suppress (exits w.process).sent >>= λ done. tell_all ws

  -- The body of the second loop: join, kill, join and close.
  unfoldable pub stop : ℕ → Worker → Closing → Closing
  stop end w c =
      let exit = (exits w.process).exits_at in
      let joined = join_until end exit c.clock in
      record {
        clock = if has_exited exit joined then joined else joined + (exits w.process).dies_in;
        gone = w.process ∷ c.gone;
      }

  unfoldable pub stop_all : ℕ → List Worker → Closing → Closing
  stop_all end [] c = c
  stop_all end (w ∷ ws) c = stop_all end ws (stop end w c)

  -- The block, from the clock behind the first loop on.
  unfoldable pub shut_down : ℕ → Pool → Outcome Exception Closing
  shut_down now p = tell_all p.workers >>= λ done.
      ok (stop_all (now + shutdown_time) p.workers (record { clock = now; gone = p.gone }))

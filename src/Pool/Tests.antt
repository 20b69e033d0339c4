-- ===== src/Pool/Tests.antt =====
-- The pool's theorems for two files and two workers, and runs of the code.
use eous.Prelude.{
  ℕ, suc, ◌+◌, ◌*◌, ◌^◌, ◌≤◌, ◌<◌, ◌≡◌, refl, sym, ◌∙◌, subst, Bool, true, false, Option, none,
  some, List, [], ◌∷◌, arith, ◌==◌, length,
}
use eous.Prelude.Text.{codes}
use eous.Prelude.Outcome.{Outcome, ok, ok-injective}
use eous.Prelude.Exception.{os_error, Exception}
use eous.Report.{FilePath, Analysis, overran}
use eous.Pool.{
  broken, broken_pipe, raise, Job, Worker, Pool, Observation, silent, replied, visit_all, visit,
  visit_busy, assign, round, flush, find, remove, pass, run, start_all, assign_all, begin, analyse,
  total,
}
use eous.Pool.Passes.{busy, completions}
use eous.Pool.Invariant.{InOrder}
use eous.Pool.Runs.{EachWakes, Undisturbed}
use eous.Pool.Slots.{below}
use eous.Pool.Shutdown.{Exit, Closing, shut_down, shutdown_time}
use eous.Pool.Shutdown.Processes.{times}
use eous.Pool.Shutdown.Left.{left}
use eous.Pool.Shutdown.Leaks.{analyse-LosesLast, analyse-EndsAll}
use eous.Pool.Shutdown.Ends.{TakesNone, analyse-shut_down}
use eous.Pool.Analyse.{analyse-InOrder, analyse_finishes}

abbrev analysed : FilePath → Outcome Exception Analysis
analysed path = ok (record { path = path; digest = some (codes "EO1"); refusal = none })

-- Two files, of 1 KiB each.
abbrev job : Job
job = record { paths = codes "a" ∷ codes "b" ∷ []; size = λ index. 1024; analyse_one = analysed }

abbrev reply : Observation
reply = record {
  signal = replied;
  now = 5;
  sends = true;
  resends = true;
  assigned_at = 5;
  recv_raises = none;
  start_raises = none;
  restart_raises = none;
}

-- A pipe that stays silent, before the deadline and behind it.
abbrev early : Observation
early = record reply { signal = silent }

abbrev late : Observation
late = record reply { signal = silent; now = 2 ^ 26 }

abbrev both_start : List Observation
both_start = reply ∷ reply ∷ []

-- The second worker replies first, and the first worker overruns its deadline.
abbrev schedule : List (List Observation)
schedule = (early ∷ reply ∷ []) ∷ (late ∷ early ∷ []) ∷ []

-- The worker of the first file, and the pool when both have started, when one has replied, and when
-- all is done.
abbrev limit : ℕ
limit = 30 * 2 ^ 20 + 1024

abbrev second : Analysis
second = record { path = codes "b"; digest = some (codes "EO1"); refusal = none }

abbrev working : ℕ → Option ℕ → Worker
working process index = record {
  process = process;
  index = index;
  deadline = 5 + limit;
  seconds = limit;
}

abbrev started : Pool
started = record {
  workers = working 0 (some 0) ∷ working 1 (some 1) ∷ [];
  queue = 2;
  done = [];
  following = 0;
  yielded = [];
  processes = 2;
  gone = [];
}

abbrev answered : Pool
answered = record started {
  workers = working 0 (some 0) ∷ working 1 none ∷ [];
  done = (1, second) ∷ [];
}

abbrev finished : Pool
finished = record {
  workers = record { process = 2; index = none; deadline = 0; seconds = 0 } ∷ working 1 none ∷ [];
  queue = 2;
  done = [];
  following = 2;
  yielded = overran (codes "a") limit ∷ second ∷ [];
  processes = 3;
  gone = 0 ∷ [];
}

begins : begin job 2 both_start ≡ ok started
unfolding begin assign_all assign start_all
begins = refl

first_pass : pass job (early ∷ reply ∷ []) started ≡ ok answered
unfolding pass round visit_all visit visit_busy assign flush find remove
first_pass = refl

-- The file that ended first is yielded second.
last_pass : pass job (late ∷ early ∷ []) answered ≡ ok finished
unfolding pass round visit_all visit visit_busy assign flush find remove
last_pass = refl

-- `EachWakes` along the passes that the loop makes.
wakes_along :
    (os : List Observation) (rest : List (List Observation)) (p q : Pool)
    → 0 < completions job os p.workers
    → pass job os p ≡ ok q
    → EachWakes job rest q
    → EachWakes job (os ∷ rest) p
wakes_along os rest p q h e k =
    (λ _. h, λ q' e'. subst (EachWakes job rest) (ok-injective (sym e ∙ e')) k)

schedule-EachWakes : EachWakes job schedule started
schedule-EachWakes =
    wakes_along (early ∷ reply ∷ []) ((late ∷ early ∷ []) ∷ []) started answered (omega arith)
      first_pass (wakes_along (late ∷ early ∷ []) [] answered finished (omega arith) last_pass tt)

all_send : Undisturbed job both_start
all_send = ((refl, (refl, refl, refl)), ((refl, (refl, refl, refl)), tt))

analyse_finishes_example :
    (q : Pool) × (analyse job 2 both_start schedule ≡ ok q)
    × (length q.yielded ≡ 2)
    × InOrder job 0 q.yielded
analyse_finishes_example =
    analyse_finishes job 2 both_start schedule (omega arith) (omega arith) all_send
      (all_send, (all_send, tt))
      (λ p e. subst (EachWakes job schedule) (ok-injective (sym begins ∙ e)) schedule-EachWakes)
      (omega arith)

analyses : analyse job 2 both_start schedule ≡ ok finished
unfolding analyse run
analyses = rw begins (rw first_pass (rw last_pass refl))

analyse-InOrder_example :
    InOrder job 0 finished.yielded
    × (length finished.yielded ≡ finished.following)
    × (finished.following < total job → 0 < busy finished.workers)
analyse-InOrder_example =
    analyse-InOrder job 2 both_start schedule finished (omega arith) (omega arith) analyses

-- The process of the second worker takes None and exits a second later, the others hang.
abbrev exit_by : Bool → Exit
exit_by true = record { sent = ok tt; exits_at = some (2 ^ 26 + 2 ^ 20); dies_in = 7 }
exit_by false = record {
  sent = raise (broken_pipe (codes "Broken pipe"));
  exits_at = none;
  dies_in = 7;
}

abbrev exit_of : ℕ → Exit
exit_of process = exit_by (process == 1)

exit_of-TakesNone : (n : ℕ) → TakesNone (exit_of n)
exit_of-TakesNone n = exit_by-TakesNone (n == 1)
  where
    exit_by-TakesNone : (second : Bool) → TakesNone (exit_by second)
    exit_by-TakesNone true e h = cc
    exit_by-TakesNone false e h = ground (arith, h)

analyse-shut_down_example :
    (c : Closing) × (shut_down exit_of (2 ^ 26) finished ≡ ok c)
    × ((i : ℕ) → times i c.gone ≡ below i 3)
    × (c.clock ≤ 2 ^ 26 + shutdown_time + 14)
analyse-shut_down_example =
    analyse-shut_down exit_of exit_of-TakesNone job 2 both_start schedule finished (2 ^ 26) analyses

-- One worker, whose pipe and whose successor's pipe do not take the second file.
abbrev one_started : Pool
one_started = record {
  workers = working 0 (some 0) ∷ [];
  queue = 1;
  done = [];
  following = 0;
  yielded = [];
  processes = 1;
  gone = [];
}

abbrev unsent : Observation
unsent = record reply { sends = false; resends = false }

one_begins : begin job 1 (reply ∷ []) ≡ ok one_started
unfolding begin assign_all assign start_all
one_begins = refl

one_raises : run job ((unsent ∷ []) ∷ []) one_started ≡ raise (broken_pipe (codes "Broken pipe"))
unfolding run pass round visit_all visit visit_busy assign
one_raises = refl

analyse-LosesLast_example :
    (c : Closing) × (last : ℕ) × (shut_down exit_of 7 (left job 1 (reply ∷ []) ((unsent ∷ []) ∷ []))
      ≡ ok c)
    × ((left job 1 (reply ∷ []) ((unsent ∷ []) ∷ [])).processes ≡ suc last)
    × ((i : ℕ) → i < last → 1 ≤ times i c.gone)
    × (times last c.gone ≡ 0)
analyse-LosesLast_example =
    analyse-LosesLast exit_of exit_of-TakesNone job 1 (reply ∷ []) ((unsent ∷ []) ∷ []) one_started
      (broken_pipe (codes "Broken pipe")) 7 (((refl, refl, refl), tt), tt) one_begins one_raises

-- One worker, which crashes, and whose successor does not start.
abbrev unstarted : Observation
unstarted = record reply { signal = broken; start_raises = some (os_error (codes "fork")) }

none_starts : run job ((unstarted ∷ []) ∷ []) one_started ≡ raise (os_error (codes "fork"))
unfolding run pass round visit_all visit visit_busy
none_starts = refl

analyse-EndsAll_example :
    (c : Closing) × (shut_down exit_of 7 (left job 1 (reply ∷ []) ((unstarted ∷ []) ∷ [])) ≡ ok c)
    × ((i : ℕ)
        → i < (left job 1 (reply ∷ []) ((unstarted ∷ []) ∷ [])).processes
        → 1 ≤ times i c.gone)
analyse-EndsAll_example =
    analyse-EndsAll exit_of exit_of-TakesNone job 1 (reply ∷ []) ((unstarted ∷ []) ∷ []) one_started
      (os_error (codes "fork")) 7 ((refl, tt), tt) one_begins none_starts

-- ===== src/Cli/Run/Pooled/Tests.antt =====
-- `eous hash` of one file on a pool of one worker.
use eous.Prelude.{
  ℕ, ◌+◌, ◌*◌, ◌^◌, ◌≡◌, refl, sym, ◌∙◌, subst, true, false, Option, some, List, [], ◌∷◌, map,
  arith, ◌==◌, length, none, All,
}
use eous.Prelude.Text.{Text, codes, contains, text_eq}
use eous.Prelude.Outcome.{Outcome, ok, ok-injective}
use eous.Prelude.Exception.{Exception}
use eous.Prelude.Fixed.{fixed_point}
use eous.Prelude.Sort.{sorted}
use eous.Report.{FilePath, Analysis, refuse, no_code}
use eous.Cli.Console.{blank_console, unlines}
use eous.Cli.Expand.{expand, unseen}
use eous.Cli.Env.{Env, Options, IsUnicode}
use eous.Cli.Hash.{hash_code}
use eous.Cli.Hash.Command.{labels, run_hash}
use eous.Cli.Run.Prints.{files_of}
use eous.Cli.Run.Written.{written, digest_lines, refusal_lines}
use eous.Cli.Run.Pooled.{run_hash-pooled}
use eous.Cli.Run.Whole.{run_hash-sketches}
use eous.Cli.Run.Reads.{Digested}
use eous.Cli.Fields.{split_lines}
use eous.Cli.Digests.{read_lines}
use eous.Cli.Digests.RoundTrip.{Hashed, label_for}
use eous.Digest.RoundTrip.{hex_body}
use eous.Loader.{Bytes}
use eous.Loader.Tests.{elf_world}
use eous.Report.Analyse.{analyse}
use eous.Report.Emits.{IsSummary}
use eous.Cli.Analyses.{Machine, job_of, analyse_paths}
use eous.Pool.{Job, Pool, Observation, replied, begin, assign_all, assign, start_all}
use eous.Pool.Invariant.{InOrder}
use eous.Pool.Runs.{EachWakes, Starts}
use eous.Cli.Run.Scenario.{is_space, env-IsUnicode, env, open_stdout, arguments}

-- One worker, which replies in the first pass.
abbrev replies : Observation
replies = record {
  signal = replied;
  now = 5;
  sends = true;
  resends = true;
  assigned_at = 5;
  recv_raises = none;
  start_raises = none;
  restart_raises = none;
}

replies_calm : All (λ (o : Observation). (o.resends ≡ true) × Starts o) (replies ∷ [])
replies_calm = ((refl, (refl, refl, refl)), tt)

abbrev machine : Machine
machine = record {
  size = λ path. 1024;
  workers = 1;
  first = replies ∷ [];
  passes = (replies ∷ []) ∷ [];
}

abbrev refuse_all : FilePath → Outcome Exception Analysis
refuse_all path = ok (refuse path no_code (codes "no executable section"))

abbrev one_file : Options fixed_point
one_file = record arguments { paths = codes "a" ∷ [] }

abbrev pooled_env : Env fixed_point
pooled_env = record (env open_stdout) { analyse = analyse_paths machine refuse_all }

abbrev job : Job
job = job_of machine refuse_all (codes "a" ∷ [])

abbrev started : Pool
started = record {
  workers =
      record {
        process = 0;
        index = some 0;
        deadline = 5 + (30 * 2 ^ 20 + 1024);
        seconds = 30 * 2 ^ 20 + 1024;
      }
      ∷ [];
  queue = 1;
  done = [];
  following = 0;
  yielded = [];
  processes = 1;
  gone = [];
}

begins : begin job 1 (replies ∷ []) ≡ ok started
unfolding begin assign_all assign start_all
begins = refl

wakes : EachWakes job ((replies ∷ []) ∷ []) started
wakes = (λ h. omega arith, λ q e. tt)

one_file_found : files_of fixed_point pooled_env one_file ≡ codes "a" ∷ []
unfolding expand unseen contains text_eq sorted
one_file_found = refl

run_hash-pooled_example :
    (results : List Analysis) × (run_hash fixed_point pooled_env one_file blank_console ≡ (
      ok (hash_code results false false),
      written fixed_point pooled_env blank_console
          (digest_lines fixed_point pooled_env (labels fixed_point pooled_env one_file) results)
          (refusal_lines fixed_point pooled_env false results),
    ))
    × (length results ≡ 1)
    × InOrder job 0 results
unfolding expand unseen contains text_eq sorted
run_hash-pooled_example =
    run_hash-pooled fixed_point pooled_env (λ out line. refl) one_file blank_console machine
      refuse_all refl (omega arith) refl (omega arith) (omega arith) replies_calm (replies_calm, tt)
      (λ p e. subst (EachWakes job ((replies ∷ []) ∷ [])) (ok-injective (sym begins ∙ e)) wakes)
      (omega arith)

-- The same with the analysis of a short ELF file, in which the extension module finds a sketch.
abbrev one_sketch : List Bytes → ℕ → Option (ℕ × Text)
one_sketch sections bits = some (1, hex_body 5)

one_sketch-IsSummary : IsSummary one_sketch
one_sketch-IsSummary sections bits cardinality body h =
    let one_cardinality : cardinality ≡ 1 = cc in
    let same_body : body ≡ hex_body 5 = cc in
    (omega (arith, one_cardinality), 5, omega arith, same_body)

abbrev analyse_elf : FilePath → Outcome Exception Analysis
analyse_elf = analyse fixed_point one_sketch elf_world

abbrev sketch_env : Env fixed_point
sketch_env = record (env open_stdout) { analyse = analyse_paths machine analyse_elf }

sketch_env-IsUnicode : IsUnicode fixed_point sketch_env
sketch_env-IsUnicode = record {
  printable_ascii = env-IsUnicode.printable_ascii;
  visible = env-IsUnicode.visible;
  space = env-IsUnicode.space;
  unbroken = env-IsUnicode.unbroken;
  newline = env-IsUnicode.newline;
}

abbrev elf_job : Job
elf_job = job_of machine analyse_elf (codes "a" ∷ [])

elf_begins : begin elf_job 1 (replies ∷ []) ≡ ok started
unfolding begin assign_all assign start_all
elf_begins = refl

elf_wakes : EachWakes elf_job ((replies ∷ []) ∷ []) started
elf_wakes = (λ h. omega arith, λ q e. tt)

run_hash-sketches_example :
    (results : List Analysis) × (hs : List Hashed) × (length results ≡ 1)
    × InOrder elf_job 0 results
    × Digested results hs
    × (read_lines is_space (
          split_lines
            (λ c. c == 10)
            (unlines (run_hash fixed_point sketch_env one_file blank_console).1.out))
        ≡ ok (record {
          labels =
              map
                (label_for fixed_point sketch_env sketch_env-IsUnicode
                  (labels fixed_point sketch_env one_file))
                hs;
          sketches = map (λ (h : Hashed). h.sketch) hs;
          unparsed = 0;
        }))
unfolding expand unseen contains text_eq sorted
run_hash-sketches_example =
    run_hash-sketches fixed_point sketch_env sketch_env-IsUnicode (λ out line. refl) one_sketch
      one_sketch-IsSummary elf_world one_file machine refl (omega arith) refl (omega arith)
      (omega arith) replies_calm (replies_calm, tt)
      (λ p e.
        subst (EachWakes elf_job ((replies ∷ []) ∷ [])) (ok-injective (sym elf_begins ∙ e))
          elf_wakes)
      (omega arith)

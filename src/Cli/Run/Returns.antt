-- ===== src/Cli/Run/Returns.antt =====
-- The exit codes of the command line: `main` of src/eous/cli.py, whatever its commands do.
use eous.Prelude.{
  ℕ, ◌≡◌, ◌≤◌, refl, Bool, true, false, List, Option, none, some, if◌then◌else◌, ◌==◌, arith,
}
use eous.Prelude.Text.{Text}
use eous.Prelude.Outcome.{Outcome, ok, raise}
use eous.Prelude.Exception.{Exception, is_os_error, is_broken_pipe}
use eous.Prelude.Float.{Float}
use eous.Cli.Console.{Console, returns, flush, quieten}
use eous.Cli.Run.{Parsed, options, exit, flushed, recovered, recover, conclude, main}
use eous.Cli.Env.{Env, Options}
use eous.Cli.Run.Codes.{
  Ensured, Ensured-and_then, Ensured-last, IsExitOrNone, parse_code-IsExit, dispatch-IsExit,
}

module _ (N : Float) (E : Env N) where
  -- Flushing standard output raises OSErrors only.
  abbrev pub FlushesWithOsErrors : Type 0
  FlushesWithOsErrors =
      (out : List Text) (e : Exception) → E.stdout.flushing out ≡ some e → is_os_error e ≡ true

  abbrev Returned : Outcome Exception ℕ × Console → Type 0
  Returned r = (code : ℕ) × (r.0 ≡ ok code) × (code ≤ 3)

  of_flush-Returned :
      (c : Console) (f : Option Exception)
      → ((e : Exception) → f ≡ some e → is_os_error e ≡ true)
      → Returned (flushed N E (elim f [ none ↦ (ok tt, c) | some e ↦ (raise e, c) ]))
  unfolding flushed
  of_flush-Returned c none h = (3, refl, omega arith)
  of_flush-Returned c (some e) h = rw (h e refl) (3, refl, omega arith)

  flushed-Returned : FlushesWithOsErrors → (c : Console) → Returned (flushed N E (flush E.stdout c))
  flushed-Returned h c = of_quiet c.quiet
    where
      of_quiet :
          (b : Bool)
          → Returned (
              flushed N E (
                if b
                then (ok tt, c)
                else elim (E.stdout.flushing c.out) [ none ↦ (ok tt, c) | some e ↦ (raise e, c) ]))
      of_quiet true = of_flush-Returned c none (λ e k. cc)
      of_quiet false = of_flush-Returned c (E.stdout.flushing c.out) (h c.out)

  Returned-if :
      (b : Bool) (r s : Outcome Exception ℕ × Console)
      → Returned r
      → Returned s
      → Returned (if b then r else s)
  Returned-if true r s h k = h
  Returned-if false r s h k = k

  recover-Returned :
      FlushesWithOsErrors → (e : Exception) (c : Console) → Returned (recover N E e c)
  unfolding recover
  recover-Returned h e c =
      Returned-if (is_broken_pipe e) (ok 0, quieten c) (recovered N E e c) (0, refl, omega arith)
        (flushed-Returned h _)

  conclude-Returned :
      FlushesWithOsErrors
      → (r : Outcome Exception (Option ℕ) × Console) → Ensured IsExitOrNone r
      → Returned (conclude N E r)
  unfolding conclude
  conclude-Returned h (ok (some code), c) k = (code, refl, k)
  conclude-Returned h (ok none, c) k = (2, refl, omega arith)
  conclude-Returned h (raise e, c) k = recover-Returned h e c

  -- Whatever the arguments are, and whatever the files, the engines and the writing of standard output
  -- do: where flushing standard output raises OSErrors only, `main` raises no exception, and it
  -- returns one of the exit codes 0 to 3.
  pub main-returns :
      FlushesWithOsErrors
      → (args : Parsed (Options N)) (c : Console)
      → (code : ℕ) × ((main N E args c).0 ≡ ok code) × (code ≤ 3)
  unfolding main
  main-returns h (exit code) c = (if code == 0 then 0 else 2, refl, parse_code-IsExit (code == 0))
  main-returns h (options o) c = conclude-Returned h _ (
      Ensured-and_then IsExitOrNone IsExitOrNone _ _ (dispatch-IsExit N E o c) (λ code c' k.
        Ensured-last IsExitOrNone (λ (done : Unit {0}). returns code) (flush E.stdout c')
          (λ done d. k)))

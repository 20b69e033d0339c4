-- ===== src/Cli/Console.antt =====
-- What the commands of src/eous/cli.py write: lines on the two standard streams. Writing to standard
-- output may raise, for instance where its reader is gone; standard error takes what is written. A
-- line is without its newline.
use eous.Prelude.{
  ◌≡◌, refl, ap, sym, Bool, true, false, List, [], ◌∷◌, ◌++◌, append-nil, append_assoc, Option,
  none, some, if◌then◌else◌,
}
use eous.Prelude.Text.{Text, codes}
use eous.Prelude.Outcome.{Outcome, ok, raise}
use eous.Prelude.Exception.{Exception}

pub record Console : Type 0 where
  pub out : List Text
  pub err : List Text
  -- Whether `_quieten_stdout` has turned standard output to the null device.
  pub quiet : Bool

abbrev pub blank_console : Console
blank_console = record { out = []; err = []; quiet = false }

-- The text that the lines written are.
unfoldable pub unlines : List Text → Text
unlines [] = []
unlines (line ∷ lines) = line ++ 10 ∷ unlines lines

-- What writing a line raises, with the flush that `print` may be asked for, and what flushing raises,
-- after the lines that were written.
pub record Stdout : Type 0 where
  pub writing : List Text → Text → Option Exception
  pub flushing : List Text → Option Exception

-- A command: it returns or raises, and leaves a console.
abbrev pub Command : Type 0 → Type 0
Command A = Console → Outcome Exception A × Console

abbrev pub and_then :
    {A B : Type 0} → (A → Command B) → Outcome Exception A × Console → Outcome Exception B × Console
and_then f (ok a, c) = f a c
and_then f (raise e, c) = (raise e, c)

infixl 5 ◌>>=◌ ◌>>◌
abbrev pub ◌>>=◌ : {A B : Type 0} → Command A → (A → Command B) → Command B
◌>>=◌ m f c = and_then f (m c)

abbrev pub ◌>>◌ : {B : Type 0} → Command (Unit {0}) → Command B → Command B
m >> k = m >>= λ _. k

abbrev pub returns : {A : Type 0} → A → Command A
returns a c = (ok a, c)

abbrev pub lift : {A : Type 0} → Outcome Exception A → Command A
lift o c = (o, c)

-- `_warn`
abbrev pub warn : Text → Command (Unit {0})
warn text c = (ok tt, record c { err = c.err ++ (codes "eous: " ++ text) ∷ [] })

abbrev pub warn_if : Bool → Text → Command (Unit {0})
warn_if true text = warn text
warn_if false text = returns tt

-- `_quieten_stdout`
abbrev pub quieten : Console → Console
quieten c = record c { quiet = true }

module _ (S : Stdout) where
  -- `print`
  unfoldable pub print : Text → Command (Unit {0})
  print line c = elim (S.writing c.out line) [
    | none ↦ (ok tt, record c { out = c.out ++ line ∷ [] })
    | some e ↦ (raise e, c)
  ]

  -- `sys.stdout.flush()`
  abbrev pub flush : Command (Unit {0})
  flush c =
      if c.quiet
      then (ok tt, c)
      else (elim (S.flushing c.out) [ none ↦ (ok tt, c) | some e ↦ (raise e, c) ])

  unfoldable pub print_all : List Text → Command (Unit {0})
  print_all [] = returns tt
  print_all (line ∷ lines) = print line >> print_all lines

  -- A standard output that takes every line.
  abbrev pub Open : Type 0
  Open = (out : List Text) (line : Text) → S.writing out line ≡ none

  pub print_open :
      Open
      → (line : Text) (c : Console) → print line c ≡ (ok tt, record c { out = c.out ++ line ∷ [] })
  unfolding print
  print_open open_out line c = rw (open_out c.out line, print) refl

  print_all_open :
      Open
      → (lines : List Text) (c : Console)
      → print_all lines c ≡ (ok tt, record c { out = c.out ++ lines })
  unfolding print_all
  print_all_open open_out [] c =
      ap (λ out. (ok tt, record c { out = out })) (sym (append-nil c.out))
  print_all_open open_out (line ∷ lines) c = rw (print_open open_out line c) (
      rw (print_all_open open_out lines (record c { out = c.out ++ line ∷ [] }))
        (ap (λ out. (ok tt, record c { out = out })) (append_assoc c.out (line ∷ []) lines)))

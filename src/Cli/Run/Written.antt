-- ===== src/Cli/Run/Written.antt =====
-- The lines that `_print_line` of src/eous/cli.py writes for the results of `eous hash`.
use eous.Prelude.{
  ◌≡◌, ◌∙◌, refl, ap, sym, Bool, true, false, not, List, [], ◌∷◌, ◌++◌, append-nil, append_assoc,
  Option, none, some, if◌then◌else◌,
}
use eous.Prelude.Text.{Text, codes}
use eous.Prelude.Outcome.{ok}
use eous.Prelude.Float.{Float}
use eous.Report.{Refusal, Analysis}
use eous.Cli.Console.{Console, Open, print_open}
use eous.Cli.Messages.{refusal_line}
use eous.Cli.Digests.{print_line, digest_line}
use eous.Cli.Env.{Env}

module _ (N : Float) (E : Env N) where
  -- The line of a file with a digest.
  abbrev pub digest_line_of : Bool → Analysis → List Text
  digest_line_of labelled result = elim result.digest [
    | some digest ↦ digest_line N E labelled result.path digest ∷ []
    | none ↦ []
  ]

  -- The line of a refused file, which `--quiet` leaves out.
  abbrev pub refusal_line_of : Bool → Analysis → List Text
  refusal_line_of quiet result = elim result.digest [
    | some digest ↦ []
    | none ↦ elim result.refusal [
      | none ↦ []
      | some refusal ↦
          if not quiet
          then (codes "eous: " ++ refusal_line E.printable result.path refusal) ∷ []
          else []
    ]
  ]

  abbrev pub digest_lines : Bool → List Analysis → List Text
  digest_lines labelled [] = []
  digest_lines labelled (result ∷ results) =
      digest_line_of labelled result ++ digest_lines labelled results

  abbrev pub refusal_lines : Bool → List Analysis → List Text
  refusal_lines quiet [] = []
  refusal_lines quiet (result ∷ results) =
      refusal_line_of quiet result ++ refusal_lines quiet results

  -- A console with more lines.
  abbrev pub written : Console → List Text → List Text → Console
  written c out err = record c { out = c.out ++ out; err = c.err ++ err }

  pub written-nil : (c : Console) → written c [] [] ≡ c
  written-nil c = rw (append-nil c.out, append-nil c.err) refl

  pub written-written :
      (c : Console) (out err out' err' : List Text)
      → written (written c out err) out' err' ≡ written c (out ++ out') (err ++ err')
  written-written c out err out' err' =
      rw (append_assoc c.out out out', append_assoc c.err err err') refl

  pub print_line-written :
      Open E.stdout
      → (result : Analysis) (labelled quiet : Bool) (c : Console)
      → print_line N E result labelled quiet c
        ≡ (ok tt, written c (digest_line_of labelled result) (refusal_line_of quiet result))
  unfolding print_line
  print_line-written h result labelled quiet c = by_parts result.digest result.refusal quiet
    where
      by_parts :
          (digest : Option Text) (refusal : Option Refusal) (quiet : Bool)
          → let made : Analysis = record {
            path = result.path;
            digest = digest;
            refusal = refusal;
          } in
            print_line N E made labelled quiet c
            ≡ (ok tt, written c (digest_line_of labelled made) (refusal_line_of quiet made))
      by_parts (some digest) refusal quiet =
          print_open E.stdout h (digest_line N E labelled result.path digest) c
          ∙ ap
              (λ err. (
                ok tt,
                record c {
                  out = c.out ++ digest_line N E labelled result.path digest ∷ [];
                  err = err;
                },
              ))
              (sym (append-nil c.err))
      by_parts none none quiet = ap (λ d. (ok tt, d)) (sym (written-nil c))
      by_parts none (some refusal) true = ap (λ d. (ok tt, d)) (sym (written-nil c))
      by_parts none (some refusal) false =
          ap
            (λ out. (
              ok tt,
              record c {
                out = out;
                err =
                    c.err ++ (codes "eous: " ++ refusal_line E.printable result.path refusal) ∷ [];
              },
            ))
            (sym (append-nil c.out))

  pub digest_lines-append :
      (labelled : Bool) (results more : List Analysis)
      → digest_lines labelled (results ++ more)
        ≡ digest_lines labelled results ++ digest_lines labelled more
  digest_lines-append labelled [] more = refl
  digest_lines-append labelled (result ∷ results) more =
      ap (λ lines. digest_line_of labelled result ++ lines)
        (digest_lines-append labelled results more)
      ∙ sym (
          append_assoc (digest_line_of labelled result) (digest_lines labelled results)
            (digest_lines labelled more))

  pub refusal_lines-append :
      (quiet : Bool) (results more : List Analysis)
      → refusal_lines quiet (results ++ more)
        ≡ refusal_lines quiet results ++ refusal_lines quiet more
  refusal_lines-append quiet [] more = refl
  refusal_lines-append quiet (result ∷ results) more =
      ap (λ lines. refusal_line_of quiet result ++ lines) (refusal_lines-append quiet results more)
      ∙ sym (
          append_assoc (refusal_line_of quiet result) (refusal_lines quiet results)
            (refusal_lines quiet more))

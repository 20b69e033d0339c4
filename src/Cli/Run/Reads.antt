-- ===== src/Cli/Run/Reads.antt =====
-- `eous hash` and `eous match` or `eous cross` behind it: `_run_hash` and `_read_digests` of
-- src/eous/cli.py.
use eous.Prelude.{◌≡◌, ◌∙◌, refl, ap, Bool, false, ◌&&◌, List, [], ◌∷◌, ◌++◌, map, All, none, some}
use eous.Prelude.Outcome.{ok}
use eous.Prelude.Float.{Float}
use eous.Digest.{Sketch}
use eous.Digest.Accepts.{IsValid}
use eous.Digest.RoundTrip.{sketch_text}
use eous.Report.{Analysis}
use eous.Cli.Console.{Open, blank_console, unlines}
use eous.Cli.Fields.{split_lines}
use eous.Cli.Digests.{read_lines}
use eous.Cli.Digests.RoundTrip.{Hashed, label_for, line_for, read_lines-unlines}
use eous.Cli.Hash.Command.{unwalked, analyses_of, is_nil, labels, run_hash}
use eous.Cli.Run.Prints.{files_of, run_hash-eq}
use eous.Cli.Run.Written.{digest_lines}
use eous.Cli.Env.{Env, Options, IsUnicode}

-- The files with a digest among the results, with the valid sketches of these digests.
pub data Digested : List Analysis → List Hashed → Type 0 where
  nothing : Digested [] []
  refused :
      (result : Analysis) {results : List Analysis} {hs : List Hashed}
      → result.digest ≡ none
      → Digested results hs
      → Digested (result ∷ results) hs
  digested :
      (result : Analysis) (sketch : Sketch) {results : List Analysis} {hs : List Hashed}
      → result.digest ≡ some (sketch_text sketch)
      → IsValid sketch
      → Digested results hs
      → Digested (result ∷ results) (record { path = result.path; sketch = sketch } ∷ hs)

pub Digested-IsValid :
    {results : List Analysis} {hs : List Hashed}
    → Digested results hs
    → All (λ (h : Hashed). IsValid h.sketch) hs
Digested-IsValid nothing = tt
Digested-IsValid (refused result none_there d) = Digested-IsValid d
Digested-IsValid (digested result sketch there valid d) = (valid, Digested-IsValid d)

module _ (N : Float) (E : Env N) where
  pub digest_lines-Digested :
      (U : IsUnicode N E) (labelled : Bool) {results : List Analysis} {hs : List Hashed}
      → Digested results hs
      → digest_lines N E labelled results ≡ map (line_for N E U labelled) hs
  digest_lines-Digested U labelled nothing = refl
  digest_lines-Digested U labelled (refused result none_there d) =
      rw none_there (digest_lines-Digested U labelled d)
  digest_lines-Digested U labelled (digested result sketch there valid d) = rw there (
      ap (λ lines. line_for N E U labelled (record { path = result.path; sketch = sketch }) ∷ lines)
        (digest_lines-Digested U labelled d))

  -- Where standard output takes every line, JSON is not asked for, the analyses return with digests of
  -- valid sketches, and there is something to hash: reading the output of `eous hash` gives exactly
  -- the sketches of the files that were not refused, in their order, each with the label of its file,
  -- and no line that does not parse.
  pub run_hash-read_lines :
      (U : IsUnicode N E)
      → Open E.stdout
      → (o : Options N) (results : List Analysis) (hs : List Hashed) → o.json ≡ false
      → analyses_of N E (files_of N E o) ≡ ok results
      → is_nil (files_of N E o) && is_nil (unwalked N E o.paths) ≡ false
      → Digested (unwalked N E o.paths ++ results) hs
      → read_lines E.is_space
          (split_lines E.is_break (unlines (run_hash N E o blank_console).1.out))
        ≡ ok (record {
          labels = map (label_for N E U (labels N E o)) hs;
          sketches = map (λ (h : Hashed). h.sketch) hs;
          unparsed = 0;
        })
  run_hash-read_lines U h o results hs plain returned found d =
      ap (λ r. read_lines E.is_space (split_lines E.is_break (unlines r.1.out)))
        (run_hash-eq N E h o results blank_console plain returned found)
      ∙ ap (λ lines. read_lines E.is_space (split_lines E.is_break (unlines lines)))
          (digest_lines-Digested U (labels N E o) d)
      ∙ read_lines-unlines N E U (labels N E o) hs (Digested-IsValid d)

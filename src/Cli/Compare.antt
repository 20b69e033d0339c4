-- ===== src/Cli/Compare.antt =====
-- src/eous/cli.py: `_looks_like_a_path`, `_as_digest` and `_run_compare`.
use eous.Prelude.{
  ℕ, Bool, false, ◌&&◌, ◌||◌, not, List, [], ◌∷◌, Option, none, some, ◌==◌, if◌then◌else◌,
}
use eous.Prelude.Text.{Text, codes}
use eous.Prelude.Outcome
use eous.Prelude.Outcome.{Outcome, ok, raise}
use eous.Prelude.Exception.{Exception, value_error}
use eous.Prelude.Float.{Float}
use eous.Digest.{Sketch, DigestError, parse}
use eous.Digest.Score.{Scores, compare}
use eous.Report.{Analysis}
use eous.Cli.Json.{text, object, end, field}
use eous.Cli.Console.{Command, ◌>>=◌, ◌>>◌, returns, lift, warn, print, print_all}
use eous.Cli.Messages.{digest_message, refusal_line}
use eous.Cli.Digests.{or_else}
use eous.Cli.Scores.{score_lines, as_scores, meta}
use eous.Cli.Hash.{ok_code, refused_code, usage_code, internal_code, is_failed}
use eous.Cli.Env.{Env}

-- `c in s`
abbrev pub has : ℕ → Text → Bool
has c [] = false
has c (d ∷ s) = d == c || has c s

-- What `_as_digest` finds: the text itself, the digest of a file, or no digest and a code.
pub data Resolved : Type 0 where
  itself : Text → Resolved
  hashed : Text → Resolved
  unresolved : ℕ → Resolved

-- `[result] = results`
abbrev pub single : List Analysis → Outcome Exception Analysis
single (result ∷ []) = ok result
single _ = raise (value_error (codes "expected one result"))

module _ (N : Float) (E : Env N) where
  -- `_looks_like_a_path`
  unfoldable pub looks_like_a_path : Text → Bool
  looks_like_a_path s = not (has b':' s) || has b'/' s || has b'\\' s || E.has_suffix s

  -- The end of `_as_digest`. Both parts of a result may be missing as far as its type tells.
  unfoldable pub resolved : Analysis → Command Resolved
  resolved result = elim result.refusal [
    | some refusal ↦
        (warn (refusal_line E.printable result.path refusal)
          >> returns (unresolved (if is_failed result then internal_code else refused_code)))
    | none ↦ elim result.digest [
      | none ↦ returns (unresolved ok_code)
      | some digest ↦ returns (hashed digest)
    ]
  ]

  -- `_as_digest`
  unfoldable pub as_digest : Text → Command Resolved
  as_digest s =
      if not (E.is_file s) && not (looks_like_a_path s)
      then returns (itself s)
      else (lift (E.analyse (E.to_path s ∷ [])) >>= λ results. lift (single results) >>= resolved)

  -- The sketches and the scores of two digest texts.
  unfoldable pub scores_of : Text → Text → Outcome DigestError (Text × Scores N)
  scores_of left right = Outcome.◌>>=◌ (parse left) (λ (l : Sketch).
      Outcome.◌>>=◌ (parse right)
        (λ r. Outcome.◌>>=◌ (compare N l r) (λ scores. ok (l.target, scores))))

  -- A side's text, with its name where it was a file.
  abbrev or_side : Option Text → Text → Text
  or_side none side = side
  or_side (some name) side = or_else name side

  unfoldable pub print_comparison :
      Bool → Text × Scores N → Option Text → Option Text → Command (Unit {0})
  print_comparison json (target, scores) left right =
      if json
      then print E.stdout (
          E.dumps (
            object (
              field (codes "meta") (meta N E) (
                field (codes "target") (text target)
                  (field (codes "comparison") (as_scores N E scores left right) end)))))
      else print_all E.stdout
          (score_lines N E scores (or_side left (codes "left")) (or_side right (codes "right")))

  unfoldable pub compare_texts : Bool → Text → Option Text → Text → Option Text → Command ℕ
  compare_texts json left left_name right right_name = elim (scores_of left right) [
    | raise e ↦ (warn (digest_message E.repr e) >> returns usage_code)
    | ok found ↦ (print_comparison json found left_name right_name >> returns ok_code)
  ]

  -- What follows the finding of a digest, with the name of the side.
  abbrev pub with_digest : Text → Resolved → (Text → Option Text → Command ℕ) → Command ℕ
  with_digest given (itself s) next = next s none
  with_digest given (hashed s) next = next s (some given)
  with_digest given (unresolved code) next = returns code

  unfoldable pub run_compare : Bool → Text → Text → Command ℕ
  run_compare json left right = as_digest left >>= λ l. with_digest left l (λ left_text left_name.
      as_digest right >>= λ r.
      with_digest right r
        (λ right_text right_name. compare_texts json left_text left_name right_text right_name))

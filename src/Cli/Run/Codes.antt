-- ===== src/Cli/Run/Codes.antt =====
-- The exit codes of the commands of src/eous/cli.py.
use eous.Prelude.{
  ℕ, ◌≤◌, Bool, true, false, ◌&&◌, List, [], ◌∷◌, Option, none, some, if◌then◌else◌, arith,
}
use eous.Prelude.Text.{Text}
use eous.Prelude.Outcome.{Outcome, ok, raise, Ensures}
use eous.Prelude.Exception.{Exception}
use eous.Prelude.Float.{Float}
use eous.Digest.{Sketch}
use eous.Report.{FilePath, Analysis}
use eous.Cli.Console.{Console, Command, and_then}
use eous.Cli.Digests.{Read}
use eous.Cli.Hash.{hash_code}
use eous.Cli.Expand.{expand}
use eous.Cli.Hash.Command.{unwalked, Flags, Ran, code_of, hash_end, run_hash, is_nil}
use eous.Cli.Compare.{
  Resolved, itself, hashed, unresolved, resolved, as_digest, compare_texts, with_digest,
  run_compare,
}
use eous.Cli.Match.{rank_kept, match_read, match_text, run_match}
use eous.Cli.Cross.{Group, cross_groups, cross_read, run_cross}
use eous.Cli.Run
use eous.Cli.Run.{
  Parsed, options, exit, coded, compare_given, match_given, cross_given, dispatch, flushed,
  recovered, recover, conclude, main,
}
use eous.Cli.Env.{Env, Options}

-- What holds of the value that a command returns, if it returns.
abbrev pub Ensured : {A : Type 0} → (A → Type 0) → Outcome Exception A × Console → Type 0
Ensured P r = Ensures P r.0

pub Ensured-and_then :
    {A B : Type 0} (P : A → Type 0) (Q : B → Type 0) (f : A → Command B)
    (r : Outcome Exception A × Console)
    → Ensured P r
    → ((a : A) (c : Console) → P a → Ensured Q (f a c))
    → Ensured Q (and_then f r)
Ensured-and_then P Q f (ok a, c) h k = k a c h
Ensured-and_then P Q f (raise e, c) h k = tt

-- A chain whose last part ensures it.
pub Ensured-last :
    {A B : Type 0} (Q : B → Type 0) (f : A → Command B) (r : Outcome Exception A × Console)
    → ((a : A) (c : Console) → Ensured Q (f a c))
    → Ensured Q (and_then f r)
Ensured-last Q f (ok a, c) k = k a c
Ensured-last Q f (raise e, c) k = tt

-- Both sides of a test.
Ensured-if :
    {A : Type 0} (P : A → Type 0) (b : Bool) (r s : Outcome Exception A × Console)
    → Ensured P r
    → Ensured P s
    → Ensured P (if b then r else s)
Ensured-if P true r s h k = h
Ensured-if P false r s h k = k

Ensured-if_command :
    {A : Type 0} (P : A → Type 0) (b : Bool) (m n : Command A) (c : Console)
    → Ensured P (m c)
    → Ensured P (n c)
    → Ensured P ((if b then m else n) c)
Ensured-if_command P true m n c h k = h
Ensured-if_command P false m n c h k = k

abbrev pub IsExit : ℕ → Type 0
IsExit code = code ≤ 3

abbrev pub IsExitOrNone : Option ℕ → Type 0
IsExitOrNone none = Unit
IsExitOrNone (some code) = IsExit code

hash_code-IsExit : (flags : Flags) → IsExit (code_of flags)
unfolding hash_code
hash_code-IsExit flags = ground arith

refused_code-IsExit : (b : Bool) → IsExit (if b then 3 else 1)
refused_code-IsExit b = ground arith

pub parse_code-IsExit : (b : Bool) → IsExit (if b then 0 else 2)
parse_code-IsExit b = ground arith

abbrev IsResolved : Resolved → Type 0
IsResolved (itself s) = Unit
IsResolved (hashed s) = Unit
IsResolved (unresolved code) = IsExit code

module _ (N : Float) (E : Env N) where
  hash_end-IsExit : (r : Ran) → Ensured IsExit (hash_end N E r)
  unfolding hash_end
  hash_end-IsExit (ok done, flags, c) = hash_code-IsExit flags
  hash_end-IsExit (raise e, flags, c) = let h = hash_code-IsExit flags in ground arith

  run_hash-IsExit : (o : Options N) (c : Console) → Ensured IsExit (run_hash N E o c)
  unfolding run_hash
  run_hash-IsExit o c =
      Ensured-if IsExit
        (is_nil (expand E.path_le E.walk E.real o.paths) && is_nil (unwalked N E o.paths)) _
        (hash_end N E _) (omega arith) (hash_end-IsExit _)

  resolved-IsResolved :
      (result : Analysis) (c : Console) → Ensured IsResolved (resolved N E result c)
  unfolding resolved
  resolved-IsResolved result c = ground arith

  compare_texts-IsExit :
      (json : Bool) (l : Text) (ln : Option Text) (r : Text) (rn : Option Text) (c : Console)
      → Ensured IsExit (compare_texts N E json l ln r rn c)
  unfolding compare_texts
  compare_texts-IsExit json l ln r rn c = ground arith

  rank_kept-IsExit :
      (o : Options N) (given : Text) (known : FilePath) (query : Sketch) (read : Read)
      (kept : List (Text × Sketch)) (c : Console)
      → Ensured IsExit (rank_kept N E o given known query read kept c)
  unfolding rank_kept
  rank_kept-IsExit o given known query read [] c = omega arith
  rank_kept-IsExit o given known query read (pair ∷ pairs) c = ground arith

  as_digest-IsResolved : (s : Text) (c : Console) → Ensured IsResolved (as_digest N E s c)
  unfolding as_digest
  as_digest-IsResolved s c = grind (arith, resolved-IsResolved)

  with_digest-IsExit :
      (given : Text) (r : Resolved) (next : Text → Option Text → Command ℕ) (c : Console)
      → IsResolved r
      → ((s : Text) (name : Option Text) (d : Console) → Ensured IsExit (next s name d))
      → Ensured IsExit (with_digest N E given r next c)
  with_digest-IsExit given (itself s) next c h k = k s none c
  with_digest-IsExit given (hashed s) next c h k = k s (some given) c
  with_digest-IsExit given (unresolved code) next c h k = h

  run_compare-IsExit :
      (json : Bool) (l r : Text) (c : Console) → Ensured IsExit (run_compare N E json l r c)
  unfolding run_compare
  run_compare-IsExit json l r c = grind (arith, as_digest-IsResolved, compare_texts-IsExit)

  match_read-IsExit :
      (o : Options N) (given : Text) (known : FilePath) (query : Sketch) (read : Option Read)
      (c : Console)
      → Ensured IsExit (match_read N E o given known query read c)
  unfolding match_read
  match_read-IsExit o given known query none c = omega arith
  match_read-IsExit o given known query (some read) c =
      rank_kept-IsExit o given known query read _ c

  match_text-IsExit :
      (o : Options N) (given : Text) (known : FilePath) (s : Text) (c : Console)
      → Ensured IsExit (match_text N E o given known s c)
  unfolding match_text
  match_text-IsExit o given known s c = grind (arith, match_read-IsExit)

  run_match-IsExit :
      (o : Options N) (given : Text) (known : FilePath) (c : Console)
      → Ensured IsExit (run_match N E o given known c)
  unfolding run_match
  run_match-IsExit o given known c = grind (arith, as_digest-IsResolved, match_text-IsExit)

  cross_groups-IsExit :
      (o : Options N) (known : FilePath) (read : Read) (groups : List Group) (c : Console)
      → Ensured IsExit (cross_groups N E o known read groups c)
  unfolding cross_groups
  cross_groups-IsExit o known read [] c = omega arith
  cross_groups-IsExit o known read (group ∷ groups) c = ground arith

  cross_read-IsExit :
      (o : Options N) (known : FilePath) (read : Option Read) (c : Console)
      → Ensured IsExit (cross_read N E o known read c)
  unfolding cross_read
  cross_read-IsExit o known none c = omega arith
  cross_read-IsExit o known (some read) c = cross_groups-IsExit o known read _ c

  run_cross-IsExit :
      (o : Options N) (known : FilePath) (c : Console) → Ensured IsExit (run_cross N E o known c)
  unfolding run_cross
  run_cross-IsExit o known c = grind (arith, cross_read-IsExit)

  coded-IsExit :
      (m : Command ℕ) (c : Console) → Ensured IsExit (m c) → Ensured IsExitOrNone (coded N E m c)
  coded-IsExit m c h = Ensured-and_then IsExit IsExitOrNone _ _ h (λ code c' k. k)

  compare_given-IsExit :
      (o : Options N) (l r : Option Text) (c : Console)
      → Ensured IsExitOrNone (compare_given N E o l r c)
  unfolding compare_given
  compare_given-IsExit o (some l) (some r) c =
      coded-IsExit (run_compare N E o.json l r) c (run_compare-IsExit o.json l r c)
  compare_given-IsExit o none r c = tt
  compare_given-IsExit o (some l) none c = tt

  match_given-IsExit :
      (o : Options N) (query : Option Text) (known : Option FilePath) (c : Console)
      → Ensured IsExitOrNone (match_given N E o query known c)
  unfolding match_given
  match_given-IsExit o (some q) (some k) c =
      coded-IsExit (run_match N E o q k) c (run_match-IsExit o q k c)
  match_given-IsExit o none k c = tt
  match_given-IsExit o (some q) none c = tt

  cross_given-IsExit :
      (o : Options N) (known : Option FilePath) (c : Console)
      → Ensured IsExitOrNone (cross_given N E o known c)
  unfolding cross_given
  cross_given-IsExit o (some k) c = coded-IsExit (run_cross N E o k) c (run_cross-IsExit o k c)
  cross_given-IsExit o none c = tt

  pub dispatch-IsExit : (o : Options N) (c : Console) → Ensured IsExitOrNone (dispatch N E o c)
  unfolding dispatch
  dispatch-IsExit o c =
      let a = compare_given-IsExit o (Run.given N E o.left) (Run.given N E o.right) c in
      let b = match_given-IsExit o (Run.given N E o.query) o.known c in
      let d = cross_given-IsExit o o.known c in
      let h = coded-IsExit (run_hash N E o) c (run_hash-IsExit o c) in ground arith

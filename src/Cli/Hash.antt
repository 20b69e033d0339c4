-- ===== src/Cli/Hash.antt =====
-- src/eous/cli.py: the exit code of `eous hash`, `_run_hash` behind the walk of the paths.
pub mod Command
use eous.Prelude.{
  ℕ, ◌≡◌, ◌↔◌, refl, Bool, true, false, ◌||◌, List, [], ◌∷◌, none, some, if◌then◌else◌, arith, All,
}
use eous.Report.{Reason, internal_error, Analysis}

abbrev pub ok_code : ℕ
ok_code = 0

abbrev pub refused_code : ℕ
refused_code = 1

abbrev pub usage_code : ℕ
usage_code = 2

abbrev pub internal_code : ℕ
internal_code = 3

abbrev is_internal : Reason → Bool
is_internal internal_error = true
is_internal _ = false

abbrev pub is_refused : Analysis → Bool
is_refused a = elim a.refusal [ none ↦ false | some refusal ↦ true ]

-- `_failed`
abbrev pub is_failed : Analysis → Bool
is_failed a = elim a.refusal [ none ↦ false | some refusal ↦ is_internal refusal.reason ]

-- The loop over the results, with its two flags, and the code at its end. What it prints is left
-- out.
unfoldable pub hash_code : List Analysis → Bool → Bool → ℕ
hash_code [] refused failed =
    if failed then internal_code else if refused then refused_code else ok_code
hash_code (result ∷ results) refused failed =
    hash_code results (refused || is_refused result) (failed || is_failed result)

-- A file that was not refused.
abbrev HasNoRefusal : Analysis → Type 0
HasNoRefusal a = a.refusal ≡ none

flags_code :
    (refused failed : Bool)
    → (hash_code [] refused failed ≡ ok_code) ↔ ((refused ≡ false) × (failed ≡ false))
unfolding hash_code
flags_code refused failed = ground arith

hash_code_flags :
    (results : List Analysis) (refused failed : Bool)
    → (hash_code results refused failed ≡ ok_code)
      ↔ ((refused ≡ false) × (failed ≡ false) × All HasNoRefusal results)
unfolding hash_code
hash_code_flags [] refused failed = ground (arith, flags_code refused failed)
hash_code_flags (a ∷ results) refused failed =
    ground (arith, hash_code_flags results (refused || is_refused a) (failed || is_failed a))

-- The exit code is 0 exactly if no result is a refusal.
hash_code_iff :
    (results : List Analysis) → (hash_code results false false ≡ ok_code) ↔ All HasNoRefusal results
hash_code_iff results =
    let counted = hash_code_flags results false false in
    (λ h. (counted.0 h).2, λ h. counted.1 (refl, refl, h))

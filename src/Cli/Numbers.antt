-- ===== src/Cli/Numbers.antt =====
-- The types of the options `--top` and `--min`: `_count` and `_percentage` of src/eous/cli.py. `int` and
-- `float` are parameters; what is no finite number is none of the doubles.
use eous.Prelude.{ℕ, ◌&&◌, Option, none, some, if◌then◌else◌}
use eous.Prelude.Text.{Text, codes}
use eous.Prelude.Outcome.{Outcome, raise, ok, ◌>>=◌}
use eous.Prelude.Exception.{Exception, other_error}
use eous.Prelude.Float.{Float}

-- An integer: a number, or the negative of its successor.
pub data ℤ : Type 0 where
  pos negsuc : ℕ → ℤ

abbrev argument_error : Text → Exception
argument_error text = other_error (codes "ArgumentTypeError") text

abbrev counted : ℤ → Outcome Exception ℕ
counted (pos n) = ok n
counted (negsuc n) = raise (argument_error (codes "a count of 0 or more"))

-- `_count`
unfoldable pub count : (Text → Outcome Exception ℤ) → Text → Outcome Exception ℕ
count int text = int text >>= counted

module _ (N : Float) where
  open N use {F, of_ℕ, le}

  abbrev bounded : Option F → Outcome Exception F
  bounded none = raise (argument_error (codes "a percentage from 0 to 100"))
  bounded (some value) =
      if le (of_ℕ 0) value && le value (of_ℕ 100)
      then ok value
      else raise (argument_error (codes "a percentage from 0 to 100"))

  -- `_percentage`
  unfoldable pub percentage : (Text → Outcome Exception (Option F)) → Text → Outcome Exception F
  percentage float text = float text >>= bounded

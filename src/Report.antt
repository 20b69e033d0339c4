-- ===== src/Report.antt =====
-- src/eous/report.py: `Refusal`, `Analysis` and the refusals made for a file whose analysis did not
-- return. The child models `analyse`. Times are counted in units of 2^-20 seconds, see Pool.antt.
pub mod Analyse
pub mod Total
pub mod Digests
pub mod Emits
pub mod Sketches
pub mod Valid
mod Tests
use eous.Prelude.{
  ℕ, ◌+◌, ◌-◌, ◌*◌, ◌/◌, ◌%◌, ◌^◌, Bool, ◌&&◌, ◌||◌, ◌++◌, Option, none, some, ltb, ◌==◌,
  if◌then◌else◌, List, [], ◌∷◌,
}
use eous.Prelude.Text.{Text, codes, decimal}
use eous.Prelude.Exception.{Exception, class_name, message}

-- A path, as `str` gives it.
abbrev pub FilePath : Type 0
FilePath = Text

-- The reasons of a refusal.
pub data Reason : Type 0 where
  unreadable unsupported_format unsupported_arch packed managed no_code internal_error : Reason

pub record Refusal : Type 0 where
  pub reason : Reason
  pub detail : Text

pub record Analysis : Type 0 where
  pub path : FilePath
  pub digest : Option Text
  pub refusal : Option Refusal

abbrev pub refuse : FilePath → Reason → Text → Analysis
refuse path reason detail = record {
  path = path;
  digest = none;
  refusal = some (record { reason = reason; detail = detail });
}

-- `f"{value:.0f}"` of `numerator / denominator`: to the nearest integer, ties to even.
unfoldable pub rounded : ℕ → ℕ → ℕ
rounded numerator denominator =
    let whole = numerator / denominator in
    let rest = numerator % denominator in
    if ltb denominator (2 * rest) || (denominator == 2 * rest && whole % 2 == 1)
    then whole + 1
    else whole

unfoldable pub crashed : FilePath → Analysis
crashed path = refuse path unreadable (codes "the analysis process ended abruptly")

unfoldable pub failed : FilePath → Exception → Analysis
failed path exc = refuse path internal_error (class_name exc ++ (codes ": " ++ message exc))

unfoldable pub overran : FilePath → ℕ → Analysis
unfolding rounded
overran path seconds = refuse path unreadable (
    codes "the analysis exceeded its "
    ++ (decimal (rounded seconds (2 ^ 20)) ++ codes " s time limit"))

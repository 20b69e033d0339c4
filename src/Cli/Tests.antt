-- ===== src/Cli/Tests.antt =====
-- The command line's theorems at concrete texts.
use eous.Prelude.{
  ℕ, ◌≡◌, refl, Bool, true, ◌&&◌, List, [], ◌∷◌, ◌++◌, leb, All, arith, none, some, false,
  if◌then◌else◌, ◌==◌, map, Option,
}
use eous.Prelude.Text.{Text, codes, write_digits, text_eq, contains}
use eous.Report.{FilePath}
use eous.Prelude.Sort.{sorted}
use eous.Cli.Expand.{Distinct, any_names, unseen, expand, expand-Distinct}
use eous.Cli.Readable.{hex_text, readable, readable-All}

abbrev is_ascii : ℕ → Bool
is_ascii c = leb b' ' c && leb c b'~'

-- A file name that tries to add a line to the output.
abbrev forged : Text
forged = codes "a.exe" ++ 10 ∷ codes "b.exe  EO1:"

forged_line : readable is_ascii forged ≡ codes "a.exe\\x0ab.exe  EO1:"
unfolding readable hex_text write_digits
forged_line = refl

readable-All_example : All (λ c. is_ascii c ≡ true) (readable is_ascii forged)
readable-All_example = readable-All is_ascii (λ c h k. ground arith) forged

-- A directory of two files, the second of which is also named by itself.
abbrev listing : FilePath → Option (List FilePath)
listing path = if text_eq path (codes "d") then some (codes "d/b" ∷ codes "d/a" ∷ []) else none

abbrev first_le : FilePath → FilePath → Bool
first_le [] t = true
first_le (c ∷ s) [] = false
first_le (c ∷ s) (d ∷ t) = if c == d then first_le s t else leb c d

abbrev same_file : FilePath → FilePath
same_file path = path

abbrev named : List FilePath
named = codes "d/b" ∷ codes "d" ∷ []

expands : expand first_le listing same_file named ≡ codes "d/b" ∷ codes "d/a" ∷ []
unfolding expand unseen contains text_eq sorted
expands = refl

expand-Distinct_example :
    Distinct (map same_file (expand first_le listing same_file named))
    × ((file : FilePath)
        → contains (map same_file (expand first_le listing same_file named)) file
          ≡ any_names first_le listing same_file named file)
expand-Distinct_example = expand-Distinct first_le listing same_file named

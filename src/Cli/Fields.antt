-- ===== src/Cli/Fields.antt =====
-- What `_read_digests` of src/eous/cli.py does to a line: `str.splitlines`, `str.split`, `str.rindex`
-- and `str.strip`. Which characters are white space is Python's to say, and a parameter.
pub mod Laws
use eous.Prelude.{
  ℕ, Bool, true, false, ◌&&◌, not, List, [], ◌∷◌, ◌++◌, Option, none, some, ◌==◌, if◌then◌else◌,
}
use eous.Prelude.Text.{Text}

-- `s.startswith(w)`, with the prefix first.
unfoldable pub starts_with : Text → Text → Bool
starts_with [] s = true
starts_with (c ∷ w) [] = false
starts_with (c ∷ w) (d ∷ s) = c == d && starts_with w s

-- `s[:s.rindex(w)]`: what stands before the last occurrence, if there is one.
unfoldable pub before_last : Text → Text → Option Text
before_last w [] = if starts_with w [] then some [] else none
before_last w (c ∷ s) = elim (before_last w s) [
  | some before ↦ some (c ∷ before)
  | none ↦ if starts_with w (c ∷ s) then some [] else none
]

-- `fields[-1]`
unfoldable pub last : List Text → Option Text
last [] = none
last (w ∷ []) = some w
last (w ∷ v ∷ ws) = last (v ∷ ws)

-- `f"{s}"` put before the first of some texts.
abbrev pub extend : ℕ → List Text → List Text
extend c [] = (c ∷ []) ∷ []
extend c (w ∷ ws) = (c ∷ w) ∷ ws

module _ (is_break : ℕ → Bool) where
  -- `s.splitlines()`; a text that Python has read has no carriage return with a newline behind it.
  unfoldable pub split_lines : Text → List Text
  split_lines [] = []
  split_lines (c ∷ s) = let rest = split_lines s in if is_break c then [] ∷ rest else extend c rest

module _ (is_space : ℕ → Bool) where
  -- Whether the text goes on with a word.
  abbrev pub in_word : Text → Bool
  in_word [] = false
  in_word (c ∷ s) = not (is_space c)

  -- `s.split()`
  unfoldable pub words : Text → List Text
  words [] = []
  words (c ∷ s) =
      let rest = words s in
      if is_space c then rest else if in_word s then extend c rest else (c ∷ []) ∷ rest

  unfoldable pub lstrip : Text → Text
  lstrip [] = []
  lstrip (c ∷ s) = let rest = lstrip s in if is_space c then rest else c ∷ s

  -- A character before the part that is kept.
  abbrev keep : ℕ → Text → Text
  keep c [] = if is_space c then [] else c ∷ []
  keep c (d ∷ s) = c ∷ d ∷ s

  unfoldable pub rstrip : Text → Text
  rstrip [] = []
  rstrip (c ∷ s) = keep c (rstrip s)

  -- `s.strip()`
  unfoldable pub strip : Text → Text
  unfolding lstrip rstrip
  strip s = rstrip (lstrip s)

-- ===== src/Prelude/Text/Split.antt =====
-- `str.split` at a separator, and `str.join`.
use eous.Prelude.{
  ℕ, suc, ◌≡◌, refl, ◌≢◌, List, [], ◌∷◌, ◌++◌, arith, ◌==◌, if◌then◌else◌, length, All,
}
use eous.Prelude.Text.Base.{Text}

-- A character in front of the first part.
abbrev into_first : ℕ → List Text → List Text
into_first c [] = (c ∷ []) ∷ []
into_first c (p ∷ ps) = (c ∷ p) ∷ ps

-- `s.split(sep)` for a separator of one character.
unfoldable pub split : ℕ → Text → List Text
split sep [] = [] ∷ []
split sep (c ∷ s) = if c == sep then [] ∷ split sep s else into_first c (split sep s)

-- `sep.join(parts)`
unfoldable pub join : ℕ → List Text → Text
join sep [] = []
join sep (p ∷ []) = p
join sep (p ∷ q ∷ ps) = p ++ sep ∷ join sep (q ∷ ps)

abbrev pub Lacks : ℕ → Text → Type 0
Lacks sep = All (λ c. c ≢ sep)

split-ne-nil : (sep : ℕ) (s : Text) → split sep s ≢ []
unfolding split
split-ne-nil sep [] = λ h. cc
split-ne-nil sep (c ∷ s) = ground (arith, split-ne-nil sep s)

-- Splitting takes apart at the first separator.
pub split-append : (sep : ℕ) (p s : Text) → Lacks sep p → split sep (p ++ sep ∷ s) ≡ p ∷ split sep s
unfolding split
split-append sep [] s h = ground arith
split-append sep (c ∷ p) s h = ground (arith, split-append sep p s h.1)

pub split_single : (sep : ℕ) (p : Text) → Lacks sep p → split sep p ≡ p ∷ []
unfolding split
split_single sep [] h = refl
split_single sep (c ∷ p) h = ground (arith, split_single sep p h.1)

join-into_first :
    (sep c : ℕ) (ps : List Text) → ps ≢ [] → join sep (into_first c ps) ≡ c ∷ join sep ps
unfolding join
join-into_first sep c [] h = absurd (h refl)
join-into_first sep c (p ∷ []) h = refl
join-into_first sep c (p ∷ q ∷ ps) h = refl

join_empty_first : (sep : ℕ) (ps : List Text) → ps ≢ [] → join sep ([] ∷ ps) ≡ sep ∷ join sep ps
unfolding join
join_empty_first sep [] h = absurd (h refl)
join_empty_first sep (q ∷ ps) h = refl

-- The parts spell the text.
pub join-split : (sep : ℕ) (s : Text) → join sep (split sep s) ≡ s
unfolding split
join-split sep [] = unfold join in refl
join-split sep (c ∷ s) = ground (
  arith,
  join-split sep s,
  split-ne-nil sep s,
  join-into_first sep c (split sep s),
  join_empty_first sep (split sep s),
)

-- How often a character stands in a text.
abbrev pub count : ℕ → Text → ℕ
count sep [] = 0
count sep (c ∷ s) = if c == sep then suc (count sep s) else count sep s

length-into_first : (c : ℕ) (ps : List Text) → ps ≢ [] → length (into_first c ps) ≡ length ps
length-into_first c [] h = absurd (h refl)
length-into_first c (p ∷ ps) h = refl

-- Splitting makes one part more than there are separators.
pub length-split : (sep : ℕ) (s : Text) → length (split sep s) ≡ suc (count sep s)
unfolding split
length-split sep [] = refl
length-split sep (c ∷ s) =
    ground (arith, length-split sep s, split-ne-nil sep s, length-into_first c (split sep s))

-- ===== src/Cli/Fields/Laws.antt =====
-- The last word of a line is found in it, and what stands before it.
use eous.Prelude.{
  ℕ, ◌≤◌, ◌<◌, ◌≡◌, refl, ap, ◌∙◌, Bool, true, false, List, [], ◌∷◌, ◌++◌, none, some, arith,
  length, All, Bool-cases, Option-cases, inl, inr,
}
use eous.Prelude.Text.{Text}
use eous.Cli.Fields.{starts_with, before_last, last, split_lines, in_word, words, rstrip, strip}

starts_with-le : (w s : Text) → starts_with w s ≡ true → length w ≤ length s
unfolding starts_with
starts_with-le [] s h = omega arith
starts_with-le (c ∷ w) [] h = cc
starts_with-le (c ∷ w) (d ∷ s) h = ground (arith, starts_with-le w s)

starts_with_self : (w : Text) → starts_with w w ≡ true
unfolding starts_with
starts_with_self [] = refl
starts_with_self (c ∷ w) = ground (arith, starts_with_self w)

-- A text that is too short holds no occurrence.
before_last_short : (w s : Text) → length s < length w → before_last w s ≡ none
unfolding before_last
before_last_short w [] h = ground (arith, starts_with-le w [])
before_last_short w (c ∷ s) h = ground (arith, starts_with-le w (c ∷ s), before_last_short w s)

-- The last occurrence is the one at the end.
pub before_last-append :
    (before : Text) (c : ℕ) (w : Text) → before_last (c ∷ w) (before ++ c ∷ w) ≡ some before
unfolding before_last
before_last-append [] c w =
    ground (arith, before_last_short (c ∷ w) w (omega arith), starts_with_self (c ∷ w))
before_last-append (d ∷ before) c w = rw (before_last-append before c w)

module _ (is_space : ℕ → Bool) where
  -- The first word of a text that goes on with one.
  in_word-words :
      (s : Text)
      → in_word is_space s ≡ true
      → (w : Text) × (ws : List Text) × (words is_space s ≡ w ∷ ws) × (starts_with w s ≡ true)
  unfolding words starts_with
  in_word-words [] h = cc
  in_word-words (c ∷ s) h = elim (Bool-cases (in_word is_space s)) [
    | inl e ↦
        let (w, ws, shape, prefix) = in_word-words s e in
        (c ∷ w, ws, rw (e, shape) (ground arith), ground arith)
    | inr e ↦ (c ∷ [], words is_space s, ground arith, ground arith)
  ]

  occurs_here :
      (w : Text) (c : ℕ) (s : Text)
      → starts_with w (c ∷ s) ≡ true
      → (before : Text) × (before_last w (c ∷ s) ≡ some before)
  unfolding before_last
  occurs_here w c s h = elim (Option-cases (before_last w s)) [
    | inl e ↦ ([], rw (e, h) refl)
    | inr (before, e) ↦ (c ∷ before, rw e refl)
  ]

  occurs_later :
      (w : Text) (c : ℕ) (s : Text)
      → ((before : Text) × (before_last w s ≡ some before))
      → (before : Text) × (before_last w (c ∷ s) ≡ some before)
  unfolding before_last
  occurs_later w c s (before, e) = (c ∷ before, rw e refl)

  abbrev Occurs : Text → Text → Type 0
  Occurs w s = (before : Text) × (before_last w s ≡ some before)

  -- A word that begins where the text does, before others.
  last_extended :
      (c : ℕ) (s w v : Text) (vs : List Text)
      → starts_with v s ≡ true
      → last ((c ∷ v) ∷ vs) ≡ some w
      → (last (v ∷ vs) ≡ some w → Occurs w s)
      → Occurs w (c ∷ s)
  unfolding last starts_with
  last_extended c s w v [] prefix h later = occurs_here w c s (ground arith)
  last_extended c s w v (u ∷ us) prefix h later = occurs_later w c s (later h)

  last_single :
      (c : ℕ) (s w : Text) (vs : List Text)
      → last ((c ∷ []) ∷ vs) ≡ some w
      → (last vs ≡ some w → Occurs w s)
      → Occurs w (c ∷ s)
  unfolding last starts_with
  last_single c s w [] h later = occurs_here w c s (ground arith)
  last_single c s w (u ∷ us) h later = occurs_later w c s (later h)

  -- `rindex` finds the last field of a line.
  pub last-words-occurs :
      (s w : Text)
      → last (words is_space s) ≡ some w
      → (before : Text) × (before_last w s ≡ some before)
  unfolding words last
  last-words-occurs [] w h = cc
  last-words-occurs (c ∷ s) w h = elim (Bool-cases (is_space c)) [
    | inl e ↦ occurs_later w c s (last-words-occurs s w (rw e at h))
    | inr e ↦ elim (Bool-cases (in_word is_space s)) [
      | inl f ↦
          let (v, vs, shape, prefix) = in_word-words s f in
          last_extended c s w v vs prefix (rw (e, f, shape) at h)
            (λ k. last-words-occurs s w (ap last shape ∙ k))
      | inr f ↦ last_single c s w (words is_space s) (rw (e, f) at h) (last-words-occurs s w)
    ]
  ]

  in_word-append :
      (before : Text) (c : ℕ) (s : Text)
      → is_space c ≡ true
      → in_word is_space (before ++ c ∷ s) ≡ in_word is_space before
  in_word-append [] c s h = ground arith
  in_word-append (d ∷ before) c s h = refl

  words-append :
      (before : Text) (c : ℕ) (s : Text)
      → is_space c ≡ true
      → words is_space (before ++ c ∷ s) ≡ words is_space before ++ words is_space s
  unfolding words
  words-append [] c s h = ground arith
  words-append (d ∷ before) c s h = elim (Bool-cases (is_space d)) [
    | inl e ↦ rw e (words-append before c s h)
    | inr e ↦ elim (Bool-cases (in_word is_space before)) [
      | inl f ↦
          let (v, vs, shape, prefix) = in_word-words before f in
          rw (in_word-append before c s h, words-append before c s h, e, f, shape) refl
      | inr f ↦ rw (in_word-append before c s h, words-append before c s h, e, f) refl
    ]
  ]

  pub words_word :
      (c : ℕ) (w : Text)
      → All (λ d. is_space d ≡ false) (c ∷ w)
      → words is_space (c ∷ w) ≡ (c ∷ w) ∷ []
  unfolding words
  words_word c [] h = ground arith
  words_word c (d ∷ w) h = ground (arith, words_word d w h.1)

  last_end : (ws : List Text) (w : Text) → last (ws ++ w ∷ []) ≡ some w
  unfolding last
  last_end [] w = refl
  last_end (v ∷ []) w = refl
  last_end (v ∷ u ∷ ws) w = last_end (u ∷ ws) w

  -- A word behind a space is the last field.
  pub last-words-append :
      (before : Text) (space c : ℕ) (w : Text)
      → is_space space ≡ true
      → All (λ d. is_space d ≡ false) (c ∷ w)
      → last (words is_space (before ++ space ∷ c ∷ w)) ≡ some (c ∷ w)
  last-words-append before space c w h k =
      ap last (words-append before space (c ∷ w) h)
      ∙ rw words_word (last_end (words is_space before) (c ∷ w))

  rstrip-append :
      (s : Text) (c : ℕ) → is_space c ≡ true → rstrip is_space (s ++ c ∷ []) ≡ rstrip is_space s
  unfolding rstrip
  rstrip-append [] c h = ground arith
  rstrip-append (d ∷ s) c h = rw (rstrip-append s c h)

  -- A space at the end does not matter.
  pub strip-append :
      (s : Text) (c : ℕ) → is_space c ≡ true → strip is_space (s ++ c ∷ []) ≡ strip is_space s
  unfolding strip
  strip-append [] c h = ground arith
  strip-append (d ∷ s) c h = elim (Bool-cases (is_space d)) [
    | inl e ↦ rw e (strip-append s c h)
    | inr e ↦ rw e (rstrip-append (d ∷ s) c h)
  ]

-- A line that ends by a break stands by itself.
pub split_lines-append :
    (is_break : ℕ → Bool) (line : Text) (c : ℕ) (rest : Text)
    → All (λ d. is_break d ≡ false) line
    → is_break c ≡ true
    → split_lines is_break (line ++ c ∷ rest) ≡ line ∷ split_lines is_break rest
unfolding split_lines
split_lines-append is_break [] c rest h k = ground arith
split_lines-append is_break (d ∷ line) c rest h k =
    rw (h.0, split_lines-append is_break line c rest h.1 k) refl

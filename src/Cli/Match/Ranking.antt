-- ===== src/Cli/Match/Ranking.antt =====
-- The rows that `_run_match` of src/eous/cli.py prints.
use eous.Prelude.Outcome.{ok, raise}
use mathlib.Core.List.{Perm, perm_middle}
use mathlib.Core.List.Perm
use eous.Prelude.{
  sym, subst, ℕ, ◌≤◌, ◌<◌, ◌≡◌, refl, ap, ◌∙◌, inl, inr, Bool, true, false, not, List, [], ◌∷◌,
  ◌++◌, map, filter, length, take, drop, arith, All, length-take, take-append-drop, Bool-cases,
  length-drop, filter-All, filter_passes, All_front,
}
use eous.Prelude.Text.{Text, text_eq}
use eous.Prelude.Float.{Float, IsOrdered}
use eous.Prelude.Sort.{sorted, sorted-perm, sorted-IsSorted, IsSorted}
use eous.Digest.{Sketch}
use eous.Digest.Slots.{unpack_all}
use eous.Digest.Score.{score, cardinalities, scored, compare}
use eous.Cli.Match.{Row, ranks_before, scored_rows, order, cleared, kept_of}

module _ {ℓ} {A : Type ℓ} where
  filter-IsSorted :
      (le : A → A → Bool) (p : A → Bool) (xs : List A) → IsSorted le xs → IsSorted le (filter p xs)
  filter-IsSorted le p [] h = tt
  filter-IsSorted le p (x ∷ xs) h = elim (Bool-cases (p x)) [
    | inl e ↦ rw e (filter-All (λ y. le x y ≡ true) p xs h.0, filter-IsSorted le p xs h.1)
    | inr e ↦ rw e (filter-IsSorted le p xs h.1)
  ]

  -- The elements that pass a test and those that do not are all.
  filter-Perm : (p : A → Bool) (xs : List A) → Perm (filter p xs ++ filter (λ x. not (p x)) xs) xs
  filter-Perm p [] = Perm.nil
  filter-Perm p (x ∷ xs) = elim (Bool-cases (p x)) [
    | inl e ↦ rw e (Perm.cons x (filter-Perm p xs))
    | inr e ↦ rw e (
        Perm.trans (perm_middle (filter p xs) (filter (λ y. not (p y)) xs))
          (Perm.cons x (filter-Perm p xs)))
  ]

  filter_fails : (p : A → Bool) (xs : List A) → All (λ x. p x ≡ false) (filter (λ x. not (p x)) xs)
  filter_fails p [] = tt
  filter_fails p (x ∷ xs) = elim (Bool-cases (p x)) [
    | inl e ↦ rw e (filter_fails p xs)
    | inr e ↦ rw e (e, filter_fails p xs)
  ]

  parts-Perm :
      (n : ℕ) (p : A → Bool) (xs : List A)
      → Perm (take n (filter p xs) ++ drop n (filter p xs) ++ filter (λ x. not (p x)) xs) xs
  parts-Perm n p xs =
      let kept = filter p xs in
      let rest = filter (λ x. not (p x)) xs in
      subst (λ ys. Perm ys xs) (ap (λ ys. ys ++ rest) (sym (take-append-drop n kept)))
        (filter-Perm p xs)

  -- The two parts of a sorted list.
  IsSorted-parts :
      (le : A → A → Bool) (xs ys : List A)
      → IsSorted le (xs ++ ys)
      → IsSorted le xs × All (λ x. All (λ y. le x y ≡ true) ys) xs
  IsSorted-parts le [] ys h = (tt, tt)
  IsSorted-parts le (x ∷ xs) ys h =
      let (front, back) = All_front (λ y. le x y ≡ true) xs ys h.0 in
      let (sorted_front, below) = IsSorted-parts le xs ys h.1 in
      ((front, sorted_front), (back, below))

module _ (N : Float) where
  open N use {F, le}

  -- The rows that `compare` gives of the digests, each with the query: those of its target, since it
  -- refuses another.
  abbrev pub compared_rows : Sketch → List (Text × Sketch) → List (Row N)
  compared_rows query [] = []
  compared_rows query (pair ∷ pairs) = elim (compare N pair.1 query) [
    | ok scores ↦
        record { score = scores.similarity; margin = scores.uncertainty; label = pair.0 }
        ∷ compared_rows query pairs
    | raise e ↦ compared_rows query pairs
  ]

  row_for : Sketch → Text × Sketch → Row N
  row_for query pair = record {
    score = (scored N pair.1 query).similarity;
    margin = (scored N pair.1 query).uncertainty;
    label = pair.0;
  }

  rows_of-scored :
      (query : Sketch) (kept : List (Text × Sketch))
      → scored_rows N query kept ≡ map (row_for query) kept
  unfolding row_for score unpack_all cardinalities scored
  rows_of-scored query [] = refl
  rows_of-scored query ((label, s) ∷ kept) =
      ap (◌∷◌ (row_for query (label, s))) (rows_of-scored query kept)

  compared-row_for :
      (query : Sketch) (pairs : List (Text × Sketch))
      → map (row_for query) (kept_of N query.target pairs) ≡ compared_rows query pairs
  unfolding row_for compare
  compared-row_for query [] = refl
  compared-row_for query ((label, s) ∷ pairs) = elim (Bool-cases (text_eq s.target query.target)) [
    | inl e ↦
        rw (e, compared_rows) (ap (◌∷◌ (row_for query (label, s))) (compared-row_for query pairs))
    | inr e ↦ rw (e, compared_rows) (compared-row_for query pairs)
  ]

  -- The rows that match ranks, of the digests that it keeps, are those that `compare` gives of all the
  -- digests, each with the query, where it does not refuse.
  pub scored_rows-compare :
      (query : Sketch) (pairs : List (Text × Sketch))
      → scored_rows N query (kept_of N query.target pairs) ≡ compared_rows query pairs
  scored_rows-compare query pairs =
      rows_of-scored query (kept_of N query.target pairs) ∙ compared-row_for query pairs

  -- Rows that are the best of those that `compare` gives: in the order of their scores, at most as many
  -- as asked for, none below the minimum. All the rows are these, those left out that reach the minimum
  -- too, and those that do not. The ones left out score no better, and are so only for the number asked
  -- for.
  pub record IsBest (minimum : F) (top : ℕ) (query : Sketch) (pairs : List (Text × Sketch))
      (ranked : List (Row N)) : Type 0 where
    pub in_order : IsSorted (λ (r s : Row N). le s.score r.score) ranked
    pub short : length ranked ≤ top
    pub left_out : List (Row N)
    pub below : List (Row N)
    pub all_rows : Perm (ranked ++ left_out ++ below) (compared_rows query pairs)
    pub reaching : All (λ (row : Row N). le minimum row.score ≡ true) (ranked ++ left_out)
    pub not_reaching : All (λ (row : Row N). le minimum row.score ≡ false) below
    pub no_better :
        All
          (λ (row : Row N). All (λ (other : Row N). le other.score row.score ≡ true) left_out)
          ranked
    pub full : 0 < length left_out → length ranked ≡ top

  module _ (L : IsOrdered N) where
    order-IsSorted :
        (rows : List (Row N)) → IsSorted (ranks_before N) (sorted (ranks_before N) rows)
    order-IsSorted =
        sorted-IsSorted (ranks_before N) (λ r s. L.le_total s.score r.score)
          (λ r s t h k. L.le_trans t.score s.score r.score k h)

    -- Over doubles that round as IEEE 754 says, what match prints of any digests is the best of the rows
    -- that `compare` gives of them with the query: those that reach the minimum, but for the worst
    -- where they are more than asked for, in the order of their scores.
    pub order-IsBest :
        (minimum : F) (top : ℕ) (query : Sketch) (pairs : List (Text × Sketch))
        → IsBest minimum top query pairs
            (take top (cleared N minimum (order N query (kept_of N query.target pairs))))
    unfolding order cleared
    order-IsBest minimum top query pairs =
        let reaches : Row N → Bool = λ row. le minimum row.score in
        let scored = scored_rows N query (kept_of N query.target pairs) in
        let rows = sorted (ranks_before N) scored in
        let clear = filter reaches rows in
        let below = filter (λ row. not (reaches row)) rows in
        let parts = take-append-drop top clear in
        let (front, beyond) =
          IsSorted-parts (ranks_before N) (take top clear) (drop top clear)
            (rw parts (filter-IsSorted (ranks_before N) reaches rows (order-IsSorted scored))) in
        record {
          in_order = front;
          short = omega (arith, length-take top clear);
          left_out = drop top clear;
          below = below;
          all_rows =
              subst (Perm (take top clear ++ drop top clear ++ below))
                (scored_rows-compare query pairs)
                (Perm.trans (parts-Perm top reaches rows) (sorted-perm (ranks_before N) scored));
          reaching = rw parts (filter_passes reaches rows);
          not_reaching = filter_fails reaches rows;
          no_better = beyond;
          full = λ some_left. omega (arith, length-take top clear, length-drop top clear);
        }

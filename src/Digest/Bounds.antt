-- ===== src/Digest/Bounds.antt =====
-- The ranges of what `compare` and `_containment` of src/eous/digest.py return.
use eous.Prelude.Text.{text_eq_iff}
use eous.Prelude.Outcome.{ok}
use eous.Digest.Accepts.{IsValid}
use eous.Prelude.{
  ℕ, ◌+◌, ◌*◌, ◌^◌, ◌≤◌, ◌<◌, ◌≡◌, inl, inr, true, false, Option, none, some, arith, Bool-cases,
  min, max, ◌⊎◌, ◌↔◌,
}
use eous.Prelude.Float.{Float, IsOrdered}
use eous.Digest.{Sketch}
use eous.Digest.Slots.{unpack, length-unpack}
use eous.Digest.Score.{
  size_bound, score_row, containment, Scores, compare, max_containment_ratio, too_uneven,
  at_most_one, shared_count, contained_share, scored,
}
use eous.Digest.Ranges.{
  InRange, le_refl, percent, pos, nonneg, score_row-range, score_row-margin, pos_of_add, one_pos,
}

-- Sizes for which `_containment` gives no figures.
abbrev pub Uneven : ℕ → ℕ → Type 0
Uneven left right = (min left right ≡ 0) ⊎ (min left right * max_containment_ratio < max left right)

too_uneven_iff : (left right : ℕ) → (too_uneven left right ≡ true) ↔ Uneven left right
unfolding too_uneven
too_uneven_iff left right = (λ h. ground arith, λ h. ground arith)

even_of_test : (left right : ℕ) → too_uneven left right ≡ false → ¬ Uneven left right
even_of_test left right e u = cc ((too_uneven_iff left right).1 u)

both_pos : (left right : ℕ) → too_uneven left right ≡ false → (0 < left) × (0 < right)
unfolding too_uneven
both_pos left right e = ground arith

module _ (N : Float) (L : IsOrdered N) where
  open N use {F, of_ℕ, add, sub, mul, div, sqrt, le}

  capped_range : (x : F) → le (of_ℕ 0) x ≡ true → InRange N L (mul (at_most_one N x) (of_ℕ 100))
  capped_range x h =
      percent N L (at_most_one N x) (ground (arith, nonneg N L 1))
        (ground (arith, L.le_total x (of_ℕ 1), le_refl N L (of_ℕ 1)))

  contained_share-InRange :
      (jaccard : F) (left right side : ℕ)
      → le (of_ℕ 0) jaccard ≡ true
      → 0 < side
      → side ≤ 2 ^ 53
      → InRange N L (contained_share N (shared_count N jaccard left right) side)
  contained_share-InRange jaccard left right side h some_code small =
      capped_range (div (shared_count N jaccard left right) (of_ℕ side))
        (L.div_nonneg _ (of_ℕ side) shared_nonneg (L.of_ℕ_strict 0 side some_code small))
    where
      shared_nonneg : le (of_ℕ 0) (shared_count N jaccard left right) ≡ true
      shared_nonneg =
          L.div_nonneg _ _
            (ground (
              arith,
              L.mul_mono (of_ℕ 0) jaccard (of_ℕ (left + right)) (nonneg N L (left + right)) h,
              L.zero_mul (of_ℕ (left + right)),
            ))
            (pos_of_add N L (of_ℕ 1) jaccard (one_pos N L) h)

  -- A figure is withheld, or a percentage.
  abbrev pub Contained : ℕ → ℕ → Option F → Type 0
  Contained left right none = Uneven left right
  Contained left right (some x) = (¬ Uneven left right) × InRange N L x

  -- Both containments are withheld where a sketch is empty or more than four times as large as the
  -- other, and otherwise are percentages.
  containment-Contained :
      (jaccard : F) (left right : ℕ)
      → le (of_ℕ 0) jaccard ≡ true
      → left ≤ 2 ^ 53
      → right ≤ 2 ^ 53
      → Contained left right (containment N jaccard left right).0
        × Contained left right (containment N jaccard left right).1
  unfolding containment
  containment-Contained jaccard left right h hl hr = elim (Bool-cases (too_uneven left right)) [
    | inl e ↦ rw (e, containment) ((too_uneven_iff left right).0 e, (too_uneven_iff left right).0 e)
    | inr e ↦
        let even = even_of_test left right e in
        rw (e, containment)
          (
            (even, contained_share-InRange jaccard left right left h (both_pos left right e).0 hl),
            (even, contained_share-InRange jaccard left right right h (both_pos left right e).1 hr),
          )
  ]

  -- The similarity is a percentage that does not exceed the ratio of the cardinalities, the margin is
  -- not negative, and the containments are percentages, or withheld for uneven sizes.
  pub record IsBounded (left right : Sketch) (s : Scores N) : Type 0 where
    pub similarity : InRange N L s.similarity
    pub capped :
        le s.similarity
          (mul (size_bound N (of_ℕ left.cardinality) (of_ℕ right.cardinality)) (of_ℕ 100))
        ≡ true
    pub uncertainty : le (of_ℕ 0) s.uncertainty ≡ true
    pub left_in_right : Contained left.cardinality right.cardinality s.left_in_right
    pub right_in_left : Contained left.cardinality right.cardinality s.right_in_left

  -- Over doubles that round as IEEE 754 says, two valid sketches of one target compare: to a
  -- similarity between 0 and 100 percent that does not exceed the ratio of the cardinalities, a margin
  -- that is not negative, and containments that are percentages, or withheld exactly where a sketch is
  -- empty or more than four times as large as the other.
  pub compare-IsBounded :
      (left right : Sketch)
      → IsValid left
      → IsValid right
      → left.target ≡ right.target
      → (s : Scores N) × (compare N left right ≡ ok s) × IsBounded left right s
  unfolding compare scored
  compare-IsBounded left right hl hr same = (
    scored N left right,
    ground (arith, text_eq_iff left.target right.target),
    record {
      similarity = range.0;
      capped = range.1;
      uncertainty = score_row-margin N L _ _ _ _ (length-unpack left);
      left_in_right = contained.0;
      right_in_left = contained.1;
    },
  )
    where
      row : F × F
      row =
          score_row N (unpack left) (of_ℕ left.cardinality) (unpack right) (of_ℕ right.cardinality)

      range :
          InRange N L row.0
          × (le row.0
                (mul (size_bound N (of_ℕ left.cardinality) (of_ℕ right.cardinality)) (of_ℕ 100))
              ≡ true)
      range =
          score_row-range N L (unpack left) _ (unpack right) _ (nonneg N L left.cardinality)
            (nonneg N L right.cardinality)

      contained :
          Contained left.cardinality right.cardinality
            (containment N (div row.0 (of_ℕ 100)) left.cardinality right.cardinality).0
          × Contained left.cardinality right.cardinality
              (containment N (div row.0 (of_ℕ 100)) left.cardinality right.cardinality).1
      contained =
          containment-Contained (div row.0 (of_ℕ 100)) left.cardinality right.cardinality
            (L.div_nonneg row.0 (of_ℕ 100) (range.0).0 (pos N L 99 (omega arith))) hl.bounded
            hr.bounded

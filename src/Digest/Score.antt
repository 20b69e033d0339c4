-- ===== src/Digest/Score.antt =====
-- src/eous/digest.py: `score`, `_wilson_margin`, `compare` and `_containment`, over the doubles of
-- `Prelude.Float`. A numpy array is a list; an operation on arrays is one on each entry.
use eous.Prelude.{
  ℕ, suc, ◌+◌, ◌*◌, ◌^◌, not, ◌||◌, List, [], ◌∷◌, map, Option, none, some, ltb, leb, ◌==◌,
  if◌then◌else◌, Bool,
}
use eous.Prelude.Text.{text_eq}
use eous.Prelude.Outcome.{Outcome, ok, raise}
use eous.Prelude.Float.{Float, lt, minimum, maximum}
use eous.Native
use eous.Digest.{Sketch, DigestError, different_targets}
use eous.Digest.Slots.{unpack}

abbrev pub max_containment_ratio : ℕ
max_containment_ratio = 4

-- `numpy.count_nonzero(row == one)`
unfoldable pub agreements : List ℕ → List ℕ → ℕ
agreements (x ∷ xs) (y ∷ ys) = if x == y then suc (agreements xs ys) else agreements xs ys
agreements _ _ = 0

-- The test of `_containment`. The product with the ratio is exact, so it is a test of integers.
unfoldable pub too_uneven : ℕ → ℕ → Bool
too_uneven left right =
    let smaller = if leb left right then left else right in
    let larger = if leb left right then right else left in
    smaller == 0 || ltb (smaller * max_containment_ratio) larger

module _ (N : Float) where
  open N use {F, of_ℕ, add, sub, mul, div, sqrt, le}

  -- `2.0**-SLOT_BITS`
  abbrev pub floor : F
  floor = div (of_ℕ 1) (of_ℕ (2 ^ Native.slot_bits))

  unfoldable pub wilson_margin : F → F
  wilson_margin agreed =
      let denominator = add (of_ℕ 1) (div (of_ℕ 1) (of_ℕ Native.permutations)) in
      let centre = div (add agreed (div (of_ℕ 1) (of_ℕ (2 * Native.permutations)))) denominator in
      let variance = div (mul agreed (sub (of_ℕ 1) agreed)) (of_ℕ Native.permutations) in
      let half =
        div (sqrt (add variance (div (of_ℕ 1) (of_ℕ (4 * Native.permutations ^ 2))))) denominator in
      maximum N (sub agreed (sub centre half)) (sub (add centre half) agreed)

  abbrev pub agreed_share : List ℕ → List ℕ → F
  agreed_share row one = div (of_ℕ (agreements row one)) (of_ℕ Native.permutations)

  -- `numpy.divide(smaller, larger, out=ones, where=larger > 0)`
  abbrev pub size_bound : F → F → F
  size_bound a b =
      let smaller = minimum N a b in
      let larger = maximum N a b in if lt N (of_ℕ 0) larger then div smaller larger else of_ℕ 1

  abbrev pub slot_similarity : F → F
  slot_similarity agreed =
      mul (maximum N (of_ℕ 0) (div (sub agreed floor) (sub (of_ℕ 1) floor))) (of_ℕ 100)

  -- One row of `score`: the similarity, and the margin of error.
  unfoldable pub score_row : List ℕ → F → List ℕ → F → F × F
  score_row row row_cardinality one cardinality =
      let agreed = agreed_share row one in
      (
        minimum N (slot_similarity agreed)
            (mul (size_bound row_cardinality cardinality) (of_ℕ 100)),
        mul (div (wilson_margin agreed) (sub (of_ℕ 1) floor)) (of_ℕ 100),
      )

  unfoldable pub score : List (List ℕ) → List F → List ℕ → ℕ → List (F × F)
  score (row ∷ rows) (c ∷ cs) one cardinality =
      score_row row c one (of_ℕ cardinality) ∷ score rows cs one cardinality
  score _ _ one cardinality = []

  unfoldable pub cardinalities : List Sketch → List F
  cardinalities sketches = map (λ (s : Sketch). of_ℕ s.cardinality) sketches

  pub record Scores : Type 0 where
    pub similarity : F
    pub uncertainty : F
    pub left_in_right : Option F
    pub right_in_left : Option F

  -- Python's `min(1.0, x)`.
  abbrev pub at_most_one : F → F
  at_most_one x = if lt N x (of_ℕ 1) then x else of_ℕ 1

  abbrev pub shared_count : F → ℕ → ℕ → F
  shared_count jaccard left right = div (mul jaccard (of_ℕ (left + right))) (add (of_ℕ 1) jaccard)

  abbrev pub contained_share : F → ℕ → F
  contained_share shared side = mul (at_most_one (div shared (of_ℕ side))) (of_ℕ 100)

  unfoldable pub containment : F → ℕ → ℕ → Option F × Option F
  containment jaccard left right = if too_uneven left right then (none, none) else (
    some (contained_share (shared_count jaccard left right) left),
    some (contained_share (shared_count jaccard left right) right),
  )

  unfoldable pub scored : Sketch → Sketch → Scores
  scored left right =
      let (similarity, uncertainty) =
        score_row (unpack left) (of_ℕ left.cardinality) (unpack right) (of_ℕ right.cardinality) in
      let (left_in_right, right_in_left) =
        containment (div similarity (of_ℕ 100)) left.cardinality right.cardinality in
      record {
        similarity = similarity;
        uncertainty = uncertainty;
        left_in_right = left_in_right;
        right_in_left = right_in_left;
      }

  unfoldable pub compare : Sketch → Sketch → Outcome DigestError Scores
  compare left right =
      if not (text_eq left.target right.target)
      then raise (different_targets left.target right.target)
      else ok (scored left right)

-- ===== src/Digest/Symmetry.antt =====
-- `compare` of src/eous/digest.py with its sides exchanged, and of a sketch with itself.
use eous.Prelude.{
  ℕ, ◌≡◌, refl, ◌∙◌, ap, ap₂, false, List, [], ◌∷◌, Option, arith, length, if◌then◌else◌, ◌^◌, ◌<◌,
  ◌≤◌,
}
use native.Mathlib.Nat.{add_comm}
use eous.Prelude.Text.{text_eq_iff, text_eq_self}
use eous.Prelude.Outcome.{Outcome, ok, raise}
use eous.Prelude.Float.{Float, IsOrdered, lt, minimum, maximum}
use eous.Native
use eous.Digest.{Sketch, DigestError, different_targets}
use eous.Digest.Slots.{unpack, length-unpack}
use eous.Digest.Score.{
  agreements, floor, wilson_margin, agreed_share, size_bound, slot_similarity, score_row,
  containment, Scores, scored, compare, too_uneven,
}
use eous.Digest.Ranges.{chance_removed}

agreements_comm : (xs ys : List ℕ) → agreements xs ys ≡ agreements ys xs
unfolding agreements
agreements_comm [] [] = refl
agreements_comm [] (y ∷ ys) = refl
agreements_comm (x ∷ xs) [] = refl
agreements_comm (x ∷ xs) (y ∷ ys) = ground (arith, agreements_comm xs ys)

agreements_self : (xs : List ℕ) → agreements xs xs ≡ length xs
unfolding agreements
agreements_self [] = refl
agreements_self (x ∷ xs) = ground (arith, agreements_self xs)

too_uneven_comm : (left right : ℕ) → too_uneven left right ≡ too_uneven right left
unfolding too_uneven
too_uneven_comm left right = ground arith

-- The same text's error, seen from the other side.
abbrev mirror_error : DigestError → DigestError
mirror_error (different_targets a b) = different_targets b a
mirror_error e = e

module _ (N : Float) where
  abbrev mirror_scores : Scores N → Scores N
  mirror_scores s = record s { left_in_right = s.right_in_left; right_in_left = s.left_in_right }

  -- The comparison with its sides exchanged.
  abbrev pub mirror : Outcome DigestError (Scores N) → Outcome DigestError (Scores N)
  mirror (ok s) = ok (mirror_scores s)
  mirror (raise e) = raise (mirror_error e)

module _ (N : Float) (L : IsOrdered N) where
  open N use {F, of_ℕ, add, sub, mul, div, sqrt, le}

  size_bound_comm : (a b : F) → size_bound N a b ≡ size_bound N b a
  size_bound_comm a b =
      ap₂ (λ smaller larger. if lt N (of_ℕ 0) larger then div smaller larger else of_ℕ 1)
        minimum_comm maximum_comm
    where
      minimum_comm : minimum N a b ≡ minimum N b a
      minimum_comm = ground (arith, L.le_total a b, L.le_antisymm a b)

      maximum_comm : maximum N a b ≡ maximum N b a
      maximum_comm = ground (arith, L.le_total a b, L.le_antisymm a b)

  score_row_comm :
      (row : List ℕ) (a : F) (one : List ℕ) (b : F)
      → score_row N row a one b ≡ score_row N one b row a
  unfolding score_row
  score_row_comm row a one b = ap₂ from_parts (agreements_comm row one) (size_bound_comm a b)
    where
      from_parts : ℕ → F → F × F
      from_parts count bound =
          let agreed = div (of_ℕ count) (of_ℕ Native.permutations) in
          (
            minimum N (slot_similarity N agreed) (mul bound (of_ℕ 100)),
            mul (div (wilson_margin N agreed) (sub (of_ℕ 1) (floor N))) (of_ℕ 100),
          )

  containment_comm :
      (jaccard : F) (left right : ℕ)
      → containment N jaccard right left
        ≡ ((containment N jaccard left right).1, (containment N jaccard left right).0)
  unfolding containment
  containment_comm jaccard left right =
      ground (arith, too_uneven_comm left right, add_comm left right)

  scored_comm : (left right : Sketch) → scored N right left ≡ mirror_scores N (scored N left right)
  unfolding scored
  scored_comm left right =
      ap from_row (
        score_row_comm (unpack right) (of_ℕ right.cardinality) (unpack left)
          (of_ℕ left.cardinality))
      ∙ ap (from_figures row)
          (containment_comm (div row.0 (of_ℕ 100)) left.cardinality right.cardinality)
    where
      row : F × F
      row =
          score_row N (unpack left) (of_ℕ left.cardinality) (unpack right) (of_ℕ right.cardinality)

      from_figures : F × F → Option F × Option F → Scores N
      from_figures r c = record {
        similarity = r.0;
        uncertainty = r.1;
        left_in_right = c.0;
        right_in_left = c.1;
      }

      from_row : F × F → Scores N
      from_row r =
          from_figures r (containment N (div r.0 (of_ℕ 100)) right.cardinality left.cardinality)

  -- Over doubles that round as IEEE 754 says, comparing the other way round gives the same
  -- similarity and margin, and the containments exchanged; different targets are refused either way.
  pub compare_comm : (left right : Sketch) → compare N right left ≡ mirror N (compare N left right)
  unfolding compare
  compare_comm left right = ground (
    arith,
    scored_comm left right,
    text_eq_iff left.target right.target,
    text_eq_iff right.target left.target,
  )

  -- Over doubles that round as IEEE 754 says, a sketch scores 100 against itself, whatever it holds.
  compare_self : (s : Sketch) → (r : Scores N) × (compare N s s ≡ ok r) × (r.similarity ≡ of_ℕ 100)
  unfolding compare scored score_row
  compare_self s = (
    scored N s s,
    rw text_eq_self refl,
    ap₂ (λ x y. minimum N (mul x (of_ℕ 100)) (mul y (of_ℕ 100))) full_agreement full_bound
        ∙ rw L.one_mul (ground arith),
  )
    where
      positive : (n : ℕ) → 0 < n → n ≤ 2 ^ 53 → le (of_ℕ n) (of_ℕ 0) ≡ false
      positive n = L.of_ℕ_strict 0 n

      all_agree : agreed_share N (unpack s) (unpack s) ≡ of_ℕ 1
      all_agree =
          ap (λ n. div (of_ℕ n) (of_ℕ Native.permutations))
            (agreements_self (unpack s) ∙ length-unpack s)
          ∙ L.div_self (of_ℕ Native.permutations)
              (positive Native.permutations (omega arith) (omega arith))

      full_agreement :
          maximum N
            (of_ℕ 0)
            (div (sub (agreed_share N (unpack s) (unpack s)) (floor N)) (sub (of_ℕ 1) (floor N)))
          ≡ of_ℕ 1
      full_agreement =
          ap (λ a. maximum N (of_ℕ 0) (div (sub a (floor N)) (sub (of_ℕ 1) (floor N)))) all_agree
          ∙ ap (maximum N (of_ℕ 0)) (L.div_self (sub (of_ℕ 1) (floor N)) (chance_removed N L))
          ∙ ground (arith, L.of_ℕ_mono 0 1)

      full_bound : size_bound N (of_ℕ s.cardinality) (of_ℕ s.cardinality) ≡ of_ℕ 1
      full_bound = ground (arith, L.div_self (of_ℕ s.cardinality))

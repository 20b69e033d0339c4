-- ===== src/Digest/Ranges.antt =====
-- The ranges of the similarity of two rows of slots and of its margin, from src/eous/digest.py.
use eous.Prelude.{ℕ, suc, ◌^◌, ◌≤◌, ◌<◌, ◌≡◌, true, false, List, [], ◌∷◌, arith, length}
use eous.Prelude.Float.{Float, IsOrdered, minimum, maximum}
use eous.Native
use eous.Digest.Score.{
  agreements, floor, wilson_margin, agreed_share, size_bound, slot_similarity, score_row,
}

agreements-le : (xs ys : List ℕ) → agreements xs ys ≤ length xs
unfolding agreements
agreements-le [] ys = omega arith
agreements-le (x ∷ xs) [] = omega arith
agreements-le (x ∷ xs) (y ∷ ys) = ground (arith, agreements-le xs ys)

module _ (N : Float) (L : IsOrdered N) where
  open N use {F, of_ℕ, add, sub, mul, div, sqrt, le}

  -- A percentage.
  abbrev pub InRange : F → Type 0
  InRange x = (le (of_ℕ 0) x ≡ true) × (le x (of_ℕ 100) ≡ true)

  pub le_refl : (a : F) → le a a ≡ true
  le_refl a = ground (arith, L.le_total a a)

  size_bound-range :
      (a b : F)
      → le (of_ℕ 0) a ≡ true
      → le (of_ℕ 0) b ≡ true
      → (le (of_ℕ 0) (size_bound N a b) ≡ true) × (le (size_bound N a b) (of_ℕ 1) ≡ true)
  size_bound-range a b ha hb = ground (
    arith,
    L.le_total a b,
    L.div_nonneg a b,
    L.div_nonneg b a,
    L.div-le-one a b,
    L.div-le-one b a,
    L.of_ℕ_mono 0 1,
    le_refl (of_ℕ 1),
  )

  pub percent : (x : F) → le (of_ℕ 0) x ≡ true → le x (of_ℕ 1) ≡ true → InRange (mul x (of_ℕ 100))
  percent x lo hi = ground (
    arith,
    L.mul_mono (of_ℕ 0) x (of_ℕ 100),
    L.mul_mono x (of_ℕ 1) (of_ℕ 100),
    L.zero_mul (of_ℕ 100),
    L.one_mul (of_ℕ 100),
    L.of_ℕ_mono 0 100,
  )

  slot_similarity_nonneg : (agreed : F) → le (of_ℕ 0) (slot_similarity N agreed) ≡ true
  slot_similarity_nonneg agreed =
      let scaled = maximum N (of_ℕ 0) (div (sub agreed (floor N)) (sub (of_ℕ 1) (floor N))) in
      ground (
        arith,
        L.mul_mono (of_ℕ 0) scaled (of_ℕ 100),
        L.zero_mul (of_ℕ 100),
        L.of_ℕ_mono 0 100,
        le_refl (of_ℕ 0),
      )

  minimum-range :
      (x y : F)
      → le (of_ℕ 0) x ≡ true
      → InRange y
      → InRange (minimum N x y) × (le (minimum N x y) y ≡ true)
  minimum-range x y hx hy = ground (arith, L.le_total x y, L.le_trans x y (of_ℕ 100), le_refl y)

  -- The similarity of any row lies between 0 and 100, and below the ratio of the cardinalities.
  pub score_row-range :
      (row : List ℕ) (a : F) (one : List ℕ) (b : F)
      → le (of_ℕ 0) a ≡ true
      → le (of_ℕ 0) b ≡ true
      → InRange (score_row N row a one b).0
        × (le (score_row N row a one b).0 (mul (size_bound N a b) (of_ℕ 100)) ≡ true)
  unfolding score_row
  score_row-range row a one b ha hb =
      let range = size_bound-range a b ha hb in
      minimum-range (slot_similarity N (agreed_share N row one)) (mul (size_bound N a b) (of_ℕ 100))
        (slot_similarity_nonneg (agreed_share N row one))
        (percent (size_bound N a b) range.0 range.1)

  pub one_pos : le (of_ℕ 1) (of_ℕ 0) ≡ false
  one_pos = L.of_ℕ_strict 0 1 (omega arith) (omega arith)

  pub pos_of_add :
      (a b : F) → le a (of_ℕ 0) ≡ false → le (of_ℕ 0) b ≡ true → le (add a b) (of_ℕ 0) ≡ false
  pos_of_add a b ha hb = ground (arith, L.le-add_right a b, L.le_trans a (add a b) (of_ℕ 0))

  add_nonneg :
      (a b : F) → le (of_ℕ 0) a ≡ true → le (of_ℕ 0) b ≡ true → le (of_ℕ 0) (add a b) ≡ true
  add_nonneg a b ha hb = L.le_trans (of_ℕ 0) a (add a b) ha (L.le-add_right a b hb)

  -- Either way round, the margin is the length of an interval's longer part.
  margin_nonneg :
      (agreed centre half : F)
      → le (of_ℕ 0) half ≡ true
      → le (of_ℕ 0) (maximum N (sub agreed (sub centre half)) (sub (add centre half) agreed)) ≡ true
  margin_nonneg agreed centre half h = ground (
    arith,
    L.le_total agreed centre,
    L.sub-le centre half,
    L.le-add_right centre half,
    L.le_trans (sub centre half) centre agreed,
    L.le_trans agreed centre (add centre half),
    L.sub_nonneg agreed (sub centre half),
    L.sub_nonneg (add centre half) agreed,
    L.le_trans (of_ℕ 0) (sub agreed (sub centre half)) (sub (add centre half) agreed),
    L.le_total (sub agreed (sub centre half)) (sub (add centre half) agreed),
    L.le_trans (of_ℕ 0) (sub (add centre half) agreed) (sub agreed (sub centre half)),
  )

  pub pos : (n : ℕ) → n < 2 ^ 53 → le (of_ℕ (suc n)) (of_ℕ 0) ≡ false
  pos n h = L.of_ℕ_strict 0 (suc n) (omega arith) h

  pub nonneg : (n : ℕ) → le (of_ℕ 0) (of_ℕ n) ≡ true
  nonneg n = L.of_ℕ_mono 0 n (omega arith)

  share : (m n : ℕ) → n < 2 ^ 53 → le (of_ℕ 0) (div (of_ℕ m) (of_ℕ (suc n))) ≡ true
  share m n h = L.div_nonneg (of_ℕ m) (of_ℕ (suc n)) (nonneg m) (pos n h)

  wilson_margin_nonneg :
      (agreed : F)
      → le (of_ℕ 0) agreed ≡ true
      → le agreed (of_ℕ 1) ≡ true
      → le (of_ℕ 0) (wilson_margin N agreed) ≡ true
  unfolding wilson_margin
  wilson_margin_nonneg agreed lo hi = margin_nonneg agreed _ _ (
      L.div_nonneg _ _
        (L.sqrt_nonneg _ (add_nonneg _ _ variance_nonneg (share 1 262143 (omega arith))))
        (pos_of_add (of_ℕ 1) _ one_pos (share 1 255 (omega arith))))
    where
      variance_nonneg :
          le (of_ℕ 0) (div (mul agreed (sub (of_ℕ 1) agreed)) (of_ℕ Native.permutations)) ≡ true
      variance_nonneg =
          L.div_nonneg _ (of_ℕ Native.permutations)
            (ground (
              arith,
              L.mul_mono (of_ℕ 0) agreed (sub (of_ℕ 1) agreed),
              L.zero_mul (sub (of_ℕ 1) agreed),
              L.sub_nonneg (of_ℕ 1) agreed hi,
            ))
            (pos 255 (omega arith))

  -- The share of agreeing slots is at most one.
  agreed_share-le :
      (row one : List ℕ)
      → length row ≡ Native.permutations
      → le (agreed_share N row one) (of_ℕ 1) ≡ true
  agreed_share-le row one e =
      L.div-le-one (of_ℕ (agreements row one)) (of_ℕ Native.permutations) (pos 255 (omega arith)) (
        L.of_ℕ_mono (agreements row one) Native.permutations (omega (arith, agreements-le row one)))

  pub chance_removed : le (sub (of_ℕ 1) (floor N)) (of_ℕ 0) ≡ false
  chance_removed = L.sub_pos (of_ℕ 1) (floor N) (
      L.div-lt-one (of_ℕ 1) (of_ℕ 4) (pos 3 (omega arith))
        (L.of_ℕ_strict 1 4 (omega arith) (omega arith)))

  pub score_row-margin :
      (row : List ℕ) (a : F) (one : List ℕ) (b : F)
      → length row ≡ Native.permutations
      → le (of_ℕ 0) (score_row N row a one b).1 ≡ true
  unfolding score_row
  score_row-margin row a one b e =
      let agreed = agreed_share N row one in
      let margin = div (wilson_margin N agreed) (sub (of_ℕ 1) (floor N)) in
      let margin_nonneg : le (of_ℕ 0) margin ≡ true =
        L.div_nonneg _ _
          (wilson_margin_nonneg agreed (share (agreements row one) 255 (omega arith))
            (agreed_share-le row one e))
          chance_removed in
      ground (
        arith,
        L.mul_mono (of_ℕ 0) margin (of_ℕ 100) (nonneg 100) margin_nonneg,
        L.zero_mul (of_ℕ 100),
      )

-- ===== src/Cli/Cross/Pairs.antt =====
-- The pairs that `_run_cross` of src/eous/cli.py scores in a group.
use eous.Prelude.{
  ℕ, suc, ◌+◌, ◌*◌, ◌≡◌, refl, sym, ap, ap₂, ◌∙◌, true, List, [], ◌∷◌, ◌++◌, map, length, arith,
  All, Option, none, some, length-append, length-map,
}
use eous.Prelude.Text.{Text, text_eq, text_eq_iff}
use eous.Prelude.Outcome.{ok, raise}
use eous.Prelude.Float.{Float}
use eous.Digest.Slots.{unpack, unpack_all}
use eous.Digest.Score.{score, cardinalities, scored, compare}
use eous.Cli.Cross.{Member, Pair, pairs_with, group_pairs}

-- Every two of some members, in their order.
abbrev pub combinations : List Member → List (Member × Member)
combinations [] = []
combinations (m ∷ ms) = map (λ (r : Member). (m, r)) ms ++ combinations ms

combinations_count :
    (ms : List Member) → 2 * length (combinations ms) + length ms ≡ length ms * length ms
combinations_count [] = omega arith
combinations_count (m ∷ ms) = omega (
  arith,
  combinations_count ms,
  length-append (map (λ (r : Member). (m, r)) ms) (combinations ms),
  length-map {B = Member × Member} (λ r. (m, r)) ms,
  square (length ms),
)
  where
    square : (n : ℕ) → suc n * suc n ≡ n * n + 2 * n + 1
    square n = grind arith

map-append {ℓ κ} :
    {A : Type ℓ} {B : Type κ} (f : A → B) (xs ys : List A) → map f (xs ++ ys) ≡ map f xs ++ map f ys
map-append f [] ys = refl
map-append f (x ∷ xs) ys = ap (◌∷◌ (f x)) (map-append f xs ys)

module _ (N : Float) where
  -- The pair of two members by `compare`.
  abbrev pub compared : Member × Member → Option (Pair N)
  compared (m, r) = elim (compare N r.sketch m.sketch) [
    | ok scores ↦ some (record {
      left = m.label;
      right = r.label;
      score = scores.similarity;
      margin = scores.uncertainty;
    })
    | raise e ↦ none
  ]

  abbrev pub OfTarget : Text → Member → Type 0
  OfTarget target m = m.sketch.target ≡ target

  abbrev pair_for : Member → Member → Pair N
  pair_for m r = record {
    left = m.label;
    right = r.label;
    score = (scored N r.sketch m.sketch).similarity;
    margin = (scored N r.sketch m.sketch).uncertainty;
  }

  pairs_with-compared :
      (target : Text) (m : Member) (rest : List Member)
      → OfTarget target m
      → All (OfTarget target) rest
      → map some (
          pairs_with N m.label
            (score N
              (unpack_all (map (λ (r : Member). r.sketch) rest))
              (cardinalities N (map (λ (r : Member). r.sketch) rest))
              (unpack m.sketch)
              m.sketch.cardinality)
            rest)
        ≡ map compared (map (λ (r : Member). (m, r)) rest)
  unfolding score unpack_all cardinalities scored compare
  pairs_with-compared target m [] h k = refl
  pairs_with-compared target m (r ∷ rest) h k =
      let same : text_eq r.sketch.target m.sketch.target ≡ true =
        (text_eq_iff r.sketch.target m.sketch.target).1 (k.0 ∙ sym h) in
      ap (◌∷◌ (some (pair_for m r))) (pairs_with-compared target m rest h k.1)
      ∙ rw (same, compared) refl

  group_pairs-compared :
      (target : Text) (ms : List Member)
      → All (OfTarget target) ms
      → map some (group_pairs N ms) ≡ map compared (combinations ms)
  unfolding group_pairs
  group_pairs-compared target [] h = refl
  group_pairs-compared target (m ∷ ms) h =
      map-append some (pairs_with N m.label _ ms) (group_pairs N ms)
      ∙ ap₂ ◌++◌ (pairs_with-compared target m ms h.0 h.1) (group_pairs-compared target ms h.1)
      ∙ sym (map-append compared (map (λ (r : Member). (m, r)) ms) (combinations ms))

  -- In a group of one target, the pairs that cross scores are every two of its digests, in their
  -- order and each once, with the figures that `compare` gives for them.
  pub group_pairs-compare :
      (target : Text) (ms : List Member)
      → All (OfTarget target) ms
      → (map some (group_pairs N ms) ≡ map compared (combinations ms))
        × (2 * length (group_pairs N ms) + length ms ≡ length ms * length ms)
  group_pairs-compare target ms h =
      let same = group_pairs-compared target ms h in
      (
        same,
        omega (
          arith,
          combinations_count ms,
          ap length same,
          length-map {B = Option (Pair N)} some (group_pairs N ms),
          length-map {B = Option (Pair N)} compared (combinations ms),
        ),
      )

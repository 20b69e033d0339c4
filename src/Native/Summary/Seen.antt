-- ===== src/Native/Summary/Seen.antt =====
-- The array `seen` of `digest_of` in native/src/lib.rs.
use eous.Prelude.{
  ℕ, zero, suc, ◌^◌, ◌≤◌, ◌<◌, ◌≡◌, refl, sym, ap, ◌∙◌, ◌↔◌, inl, inr, Bool, true, false, ◌&&◌,
  ◌||◌, none, List, [], ◌∷◌, arith, ltb, leb, ◌==◌, ltb→lt, lt→ltb, leb→le, Bool-cases, length,
  replicate, set, length-set,
}
use eous.Prelude.Text.{Text}
use eous.Native.Vocabulary.{root_bits}
use eous.Native.Shingles.Compact.{mem}
use eous.Native.Sketch.{Hash}
use eous.Native.Summary.{all_root_ids, mark, found_count, distinct_roots, summary}

-- Whether an entry is set.
abbrev is_set : List Bool → ℕ → Bool
is_set [] i = false
is_set (b ∷ seen) zero = b
is_set (b ∷ seen) (suc i) = is_set seen i

is_set-set :
    (seen : List Bool) (id i : ℕ)
    → is_set (set seen id true) i ≡ (i == id && ltb i (length seen)) || is_set seen i
is_set-set [] id i = ground arith
is_set-set (b ∷ seen) zero zero = ground arith
is_set-set (b ∷ seen) zero (suc i) = ground arith
is_set-set (b ∷ seen) (suc id) zero = ground arith
is_set-set (b ∷ seen) (suc id) (suc i) = ground (arith, is_set-set seen id i)

is_set-mark :
    (seen : List Bool) (ids : List ℕ) (i : ℕ)
    → i < length seen
    → is_set (mark seen ids) i ≡ mem i ids || is_set seen i
unfolding mark mem
is_set-mark seen [] i h = refl
is_set-mark seen (id ∷ ids) i h = ground (
  arith,
  is_set-mark (set seen id true) ids i (omega (arith, length-set seen id true, h)),
  is_set-set seen id i,
)

length-mark : (seen : List Bool) (ids : List ℕ) → length (mark seen ids) ≡ length seen
unfolding mark
length-mark seen [] = refl
length-mark seen (id ∷ ids) = length-mark (set seen id true) ids ∙ length-set seen id true

is_set-short : (seen : List Bool) (i : ℕ) → is_set seen i ≡ true → i < length seen
is_set-short [] i h = cc
is_set-short (b ∷ seen) zero h = omega arith
is_set-short (b ∷ seen) (suc i) h = omega (arith, is_set-short seen i h)

is_set-replicate : (n i : ℕ) → is_set (replicate n false) i ≡ false
is_set-replicate zero i = refl
is_set-replicate (suc n) zero = refl
is_set-replicate (suc n) (suc i) = is_set-replicate n i

-- An entry that is set is counted, and two are.
counted_one : (seen : List Bool) (i : ℕ) → is_set seen i ≡ true → 1 ≤ found_count seen
counted_one [] i h = cc
counted_one (b ∷ seen) zero h = ground (arith, h)
counted_one (b ∷ seen) (suc i) h = ground (arith, counted_one seen i h)

few_same :
    (seen : List Bool) (i j : ℕ)
    → found_count seen < 2
    → is_set seen i ≡ true
    → is_set seen j ≡ true
    → i ≡ j
few_same [] i j few h k = cc
few_same (b ∷ seen) zero zero few h k = refl
few_same (b ∷ seen) zero (suc j) few h k = absurd (ground (arith, h, few, counted_one seen j k))
few_same (b ∷ seen) (suc i) zero few h k = absurd (ground (arith, k, few, counted_one seen i h))
few_same (b ∷ seen) (suc i) (suc j) few h k = ap suc (few_same seen i j (ground (arith, few)) h k)

one_counted : (seen : List Bool) → 1 ≤ found_count seen → (i : ℕ) × (is_set seen i ≡ true)
one_counted [] h = absurd (omega arith)
one_counted (true ∷ seen) h = (0, refl)
one_counted (false ∷ seen) h = let (i, k) = one_counted seen h in (suc i, k)

same_few :
    (seen : List Bool)
    → ((i j : ℕ) → is_set seen i ≡ true → is_set seen j ≡ true → i ≡ j)
    → found_count seen < 2
same_few [] same = omega arith
same_few (false ∷ seen) same = same_few seen (λ i j h k. omega (arith, same (suc i) (suc j) h k))
same_few (true ∷ seen) same = elim (Bool-cases (leb 1 (found_count seen))) [
  | inl e ↦
      let (i, k) = one_counted seen (leb→le 1 _ e) in absurd (omega (arith, same 0 (suc i) refl k))
  | inr e ↦ ground (arith, e)
]

-- The root ids fit the array.
all_root_ids-short : (keys : List ℕ) (i : ℕ) → mem i (all_root_ids keys) ≡ true → i < 2 ^ root_bits
unfolding all_root_ids mem
all_root_ids-short [] i h = absurd (ground (arith, h))
all_root_ids-short (key ∷ keys) i h = ground (arith, all_root_ids-short keys i, h)

marked-mem :
    (keys : List ℕ) (i : ℕ)
    → is_set (mark (replicate (2 ^ root_bits) false) (all_root_ids keys)) i
      ≡ mem i (all_root_ids keys)
marked-mem keys i = elim (Bool-cases (ltb i (2 ^ root_bits))) [
  | inl e ↦ inside (ltb→lt i _ e)
  | inr e ↦ outside (ground (arith, e))
]
  where
    seen : List Bool
    seen = replicate (2 ^ root_bits) false

    inside :
        i < 2 ^ root_bits → is_set (mark seen (all_root_ids keys)) i ≡ mem i (all_root_ids keys)
    inside h =
        ground (arith, is_set-mark seen (all_root_ids keys) i h, is_set-replicate (2 ^ root_bits) i)

    outside :
        2 ^ root_bits ≤ i → is_set (mark seen (all_root_ids keys)) i ≡ mem i (all_root_ids keys)
    outside h = elim (Bool-cases (is_set (mark seen (all_root_ids keys)) i)) [
      | inl e ↦ absurd (
          omega (
            arith,
            h,
            is_set-short (mark seen (all_root_ids keys)) i e,
            length-mark seen (all_root_ids keys),
          ))
      | inr e ↦ elim (Bool-cases (mem i (all_root_ids keys))) [
        | inl f ↦ absurd (omega (arith, h, all_root_ids-short keys i f))
        | inr f ↦ e ∙ sym f
      ]
    ]

-- Keys have no summary exactly where all their root ids are one.
pub summary-none_iff :
    (h64 : Hash) (names : List Text) (keys : List ℕ)
    → (summary h64 names keys ≡ none)
      ↔ ((i j : ℕ) → mem i (all_root_ids keys) ≡ true → mem j (all_root_ids keys) ≡ true → i ≡ j)
unfolding summary distinct_roots
summary-none_iff h64 names keys = (
  λ e i j h k.
      few_same seen i j (ltb→lt _ 2 (counted e)) (marked-mem keys i ∙ h) (marked-mem keys j ∙ k),
  λ same.
      let few =
        same_few seen
          (λ i j h k. same i j (sym (marked-mem keys i) ∙ h) (sym (marked-mem keys j) ∙ k)) in
      rw (lt→ltb _ 2 few, summary) refl,
)
  where
    seen : List Bool
    seen = mark (replicate (2 ^ root_bits) false) (all_root_ids keys)

    counted : summary h64 names keys ≡ none → ltb (distinct_roots keys) 2 ≡ true
    counted e = elim (Bool-cases (ltb (distinct_roots keys) 2)) [
      | inl f ↦ f
      | inr f ↦ absurd (some≢none e f)
    ]
      where
        some≢none : summary h64 names keys ≡ none → ltb (distinct_roots keys) 2 ≡ false → ⊥
        some≢none e f = ground (arith, e, f)

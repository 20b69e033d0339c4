-- ===== src/Native/Shingles/Compact.antt =====
-- The compaction of `Shingles` in native/src/lib.rs: it keeps the keys, each once.
use eous.Prelude.{
  ℕ, ◌<◌, ◌≡◌, ◌∙◌, refl, ap, sym, subst, Bool, true, false, ◌||◌, List, [], ◌∷◌, ◌++◌, ◌==◌, leb,
  arith, All, All-map, Bool-cases, inl, inr,
}
use eous.Prelude.Sort.{sorted, insert, IsSorted, sorted-IsSorted}
use eous.Native.Shingles.{dedup_from, dedup, compact}

-- Whether a key is among some keys.
unfoldable pub mem : ℕ → List ℕ → Bool
mem k [] = false
mem k (x ∷ xs) = k == x || mem k xs

pub mem-append : (k : ℕ) (xs ys : List ℕ) → mem k (xs ++ ys) ≡ mem k xs || mem k ys
unfolding mem
mem-append k [] ys = refl
mem-append k (x ∷ xs) ys = ground (arith, mem-append k xs ys)

mem-insert : (k x : ℕ) (xs : List ℕ) → mem k (insert leb x xs) ≡ k == x || mem k xs
unfolding mem insert
mem-insert k x [] = refl
mem-insert k x (y ∷ ys) = ground (arith, mem-insert k x ys)

mem-sorted : (k : ℕ) (xs : List ℕ) → mem k (sorted leb xs) ≡ mem k xs
unfolding mem sorted
mem-sorted k [] = refl
mem-sorted k (x ∷ xs) = mem-insert k x (sorted leb xs) ∙ ap (λ b. k == x || b) (mem-sorted k xs)

mem-dedup_from : (k x : ℕ) (xs : List ℕ) → k == x || mem k (dedup_from x xs) ≡ k == x || mem k xs
unfolding mem dedup_from
mem-dedup_from k x [] = refl
mem-dedup_from k x (y ∷ ys) = ground (arith, mem-dedup_from k x ys, mem-dedup_from k y ys)

mem-dedup : (k : ℕ) (xs : List ℕ) → mem k (dedup xs) ≡ mem k xs
unfolding mem dedup
mem-dedup k [] = refl
mem-dedup k (x ∷ xs) = mem-dedup_from k x xs

pub mem-compact : (k : ℕ) (xs : List ℕ) → mem k (compact xs) ≡ mem k xs
mem-compact k xs = mem-dedup k (sorted leb xs) ∙ mem-sorted k xs

-- Each element less than all that follow it.
abbrev pub Increases : List ℕ → Type 0
Increases [] = Unit
Increases (x ∷ xs) = All (λ y. x < y) xs × Increases xs

dedup_from_same : (x y : ℕ) (ys : List ℕ) → x == y ≡ true → dedup_from x (y ∷ ys) ≡ dedup_from x ys
unfolding dedup_from
dedup_from_same x y ys e = rw (e, dedup_from) refl

dedup_from_other :
    (x y : ℕ) (ys : List ℕ) → x == y ≡ false → dedup_from x (y ∷ ys) ≡ y ∷ dedup_from y ys
unfolding dedup_from
dedup_from_other x y ys e = rw (e, dedup_from) refl

-- An increasing list above an element.
abbrev Above : ℕ → List ℕ → Type 0
Above x xs = All (λ y. x < y) xs × Increases xs

dedup_from-Above :
    (x : ℕ) (ys : List ℕ)
    → All (λ y. leb x y ≡ true) ys
    → IsSorted leb ys
    → Above x (dedup_from x ys)
unfolding dedup_from
dedup_from-Above x [] h s = (tt, tt)
dedup_from-Above x (y ∷ ys) (le, h) (below, s) = elim (Bool-cases (x == y)) [
  | inl e ↦ subst (Above x) (sym (dedup_from_same x y ys e)) (dedup_from-Above x ys h s)
  | inr e ↦
      let (above, rest) = dedup_from-Above y ys below s in
      let less : x < y = ground (arith, le, e) in
      subst (Above x) (sym (dedup_from_other x y ys e))
        ((less, All-map (dedup_from y ys) (λ z m. omega (arith, less, m)) above), (above, rest))
]

dedup-Increases : (ys : List ℕ) → IsSorted leb ys → Increases (dedup ys)
unfolding dedup
dedup-Increases [] s = tt
dedup-Increases (y ∷ ys) (below, s) = dedup_from-Above y ys below s

pub compact-Increases : (xs : List ℕ) → Increases (compact xs)
compact-Increases xs =
    dedup-Increases (sorted leb xs)
      (sorted-IsSorted leb (λ m n. ground arith) (λ l m n h k. ground arith) xs)

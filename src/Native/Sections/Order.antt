-- ===== src/Native/Sections/Order.antt =====
-- The sections of `digest_of` in native/src/lib.rs in another order.
use eous.Prelude.{
  ℕ, ◌^◌, ◌≤◌, ◌<◌, ◌≡◌, refl, sym, ap, ap₂, ◌∙◌, subst, inl, inr, Bool, true, false, ◌||◌, some,
  List, [], ◌∷◌, arith, ltb, ◌==◌, ltb→lt, Bool-cases, All, All-map,
}
use mathlib.Core.List.{Perm, foldr}
use mathlib.Core.List.Perm
use mathlib.Core.Bool.{true, Bool-set}
use eous.Native.Disassemble.{Decoder, Advances}
use eous.Native.Sections.{
  some, ap, ◌∷◌, ◌^◌, false, ◌∙◌, ◌<◌, ◌≡◌, All, Bool, List, ℕ, keys_of, in_any, in_section,
  keys_of-sections,
}
use eous.Native.Shingles.Compact.{mem, Increases}

in_any-foldr :
    (decode : Decoder) (bitness : ℕ) (ids : List ℕ) (k : ℕ) (sections : List (List ℕ))
    → in_any decode bitness ids k sections
      ≡ foldr (λ code b. in_section decode bitness ids k code || b) false sections
unfolding in_any
in_any-foldr decode bitness ids k [] = refl
in_any-foldr decode bitness ids k (code ∷ sections) =
    ap (λ b. in_section decode bitness ids k code || b) (in_any-foldr decode bitness ids k sections)

or_swap : (a b c : Bool) → (a || (b || c)) ≡ (b || (a || c))
or_swap a b c = ground arith

in_any-Perm :
    (decode : Decoder) (bitness : ℕ) (ids : List ℕ) (k : ℕ) (first second : List (List ℕ))
    → Perm first second
    → in_any decode bitness ids k first ≡ in_any decode bitness ids k second
in_any-Perm decode bitness ids k first second p =
    in_any-foldr decode bitness ids k first
    ∙ Perm.foldr-eq Bool-set (λ code b. in_section decode bitness ids k code || b)
        (λ a b x. or_swap (in_section decode bitness ids k a) (in_section decode bitness ids k b) x)
        p false
    ∙ sym (in_any-foldr decode bitness ids k second)

-- What is not below all elements is not an element.
below_not_mem : (k : ℕ) (xs : List ℕ) → All (λ y. k < y) xs → mem k xs ≡ false
unfolding mem
below_not_mem k [] h = refl
below_not_mem k (x ∷ xs) h = ground (arith, below_not_mem k xs h.1)

mem_head : (x : ℕ) (xs : List ℕ) → mem x (x ∷ xs) ≡ true
unfolding mem
mem_head x xs = ground arith

-- Where two increasing lists have the same elements, the first of one is not less than that of the other.
not_less :
    (x y : ℕ) (xs ys : List ℕ)
    → All (λ z. y < z) ys
    → ((k : ℕ) → mem k (x ∷ xs) ≡ mem k (y ∷ ys))
    → y ≤ x
not_less x y xs ys above same = elim (Bool-cases (ltb x y)) [
  | inr e ↦ ground (arith, e)
  | inl e ↦
      let less = ltb→lt x y e in
      let gone =
        below_not_mem x (y ∷ ys) (less, All-map ys (λ z h. omega (arith, h, less)) above) in
      cc (mem_head x xs, same x, gone)
]

-- The elements behind the first.
tail_same :
    (x : ℕ) (xs ys : List ℕ)
    → All (λ z. x < z) xs
    → All (λ z. x < z) ys
    → ((k : ℕ) → mem k (x ∷ xs) ≡ mem k (x ∷ ys))
    → (k : ℕ) → mem k xs ≡ mem k ys
unfolding mem
tail_same x xs ys above above' same k = elim (Bool-cases (k == x)) [
  | inl e ↦
      let there : x ≡ k = ground (arith, e) in
      subst (λ n. mem n xs ≡ mem n ys) there
        (below_not_mem x xs above ∙ sym (below_not_mem x ys above'))
  | inr e ↦ rw e at (same k)
]

-- Two increasing lists with the same elements are the same.
Increases-eq :
    (xs ys : List ℕ) → Increases xs → Increases ys → ((k : ℕ) → mem k xs ≡ mem k ys) → xs ≡ ys
unfolding mem
Increases-eq [] [] h h' same = refl
Increases-eq [] (y ∷ ys) h h' same = absurd (ground (arith, same y))
Increases-eq (x ∷ xs) [] h h' same = absurd (ground (arith, same x))
Increases-eq (x ∷ xs) (y ∷ ys) (above, h) (above', h') same =
    let equal : x ≡ y =
      omega (arith, not_less x y xs ys above' same, not_less y x ys xs above (λ k. sym (same k))) in
    let above_x = subst (λ n. All (λ z. n < z) ys) (sym equal) above' in
    ap₂ ◌∷◌ equal (
      Increases-eq xs ys h h' (
        tail_same x xs ys above above_x
          (λ k. subst (λ n. mem k (x ∷ xs) ≡ mem k (n ∷ ys)) (sym equal) (same k))))

-- Where a valid instruction has a byte or more and the ids are below 2^7: the order of the sections does
-- not change the keys.
pub keys_of-Perm :
    (decode : Decoder) (bitness : ℕ) (ids : List ℕ)
    → Advances decode
    → All (λ id. id < 2 ^ 7) ids
    → (first second : List (List ℕ)) → Perm first second
    → keys_of decode bitness ids first ≡ keys_of decode bitness ids second
keys_of-Perm decode bitness ids advances small first second p =
    let (keys, e, increases, same) = keys_of-sections decode bitness ids advances small first in
    let (keys', e', increases', same') =
      keys_of-sections decode bitness ids advances small second in
    e
    ∙ ap some (
        Increases-eq keys keys' increases increases'
          (λ k. same k ∙ in_any-Perm decode bitness ids k first second p ∙ sym (same' k)))
    ∙ sym e'

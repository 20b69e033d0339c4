-- ===== src/Native/Permute.antt =====
-- native/src/lib.rs: the permutations of a sketch, `permute` and `coefficients`, on 64 and 128 bits. A
-- mask by MODULUS is written as a remainder by 2^61. The hash `h64`, of a key and a person, is a
-- parameter, as are its payloads.
use native.Mathlib.Nat.{mul-le-mul_right}
use eous.Prelude.{
  ℕ, ◌+◌, ◌-◌, ◌*◌, ◌/◌, ◌%◌, ◌^◌, ◌<◌, ◌≡◌, refl, ◌∙◌, leb, if◌then◌else◌, arith, List, [], ◌∷◌,
  min, map,
}

abbrev pub modulus : ℕ
modulus = 2 ^ 61 - 1

-- `as u64`, and `+` of two such, which wraps as a release build does.
abbrev pub as_u64 : ℕ → ℕ
as_u64 n = n % 2 ^ 64

-- `& MODULUS`
abbrev pub masked : ℕ → ℕ
masked n = n % 2 ^ 61

unfoldable pub permute : ℕ → ℕ → ℕ → ℕ
permute multiplier offset value =
    let product = (multiplier * value + offset) % 2 ^ 128 in
    let folded = as_u64 (masked (as_u64 product) + as_u64 (product / 2 ^ 61)) in
    let reduced = as_u64 (masked folded + folded / 2 ^ 61) in
    if leb modulus reduced then reduced - modulus else reduced

-- The coefficients of one permutation, of the two hashes that it takes.
pub record Coefficient : Type 0 where
  pub multiplier : ℕ
  pub offset : ℕ

unfoldable pub coefficient : ℕ → ℕ → Coefficient
coefficient first second = record {
  multiplier = first % (modulus - 1) + 1;
  offset = second % modulus;
}

-- One slot of a sketch, over the hashes of the keys.
unfoldable pub smallest : Coefficient → List ℕ → ℕ → ℕ
smallest c [] slot = slot
smallest c (hash ∷ hashes) slot =
    smallest c hashes (min slot (permute c.multiplier c.offset (hash % modulus)))

reduce_lem :
    (p : ℕ)
    → p < 2 ^ 122
    → let folded = as_u64 (masked (as_u64 (p % 2 ^ 128)) + as_u64 (p % 2 ^ 128 / 2 ^ 61)) in
      let reduced = as_u64 (masked folded + folded / 2 ^ 61) in
      (if leb modulus reduced then reduced - modulus else reduced) ≡ p % modulus
reduce_lem p h = ground arith

product_bound : (a b v : ℕ) → a < modulus → b < modulus → v < modulus → a * v + b < 2 ^ 122
product_bound a b v h k l =
    let first = mul-le-mul_right {m = a} {n = modulus - 1} v (omega arith) in omega (arith, first)

-- No step of a permutation wraps in a way that shows: with the multiplier, the offset and the value
-- below 2^61 - 1, it is the multiplication and addition modulo 2^61 - 1.
permute-eq :
    (a b v : ℕ) → a < modulus → b < modulus → v < modulus → permute a b v ≡ (a * v + b) % modulus
unfolding permute
permute-eq a b v h k l = reduce_lem (a * v + b) (product_bound a b v h k l)

-- The least of some numbers and a bound.
abbrev pub least : List ℕ → ℕ → ℕ
least [] bound = bound
least (n ∷ ns) bound = min n (least ns bound)

least-min : (ns : List ℕ) (a b : ℕ) → least ns (min a b) ≡ min b (least ns a)
least-min [] a b = ground arith
least-min (n ∷ ns) a b = ground (arith, least-min ns a b)

-- The permutation of a hash modulo 2^61 - 1, for the two hashes that it is made of.
abbrev pub permuted : ℕ → ℕ → ℕ → ℕ
permuted first second hash =
    ((first % (modulus - 1) + 1) * (hash % modulus) + second % modulus) % modulus

smallest-least_from :
    (first second : ℕ) (hashes : List ℕ) (slot : ℕ)
    → smallest (coefficient first second) hashes slot
      ≡ least (map (permuted first second) hashes) slot
unfolding smallest coefficient
smallest-least_from first second [] slot = refl
smallest-least_from first second (hash ∷ hashes) slot =
    let same =
      permute-eq (first % (modulus - 1) + 1) (second % modulus) (hash % modulus) (omega arith)
        (omega arith) (omega arith) in
    rw same (
      smallest-least_from first second hashes (min slot (permuted first second hash))
      ∙ least-min (map (permuted first second) hashes) slot (permuted first second hash))

-- Whatever two hashes a permutation is made of, and whatever the hashes of the keys are: no step of
-- the permutation wraps in a way that shows, and its slot is the least value of the multiplication and
-- addition modulo 2^61 - 1 over the keys, or 2^61 - 1 where there are none.
pub smallest-least :
    (first second : ℕ) (hashes : List ℕ)
    → smallest (coefficient first second) hashes modulus
      ≡ least (map (permuted first second) hashes) modulus
smallest-least first second hashes = smallest-least_from first second hashes modulus

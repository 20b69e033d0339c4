-- ===== src/Native/Sketch/Slots.antt =====
-- `sketch` of native/src/lib.rs: the slots that the loops over the keys and the coefficients leave.
use eous.Prelude.{
  ℕ, zero, suc, ◌%◌, min, ◌≡◌, refl, sym, ap, ap₂, ◌∙◌, List, [], ◌∷◌, map, length, replicate,
  length-map,
}
use eous.Native
use eous.Prelude.Text.{Text}
use eous.Native.Permute.{Coefficient, permute, modulus, smallest, least, permuted, smallest-least}
use eous.Native.Sketch.{
  Hash, payload, shingle_person, permutation_person, indices, to_be_bytes, coefficient_at,
  coefficients, lower, lower_all, slots_of,
}

-- The hash of a key.
abbrev pub hash_of : Hash → List Text → ℕ → ℕ
hash_of h64 names key = h64 (payload names key) shingle_person

lower-map :
    (h64 : Hash) (cs : List Coefficient) (value : ℕ) (slot : Coefficient → ℕ)
    → lower h64 cs value (map slot cs)
      ≡ map (λ c. min (slot c) (permute c.multiplier c.offset value)) cs
unfolding lower
lower-map h64 [] value slot = refl
lower-map h64 (c ∷ cs) value slot =
    ap (λ ss. min (slot c) (permute c.multiplier c.offset value) ∷ ss) (lower-map h64 cs value slot)

-- The loop over the keys is, for each slot, a loop over their hashes.
lower_all-map :
    (h64 : Hash) (names : List Text) (cs : List Coefficient) (keys : List ℕ)
    (slot : Coefficient → ℕ)
    → lower_all h64 names cs keys (map slot cs)
      ≡ map (λ c. smallest c (map (hash_of h64 names) keys) (slot c)) cs
unfolding lower_all smallest
lower_all-map h64 names cs [] slot = refl
lower_all-map h64 names cs (key ∷ keys) slot =
    ap (lower_all h64 names cs keys) (lower-map h64 cs (hash_of h64 names key % modulus) slot)
    ∙ lower_all-map h64 names cs keys
        (λ c. min (slot c) (permute c.multiplier c.offset (hash_of h64 names key % modulus)))

map-const : (cs : List Coefficient) (n : ℕ) → map (λ _. n) cs ≡ replicate (length cs) n
map-const [] n = refl
map-const (c ∷ cs) n = ap (◌∷◌ n) (map-const cs n)

length-indices : (i n : ℕ) → length (indices i n) ≡ n
unfolding indices
length-indices i zero = refl
length-indices i (suc n) = ap suc (length-indices (suc i) n)

length-coefficients : (h64 : Hash) → length (coefficients h64) ≡ Native.permutations
unfolding coefficients
length-coefficients h64 =
    length-map (coefficient_at h64) (indices 0 Native.permutations)
    ∙ length-indices 0 Native.permutations

-- The least value of the permutation of an index over the hashes of the keys, or 2^61 - 1.
abbrev pub least_of : Hash → List Text → List ℕ → ℕ → ℕ
least_of h64 names keys index =
    least
      (map
        (permuted (h64 (b'a' ∷ to_be_bytes index) permutation_person)
          (h64 (b'b' ∷ to_be_bytes index) permutation_person))
        (map (hash_of h64 names) keys))
      modulus

coefficients-least :
    (h64 : Hash) (names : List Text) (keys is : List ℕ)
    → map (λ c. smallest c (map (hash_of h64 names) keys) modulus) (map (coefficient_at h64) is)
      ≡ map (least_of h64 names keys) is
unfolding coefficient_at
coefficients-least h64 names keys [] = refl
coefficients-least h64 names keys (i ∷ is) =
    ap₂ ◌∷◌
      (smallest-least (h64 (b'a' ∷ to_be_bytes i) permutation_person)
        (h64 (b'b' ∷ to_be_bytes i) permutation_person) (map (hash_of h64 names) keys))
      (coefficients-least h64 names keys is)

-- Slot by slot: the least value over the keys, of the permutation of the slot's index.
pub slots_of-least :
    (h64 : Hash) (names : List Text) (keys : List ℕ)
    → slots_of h64 names keys ≡ map (least_of h64 names keys) (indices 0 Native.permutations)
unfolding slots_of coefficients
slots_of-least h64 names keys =
    ap (lower_all h64 names (coefficients h64) keys) (
      ap (λ n. replicate n modulus) (sym (length-coefficients h64))
      ∙ sym (map-const (coefficients h64) modulus))
    ∙ lower_all-map h64 names (coefficients h64) keys (λ _. modulus)
    ∙ coefficients-least h64 names keys (indices 0 Native.permutations)

pub length-slots_of :
    (h64 : Hash) (names : List Text) (keys : List ℕ)
    → length (slots_of h64 names keys) ≡ Native.permutations
length-slots_of h64 names keys =
    ap length (slots_of-least h64 names keys)
    ∙ length-map (least_of h64 names keys) (indices 0 Native.permutations)
    ∙ length-indices 0 Native.permutations

-- ===== src/Prelude/Text/Digits.antt =====
-- Numbers as digits in a base: `int(s, 16)` reads them, `int.to_bytes` writes them.
use native.Mathlib.Nat.{
  pow-zero, pow-suc, div-lt_iff_lt-mul, div-add-mod', mul-le-mul_right, div-one, div-div-eq-div-mul,
  pow-succ', mul-add-div_right, div-eq_of_lt,
}
use eous.Prelude.{
  get_elem?, some, ℕ, zero, suc, ◌+◌, ◌*◌, ◌/◌, ◌%◌, ◌^◌, ◌≤◌, ◌<◌, ◌≡◌, ◌∙◌, ap, List, [], ◌∷◌,
  arith, length, All, refl, sym, ap₂,
}

-- The number that digits spell behind those already read.
unfoldable pub read_digits : ℕ → ℕ → List ℕ → ℕ
read_digits base acc [] = acc
read_digits base acc (d ∷ ds) = read_digits base (acc * base + d) ds

-- The last `count` digits of a number, in front of those already written.
unfoldable pub write_digits : ℕ → ℕ → ℕ → List ℕ → List ℕ
write_digits base zero n out = out
write_digits base (suc count) n out = write_digits base count (n / base) (n % base ∷ out)

pub length-write_digits :
    (base count n : ℕ) (out : List ℕ) → length (write_digits base count n out) ≡ count + length out
unfolding write_digits
length-write_digits base zero n out = omega arith
length-write_digits base (suc count) n out =
    omega (arith, length-write_digits base count (n / base) (n % base ∷ out))

pub write_digits-below :
    (base count n : ℕ) (out : List ℕ)
    → 0 < base
    → All (λ d. d < base) out
    → All (λ d. d < base) (write_digits base count n out)
unfolding write_digits
write_digits-below base zero n out pos h = h
write_digits-below base (suc count) n out pos h =
    write_digits-below base count (n / base) (n % base ∷ out) pos (omega arith, h)

pub read_digits-write_digits :
    (base count n a : ℕ) (out : List ℕ)
    → 0 < base
    → n < base ^ count
    → read_digits base a (write_digits base count n out)
      ≡ read_digits base (a * base ^ count + n) out
unfolding read_digits write_digits
read_digits-write_digits base zero n a out pos h = ap (λ k. read_digits base k out) unshifted
  where
    unshifted : a ≡ a * base ^ 0 + n
    unshifted = let small : n < 1 = rw pow-zero at h in rw pow-zero (omega arith)
read_digits-write_digits base (suc count) n a out pos h =
    read_digits-write_digits base count (n / base) a (n % base ∷ out) pos quotient_small
    ∙ ap (λ k. read_digits base k out) shifted
  where
    quotient_small : n / base < base ^ count
    quotient_small = (div-lt_iff_lt-mul pos).1 (rw (← pow-suc) h)

    shifted : (a * base ^ count + n / base) * base + n % base ≡ a * base ^ suc count + n
    shifted = rw pow-suc (omega (arith, div-add-mod' n base))

pub read_digits-lt :
    (base acc : ℕ) (ds : List ℕ)
    → All (λ d. d < base) ds
    → read_digits base acc ds < (acc + 1) * base ^ length ds
unfolding read_digits
read_digits-lt base acc [] h = rw pow-zero (omega arith)
read_digits-lt base acc (d ∷ ds) h = rw pow-suc (
    omega (
      arith,
      read_digits-lt base (acc * base + d) ds h.1,
      mul-le-mul_right (base ^ length ds) room,
    ))
  where
    room : acc * base + d + 1 ≤ (acc + 1) * base
    room = omega (arith, h.0)

-- Behind the written digits stand those that were there.
get_elem?-write_digits_behind :
    (base count n j : ℕ) (out : List ℕ)
    → get_elem? (write_digits base count n out) (count + j) ≡ get_elem? out j
unfolding write_digits
get_elem?-write_digits_behind base zero n j out = ap (get_elem? out) (omega arith)
get_elem?-write_digits_behind base (suc count) n j out =
    ap (get_elem? (write_digits base count (n / base) (n % base ∷ out)))
      (let shift : suc count + j ≡ count + suc j = omega arith in shift)
    ∙ get_elem?-write_digits_behind base count (n / base) (suc j) (n % base ∷ out)

-- The digit that stands `place` places from the right.
pub get_elem?-write_digits :
    (base count n i place : ℕ) (out : List ℕ)
    → i + suc place ≡ count
    → get_elem? (write_digits base count n out) i ≡ some (n / base ^ place % base)
unfolding write_digits
get_elem?-write_digits base zero n i place out e = absurd (omega arith)
get_elem?-write_digits base (suc count) n i zero out e =
    ap (get_elem? (write_digits base count (n / base) (n % base ∷ out)))
      (let last : i ≡ count + 0 = omega arith in last)
    ∙ get_elem?-write_digits_behind base count (n / base) 0 (n % base ∷ out)
    ∙ rw (pow-zero, div-one)
get_elem?-write_digits base (suc count) n i (suc place) out e =
    get_elem?-write_digits base count (n / base) i place (n % base ∷ out) (omega arith)
    ∙ ap (λ k. some (k % base)) (div-div-eq-div-mul n base (base ^ place) ∙ rw (pow-succ'))

-- A digit behind a number is parted from it again.
last_digit-injective :
    (base a d a' d' : ℕ)
    → d < base
    → d' < base
    → a * base + d ≡ a' * base + d'
    → (a ≡ a') × (d ≡ d')
last_digit-injective base a d a' d' h h' e =
    let front : (b c : ℕ) → c < base → (b * base + c) / base ≡ b = λ b c k. omega (
      arith,
      mul-add-div_right {m = base} (omega (arith, k)) b c,
      div-eq_of_lt {n = c} {m = base} k,
    ) in
    let same : a ≡ a' = sym (front a d h) ∙ ap (λ n. n / base) e ∙ front a' d' h' in
    (same, omega (arith, ap (λ n. n * base) same, e))

-- Digits are told from the number that they spell.
read_digits-injective :
    (base a a' : ℕ) (ds es : List ℕ)
    → All (λ d. d < base) ds
    → All (λ d. d < base) es
    → length ds ≡ length es
    → read_digits base a ds ≡ read_digits base a' es
    → (a ≡ a') × (ds ≡ es)
unfolding read_digits
read_digits-injective base a a' [] [] h k l e = (e, refl)
read_digits-injective base a a' [] (x ∷ es) h k l e = absurd (omega (arith, l))
read_digits-injective base a a' (d ∷ ds) [] h k l e = absurd (omega (arith, l))
read_digits-injective base a a' (d ∷ ds) (x ∷ es) h k l e =
    let (front, same) =
      read_digits-injective base (a * base + d) (a' * base + x) ds es h.1 k.1 (omega (arith, l))
        e in
    let (numbers, digits) = last_digit-injective base a d a' x h.0 k.0 front in
    (numbers, ap₂ ◌∷◌ digits same)

-- Writing the number that digits spell gives the digits.
pub write_digits-read_digits :
    (base : ℕ) (ds : List ℕ)
    → 0 < base
    → All (λ d. d < base) ds
    → write_digits base (length ds) (read_digits base 0 ds) [] ≡ ds
write_digits-read_digits base ds pos h =
    let n = read_digits base 0 ds in
    let fits : n < base ^ length ds = omega (arith, read_digits-lt base 0 ds h) in
    let reads : read_digits base 0 (write_digits base (length ds) n []) ≡ n =
      read_digits-write_digits base (length ds) n 0 [] pos fits
      ∙ unfold read_digits in omega arith in
    (read_digits-injective base 0 0 (write_digits base (length ds) n []) ds
      (write_digits-below base (length ds) n [] pos tt) h
      (omega (arith, length-write_digits base (length ds) n [])) reads).1

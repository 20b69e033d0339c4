-- ===== src/Digest/Slots.antt =====
-- src/eous/digest.py: `unpack`, `unpack_all` and `cardinalities`. A sketch that `parse` returned
-- fits `to_bytes`, so its OverflowError does not arise; `& MASK` is written as the remainder.
use eous.Digest.Accepts.{IsValid}
use mathlib.Core.List.{flatten}
use eous.Prelude.{
  ℕ, zero, suc, ◌+◌, ◌-◌, ◌*◌, ◌/◌, ◌%◌, ◌^◌, List, [], ◌∷◌, map, length, ◌≡◌, ◌++◌, refl, ◌∙◌, ap,
  arith, get_elem?, some, All, ◌<◌,
}
use eous.Prelude.Text.{
  write_digits, read_digits, length-write_digits, write_digits-below, read_digits-write_digits,
  get_elem?-write_digits,
}
use eous.Native
use eous.Digest.{Sketch, sketch_bytes, mask}

-- `range(n)`, from `i` on.
range_from : ℕ → ℕ → List ℕ
range_from i zero = []
range_from i (suc n) = i ∷ range_from (suc i) n

-- One column: the slot at the same place of every byte.
column : List ℕ → ℕ → List ℕ
column raw place = map (λ byte. byte / 2 ^ (8 - Native.slot_bits * (place + 1)) % (mask + 1)) raw

-- Each entry in front of its row.
cons_rows : List ℕ → List (List ℕ) → List (List ℕ)
cons_rows [] rows = []
cons_rows (x ∷ xs) [] = []
cons_rows (x ∷ xs) (row ∷ rows) = (x ∷ row) ∷ cons_rows xs rows

empty_rows : ℕ → List (List ℕ)
empty_rows zero = []
empty_rows (suc n) = [] ∷ empty_rows n

-- `numpy.stack(columns, axis=1)`
stack_columns : ℕ → List (List ℕ) → List (List ℕ)
stack_columns height [] = empty_rows height
stack_columns height (c ∷ cs) = cons_rows c (stack_columns height cs)

-- `reshape(-1)` reads the rows one behind the other.
unfoldable pub unpack : Sketch → List ℕ
unfolding range_from column cons_rows empty_rows stack_columns flatten write_digits
unpack sketch =
    let raw = write_digits 256 sketch_bytes sketch.slots [] in
    flatten (stack_columns (length raw) (map (column raw) (range_from 0 (8 / Native.slot_bits))))

unfoldable pub unpack_all : List Sketch → List (List ℕ)
unpack_all sketches = map unpack sketches

-- The four slots of a byte.
quad : ℕ → List ℕ
quad b = b / 64 % 4 ∷ b / 16 % 4 ∷ b / 4 % 4 ∷ b % 4 ∷ []

quads : List ℕ → List ℕ
quads [] = []
quads (b ∷ raw) = quad b ++ quads raw

places : List ℕ
places = 0 ∷ 1 ∷ 2 ∷ 3 ∷ []

flatten-stack_columns :
    (raw : List ℕ) → flatten (stack_columns (length raw) (map (column raw) places)) ≡ quads raw
unfolding column cons_rows empty_rows stack_columns flatten quads quad places
flatten-stack_columns [] = refl
flatten-stack_columns (b ∷ raw) = ground (arith, flatten-stack_columns raw)

-- Four times a number, as `write_digits` counts.
fourfold : ℕ → ℕ
fourfold zero = zero
fourfold (suc n) = suc (suc (suc (suc (fourfold n))))

quads-write_digits :
    (count n : ℕ) (out : List ℕ)
    → quads (write_digits 256 count n out) ≡ write_digits 4 (fourfold count) n (quads out)
unfolding write_digits fourfold quads
quads-write_digits zero n out = refl
quads-write_digits (suc count) n out =
    quads-write_digits count (n / 256) (n % 256 ∷ out) ∙ ground (arith, quad_digits)
  where
    quad_digits :
        quad (n % 256) ++ quads out
        ≡ n / 4 / 4 / 4 % 4 ∷ n / 4 / 4 % 4 ∷ n / 4 % 4 ∷ n % 4 ∷ quads out
    quad_digits = unfold quad in ground arith

-- The 256 slots are the digits of the number in base four.
pub unpack-write_digits :
    (s : Sketch) → unpack s ≡ write_digits (mask + 1) Native.permutations s.slots []
unfolding unpack fourfold places
unpack-write_digits s =
    flatten-stack_columns (write_digits 256 sketch_bytes s.slots [])
    ∙ quads-write_digits sketch_bytes s.slots []
    ∙ unfold quads in refl

-- Unpacking recovers every slot: slot `i` of 256 holds the two bits that stand `255 - i` slots from
-- the right of the number.
unpack-slot :
    (s : Sketch) (i place : ℕ)
    → i + suc place ≡ Native.permutations
    → get_elem? (unpack s) i ≡ some (s.slots / 4 ^ place % 4)
unpack-slot s i place e =
    ap (λ slots. get_elem? slots i) (unpack-write_digits s)
    ∙ get_elem?-write_digits 4 Native.permutations s.slots i place [] e

pub length-unpack : (s : Sketch) → length (unpack s) ≡ Native.permutations
length-unpack s =
    ap length (unpack-write_digits s) ∙ length-write_digits 4 Native.permutations s.slots []

unpack-below : (s : Sketch) → All (λ slot. slot < mask + 1) (unpack s)
unpack-below s =
    rw unpack-write_digits (write_digits-below 4 Native.permutations s.slots [] (omega arith) tt)

-- Read as a number in base 4, the slots of a valid sketch give its number.
read_digits-unpack : (s : Sketch) → IsValid s → read_digits (mask + 1) 0 (unpack s) ≡ s.slots
read_digits-unpack s v =
    ap (read_digits 4 0) (unpack-write_digits s)
    ∙ read_digits-write_digits 4 Native.permutations s.slots 0 [] (omega arith) v.fits
    ∙ unfold read_digits in omega arith

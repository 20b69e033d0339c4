-- ===== src/Loader/Entropy.antt =====
-- src/eous/loader.py: `data_entropy`. It counts the bytes in chunks.
use native.Mathlib.Nat.{lt-mul-div-succ}
use eous.Prelude.{
  ℕ, zero, suc, ◌+◌, ◌-◌, ◌*◌, ◌^◌, ◌≤◌, ◌<◌, ◌≡◌, refl, sym, ap, ◌∙◌, List, [], ◌∷◌, ◌++◌, map,
  arith, ltb, ◌==◌, if◌then◌else◌, length, drop, filter, take-append-drop, drop-drop, drop_all,
}
use eous.Prelude.Float.{Float}
use eous.Loader.{Bytes}
use eous.Loader.PeSections.{range_length, slice}

abbrev pub entropy_chunk : ℕ
entropy_chunk = 2 ^ 20

-- How often a value stands in the data.
unfoldable pub count : ℕ → Bytes → ℕ
count v [] = 0
count v (b ∷ bs) = if b == v then suc (count v bs) else count v bs

unfoldable pub values_from : ℕ → ℕ → List ℕ
values_from v zero = []
values_from v (suc n) = v ∷ values_from (suc v) n

abbrev pub byte_values : List ℕ
byte_values = values_from 0 256

-- `numpy.bincount(view, minlength=256)` of bytes.
abbrev pub bincount : Bytes → List ℕ
bincount view = map (λ v. count v view) byte_values

-- `counts += …`
unfoldable pub add_counts : List ℕ → List ℕ → List ℕ
add_counts (m ∷ ms) (n ∷ ns) = (m + n) ∷ add_counts ms ns
add_counts _ _ = []

-- The loop over `range(0, view.size, chunk)`, with the rounds that are left.
unfoldable pub count_chunks : ℕ → Bytes → ℕ → ℕ → List ℕ → List ℕ
count_chunks chunk view zero start counts = counts
count_chunks chunk view (suc rounds) start counts =
    count_chunks chunk view rounds (start + chunk)
      (add_counts counts (bincount (slice view start chunk)))

abbrev pub zeros : List ℕ
zeros = map (λ v. 0) byte_values

-- The counts of the loop.
unfoldable pub chunked_counts : ℕ → Bytes → List ℕ
chunked_counts chunk view = count_chunks chunk view (range_length 0 (length view) chunk) 0 zeros

module _ (N : Float) where
  open N use {F, of_ℕ, mul, div, neg, log2, sum}

  -- `-numpy.sum(share * numpy.log2(share))` for the counts of `size` bytes.
  abbrev pub entropy_of : ℕ → List ℕ → F
  entropy_of size counts =
      let share = map (λ n. div (of_ℕ n) (of_ℕ size)) (filter (λ n. ltb 0 n) counts) in
      neg (sum (map (λ s. mul s (log2 s)) share))

  unfoldable pub data_entropy : Bytes → F
  data_entropy [] = of_ℕ 0
  data_entropy (b ∷ bs) = entropy_of (length (b ∷ bs)) (chunked_counts entropy_chunk (b ∷ bs))

count-append : (v : ℕ) (xs ys : Bytes) → count v (xs ++ ys) ≡ count v xs + count v ys
unfolding count
count-append v [] ys = omega arith
count-append v (x ∷ xs) ys = ground (arith, count-append v xs ys)

add_counts-map :
    (vs : List ℕ) (f g : ℕ → ℕ) → add_counts (map f vs) (map g vs) ≡ map (λ v. f v + g v) vs
unfolding add_counts
add_counts-map [] f g = refl
add_counts-map (v ∷ vs) f g = ap (◌∷◌ (f v + g v)) (add_counts-map vs f g)

map-cong : (vs : List ℕ) (f g : ℕ → ℕ) → ((v : ℕ) → f v ≡ g v) → map f vs ≡ map g vs
map-cong [] f g h = refl
map-cong (v ∷ vs) f g h = ground (arith, h v, map-cong vs f g h)

-- Counting on from `start` adds what lies behind it.
count_chunks-eq :
    (chunk : ℕ) (view : Bytes) (rounds start : ℕ) (seen : ℕ → ℕ)
    → 0 < chunk
    → length view ≤ start + chunk * rounds
    → count_chunks chunk view rounds start (map seen byte_values)
      ≡ map (λ v. seen v + count v (drop start view)) byte_values
unfolding count_chunks
count_chunks-eq chunk view zero start seen pos covered =
    map-cong byte_values seen _
      (λ v. rw (drop_all start view (omega arith)) (unfold count in omega arith))
count_chunks-eq chunk view (suc rounds) start seen pos covered =
    ap (count_chunks chunk view rounds (start + chunk)) (add_counts-map byte_values seen _)
    ∙ count_chunks-eq chunk view rounds (start + chunk)
        (λ v. seen v + count v (slice view start chunk)) pos (omega arith)
    ∙ map-cong byte_values _ _ (λ v. omega (arith, split_count v))
  where
    split_count :
        (v : ℕ)
        → count v (drop start view)
          ≡ count v (slice view start chunk) + count v (drop (start + chunk) view)
    split_count v =
        ap (count v) (sym (take-append-drop chunk (drop start view)))
        ∙ count-append v (slice view start chunk) (drop chunk (drop start view))
        ∙ ap (λ rest. count v (slice view start chunk) + count v rest) (drop-drop chunk start view)

rounds_cover : (size chunk : ℕ) → 0 < chunk → size ≤ 0 + chunk * range_length 0 size chunk
rounds_cover size chunk pos = omega (arith, lt-mul-div-succ (size - 0 + (chunk - 1)) pos)

-- The chunks do not matter: the counts are those of the whole data.
pub chunked_counts-eq :
    (chunk : ℕ) (view : Bytes) → 0 < chunk → chunked_counts chunk view ≡ bincount view
unfolding chunked_counts
chunked_counts-eq chunk view pos =
    count_chunks-eq chunk view (range_length 0 (length view) chunk) 0 (λ v. 0) pos
      (rounds_cover (length view) chunk pos)
    ∙ map-cong byte_values _ _ (λ v. omega arith)

module _ (N : Float) where
  open N use {F, of_ℕ}

  -- The entropy is that of the histogram of the whole data, and 0 for no data.
  pub data_entropy-eq :
      (content : Bytes)
      → data_entropy N content
        ≡ (if length content == 0 then of_ℕ 0 else entropy_of N (length content) (bincount content))
  unfolding data_entropy
  data_entropy-eq [] = refl
  data_entropy-eq (b ∷ bs) =
      ap (entropy_of N (length (b ∷ bs))) (chunked_counts-eq entropy_chunk (b ∷ bs) (omega arith))
      ∙ ground arith

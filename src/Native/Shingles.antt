-- ===== src/Native/Shingles.antt =====
-- native/src/lib.rs: `Shingles`. A mask is written as a remainder, and `filled` does not get to 2^64.
-- `sort_unstable` is the stable sort, which differs for equal keys only.
pub mod Compact
pub mod Windows
use eous.Prelude.{
  ℕ, zero, suc, ◌+◌, ◌*◌, ◌%◌, ◌^◌, ◌<◌, Bool, true, false, List, [], ◌∷◌, ◌++◌, ◌==◌, leb, length,
  max, if◌then◌else◌,
}
use Prim.Native.Nat.{bit_or}
use eous.Prelude.Sort.{sorted}

abbrev pub ngram : ℕ
ngram = 3

abbrev pub compact_floor : ℕ
compact_floor = 2 ^ 22

pub record Shingles : Type 0 where
  pub key : ℕ
  pub filled : ℕ
  pub keys : List ℕ
  pub compact_at : ℕ

abbrev pub new : Shingles
new = record { key = 0; filled = 0; keys = []; compact_at = compact_floor }

-- The key with one more root, and without its oldest.
abbrev pub shift : ℕ → ℕ → ℕ
shift key root = bit_or (key * 2 ^ 7 % 2 ^ 64) root % 2 ^ 21

-- `Vec::dedup`, behind an element that stays.
unfoldable pub dedup_from : ℕ → List ℕ → List ℕ
dedup_from x [] = []
dedup_from x (y ∷ ys) = elim (x == y) [ true ↦ dedup_from x ys | false ↦ y ∷ dedup_from y ys ]

unfoldable pub dedup : List ℕ → List ℕ
dedup [] = []
dedup (x ∷ xs) = x ∷ dedup_from x xs

-- `compact`, of the keys.
abbrev pub compact : List ℕ → List ℕ
compact keys = dedup (sorted leb keys)

-- The compaction behind the push of a key.
unfoldable pub compact_full : Shingles → Shingles
compact_full s =
    if leb s.compact_at (length s.keys)
    then (record s {
      keys = compact s.keys;
      compact_at = max (length (compact s.keys) * 2) compact_floor;
    })
    else s

unfoldable pub push : ℕ → Shingles → Shingles
push root s =
    let key = shift s.key root in
    if leb ngram (suc s.filled)
    then compact_full (record s { key = key; filled = suc s.filled; keys = s.keys ++ key ∷ [] })
    else record s { key = key; filled = suc s.filled }

abbrev pub end_run : Shingles → Shingles
end_run s = record s { filled = 0 }

unfoldable pub finish : Shingles → List ℕ
finish s = compact s.keys

-- What the disassembly calls.
pub data Event : Type 0 where
  pushes : ℕ → Event
  ends : Event

unfoldable pub feed : List Event → Shingles → Shingles
feed [] s = s
feed (pushes root ∷ events) s = feed events (push root s)
feed (ends ∷ events) s = feed events (end_run s)

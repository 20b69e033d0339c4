-- ===== src/Native/Summary.antt =====
-- native/src/lib.rs: what `digest_of` makes of the keys of the sections.
pub mod Seen
pub mod Order
pub mod Reads
use eous.Prelude.{
  ℕ, zero, suc, ◌+◌, ◌-◌, ◌*◌, ◌/◌, ◌%◌, ◌^◌, ◌≤◌, ◌<◌, min, ◌≡◌, refl, sym, ap, ap₂, ◌∙◌, subst,
  ◌↔◌, ◌⊎◌, inl, inr, Bool, true, false, ◌&&◌, ◌||◌, not, Option, none, some, List, [], ◌∷◌, ◌++◌,
  map, append-nil, append_assoc, arith, ltb, leb, ◌==◌, if◌then◌else◌, ltb→lt, lt→ltb, leb→le,
  Bool-cases, Option-cases, length, get_elem?, replicate, take, drop, All, set, filter, All-append,
  All-map, length-append, length-map, all,
}
use eous.Prelude.Text.{Text}
use eous.Native.Vocabulary.{Vocabulary, root_bits}
use eous.Native.Disassemble.{Decoder}
use eous.Native.Sections.{keys_of}
use eous.Native.Sketch.{Hash, root_ids, sketch}

-- `keys.iter().flat_map(|&key| root_ids(key))`
unfoldable pub all_root_ids : List ℕ → List ℕ
all_root_ids [] = []
all_root_ids (key ∷ keys) = root_ids key ++ all_root_ids keys

-- `for_each(|id| seen[id] = true)`
unfoldable pub mark : List Bool → List ℕ → List Bool
mark seen [] = seen
mark seen (id ∷ ids) = mark (set seen id true) ids

-- `seen.iter().filter(|&&found| found).count()`
abbrev pub found_count : List Bool → ℕ
found_count seen = length (filter (λ found. found) seen)

unfoldable pub distinct_roots : List ℕ → ℕ
distinct_roots keys = found_count (mark (replicate (2 ^ root_bits) false) (all_root_ids keys))

-- The end of `digest_of`: the number of keys and the body, or nothing for fewer than two roots.
unfoldable pub summary : Hash → List Text → List ℕ → Option (ℕ × Text)
summary h64 names keys =
    if ltb (distinct_roots keys) 2 then none else some (length keys, sketch h64 names keys)

abbrev summary_of_found : Hash → List Text → Option (List ℕ) → Option (ℕ × Text)
summary_of_found h64 names none = none
summary_of_found h64 names (some keys) = summary h64 names keys

-- From the sections on. Fuel that runs out, which it does not, would be too little code.
unfoldable pub summarise : Decoder → Vocabulary → Hash → List (List ℕ) → ℕ → Option (ℕ × Text)
summarise decode v h64 sections bitness =
    summary_of_found h64 v.names (keys_of decode bitness v.ids sections)

-- ===== src/Native/Sections/Keys.antt =====
-- The keys of the sections in native/src/lib.rs: their size, and the names of their root ids.
use eous.Prelude.{
  ℕ, suc, ◌+◌, ◌/◌, ◌%◌, ◌^◌, ◌≤◌, ◌<◌, ◌≡◌, sym, ◌∙◌, subst, inl, inr, true, Option, some, List,
  [], ◌∷◌, map, arith, ◌==◌, Bool-cases, length, get_elem?, All, All-map,
}
use eous.Prelude.Text.{Text}
use eous.Native.Shingles.{Event, pushes, ends}
use eous.Native.Shingles.Compact.{mem, Increases}
use eous.Native.Shingles.Windows.{Recent, windows, fresh, one, two, IsBelow, packed}
use eous.Native.Vocabulary.{
  Vocabulary, vocabulary, vocabulary-IsVocabulary, get_elem?-bound, root_of, root_bits,
}
use eous.Native.Disassemble.{Decoder, Advances}
use eous.Native.Disassemble.Ids.{all_events-All}
use eous.Native.Disassemble.Events.{all_events}
use eous.Native.Sections.{keys_of, keys_of-sections, all_events-in_any}
use eous.Native.Sketch.{root_ids}

-- A key of three ids that are below a number.
pub record IsKey (n k : ℕ) : Type 0 where
  pub short : k < 2 ^ 21
  pub named : All (λ id. id < n) (root_ids k)

-- The ids of the roots of a run so far.
abbrev IsRecent : ℕ → Recent → Type 0
IsRecent n fresh = Unit
IsRecent n (one a) = a < n
IsRecent n (two a b) = (a < n) × (b < n)

packed-IsKey : (n a b c : ℕ) → n ≤ 2 ^ 7 → a < n → b < n → c < n → IsKey n (packed a b c)
packed-IsKey n a b c few h k l = record {
  short = omega (arith, few, h, k, l);
  named = (
    let first : packed a b c / 2 ^ 14 % 2 ^ 7 ≡ a = omega (arith, few, h, k, l) in
        omega (arith, first, h),
    (
      let second : packed a b c / 2 ^ 7 % 2 ^ 7 ≡ b = omega (arith, few, h, k, l) in
          omega (arith, second, k),
      (
        let third : packed a b c % 2 ^ 7 ≡ c = omega (arith, few, h, k, l) in
            omega (arith, third, l),
        tt,
      ),
    ),
  );
}

windows-IsKey :
    (n : ℕ) (recent : Recent) (events : List Event)
    → n ≤ 2 ^ 7
    → IsRecent n recent
    → All (IsBelow n) events
    → All (IsKey n) (windows recent events)
unfolding windows
windows-IsKey n fresh [] few r h = tt
windows-IsKey n (one a) [] few r h = tt
windows-IsKey n (two a b) [] few r h = tt
windows-IsKey n fresh (ends ∷ events) few r h = windows-IsKey n fresh events few tt h.1
windows-IsKey n (one a) (ends ∷ events) few r h = windows-IsKey n fresh events few tt h.1
windows-IsKey n (two a b) (ends ∷ events) few r h = windows-IsKey n fresh events few tt h.1
windows-IsKey n fresh (pushes c ∷ events) few r h = windows-IsKey n (one c) events few h.0 h.1
windows-IsKey n (one a) (pushes c ∷ events) few r h =
    windows-IsKey n (two a c) events few (r, h.0) h.1
windows-IsKey n (two a b) (pushes c ∷ events) few (s, t) h =
    (packed-IsKey n a b c few s t h.0, windows-IsKey n (two b c) events few (t, h.0) h.1)

mem-All : (P : ℕ → Type 0) (k : ℕ) (xs : List ℕ) → All P xs → mem k xs ≡ true → P k
unfolding mem
mem-All P k [] h m = absurd (ground (arith, m))
mem-All P k (x ∷ xs) h m = elim (Bool-cases (k == x)) [
  | inl e ↦ let same : x ≡ k = ground (arith, e) in subst P same h.0
  | inr e ↦ mem-All P k xs h.1 (rw e at m)
]

All-mem : {P : ℕ → Type 0} (xs : List ℕ) → ((k : ℕ) → mem k xs ≡ true → P k) → All P xs
unfolding mem
All-mem [] h = tt
All-mem (x ∷ xs) h = (h x (ground arith), All-mem xs (λ k m. h k (ground (arith, m))))

named-below :
    (names roots : List Text) (ids : List ℕ)
    → map (get_elem? names) ids ≡ map some roots
    → All (λ id. id < length names) ids
named-below names roots [] e = tt
named-below names [] (id ∷ ids) e = cc
named-below names (root ∷ roots) (id ∷ ids) e =
    (get_elem?-bound names id root cc, named-below names roots ids cc)

-- The ids of the vocabulary of some mnemonics, of which there is one.
pub ids-below :
    (table : Text → Option Text) (mnemonic : Text) (mnemonics : List Text) (v : Vocabulary)
    → vocabulary table (mnemonic ∷ mnemonics) ≡ some v
    → All (λ id. id < length v.names) v.ids
      × (0 < length v.names)
      × (length v.names ≤ 2 ^ root_bits)
ids-below table mnemonic mnemonics v e =
    let is = vocabulary-IsVocabulary table (mnemonic ∷ mnemonics) v e in
    let below = named-below v.names (map (root_of table) (mnemonic ∷ mnemonics)) v.ids is.named in
    (below, nonempty v.ids is.named below, is.small)
  where
    nonempty :
        (ids : List ℕ)
        → map (get_elem? v.names) ids ≡ map some (map (root_of table) (mnemonic ∷ mnemonics))
        → All (λ id. id < length v.names) ids
        → 0 < length v.names
    nonempty [] e h = cc
    nonempty (id ∷ ids) e h = omega (arith, h.0)

-- An increasing list between two bounds is not longer than their distance.
Increases-length :
    (m n : ℕ) (xs : List ℕ)
    → m ≤ n
    → All (λ x. m ≤ x) xs
    → All (λ x. x < n) xs
    → Increases xs
    → length xs + m ≤ n
Increases-length m n [] le h k i = omega (arith, le)
Increases-length m n (x ∷ xs) le h k i =
    let rest =
      Increases-length (suc x) n xs (omega (arith, k.0)) (All-map xs (λ y l. omega (arith, l)) i.0)
        k.1 i.1 in
    omega (arith, rest, h.0)

-- Where a valid instruction has a byte or more and the vocabulary is made of the mnemonics: the loops
-- over the sections and their bytes end, there are at most 2^21 keys, in strictly increasing order,
-- and each root id of a key has a name.
pub keys_of-named :
    (table : Text → Option Text) (mnemonic : Text) (mnemonics : List Text) (v : Vocabulary)
    → vocabulary table (mnemonic ∷ mnemonics) ≡ some v
    → (decode : Decoder) → Advances decode
    → (bitness : ℕ) (sections : List (List ℕ))
    → (keys : List ℕ) × (keys_of decode bitness v.ids sections ≡ some keys)
      × (length keys ≤ 2 ^ 21)
      × Increases keys
      × All (λ key. All (λ id. id < length v.names) (root_ids key)) keys
keys_of-named table mnemonic mnemonics v e decode advances bitness sections =
    let (below, nonempty, few) = ids-below table mnemonic mnemonics v e in
    let n = length v.names in
    let (keys, f, increases, same) =
      keys_of-sections decode bitness v.ids advances
        (All-map v.ids (λ id h. omega (arith, h, few)) below) sections in
    let known =
      windows-IsKey n fresh (all_events decode bitness v.ids sections) few tt
        (all_events-All decode bitness v.ids n nonempty below sections) in
    let found : All (IsKey n) keys = All-mem keys (λ k m.
      mem-All (IsKey n) k (windows fresh (all_events decode bitness v.ids sections)) known
        (all_events-in_any decode bitness v.ids k sections ∙ sym (same k) ∙ m)) in
    let short : All (λ key. key < 2 ^ 21) keys = All-map keys (λ k h. h.short) found in
    (
      keys,
      f,
      omega (
        arith,
        Increases-length 0 (2 ^ 21) keys (omega arith) (All-map keys (λ x h. omega arith) short)
            short increases,
      ),
      increases,
      All-map keys (λ k h. h.named) found,
    )

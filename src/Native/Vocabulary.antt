-- ===== src/Native/Vocabulary.antt =====
-- native/src/lib.rs: `vocabulary`. The table of roots and the names of the mnemonics are parameters.
use eous.Prelude.{
  ℕ, zero, suc, ◌%◌, ◌<◌, ◌≤◌, ◌^◌, ◌≡◌, ◌∙◌, refl, ap, sym, true, false, List, [], ◌∷◌, ◌++◌, map,
  Option, none, some, leb, length, get_elem?, arith, if◌then◌else◌, append_assoc, Bool-cases,
  Option-cases, append-nil, ap₂, subst, leb→le, inl, inr,
}
use eous.Prelude.Text.{Text, codes, text_eq, text_eq→eq, text_eq_iff}

abbrev pub oov : Text
oov = codes "<oov>"

abbrev pub root_bits : ℕ
root_bits = 7

-- The distinct roots, and for each mnemonic the place of its root among them.
pub record Vocabulary : Type 0 where
  pub names : List Text
  pub ids : List ℕ

-- `names.iter().position(|known| known == root)`
unfoldable pub position : Text → List Text → Option ℕ
position root [] = none
position root (name ∷ names) = elim (text_eq name root) [
  | true ↦ some 0
  | false ↦ elim (position root names) [ none ↦ none | some id ↦ some (suc id) ]
]

abbrev interned : List Text → Text → Option ℕ → ℕ × List Text
interned names root (some id) = (id, names)
interned names root none = (length names, names ++ root ∷ [])

-- The id of a root, and the names then.
unfoldable pub intern : Text → List Text → ℕ × List Text
intern root names = interned names root (position root names)

-- The loop over the roots of the mnemonics, from some names on. An id is made an `u8`.
unfoldable pub collect : List Text → List Text → Vocabulary
collect [] names = record { names = names; ids = [] }
collect (root ∷ roots) names =
    let (id, more) = intern root names in
    let rest = collect roots more in record { names = rest.names; ids = id % 2 ^ 8 ∷ rest.ids }

-- `table.get(&mnemonic_name(mnemonic)).map_or(OOV, String::as_str)`
abbrev pub root_of : (Text → Option Text) → Text → Text
root_of table mnemonic = elim (table mnemonic) [ none ↦ oov | some root ↦ root ]

-- `vocabulary`, or nothing where its assertion fails.
unfoldable pub vocabulary : (Text → Option Text) → List Text → Option Vocabulary
vocabulary table mnemonics =
    let v = collect (map (root_of table) mnemonics) [] in
    if leb (length v.names) (2 ^ root_bits) then some v else none

-- Names that are listed once each.
abbrev pub Distinct : List Text → Type 0
Distinct [] = Unit
Distinct (name ∷ names) = (position name names ≡ none) × Distinct names

position-eq :
    (root : Text) (names : List Text) (id : ℕ)
    → position root names ≡ some id
    → get_elem? names id ≡ some root
unfolding position
position-eq root [] id e = cc
position-eq root (name ∷ names) zero e = ground (arith, text_eq→eq name root)
position-eq root (name ∷ names) (suc id) e = ground (arith, position-eq root names id)

get_elem?-front :
    (names more : List Text) (id : ℕ) (root : Text)
    → get_elem? names id ≡ some root
    → get_elem? (names ++ more) id ≡ some root
get_elem?-front [] more id root h = cc
get_elem?-front (name ∷ names) more zero root h = h
get_elem?-front (name ∷ names) more (suc id) root h = get_elem?-front names more id root h

get_elem?-last :
    (names : List Text) (root : Text) → get_elem? (names ++ root ∷ []) (length names) ≡ some root
get_elem?-last [] root = refl
get_elem?-last (name ∷ names) root = get_elem?-last names root

pub get_elem?-bound :
    (names : List Text) (id : ℕ) (root : Text) → get_elem? names id ≡ some root → id < length names
get_elem?-bound [] id root h = cc
get_elem?-bound (name ∷ names) zero root h = omega arith
get_elem?-bound (name ∷ names) (suc id) root h = omega (arith, get_elem?-bound names id root h)

position_none-append :
    (root other : Text) (names : List Text)
    → position other names ≡ none
    → text_eq root other ≡ false
    → position other (names ++ root ∷ []) ≡ none
unfolding position
position_none-append root other [] h e = rw (e, position) refl
position_none-append root other (name ∷ names) h e =
    ground (arith, position_none-append root other names)

append-Distinct :
    (root : Text) (names : List Text)
    → position root names ≡ none
    → Distinct names
    → Distinct (names ++ root ∷ [])
unfolding position
append-Distinct root [] h d = (refl, tt)
append-Distinct root (name ∷ names) h (once, d) = elim (Bool-cases (text_eq name root)) [
  | inl e ↦ absurd (ground (arith, e, h))
  | inr e ↦ (
    position_none-append root name names once
        (ground (arith, e, text_eq_iff name root, text_eq_iff root name)),
    append-Distinct root names (ground (arith, e, h)) d,
  )
]

-- What the ids say of the roots: each id is the place of its root among names that are listed once.
pub record IsVocabulary (roots : List Text) (v : Vocabulary) : Type 0 where
  pub named : map (get_elem? v.names) v.ids ≡ map some roots
  pub distinct : Distinct v.names
  pub small : length v.names ≤ 2 ^ root_bits

intern-named :
    (root : Text) (names : List Text)
    → Distinct names
    → let (id, more) = intern root names in
      (get_elem? more id ≡ some root)
      × Distinct more
      × ((added : List Text) × (more ≡ names ++ added))
unfolding intern
intern-named root names d = elim (Option-cases (position root names)) [
  | inl e ↦ rw e (get_elem?-last names root, append-Distinct root names e d, (root ∷ [], refl))
  | inr (id, e) ↦ rw e (position-eq root names id e, d, ([], sym (append-nil names)))
]

collect-named :
    (roots names : List Text)
    → Distinct names
    → let v = collect roots names in
      length v.names ≤ 2 ^ root_bits
      → (map (get_elem? v.names) v.ids ≡ map some roots)
        × Distinct v.names
        × ((added : List Text) × (v.names ≡ names ++ added))
unfolding collect
collect-named [] names d small = (refl, d, ([], sym (append-nil names)))
collect-named (root ∷ roots) names d small =
    let (here, d', (first, grown)) = intern-named root names d in
    let (named, distinct, (added, same)) = collect-named roots (intern root names).1 d' small in
    let id = (intern root names).0 in
    let final = (collect roots (intern root names).1).names in
    let found : get_elem? final id ≡ some root =
      ap (λ ns. get_elem? ns id) same ∙ get_elem?-front (intern root names).1 added id root here in
    let whole : id % 2 ^ 8 ≡ id = omega (arith, get_elem?-bound final id root found, small) in
    (
      ap₂ ◌∷◌ (ap (get_elem? final) whole ∙ found) named,
      distinct,
      (first ++ added, same ∙ ap (λ ns. ns ++ added) grown ∙ append_assoc names first added),
    )

-- Where the assertion holds, the id of every mnemonic is the place of its root among names that are
-- listed once, of which there are at most 2^7.
pub vocabulary-IsVocabulary :
    (table : Text → Option Text) (mnemonics : List Text) (v : Vocabulary)
    → vocabulary table mnemonics ≡ some v
    → IsVocabulary (map (root_of table) mnemonics) v
unfolding vocabulary
vocabulary-IsVocabulary table mnemonics v e =
    elim (Bool-cases (leb (length made.names) (2 ^ root_bits))) [
      | inl h ↦
          let same : made ≡ v = cc in
          let (named, distinct, grown) =
            collect-named (map (root_of table) mnemonics) [] tt (leb→le _ _ h) in
          subst (IsVocabulary (map (root_of table) mnemonics)) same
            (record { named = named; distinct = distinct; small = leb→le _ _ h })
      | inr h ↦ cc
    ]
  where
    made : Vocabulary
    made = collect (map (root_of table) mnemonics) []

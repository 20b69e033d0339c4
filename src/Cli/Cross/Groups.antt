-- ===== src/Cli/Cross/Groups.antt =====
-- The groups of `_by_target` of src/eous/cli.py.
use eous.Prelude.{
  ℕ, suc, ◌≡◌, refl, sym, ap, ◌∙◌, false, ◌||◌, List, [], ◌∷◌, ◌++◌, append-nil, append_assoc, map,
  filter, length, arith, All, All-map, filter-All, Bool-cases, inl, inr, ltb, if◌then◌else◌,
}
use eous.Prelude.Text.{Text, contains, text_eq, text_eq_iff, text_eq_self}
use eous.Digest.{Sketch}
use eous.Cli.Cross.{Group, add_member, group_from, has_pair, by_target}
use eous.Cli.Expand.{Distinct}

-- The indices of the digests of a target, from an index on.
unfoldable pub indices_of : Text → ℕ → List Sketch → List ℕ
indices_of target index [] = []
indices_of target index (s ∷ sketches) =
    let rest = indices_of target (suc index) sketches in
    if text_eq s.target target then index ∷ rest else rest

-- The rows of a target among some groups.
unfoldable pub rows_in : Text → List Group → List ℕ
rows_in target [] = []
rows_in target ((t, rows) ∷ groups) =
    let rest = rows_in target groups in if text_eq t target then rows else rest

abbrev names : List Group → List Text
names = map (λ (g : Group). g.0)

rows_in-add_member :
    (t target : Text) (index : ℕ) (groups : List Group)
    → rows_in t (add_member target index groups)
      ≡ (if text_eq target t then rows_in t groups ++ index ∷ [] else rows_in t groups)
unfolding rows_in add_member
rows_in-add_member t target index [] = ground arith
rows_in-add_member t target index ((u, rows) ∷ groups) = ground (
  arith,
  rows_in-add_member t target index groups,
  text_eq_iff u target,
  text_eq_iff u t,
  text_eq_iff target t,
)

contains-add_member :
    (t target : Text) (index : ℕ) (groups : List Group)
    → contains (names (add_member target index groups)) t
      ≡ (text_eq target t || contains (names groups) t)
unfolding contains add_member
contains-add_member t target index [] = ground arith
contains-add_member t target index ((u, rows) ∷ groups) = ground (
  arith,
  contains-add_member t target index groups,
  text_eq_iff u target,
  text_eq_iff u t,
  text_eq_iff target t,
)

add_member-Distinct :
    (target : Text) (index : ℕ) (groups : List Group)
    → Distinct (names groups)
    → Distinct (names (add_member target index groups))
unfolding contains add_member
add_member-Distinct target index [] h = (refl, tt)
add_member-Distinct target index ((u, rows) ∷ groups) h = elim (Bool-cases (text_eq u target)) [
  | inl e ↦ rw e h
  | inr e ↦ rw e (
    ground (
      arith,
      contains-add_member u target index groups,
      text_eq_iff u target,
      text_eq_iff target u,
    ),
    add_member-Distinct target index groups h.1,
  )
]

group_from-Distinct :
    (index : ℕ) (sketches : List Sketch) (groups : List Group)
    → Distinct (names groups)
    → Distinct (names (group_from index sketches groups))
unfolding group_from
group_from-Distinct index [] groups h = h
group_from-Distinct index (s ∷ sketches) groups h =
    group_from-Distinct (suc index) sketches (add_member s.target index groups)
      (add_member-Distinct s.target index groups h)

rows_in-group_from :
    (t : Text) (index : ℕ) (sketches : List Sketch) (groups : List Group)
    → rows_in t (group_from index sketches groups) ≡ rows_in t groups ++ indices_of t index sketches
unfolding group_from indices_of
rows_in-group_from t index [] groups = sym (append-nil (rows_in t groups))
rows_in-group_from t index (s ∷ sketches) groups =
    rows_in-group_from t (suc index) sketches (add_member s.target index groups)
    ∙ ap (λ rows. rows ++ indices_of t (suc index) sketches)
        (rows_in-add_member t s.target index groups)
    ∙ elim (Bool-cases (text_eq s.target t)) [
      | inl e ↦
          rw e (append_assoc (rows_in t groups) (index ∷ []) (indices_of t (suc index) sketches))
      | inr e ↦ rw e refl
    ]

-- Each group stands under its own name.
abbrev Named : List Group → Group → Type 0
Named groups g = rows_in g.0 groups ≡ g.1

later-Named :
    (t : Text) (rows : List ℕ) (groups some_groups : List Group)
    → contains (names some_groups) t ≡ false
    → All (Named groups) some_groups
    → All (Named ((t, rows) ∷ groups)) some_groups
unfolding rows_in contains
later-Named t rows groups [] h k = tt
later-Named t rows groups ((u, us) ∷ rest) h k = (
  ground (arith, k.0, text_eq_iff u t, text_eq_iff t u),
  later-Named t rows groups rest (ground arith) k.1,
)

Distinct-Named : (groups : List Group) → Distinct (names groups) → All (Named groups) groups
unfolding rows_in
Distinct-Named [] h = tt
Distinct-Named ((t, rows) ∷ groups) h =
    (rw text_eq_self refl, later-Named t rows groups groups h.0 (Distinct-Named groups h.1))

filter_lacks :
    (t : Text) (groups : List Group)
    → contains (names groups) t ≡ false
    → contains (names (filter has_pair groups)) t ≡ false
unfolding contains
filter_lacks t [] h = refl
filter_lacks t (g ∷ groups) h = ground (arith, filter_lacks t groups)

names-filter :
    (t : Text) (groups : List Group)
    → Distinct (names groups)
    → contains (names (filter has_pair groups)) t ≡ ltb 1 (length (rows_in t groups))
unfolding contains rows_in
names-filter t [] h = refl
names-filter t ((u, rows) ∷ groups) h =
    ground (arith, names-filter t groups h.1, filter_lacks t groups, text_eq_iff u t)

filter-Distinct :
    (groups : List Group) → Distinct (names groups) → Distinct (names (filter has_pair groups))
filter-Distinct [] h = tt
filter-Distinct (g ∷ groups) h = elim (Bool-cases (has_pair g)) [
  | inl e ↦ rw e (filter_lacks g.0 groups h.0, filter-Distinct groups h.1)
  | inr e ↦ rw e (filter-Distinct groups h.1)
]

-- A group of `_by_target` holds the indices of all digests of its target, in their order; there is a
-- group for each target with two digests or more, and for no other target.
pub by_target-eq :
    (sketches : List Sketch)
    → All (λ (g : Group). g.1 ≡ indices_of g.0 0 sketches) (by_target sketches)
      × ((target : Text)
          → contains (map (λ (g : Group). g.0) (by_target sketches)) target
            ≡ ltb 1 (length (indices_of target 0 sketches)))
      × Distinct (map (λ (g : Group). g.0) (by_target sketches))
unfolding by_target rows_in contains
by_target-eq sketches =
    let groups = group_from 0 sketches [] in
    let distinct : Distinct (names groups) = group_from-Distinct 0 sketches [] tt in
    (
      filter-All _ has_pair groups (
          All-map groups (λ g named. sym named ∙ rows_in-group_from g.0 0 sketches [])
            (Distinct-Named groups distinct)),
      λ target.
          names-filter target groups distinct
          ∙ ap (λ rows. ltb 1 (length rows)) (rows_in-group_from target 0 sketches []),
      filter-Distinct groups distinct,
    )

-- ===== src/Cli/Cross/Targets.antt =====
-- The pairs of all groups of `_run_cross` in src/eous/cli.py.
use eous.Prelude.{
  suc, ◌≡◌, refl, sym, ap, ap₂, ◌∙◌, List, [], ◌∷◌, ◌++◌, append_assoc, map, filter, length, arith,
  All, All-map, Bool-cases, inl, inr, length-append,
}
use eous.Prelude.Text.{Text, text_eq}
use eous.Prelude.Outcome.{ok}
use eous.Prelude.Float.{Float}
use eous.Digest.{Sketch}
use eous.Cli.Cross.{Group, by_target, at, pick, Member, members_of, Pair, group_pairs, all_pairs}
use eous.Cli.Cross.Groups.{indices_of, by_target-eq}

at-append {ℓ} :
    {A : Type ℓ} (before : List A) (x : A) (rest : List A)
    → at (before ++ x ∷ rest) (length before) ≡ ok x
unfolding at
at-append [] x rest = refl
at-append (y ∷ before) x rest = at-append before x rest

-- Picking a target's indices from any column of the members.
pick-indices_of {ℓ} :
    {A : Type ℓ} (f : Member → A) (target : Text) (before : List A) (members : List Member)
    → pick
        (before ++ map f members)
        (indices_of target (length before) (map (λ (m : Member). m.sketch) members))
      ≡ ok (map f (filter (λ (m : Member). text_eq m.sketch.target target) members))
unfolding pick indices_of
pick-indices_of f target before [] = refl
pick-indices_of f target before (m ∷ members) =
    let sketches = map (λ (x : Member). x.sketch) members in
    let chosen = filter (λ (x : Member). text_eq x.sketch.target target) members in
    let grown : suc (length before) ≡ length (before ++ f m ∷ []) =
      omega (arith, length-append before (f m ∷ [])) in
    let later : pick (before ++ f m ∷ map f members)
          (indices_of target (suc (length before)) sketches)
        ≡ ok (map f chosen) =
      ap₂ (λ xs index. pick xs (indices_of target index sketches))
        (sym (append_assoc before (f m ∷ []) (map f members))) grown
      ∙ pick-indices_of f target (before ++ f m ∷ []) members in
    elim (Bool-cases (text_eq m.sketch.target target)) [
      | inl e ↦ rw e (rw (at-append before (f m) (map f members)) (rw later refl))
      | inr e ↦ rw e later
    ]

members_of-map :
    (ms : List Member)
    → members_of (map (λ (m : Member). m.label) ms) (map (λ (m : Member). m.sketch) ms) ≡ ms
members_of-map [] = refl
members_of-map (m ∷ ms) = ap (◌∷◌ m) (members_of-map ms)

labels_of-members_of :
    (labels : List Text) (sketches : List Sketch)
    → length labels ≡ length sketches
    → (map (λ (m : Member). m.label) (members_of labels sketches) ≡ labels)
      × (map (λ (m : Member). m.sketch) (members_of labels sketches) ≡ sketches)
labels_of-members_of [] [] h = (refl, refl)
labels_of-members_of [] (s ∷ sketches) h = absurd (omega arith)
labels_of-members_of (l ∷ labels) [] h = absurd (omega arith)
labels_of-members_of (l ∷ labels) (s ∷ sketches) h =
    let (same_labels, same_sketches) = labels_of-members_of labels sketches (omega arith) in
    (ap (◌∷◌ l) same_labels, ap (◌∷◌ s) same_sketches)

module _ (N : Float) where
  abbrev pub of_target : Text → List Member → List Member
  of_target target = filter (λ (m : Member). text_eq m.sketch.target target)

  -- The pairs of the digests of each target that has a group.
  abbrev pub target_pairs : List Member → List Group → List (Text × Pair N)
  target_pairs ms [] = []
  target_pairs ms ((t, rows) ∷ groups) =
      map (λ (pair : Pair N). (t, pair)) (group_pairs N (of_target t ms)) ++ target_pairs ms groups

  all_pairs-target_pairs :
      (ms : List Member) (groups : List Group)
      → All (λ (g : Group). g.1 ≡ indices_of g.0 0 (map (λ (m : Member). m.sketch) ms)) groups
      → all_pairs N (map (λ (m : Member). m.label) ms) (map (λ (m : Member). m.sketch) ms) groups
        ≡ ok (target_pairs ms groups)
  unfolding all_pairs
  all_pairs-target_pairs ms [] h = refl
  all_pairs-target_pairs ms ((t, rows) ∷ groups) h =
      rw
        (ap (pick (map (λ (m : Member). m.label) ms)) h.0
          ∙ pick-indices_of (λ (m : Member). m.label) t [] ms)
        (rw
          (ap (pick (map (λ (m : Member). m.sketch) ms)) h.0
            ∙ pick-indices_of (λ (m : Member). m.sketch) t [] ms)
          (rw (all_pairs-target_pairs ms groups h.1) (rw (members_of-map (of_target t ms)) refl)))

  -- Of digests with their labels, the loops of cross stay in the bounds of the lists and give, for
  -- each target with a group, the pairs of all digests of that target in their order.
  pub all_pairs-by_target :
      (labels : List Text) (sketches : List Sketch)
      → length labels ≡ length sketches
      → all_pairs N labels sketches (by_target sketches)
        ≡ ok (target_pairs (members_of labels sketches) (by_target sketches))
  all_pairs-by_target labels sketches h =
      let (same_labels, same_sketches) = labels_of-members_of labels sketches h in
      let ms = members_of labels sketches in
      ap₂ (λ ls ss. all_pairs N ls ss (by_target sketches)) (sym same_labels) (sym same_sketches)
      ∙ all_pairs-target_pairs ms (by_target sketches) (
          All-map (by_target sketches) (λ g e. e ∙ ap (indices_of g.0 0) (sym same_sketches))
            (by_target-eq sketches).0)

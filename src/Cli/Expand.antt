-- ===== src/Cli/Expand.antt =====
-- src/eous/cli.py: `_expand`. The file system gives the files below a directory and the real path of
-- each file.
use eous.Prelude.{
  Option-cases, ap, ap₂, ◌∙◌, ◌≡◌, refl, Bool, true, false, ◌||◌, List, [], ◌∷◌, ◌++◌, map, Option,
  none, some, arith, Bool-cases, inl, inr,
}
use eous.Prelude.Text.{text_eq, contains, text_eq_iff, text_eq_self}
use eous.Prelude.Sort.{sorted, insert}
use eous.Report.{FilePath}

-- A list of paths without repetition.
abbrev pub Distinct : List FilePath → Type 0
Distinct [] = Unit
Distinct (x ∷ xs) = (contains xs x ≡ false) × Distinct xs

module _ (path_le : FilePath → FilePath → Bool) (walk : FilePath → Option (List FilePath))
    (real : FilePath → FilePath) where
  -- `walked`: the files below a directory in their order, or the path itself.
  abbrev pub walked : FilePath → List FilePath
  walked path = elim (walk path) [ none ↦ path ∷ [] | some files ↦ sorted path_le files ]

  abbrev pub candidates : List FilePath → List FilePath
  candidates [] = []
  candidates (path ∷ paths) = walked path ++ candidates paths

  -- The loop over the candidates, with the real paths that were seen.
  unfoldable pub unseen : List FilePath → List FilePath → List FilePath
  unseen seen [] = []
  unseen seen (candidate ∷ rest) = elim (contains seen (real candidate)) [
    | true ↦ unseen seen rest
    | false ↦ candidate ∷ unseen (real candidate ∷ seen) rest
  ]

  unfoldable pub expand : List FilePath → List FilePath
  expand paths = unseen [] (candidates paths)

  unseen-contains :
      (seen rest : List FilePath) (path : FilePath)
      → contains seen path ≡ true
      → contains (map real (unseen seen rest)) path ≡ false
  unfolding unseen contains
  unseen-contains seen [] path h = refl
  unseen-contains seen (c ∷ rest) path h = ground (
    arith,
    unseen-contains seen rest path h,
    unseen-contains (real c ∷ seen) rest path,
    text_eq_iff (real c) path,
  )

  unseen-Distinct : (seen rest : List FilePath) → Distinct (map real (unseen seen rest))
  unfolding unseen contains
  unseen-Distinct seen [] = tt
  unseen-Distinct seen (c ∷ rest) = elim (Bool-cases (contains seen (real c))) [
    | inl e ↦ rw (e, unseen) (unseen-Distinct seen rest)
    | inr e ↦
        rw (e, unseen)
          (
            unseen-contains (real c ∷ seen) rest (real c) (ground (arith, text_eq_self (real c))),
            unseen-Distinct (real c ∷ seen) rest,
          )
  ]

  -- Whether a file is the real file of a path, or of a file below it if that is a directory.
  abbrev pub names : FilePath → FilePath → Bool
  names path file = elim (walk path) [
    | none ↦ text_eq (real path) file
    | some files ↦ contains (map real files) file
  ]

  -- Whether a file is named by one of the paths.
  abbrev pub any_names : List FilePath → FilePath → Bool
  any_names [] file = false
  any_names (path ∷ paths) file = names path file || any_names paths file

  contains-insert :
      (x : FilePath) (xs : List FilePath) (file : FilePath)
      → contains (map real (insert path_le x xs)) file ≡ contains (map real (x ∷ xs)) file
  unfolding insert contains
  contains-insert x [] file = refl
  contains-insert x (y ∷ ys) file = ground (arith, contains-insert x ys file)

  -- Sorting keeps the files.
  contains-sorted :
      (xs : List FilePath) (file : FilePath)
      → contains (map real (sorted path_le xs)) file ≡ contains (map real xs) file
  unfolding sorted contains
  contains-sorted [] file = refl
  contains-sorted (x ∷ xs) file =
      contains-insert x (sorted path_le xs) file
      ∙ ap (λ found. text_eq (real x) file || found) (contains-sorted xs file)

  contains-append :
      (xs ys : List FilePath) (file : FilePath)
      → contains (map real (xs ++ ys)) file
        ≡ (contains (map real xs) file || contains (map real ys) file)
  unfolding contains
  contains-append [] ys file = refl
  contains-append (x ∷ xs) ys file = ground (arith, contains-append xs ys file)

  contains-walked :
      (path file : FilePath) → contains (map real (walked path)) file ≡ names path file
  unfolding contains
  contains-walked path file = elim (Option-cases (walk path)) [
    | inl e ↦ rw (e, walked, names) (ground arith)
    | inr (files, e) ↦ rw (e, walked, names) (contains-sorted files file)
  ]

  contains-candidates :
      (paths : List FilePath) (file : FilePath)
      → contains (map real (candidates paths)) file ≡ any_names paths file
  unfolding contains
  contains-candidates [] file = refl
  contains-candidates (path ∷ paths) file =
      contains-append (walked path) (candidates paths) file
      ∙ ap₂ (λ a b. a || b) (contains-walked path file) (contains-candidates paths file)

  -- Seen or found is seen or a candidate.
  unseen_complete :
      (seen rest : List FilePath) (path : FilePath)
      → (contains seen path || contains (map real (unseen seen rest)) path)
        ≡ (contains seen path || contains (map real rest) path)
  unfolding unseen contains
  unseen_complete seen [] path = refl
  unseen_complete seen (c ∷ rest) path = ground (
    arith,
    unseen_complete seen rest path,
    unseen_complete (real c ∷ seen) rest path,
    text_eq_iff (real c) path,
  )

  -- Whatever the order of the files below a directory, the files found for any paths stand for
  -- different real files: those that the paths name which are no directories, and those of the files
  -- that the walks of the directories among the paths give.
  pub expand-Distinct :
      (paths : List FilePath)
      → Distinct (map real (expand paths))
        × ((file : FilePath) → contains (map real (expand paths)) file ≡ any_names paths file)
  unfolding expand contains
  expand-Distinct paths = (
    unseen-Distinct [] (candidates paths),
    λ file. unseen_complete [] (candidates paths) file ∙ contains-candidates paths file,
  )

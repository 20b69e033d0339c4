-- ===== src/Cli/Json.antt =====
-- The values that src/eous/cli.py hands to `json.dumps`.
use eous.Prelude.{ℕ, List, [], ◌∷◌, Option, none, some}
use eous.Prelude.Text.{Text}

-- A list and a dictionary are lists of their own.
mutual
  pub data Json (F : Type 0) : Type 0 where
    null : Json F
    text : Text → Json F
    number : ℕ → Json F
    real : F → Json F
    items : Items F → Json F
    object : Fields F → Json F

  pub data Items (F : Type 0) : Type 0 where
    done : Items F
    item : Json F → Items F → Items F

  pub data Fields (F : Type 0) : Type 0 where
    end : Fields F
    field : Text → Json F → Fields F → Fields F

-- `None` and the other values.
abbrev pub or_null : {F A : Type 0} → (A → Json F) → Option A → Json F
or_null f none = null
or_null f (some a) = f a

abbrev pub items_of : {F A : Type 0} → (A → Json F) → List A → Items F
items_of f [] = done
items_of f (x ∷ xs) = item (f x) (items_of f xs)

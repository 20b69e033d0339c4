-- ===== src/Native/Sketch.antt =====
-- native/src/lib.rs: `root_ids`, `coefficients` and `sketch`. The hash `h64`, of a payload and a
-- person, is a parameter; its `u64` is a number below 2^64.
pub mod Slots
pub mod Body
use eous.Prelude.{
  ℕ, zero, suc, ◌*◌, ◌/◌, ◌%◌, ◌^◌, min, none, some, List, [], ◌∷◌, ◌++◌, map, ltb, if◌then◌else◌,
  get_elem?, replicate,
}
use Prim.Native.Nat.{bit_or}
use eous.Prelude.Text.{Text, codes, write_digits}
use eous.Digest.Hex.{hex_digit}
use eous.Native
use eous.Native.Permute.{Coefficient, coefficient, permute, modulus}

-- `h64(payload, person)`
abbrev pub Hash : Type 0
Hash = List ℕ → Text → ℕ

abbrev pub permutation_person : Text
permutation_person = codes "eous-prm"

abbrev pub shingle_person : Text
shingle_person = codes "eous-ng"

abbrev pub separator : ℕ
separator = 0x1f

-- The three root ids of a key.
abbrev pub root_ids : ℕ → List ℕ
root_ids key = key / 2 ^ 14 % 2 ^ 7 ∷ key / 2 ^ 7 % 2 ^ 7 ∷ key % 2 ^ 7 ∷ []

-- `names[id]`, of an id that has a name. The names are ASCII, so their bytes are their codes.
abbrev pub name_at : List Text → ℕ → Text
name_at names id = elim (get_elem? names id) [ none ↦ [] | some name ↦ name ]

-- The loop over the root ids, from a place on.
abbrev pub push_names : List Text → ℕ → List ℕ → List ℕ
push_names names place [] = []
push_names names place (id ∷ ids) =
    (if ltb 0 place then separator ∷ [] else [])
    ++ name_at names id
    ++ push_names names (suc place) ids

-- The payload of a key.
unfoldable pub payload : List Text → ℕ → List ℕ
payload names key = push_names names 0 (root_ids key)

-- `0..n`, from an index on.
unfoldable pub indices : ℕ → ℕ → List ℕ
indices index zero = []
indices index (suc n) = index ∷ indices (suc index) n

-- `index.to_be_bytes()`, of a `u32`.
abbrev pub to_be_bytes : ℕ → List ℕ
to_be_bytes index = write_digits 256 4 index []

module _ (h64 : Hash) where
  unfoldable pub coefficient_at : ℕ → Coefficient
  coefficient_at index =
      coefficient (h64 (b'a' ∷ to_be_bytes index) permutation_person)
        (h64 (b'b' ∷ to_be_bytes index) permutation_person)

  unfoldable pub coefficients : List Coefficient
  coefficients = map coefficient_at (indices 0 Native.permutations)

  -- The loop over the slots and the coefficients, for the value of a key.
  unfoldable pub lower : List Coefficient → ℕ → List ℕ → List ℕ
  lower [] value slots = []
  lower (c ∷ cs) value [] = []
  lower (c ∷ cs) value (slot ∷ slots) =
      min slot (permute c.multiplier c.offset value) ∷ lower cs value slots

  -- The loop over the keys.
  unfoldable pub lower_all : List Text → List Coefficient → List ℕ → List ℕ → List ℕ
  lower_all names cs [] slots = slots
  lower_all names cs (key ∷ keys) slots =
      lower_all names cs keys (lower cs (h64 (payload names key) shingle_person % modulus) slots)

-- The fold over the slots of a chunk, of two bits each. A `u8` is shifted.
unfoldable pub pack : ℕ → List ℕ → ℕ
pack byte [] = byte
pack byte (slot ∷ slots) = pack (bit_or (byte * 2 ^ 2 % 2 ^ 8) (slot % 2 ^ 2)) slots

-- The bytes of the chunks of four slots; the last chunk can be shorter.
unfoldable pub pack_chunks : List ℕ → List ℕ
pack_chunks (a ∷ b ∷ c ∷ d ∷ slots) = pack 0 (a ∷ b ∷ c ∷ d ∷ []) ∷ pack_chunks slots
pack_chunks (a ∷ b ∷ c ∷ []) = pack 0 (a ∷ b ∷ c ∷ []) ∷ []
pack_chunks (a ∷ b ∷ []) = pack 0 (a ∷ b ∷ []) ∷ []
pack_chunks (a ∷ []) = pack 0 (a ∷ []) ∷ []
pack_chunks [] = []

-- `{byte:02x}` of each.
unfoldable pub hex_bytes : List ℕ → Text
hex_bytes [] = []
hex_bytes (byte ∷ bytes) = hex_digit (byte / 16) ∷ hex_digit (byte % 16) ∷ hex_bytes bytes

-- The slots that the keys leave.
unfoldable pub slots_of : Hash → List Text → List ℕ → List ℕ
slots_of h64 names keys =
    lower_all h64 names (coefficients h64) keys (replicate Native.permutations modulus)

unfoldable pub sketch : Hash → List Text → List ℕ → Text
sketch h64 names keys = hex_bytes (pack_chunks (slots_of h64 names keys))

-- ===== src/Native/Disassemble.antt =====
-- native/src/lib.rs: `disassemble`, over the decoder of iced-x86, which is a parameter.
pub mod Events
pub mod Ids
use eous.Prelude.{
  ℕ, zero, suc, ◌+◌, ◌<◌, ◌≤◌, ◌≡◌, Bool, true, false, List, [], ◌∷◌, Option, none, some, ltb, leb,
  ◌==◌, length, get_elem?, if◌then◌else◌,
}
use eous.Native.Shingles.{Shingles, push, end_run, ngram}

-- A decoded instruction: whether it is invalid, its mnemonic as a number, the position behind it, and
-- whether its flow control is Next or Interrupt.
pub record Instruction : Type 0 where
  pub invalid : Bool
  pub mnemonic : ℕ
  pub next : ℕ
  pub falls_through : Bool

-- Decoding at a bitness and a position of some bytes.
abbrev pub Decoder : Type 0
Decoder = ℕ → List ℕ → ℕ → Instruction

-- What iced-x86 documents: an instruction that is valid has a byte or more.
abbrev pub Advances : Decoder → Type 0
Advances decode =
    (bitness : ℕ) (code : List ℕ) (position : ℕ)
    → position < length code
    → (decode bitness code position).invalid ≡ false
    → position < (decode bitness code position).next

-- The locals of `disassemble`, with the shingles that it adds to.
pub record Scan : Type 0 where
  pub position : ℕ
  pub previous : Option ℕ
  pub repeated : ℕ
  pub shingles : Shingles

-- `ids[mnemonic as usize]`, of a mnemonic that has an id.
abbrev pub id_at : List ℕ → ℕ → ℕ
id_at ids mnemonic = elim (get_elem? ids mnemonic) [ none ↦ 0 | some id ↦ id ]

-- `previous == Some(mnemonic)`
abbrev pub is_previous : Option ℕ → ℕ → Bool
is_previous none mnemonic = false
is_previous (some m) mnemonic = m == mnemonic

abbrev pub times : Option ℕ → ℕ → ℕ → ℕ
times previous repeated mnemonic = if is_previous previous mnemonic then repeated + 1 else 1

module _ (decode : Decoder) (bitness : ℕ) (ids : List ℕ) where
  abbrev pub skip : Scan → Scan
  skip s = record {
    position = s.position + 1;
    previous = none;
    repeated = s.repeated;
    shingles = end_run s.shingles;
  }

  abbrev pub count_root : ℕ → ℕ → Shingles → Shingles
  count_root mnemonic repeated shingles =
      if leb repeated ngram then push (id_at ids mnemonic) shingles else shingles

  abbrev pub take_valid : Instruction → Scan → Scan
  take_valid i s =
      let repeated = times s.previous s.repeated i.mnemonic in
      let shingles = count_root i.mnemonic repeated s.shingles in
      if i.falls_through
      then (record {
        position = i.next;
        previous = some i.mnemonic;
        repeated = repeated;
        shingles = shingles;
      })
      else (record {
        position = i.next;
        previous = none;
        repeated = repeated;
        shingles = end_run shingles;
      })

  -- The body of the loop.
  unfoldable pub step : Instruction → Scan → Scan
  step i s = if i.invalid then skip s else take_valid i s

  -- The loop, on fuel; nothing where that runs out.
  unfoldable pub scan : ℕ → List ℕ → Scan → Option Shingles
  scan zero code s = if ltb s.position (length code) then none else some (end_run s.shingles)
  scan (suc fuel) code s = elim (ltb s.position (length code)) [
    | false ↦ some (end_run s.shingles)
    | true ↦ scan fuel code (step (decode bitness code s.position) s)
  ]

  -- `disassemble`, with a turn of fuel for each byte.
  unfoldable pub disassemble : List ℕ → Shingles → Option Shingles
  disassemble code shingles =
      scan (length code) code
        (record { position = 0; previous = none; repeated = 0; shingles = shingles })

  -- The loop of `digest_of` over the sections.
  unfoldable pub disassemble_all : List (List ℕ) → Shingles → Option Shingles
  disassemble_all [] shingles = some shingles
  disassemble_all (code ∷ sections) shingles = elim (disassemble code shingles) [
    | none ↦ none
    | some more ↦ disassemble_all sections more
  ]

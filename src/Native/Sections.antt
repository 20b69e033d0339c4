-- ===== src/Native/Sections.antt =====
-- native/src/lib.rs: the keys that `digest_of` finds in the sections of a program.
pub mod Order
pub mod Keys
use mathlib.Core.Option
use eous.Prelude.{
  ℕ, zero, suc, ◌+◌, ◌-◌, ◌*◌, ◌/◌, ◌%◌, ◌^◌, ◌≤◌, ◌<◌, min, ◌≡◌, refl, sym, ap, ap₂, ◌∙◌, subst,
  ◌↔◌, ◌⊎◌, inl, inr, Bool, true, false, ◌&&◌, ◌||◌, not, Option, none, some, List, [], ◌∷◌, ◌++◌,
  map, append-nil, append_assoc, arith, ltb, leb, ◌==◌, if◌then◌else◌, ltb→lt, lt→ltb, leb→le,
  Bool-cases, Option-cases, length, get_elem?, replicate, take, drop, All, All-append, All-map,
  length-append, length-map, all,
}
use eous.Native.Shingles.{feed, Shingles, new, finish, Event, pushes, ends}
use eous.Native.Shingles.Windows.{Recent, windows, fresh, one, two, IsId, finish-windows, packed}
use eous.Native.Shingles.Compact.{mem, mem-append, Increases}
use eous.Native.Disassemble.{Decoder, Advances, disassemble_all}
use eous.Native.Disassemble.Ids.{all_events-All}
use eous.Native.Disassemble.Events.{
  events_of, all_events, disassemble_all-eq, instructions, events_from,
}

-- The loop of `digest_of` over the sections and the keys that it leaves.
unfoldable pub keys_of : Decoder → ℕ → List ℕ → List (List ℕ) → Option (List ℕ)
keys_of decode bitness ids sections =
    Option.map finish (disassemble_all decode bitness ids sections new)

-- Whether the events of a section have a window of that key, whatever the section's neighbours are.
unfoldable pub in_section : Decoder → ℕ → List ℕ → ℕ → List ℕ → Bool
in_section decode bitness ids k code = mem k (windows fresh (events_of decode bitness ids code))

-- Whether any section has it.
unfoldable pub in_any : Decoder → ℕ → List ℕ → ℕ → List (List ℕ) → Bool
in_any decode bitness ids k [] = false
in_any decode bitness ids k (code ∷ sections) =
    in_section decode bitness ids k code || in_any decode bitness ids k sections

-- No window reaches over the end of a run.
windows-append :
    (recent : Recent) (first rest : List Event)
    → windows recent (first ++ ends ∷ rest)
      ≡ windows recent (first ++ ends ∷ []) ++ windows fresh rest
unfolding windows
windows-append fresh [] rest = refl
windows-append (one a) [] rest = refl
windows-append (two a b) [] rest = refl
windows-append fresh (ends ∷ first) rest = windows-append fresh first rest
windows-append (one a) (ends ∷ first) rest = windows-append fresh first rest
windows-append (two a b) (ends ∷ first) rest = windows-append fresh first rest
windows-append fresh (pushes c ∷ first) rest = windows-append (one c) first rest
windows-append (one a) (pushes c ∷ first) rest = windows-append (two a c) first rest
windows-append (two a b) (pushes c ∷ first) rest =
    ap (λ ws. packed a b c ∷ ws) (windows-append (two b c) first rest)

module _ (decode : Decoder) (bitness : ℕ) (ids : List ℕ) where
  section-windows :
      (code : List ℕ) (rest : List Event)
      → windows fresh (events_of decode bitness ids code ++ rest)
        ≡ windows fresh (events_of decode bitness ids code) ++ windows fresh rest
  unfolding events_of
  section-windows code rest =
      ap (windows fresh) (
        append_assoc
          (events_from ids none 0
            (instructions (decode bitness code) (length code) (length code) 0))
          (ends ∷ []) rest)
      ∙ windows-append fresh
          (events_from ids none 0
            (instructions (decode bitness code) (length code) (length code) 0))
          rest

  pub all_events-in_any :
      (k : ℕ) (sections : List (List ℕ))
      → mem k (windows fresh (all_events decode bitness ids sections))
        ≡ in_any decode bitness ids k sections
  unfolding all_events in_any in_section windows mem
  all_events-in_any k [] = refl
  all_events-in_any k (code ∷ sections) =
      ap (mem k) (section-windows code (all_events decode bitness ids sections))
      ∙ mem-append k (windows fresh (events_of decode bitness ids code))
          (windows fresh (all_events decode bitness ids sections))
      ∙ ap (λ b. in_section decode bitness ids k code || b) (all_events-in_any k sections)

  -- Where a valid instruction has a byte or more and the ids are below 2^7: the loops over the sections
  -- and their bytes end, the keys that they leave are strictly increasing, and they are exactly those
  -- that a section has by itself.
  pub keys_of-sections :
      (advances : Advances decode) (small : All (λ id. id < 2 ^ 7) ids) (sections : List (List ℕ))
      → (keys : List ℕ) × (keys_of decode bitness ids sections ≡ some keys)
        × Increases keys
        × ((k : ℕ) → mem k keys ≡ in_any decode bitness ids k sections)
  unfolding keys_of
  keys_of-sections advances small sections =
      let events = all_events decode bitness ids sections in
      let (increases, same) =
        finish-windows events
          (all_events-All decode bitness ids (2 ^ 7) (omega arith) small sections) in
      (
        finish (feed events new),
        ap (Option.map finish) (disassemble_all-eq decode bitness ids advances sections new),
        increases,
        λ k. same k ∙ all_events-in_any k sections,
      )

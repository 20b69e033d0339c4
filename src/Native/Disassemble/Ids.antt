-- ===== src/Native/Disassemble/Ids.antt =====
-- The ids that the loop of `disassemble` in native/src/lib.rs pushes.
use eous.Prelude.{ℕ, zero, suc, ◌<◌, Option, none, List, [], ◌∷◌, arith, length, All, All-append}
use eous.Native.Shingles.Windows.{IsBelow}
use eous.Native.Shingles.{ends}
use eous.Native.Disassemble.{Instruction, Decoder, id_at}
use eous.Native.Disassemble.Events.{
  instructions, events_one, events_from, events_of, all_events, previous_then, repeated_then,
}

-- Where the ids are below a number, those of the events are.
module _ (decode : Decoder) (bitness : ℕ) (ids : List ℕ) (n : ℕ) (some_id : 0 < n)
    (small : All (λ id. id < n) ids) where
  id_at_small : (mnemonic : ℕ) → id_at ids mnemonic < n
  id_at_small mnemonic = below ids mnemonic small
    where
      below : (ns : List ℕ) (m : ℕ) → All (λ id. id < n) ns → id_at ns m < n
      below [] m h = some_id
      below (x ∷ xs) zero h = h.0
      below (x ∷ xs) (suc m) h = below xs m h.1

  events_one-All :
      (previous : Option ℕ) (repeated : ℕ) (i : Instruction)
      → All (IsBelow n) (events_one ids previous repeated i)
  events_one-All previous repeated i = let h = id_at_small i.mnemonic in ground arith

  events_from-All :
      (previous : Option ℕ) (repeated : ℕ) (is : List Instruction)
      → All (IsBelow n) (events_from ids previous repeated is)
  unfolding events_from
  events_from-All previous repeated [] = tt
  events_from-All previous repeated (i ∷ is) =
      All-append (IsBelow n) (events_one ids previous repeated i) _
        (events_one-All previous repeated i)
        (events_from-All (previous_then i) (repeated_then previous repeated i) is)

  pub all_events-All :
      (sections : List (List ℕ)) → All (IsBelow n) (all_events decode bitness ids sections)
  unfolding all_events events_of
  all_events-All [] = tt
  all_events-All (code ∷ sections) =
      All-append (IsBelow n) (events_of decode bitness ids code) _
        (All-append (IsBelow n)
          (events_from ids none 0
            (instructions (decode bitness code) (length code) (length code) 0))
          (ends ∷ []) (events_from-All none 0 _) (tt, tt))
        (all_events-All sections)

-- ===== src/Native/Disassemble/Events.antt =====
-- What the loop of `disassemble` in native/src/lib.rs calls on the shingles.
use eous.Prelude.{
  Bool-cases, inl, inr, ltb→lt, sym, ap, length, ◌∙◌, ◌≤◌, ◌<◌, ℕ, zero, suc, ◌+◌, ◌≡◌, refl, true,
  false, List, [], ◌∷◌, ◌++◌, Option, none, some, ltb, leb, arith, if◌then◌else◌,
}
use eous.Native.Shingles.{Shingles, push, end_run, ngram, Event, pushes, ends, feed}
use eous.Native.Disassemble.{
  Advances, disassemble, scan, disassemble_all, Instruction, Decoder, Scan, id_at, times, step,
}

-- Where decoding goes on behind an instruction.
abbrev pub following : Instruction → ℕ → ℕ
following i position = if i.invalid then position + 1 else i.next

-- The instructions of some code, with the invalid ones, in the order of the decoding.
unfoldable pub instructions : (ℕ → Instruction) → ℕ → ℕ → ℕ → List Instruction
instructions decode_at zero total position = []
instructions decode_at (suc fuel) total position = elim (ltb position total) [
  | false ↦ []
  | true ↦
      let i = decode_at position in i ∷ instructions decode_at fuel total (following i position)
]

-- The events of an instruction.
abbrev pub events_one : List ℕ → Option ℕ → ℕ → Instruction → List Event
events_one ids previous repeated i =
    if i.invalid
    then ends ∷ []
    else (if leb (times previous repeated i.mnemonic) ngram
        then pushes (id_at ids i.mnemonic) ∷ []
        else [])
      ++ (if i.falls_through then [] else ends ∷ [])

abbrev pub previous_then : Instruction → Option ℕ
previous_then i = if i.invalid then none else if i.falls_through then some i.mnemonic else none

abbrev pub repeated_then : Option ℕ → ℕ → Instruction → ℕ
repeated_then previous repeated i =
    if i.invalid then repeated else times previous repeated i.mnemonic

-- The events of some instructions, behind a mnemonic and the times that it stood there.
unfoldable pub events_from : List ℕ → Option ℕ → ℕ → List Instruction → List Event
events_from ids previous repeated [] = []
events_from ids previous repeated (i ∷ is) =
    events_one ids previous repeated i
    ++ events_from ids (previous_then i) (repeated_then previous repeated i) is

-- The events of a section, which ends its last run.
unfoldable pub events_of : Decoder → ℕ → List ℕ → List ℕ → List Event
events_of decode bitness ids code =
    events_from ids none 0 (instructions (decode bitness code) (length code) (length code) 0)
    ++ ends ∷ []

unfoldable pub all_events : Decoder → ℕ → List ℕ → List (List ℕ) → List Event
all_events decode bitness ids [] = []
all_events decode bitness ids (code ∷ sections) =
    events_of decode bitness ids code ++ all_events decode bitness ids sections

feed-append :
    (first second : List Event) (s : Shingles)
    → feed (first ++ second) s ≡ feed second (feed first s)
unfolding feed
feed-append [] second s = refl
feed-append (pushes root ∷ first) second s = feed-append first second (push root s)
feed-append (ends ∷ first) second s = feed-append first second (end_run s)

module _ (decode : Decoder) (bitness : ℕ) (ids : List ℕ) where
  abbrev stepped : Instruction → Scan → Scan
  stepped i s = record {
    position = following i s.position;
    previous = previous_then i;
    repeated = repeated_then s.previous s.repeated i;
    shingles = feed (events_one ids s.previous s.repeated i) s.shingles;
  }

  step-eq : (i : Instruction) (s : Scan) → step decode bitness ids i s ≡ stepped i s
  unfolding step feed
  step-eq i s = ground arith

  scan_stop :
      (fuel : ℕ) (code : List ℕ) (s : Scan)
      → ltb s.position (length code) ≡ false
      → scan decode bitness ids fuel code s ≡ some (end_run s.shingles)
  unfolding scan
  scan_stop zero code s e = rw (e, scan) refl
  scan_stop (suc fuel) code s e = rw (e, scan) refl

  instructions_stop :
      (fuel : ℕ) (code : List ℕ) (position : ℕ)
      → ltb position (length code) ≡ false
      → instructions (decode bitness code) fuel (length code) position ≡ []
  unfolding instructions
  instructions_stop zero code position e = refl
  instructions_stop (suc fuel) code position e = rw (e, instructions) refl

  scan_more :
      (fuel : ℕ) (code : List ℕ) (s : Scan)
      → ltb s.position (length code) ≡ true
      → scan decode bitness ids (suc fuel) code s
        ≡ scan decode bitness ids fuel code
            (step decode bitness ids (decode bitness code s.position) s)
  unfolding scan
  scan_more fuel code s e =
      ap
        (λ b. elim b [
          | false ↦ some (end_run s.shingles)
          | true ↦
              scan decode bitness ids fuel code
                (step decode bitness ids (decode bitness code s.position) s)
        ])
        e

  instructions_more :
      (fuel : ℕ) (code : List ℕ) (position : ℕ)
      → ltb position (length code) ≡ true
      → instructions (decode bitness code) (suc fuel) (length code) position
        ≡ decode bitness code position
          ∷ instructions
              (decode bitness code)
              fuel
              (length code)
              (following (decode bitness code position) position)
  unfolding instructions
  instructions_more fuel code position e = rw (e, instructions) refl

  further :
      (total position fuel : ℕ) (i : Instruction)
      → total ≤ position + suc fuel
      → (i.invalid ≡ false → position < i.next)
      → total ≤ following i position + fuel
  further total position fuel i h k = elim (Bool-cases i.invalid) [
    | inl e ↦ ground (arith, e, h)
    | inr e ↦ let l = k e in ground (arith, e, h, l)
  ]

  scan-eq :
      (advances : Advances decode) (fuel : ℕ) (code : List ℕ) (s : Scan)
      → length code ≤ s.position + fuel
      → scan decode bitness ids fuel code s
        ≡ some (
            end_run (
              feed
                (events_from ids s.previous s.repeated
                  (instructions (decode bitness code) fuel (length code) s.position))
                s.shingles))
  unfolding events_from feed instructions
  scan-eq advances zero code s enough =
      let e : ltb s.position (length code) ≡ false = ground arith in
      rw (scan_stop zero code s e) refl
  scan-eq advances (suc fuel) code s enough = elim (Bool-cases (ltb s.position (length code))) [
    | inr e ↦
        rw (scan_stop (suc fuel) code s e, instructions_stop (suc fuel) code s.position e) refl
    | inl e ↦
        let i = decode bitness code s.position in
        let later : length code ≤ following i s.position + fuel =
          further (length code) s.position fuel i enough
            (advances bitness code s.position (ltb→lt _ _ e)) in
        scan_more fuel code s e
        ∙ ap (scan decode bitness ids fuel code) (step-eq i s)
        ∙ scan-eq advances fuel code (stepped i s) later
        ∙ ap (λ after. some (end_run after))
            (sym (feed-append (events_one ids s.previous s.repeated i) _ s.shingles))
        ∙ ap (λ is. some (end_run (feed (events_from ids s.previous s.repeated is) s.shingles)))
            (sym (instructions_more fuel code s.position e))
  ]

  disassemble-eq :
      (advances : Advances decode) (code : List ℕ) (s : Shingles)
      → disassemble decode bitness ids code s ≡ some (feed (events_of decode bitness ids code) s)
  unfolding disassemble events_of feed
  disassemble-eq advances code s =
      scan-eq advances (length code) code
        (record { position = 0; previous = none; repeated = 0; shingles = s }) (omega arith)
      ∙ ap some (
          sym (
            feed-append
              (events_from ids none 0
                (instructions (decode bitness code) (length code) (length code) 0))
              (ends ∷ []) s))

  -- Where an instruction has a byte or more: the loop over the sections ends, and gives what its calls
  -- give.
  pub disassemble_all-eq :
      (advances : Advances decode) (sections : List (List ℕ)) (s : Shingles)
      → disassemble_all decode bitness ids sections s
        ≡ some (feed (all_events decode bitness ids sections) s)
  unfolding disassemble_all all_events feed
  disassemble_all-eq advances [] s = refl
  disassemble_all-eq advances (code ∷ sections) s =
      rw (disassemble-eq advances code s, disassemble_all)
        (disassemble_all-eq advances sections (feed (events_of decode bitness ids code) s)
          ∙ ap some (
              sym (
                feed-append (events_of decode bitness ids code)
                  (all_events decode bitness ids sections) s)))

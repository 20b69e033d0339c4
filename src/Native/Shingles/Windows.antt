-- ===== src/Native/Shingles/Windows.antt =====
-- `Shingles` of native/src/lib.rs, compacted or not: the windows of three roots, each once.
use eous.Prelude.{
  ℕ, suc, ◌+◌, ◌*◌, ◌%◌, ◌^◌, ◌<◌, ◌≤◌, ◌≡◌, ◌∙◌, refl, ap, sym, false, ◌||◌, List, [], ◌∷◌, ◌++◌,
  leb, length, arith, All, Bool-cases, append-nil, inl, inr,
}
use Prim.Native.Nat.{bit_or}
use eous.Prelude.Bits.{bit_or_fields}
use eous.Native.Shingles.{
  Shingles, new, shift, compact_full, push, end_run, finish, Event, pushes, ends, feed,
}
use eous.Native.Shingles.Compact.{mem, mem-append, mem-compact, Increases, compact-Increases}

-- The last roots of a run, two at most.
pub data Recent : Type 0 where
  fresh : Recent
  one : ℕ → Recent
  two : ℕ → ℕ → Recent

-- The key of three roots.
abbrev pub packed : ℕ → ℕ → ℕ → ℕ
packed a b c = (a * 2 ^ 7 + b) * 2 ^ 7 + c

-- The keys of all windows of three roots in a run.
unfoldable pub windows : Recent → List Event → List ℕ
windows recent [] = []
windows recent (ends ∷ events) = windows fresh events
windows fresh (pushes a ∷ events) = windows (one a) events
windows (one a) (pushes b ∷ events) = windows (two a b) events
windows (two a b) (pushes c ∷ events) = packed a b c ∷ windows (two b c) events

-- The id of a push is below a number.
abbrev pub IsBelow : ℕ → Event → Type 0
IsBelow n (pushes root) = root < n
IsBelow n ends = Unit

-- The ids are below 2^7.
abbrev pub IsId : Event → Type 0
IsId = IsBelow (2 ^ 7)

-- What a state holds of the run.
abbrev Agrees : Recent → Shingles → Type 0
Agrees fresh s = (s.filled ≡ 0) × (s.key < 2 ^ 21)
Agrees (one a) s = (s.filled ≡ 1) × (s.key < 2 ^ 21) × (s.key % 2 ^ 7 ≡ a)
Agrees (two a b) s =
    (2 ≤ s.filled) × (s.key < 2 ^ 21) × (s.key % 2 ^ 14 ≡ a * 2 ^ 7 + b) × (b < 2 ^ 7)

abbrev after : Recent → ℕ → Recent
after fresh c = one c
after (one b) c = two b c
after (two a b) c = two b c

compact_full_same :
    (k : ℕ) (s : Shingles)
    → ((compact_full s).key ≡ s.key)
      × ((compact_full s).filled ≡ s.filled)
      × (mem k (compact_full s).keys ≡ mem k s.keys)
unfolding compact_full
compact_full_same k s = elim (Bool-cases (leb s.compact_at (length s.keys))) [
  | inl e ↦ rw e (refl, refl, mem-compact k s.keys)
  | inr e ↦ rw e (refl, refl, refl)
]

-- The window that one more root completes.
abbrev made : Recent → ℕ → List ℕ
made (two a b) c = packed a b c ∷ []
made fresh c = []
made (one a) c = []

windows_push :
    (recent : Recent) (c : ℕ) (events : List Event)
    → windows recent (pushes c ∷ events) ≡ made recent c ++ windows (after recent c) events
unfolding windows
windows_push fresh c events = refl
windows_push (one a) c events = refl
windows_push (two a b) c events = refl

-- A push that completes no window, and one that does.
push_short :
    (c : ℕ) (s : Shingles)
    → s.filled < 2
    → push c s ≡ record s { key = shift s.key c; filled = suc s.filled }
unfolding push
push_short c s h = elim (Bool-cases (leb 3 (suc s.filled))) [
  | inl e ↦ absurd (ground (arith, e, h))
  | inr e ↦ rw e refl
]

push_full :
    (c : ℕ) (s : Shingles)
    → 2 ≤ s.filled
    → push c s
      ≡ compact_full (record s {
        key = shift s.key c;
        filled = suc s.filled;
        keys = s.keys ++ shift s.key c ∷ [];
      })
unfolding push
push_full c s h = elim (Bool-cases (leb 3 (suc s.filled))) [
  | inl e ↦ rw e refl
  | inr e ↦ absurd (ground (arith, e, h))
]

-- The shifted key leaves the bits of an id free.
or_id : (key c : ℕ) → key < 2 ^ 21 → c < 2 ^ 7 → bit_or (key * 2 ^ 7 % 2 ^ 64) c ≡ key * 2 ^ 7 + c
or_id key c small h =
    ap (λ shifted. bit_or shifted c)
      (let whole : key * 2 ^ 7 % 2 ^ 64 ≡ key * 2 ^ 7 = omega arith in whole)
    ∙ bit_or_fields 7 key c h

push-Agrees :
    (recent : Recent) (c : ℕ) (s : Shingles)
    → Agrees recent s
    → c < 2 ^ 7
    → Agrees (after recent c) (push c s)
push-Agrees fresh c s (empty, small) h =
    rw (push_short c s (omega (arith, empty)))
      (omega (arith, empty), omega arith, omega (arith, or_id s.key c small h, h))
push-Agrees (one b) c s (filled, small, key) h =
    rw (push_short c s (omega (arith, filled)))
      (omega (arith, filled), omega arith, omega (arith, or_id s.key c small h, small, key, h), h)
push-Agrees (two a b) c s (filled, small, key, b_small) h =
    let full = record s {
      key = shift s.key c;
      filled = suc s.filled;
      keys = s.keys ++ shift s.key c ∷ [];
    } in
    let (same_key, same_filled, same_keys) = compact_full_same 0 full in
    rw (push_full c s filled, same_key, same_filled)
      (
        omega (arith, filled),
        omega arith,
        omega (arith, or_id s.key c small h, small, key, b_small, h),
        h,
      )

push-mem :
    (k : ℕ) (recent : Recent) (c : ℕ) (s : Shingles)
    → Agrees recent s
    → c < 2 ^ 7
    → mem k (push c s).keys ≡ mem k (s.keys ++ made recent c)
push-mem k fresh c s (empty, small) h =
    rw (push_short c s (omega (arith, empty))) (ap (mem k) (sym (append-nil s.keys)))
push-mem k (one b) c s (filled, small, key) h =
    rw (push_short c s (omega (arith, filled))) (ap (mem k) (sym (append-nil s.keys)))
push-mem k (two a b) c s (filled, small, key, b_small) h =
    let full = record s {
      key = shift s.key c;
      filled = suc s.filled;
      keys = s.keys ++ shift s.key c ∷ [];
    } in
    let (same_key, same_filled, same_keys) = compact_full_same k full in
    let same_window : shift s.key c ≡ packed a b c =
      omega (arith, or_id s.key c small h, small, key, b_small, h) in
    rw (push_full c s filled) (same_keys ∙ ap (λ key. mem k (s.keys ++ key ∷ [])) same_window)

mem-nil : (k : ℕ) → mem k [] ≡ false
unfolding mem
mem-nil k = refl

Agrees-small : (recent : Recent) (s : Shingles) → Agrees recent s → s.key < 2 ^ 21
Agrees-small fresh s (empty, small) = small
Agrees-small (one a) s (filled, small, key) = small
Agrees-small (two a b) s (filled, small, key, b_small) = small

feed-mem :
    (k : ℕ) (recent : Recent) (events : List Event) (s : Shingles)
    → Agrees recent s
    → All IsId events
    → mem k (feed events s).keys ≡ mem k s.keys || mem k (windows recent events)
unfolding feed windows
feed-mem k recent [] s agrees h = ground (arith, mem-nil k)
feed-mem k recent (ends ∷ events) s agrees (i, h) =
    feed-mem k fresh events (end_run s) (refl, Agrees-small recent s agrees) h
feed-mem k recent (pushes c ∷ events) s agrees (i, h) =
    let rest = feed-mem k (after recent c) events (push c s) (push-Agrees recent c s agrees i) h in
    let pushed = push-mem k recent c s agrees i in
    let old = mem-append k s.keys (made recent c) in
    let all = ap (mem k) (windows_push recent c events) in
    let new = mem-append k (made recent c) (windows (after recent c) events) in
    ground (arith, rest, pushed, old, all, new)

-- Whatever the disassembly pushes of ids below 2^7, and however often the keys are compacted on the
-- way: the keys at the end are strictly increasing, and they are exactly those of the windows of three
-- consecutive roots in a run.
pub finish-windows :
    (events : List Event)
    → All IsId events
    → Increases (finish (feed events new))
      × ((k : ℕ) → mem k (finish (feed events new)) ≡ mem k (windows fresh events))
unfolding finish mem
finish-windows events h = (
  compact-Increases (feed events new).keys,
  λ k. mem-compact k (feed events new).keys ∙ feed-mem k fresh events new (refl, omega arith) h,
)

-- ===== src/Native/Summary/Order.antt =====
-- `digest_of` of native/src/lib.rs, of the sections in another order.
use eous.Prelude.{ℕ, ◌≡◌, refl, ap, Option, some, List, ◌∷◌, arith, All-map}
use mathlib.Core.List.{Perm}
use eous.Prelude.Text.{Text}
use eous.Native
use eous.Native.Vocabulary.{Vocabulary, vocabulary}
use eous.Native.Disassemble.{Decoder, Advances}
use eous.Native.Sections.Keys.{ids-below}
use eous.Native.Sections.Order.{keys_of-Perm}
use eous.Native.Sketch.{Hash}
use eous.Native.Summary.{summarise, summary_of_found}

digest_of_same :
    (summarised : List (List ℕ) → ℕ → Option (ℕ × Text)) (first second : List (List ℕ))
    (bitness : ℕ) (target : Text)
    → summarised first bitness ≡ summarised second bitness
    → Native.digest_of summarised first bitness target
      ≡ Native.digest_of summarised second bitness target
unfolding Native.digest_of
digest_of_same summarised first second bitness target e = rw e refl

-- Where a valid instruction has a byte or more and the vocabulary is made of the mnemonics: the order of
-- the sections changes neither the text that `digest_of` returns nor the error.
pub digest_of-Perm :
    (h64 : Hash) (decode : Decoder)
    → Advances decode
    → (table : Text → Option Text) (mnemonic : Text) (mnemonics : List Text) (v : Vocabulary)
    → vocabulary table (mnemonic ∷ mnemonics) ≡ some v
    → (first second : List (List ℕ)) → Perm first second
    → (bitness : ℕ) (target : Text)
    → Native.digest_of (summarise decode v h64) first bitness target
      ≡ Native.digest_of (summarise decode v h64) second bitness target
unfolding summarise
digest_of-Perm h64 decode advances table mnemonic mnemonics v made first second p bitness target =
    let (below, nonempty, few) = ids-below table mnemonic mnemonics v made in
    digest_of_same (summarise decode v h64) first second bitness target (
      ap (summary_of_found h64 v.names) (
        keys_of-Perm decode bitness v.ids advances
          (All-map v.ids (λ id h. omega (arith, h, few)) below) first second p))

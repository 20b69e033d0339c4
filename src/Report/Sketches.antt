-- ===== src/Report/Sketches.antt =====
-- `analyse` of src/eous/report.py with `digest_of` of native/src/lib.rs, under `parse` and `unpack` of
-- src/eous/digest.py.
use eous.Prelude.{ℕ, ◌≡◌, Option, some, List, ◌∷◌, map, length}
use eous.Prelude.Text.{Text}
use eous.Prelude.Outcome.{ok}
use eous.Prelude.Float.{Float}
use eous.Native
use eous.Native.Vocabulary.{Vocabulary, vocabulary}
use eous.Native.Disassemble.{Decoder, Advances}
use eous.Native.Sections.{keys_of}
use eous.Native.Sketch.{Hash, indices}
use eous.Native.Sketch.Slots.{least_of}
use eous.Native.Sketch.Body.{low_bits}
use eous.Native.Summary.{summarise}
use eous.Native.Summary.Reads.{digest_of-unpack}
use eous.Digest.{Sketch, parse}
use eous.Digest.Slots.{unpack}
use eous.Loader.{Binary, target}
use eous.Loader.Lief.{World}
use eous.Loader.Load.{load}
use eous.Report.{FilePath, Analysis}
use eous.Report.Analyse.{analyse, bits_for}
use eous.Report.Digests.{readable_contents, analyse-IsDigest}

-- Where a valid instruction has a byte or more and the vocabulary is made of the mnemonics: `parse`
-- reads every digest that an analysis returns, as the target of the binary that was loaded from the
-- path and the number of keys that the loops over its readable sections leave, and `unpack` gives of
-- each of the 256 slots the low two bits of the least value that the permutation of the slot's index
-- has over the hashes of these keys, modulo 2^61 - 1.
pub analyse-unpack :
    (h64 : Hash) (decode : Decoder)
    → Advances decode
    → (table : Text → Option Text) (mnemonic : Text) (mnemonics : List Text) (v : Vocabulary)
    → vocabulary table (mnemonic ∷ mnemonics) ≡ some v
    → (N : Float) (w : World) (path : FilePath) (a : Analysis) (text : Text)
    → analyse N (summarise decode v h64) w path ≡ ok a
    → a.digest ≡ some text
    → (b : Binary) × (bits : ℕ) × (keys : List ℕ) × (s : Sketch) × (load w path ≡ ok b)
      × (bits_for b.arch ≡ ok bits)
      × (keys_of decode bits v.ids (readable_contents N b) ≡ some keys)
      × (parse text ≡ ok s)
      × (s.target ≡ target b)
      × (s.cardinality ≡ length keys)
      × (unpack s ≡ low_bits (map (least_of h64 v.names keys) (indices 0 Native.permutations)))
analyse-unpack h64 decode advances table mnemonic mnemonics v known N w path a text returned made =
    let (b, loaded, (bits, wide, digested)) =
      analyse-IsDigest (summarise decode v h64) N w path a text returned made in
    let (keys, s, found, reads, same_target, counted, slots) =
      digest_of-unpack h64 decode advances table mnemonic mnemonics v known (readable_contents N b)
        bits (target b) text digested in
    (b, bits, keys, s, loaded, wide, found, reads, same_target, counted, slots)

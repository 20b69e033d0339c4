-- ===== src/Digest/Visible.antt =====
-- The characters of a digest text: visible ASCII, with no white space.
use eous.Prelude.{
  ℕ, ◌≤◌, ◌<◌, ◌≡◌, true, List, [], ◌∷◌, ◌++◌, map, arith, all, All, All-append, refl,
}
use eous.Prelude.Text.{Text, codes, text_eq_iff, contains, decimal, decimal-digits, is_digit}
use eous.Native
use eous.Digest.{Sketch}
use eous.Digest.Hex.{hex_digit}
use eous.Digest.Accepts.{IsValid}
use eous.Digest.RoundTrip.{hex_body, hex_digits-below, sketch_text}

abbrev pub IsVisible : ℕ → Type 0
IsVisible c = (b'!' ≤ c) × (c ≤ b'~')

known_target-IsVisible :
    (target : Text) → contains Native.targets target ≡ true → All IsVisible target
unfolding contains
known_target-IsVisible target h = ground (
  arith,
  text_eq_iff (codes "pe32") target,
  text_eq_iff (codes "pe64") target,
  text_eq_iff (codes "elf32") target,
  text_eq_iff (codes "elf64") target,
)

digits-IsVisible : (s : Text) → all is_digit s ≡ true → All IsVisible s
digits-IsVisible [] h = tt
digits-IsVisible (c ∷ s) h = ground (arith, digits-IsVisible s)

hex_digits-IsVisible : (ds : List ℕ) → All (λ d. d < 16) ds → All IsVisible (map hex_digit ds)
hex_digits-IsVisible [] h = tt
hex_digits-IsVisible (d ∷ ds) h = ground (arith, hex_digits-IsVisible ds h.1)

-- Two fields with a colon between them.
joined-IsVisible : (s t : Text) → All IsVisible s → All IsVisible t → All IsVisible (s ++ b':' ∷ t)
joined-IsVisible s t h k = All-append IsVisible s (b':' ∷ t) h ((omega arith, omega arith), k)

pub sketch_text-IsVisible : (s : Sketch) → IsValid s → All IsVisible (sketch_text s)
unfolding sketch_text Native.layout hex_body
sketch_text-IsVisible s v = joined-IsVisible Native.version _ (omega arith) (
    joined-IsVisible s.target _ (known_target-IsVisible s.target v.known_target) (
      joined-IsVisible (decimal s.cardinality) _ (digits-IsVisible _ (decimal-digits s.cardinality))
        (hex_digits-IsVisible _ (hex_digits-below s.slots))))

pub sketch_text_shape : (s : Sketch) → (rest : Text) × (sketch_text s ≡ b'E' ∷ rest)
unfolding sketch_text Native.layout
sketch_text_shape s = (_, refl)

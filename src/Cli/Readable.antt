-- ===== src/Cli/Readable.antt =====
-- src/eous/cli.py: `_readable`. Whether a character is printable is Python's to say, `printable`.
use eous.Prelude.{
  ℕ, ◌^◌, ◌≤◌, ◌<◌, ◌≡◌, refl, Bool, true, ap, List, [], ◌∷◌, ◌++◌, map, ltb, if◌then◌else◌, arith,
  All, All-append, Bool-cases, inl, inr,
}
use eous.Prelude.Text.{Text, write_digits, write_digits-below}
use eous.Digest.Hex.{hex_digit}

-- `f"{n:0{width}x}"` of a code point that fits, which is below 16 ^ 6.
unfoldable pub hex_text : ℕ → ℕ → Text
hex_text width n =
    map hex_digit
      (write_digits 16 (if ltb n (16 ^ width) then width else if ltb n (16 ^ 5) then 5 else 6) n [])

module _ (printable : ℕ → Bool) where
  abbrev pub escaped : ℕ → Text
  escaped c = if ltb c 256 then b'\\' ∷ b'x' ∷ hex_text 2 c else b'\\' ∷ b'u' ∷ hex_text 4 c

  unfoldable pub readable : Text → Text
  readable [] = []
  readable (c ∷ text) =
      let rest = readable text in (if printable c then c ∷ [] else escaped c) ++ rest

  -- Text that is printable already is printed as it is.
  readable_printable : (text : Text) → All (λ c. printable c ≡ true) text → readable text ≡ text
  unfolding readable
  readable_printable [] h = refl
  readable_printable (c ∷ text) h = rw h.0 (ap (◌∷◌ c) (readable_printable text h.1))

  module _ (ascii : (c : ℕ) → b' ' ≤ c → c ≤ b'~' → printable c ≡ true) where
    hex_digits-printable :
        (ds : List ℕ) → All (λ d. d < 16) ds → All (λ c. printable c ≡ true) (map hex_digit ds)
    hex_digits-printable [] h = tt
    hex_digits-printable (d ∷ ds) h =
        (ascii (hex_digit d) (ground arith) (ground arith), hex_digits-printable ds h.1)

    hex_text-printable : (width n : ℕ) → All (λ c. printable c ≡ true) (hex_text width n)
    unfolding hex_text
    hex_text-printable width n =
        hex_digits-printable _ (write_digits-below 16 _ n [] (omega arith) tt)

    escaped-printable : (c : ℕ) → All (λ c. printable c ≡ true) (escaped c)
    escaped-printable c = elim (Bool-cases (ltb c 256)) [
      | inl e ↦ rw e (
        ascii b'\\' (omega arith) (omega arith),
        (ascii b'x' (omega arith) (omega arith), hex_text-printable 2 c),
      )
      | inr e ↦ rw e (
        ascii b'\\' (omega arith) (omega arith),
        (ascii b'u' (omega arith) (omega arith), hex_text-printable 4 c),
      )
    ]

    -- Where the visible ASCII characters are printable, every character of the result is printable:
    -- no newline or escape sequence of a sample gets to the terminal.
    pub readable-All : (text : Text) → All (λ c. printable c ≡ true) (readable text)
    unfolding readable
    readable-All [] = tt
    readable-All (c ∷ text) = elim (Bool-cases (printable c)) [
      | inl e ↦ rw e (e, readable-All text)
      | inr e ↦
          rw e (All-append _ (escaped c) (readable text) (escaped-printable c) (readable-All text))
    ]

    -- Escaping twice is escaping once.
    readable-readable : (text : Text) → readable (readable text) ≡ readable text
    readable-readable text = readable_printable (readable text) (readable-All text)

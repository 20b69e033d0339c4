-- ===== src/Digest/Tests.antt =====
-- The digest theorems at concrete sketches, and runs of the code on them.
use eous.Prelude.{◌+◌, ◌^◌, ◌≡◌, ◌↔◌, refl, [], ◌∷◌, ◌++◌, arith}
use eous.Prelude.Text.{codes, contains}
use eous.Prelude.Outcome.{ok}
use eous.Prelude.Fixed.{fixed_point, fixed_point-IsOrdered}
use eous.Digest.{Sketch, newline, parse}
use eous.Digest.Accepts.{IsValid}
use eous.Digest.Spelling.{IsSpelt, parse-IsSpelt}
use eous.Digest.RoundTrip.{sketch_text, parse-sketch_text, parse-sketch_text-newline}
use eous.Digest.Score.{Scores, compare}
use eous.Digest.Bounds.{IsBounded, compare-IsBounded}
use eous.Digest.Symmetry.{mirror, compare_comm}

abbrev small : Sketch
small = record { target = codes "elf64"; cardinality = 1200; slots = 4 ^ 40 + 27 }

abbrev large : Sketch
large = record { target = codes "elf64"; cardinality = 3000; slots = 4 ^ 40 + 26 }

small-IsValid : IsValid small
small-IsValid = record {
  known_target = unfold contains in refl;
  bounded = omega arith;
  fits = omega arith;
}

large-IsValid : IsValid large
large-IsValid = record {
  known_target = unfold contains in refl;
  bounded = omega arith;
  fits = omega arith;
}

parse-sketch_text_example : parse (sketch_text small) ≡ ok small
parse-sketch_text_example = parse-sketch_text small small-IsValid

parse-sketch_text-newline_example : parse (sketch_text small ++ newline ∷ []) ≡ ok small
parse-sketch_text-newline_example = parse-sketch_text-newline small small-IsValid

parse-IsSpelt_example : (parse (sketch_text small) ≡ ok small) ↔ IsSpelt (sketch_text small) small
parse-IsSpelt_example = parse-IsSpelt (sketch_text small) small

compare-IsBounded_example :
    (s : Scores fixed_point) × (compare fixed_point small large ≡ ok s)
    × IsBounded fixed_point fixed_point-IsOrdered small large s
compare-IsBounded_example =
    compare-IsBounded fixed_point fixed_point-IsOrdered small large small-IsValid large-IsValid refl

compare_comm_example :
    compare fixed_point large small ≡ mirror fixed_point (compare fixed_point small large)
compare_comm_example = compare_comm fixed_point fixed_point-IsOrdered small large

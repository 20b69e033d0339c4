-- ===== src/Cli/Messages.antt =====
-- The texts that src/eous/cli.py writes: `str` of a DigestError of src/eous/digest.py, `_plural`,
-- `_refusal_line`, and the padding of `format`.
use eous.Prelude.{ℕ, ◌-◌, ◌==◌, if◌then◌else◌, List, [], ◌∷◌, ◌++◌, replicate, length, Bool}
use eous.Prelude.Text.{Text, codes, decimal}
use eous.Native
use eous.Digest.{
  DigestError, field_count, wrong_version, unsupported_target, not_a_cardinality,
  cardinality_exceeds, not_a_sketch, different_targets, max_cardinality, sketch_hex,
}
use eous.Report.{
  FilePath, Reason, unreadable, unsupported_format, unsupported_arch, packed, managed, no_code,
  internal_error, Refusal,
}
use eous.Cli.Readable.{readable}

-- `", ".join(texts)`
unfoldable pub comma_join : List Text → Text
comma_join [] = []
comma_join (t ∷ []) = t
comma_join (t ∷ u ∷ us) = t ++ (codes ", " ++ comma_join (u ∷ us))

-- `str(exc)` of a DigestError.
unfoldable pub digest_message : (Text → Text) → DigestError → Text
digest_message repr (field_count n) = codes "expected 4 fields, found " ++ decimal n
digest_message repr (wrong_version version) =
    codes "expected version " ++ (Native.version ++ (codes ", found " ++ repr version))
digest_message repr (unsupported_target target) =
    codes "unsupported target "
    ++ (repr target ++ (codes ", expected one of: " ++ comma_join Native.targets))
digest_message repr (not_a_cardinality text) =
    codes "cardinality " ++ (repr text ++ codes " is a non-negative integer")
digest_message repr cardinality_exceeds = codes "cardinality exceeds " ++ decimal max_cardinality
digest_message repr not_a_sketch =
    codes "sketch is " ++ (decimal sketch_hex ++ codes " lower-case hex characters")
digest_message repr (different_targets left right) =
    codes "different targets: " ++ (left ++ (codes " and " ++ right))

-- `_plural`
unfoldable pub plural : ℕ → Text → Text
plural count noun =
    let counted = decimal count ++ 32 ∷ noun in if count == 1 then counted else counted ++ codes "s"

-- The text of a reason.
unfoldable pub reason_text : Reason → Text
reason_text unreadable = codes "unreadable"
reason_text unsupported_format = codes "unsupported_format"
reason_text unsupported_arch = codes "unsupported_arch"
reason_text packed = codes "packed"
reason_text managed = codes "managed"
reason_text no_code = codes "no_code"
reason_text internal_error = codes "internal_error"

-- `_refusal_line`
unfoldable pub refusal_line : (ℕ → Bool) → FilePath → Refusal → Text
refusal_line printable path refusal =
    readable printable path
    ++ (codes ": "
        ++ (reason_text refusal.reason ++ (codes ": " ++ readable printable refusal.detail)))

-- `f"{text:>{width}}"` and `f"{text:<{width}}"`
abbrev pub right_aligned : ℕ → Text → Text
right_aligned width text = replicate (width - length text) 32 ++ text

abbrev pub left_aligned : ℕ → Text → Text
left_aligned width text = text ++ replicate (width - length text) 32

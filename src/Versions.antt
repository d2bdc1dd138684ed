-- ===== src/Versions.antt =====
-- src/gemma4_mtp_vllm/versioning.py. A text is the list of its code points; `digit_of` is the value of
-- a decimal digit of Unicode, as `\d` and `int` of Python read it.
pub mod Order
mod Tests
use gemma_4_31b_mtp_v_llm_se.Prelude.{
  ℕ, ◌+◌, ◌*◌, Bool, true, false, ◌&&◌, ◌||◌, Option, none, some, [], ◌∷◌, ltb, leb, ◌==◌,
  if◌then◌else◌,
}
use gemma_4_31b_mtp_v_llm_se.Prelude.Text.{Text}

pub record Version : Type 0 where
  pub major : ℕ
  pub minor : ℕ
  pub patch : ℕ

abbrev pub DigitOf : Type 0
DigitOf = ℕ → Option ℕ

-- `(\d+)` and its `int`, with the digits read so far, and whether there were any; the text behind it
unfoldable pub read_digits : DigitOf → ℕ → Bool → Text → Option (ℕ × Text)
read_digits digit_of value seen [] = if seen then some (value, []) else none
read_digits digit_of value seen (c ∷ cs) = elim (digit_of c) [
  | none ↦ if seen then some (value, c ∷ cs) else none
  | some d ↦ read_digits digit_of (value * 10 + d) true cs
]

-- `\.`
unfoldable pub read_dot : Option (ℕ × Text) → Option (ℕ × Text)
read_dot none = none
read_dot (some (n, [])) = none
read_dot (some (n, c ∷ cs)) = if c == b'.' then some (n, cs) else none

unfoldable pub version_of : ℕ → ℕ → Option (ℕ × Text) → Option Version
version_of major minor none = none
version_of major minor (some (patch, rest)) =
    some (record { major = major; minor = minor; patch = patch })

unfoldable pub read_patch : DigitOf → ℕ → Option (ℕ × Text) → Option Version
unfolding version_of read_digits
read_patch digit_of major none = none
read_patch digit_of major (some (minor, rest)) =
    version_of major minor (read_digits digit_of 0 false rest)

unfoldable pub read_minor : DigitOf → Option (ℕ × Text) → Option Version
unfolding read_patch read_dot read_digits
read_minor digit_of none = none
read_minor digit_of (some (major, rest)) =
    read_patch digit_of major (read_dot (read_digits digit_of 0 false rest))

-- `_parse_semver_prefix`
unfoldable pub parse_semver_prefix : DigitOf → Option Text → Option Version
unfolding read_minor read_dot read_digits
parse_semver_prefix digit_of none = none
parse_semver_prefix digit_of (some text) =
    read_minor digit_of (read_dot (read_digits digit_of 0 false text))

-- `>=` of tuples
unfoldable pub at_least : Version → Version → Bool
at_least v w =
    ltb w.major v.major
    || (v.major == w.major && (ltb w.minor v.minor || (v.minor == w.minor && leb w.patch v.patch)))

unfoldable pub both_at_least : Option Version → Option Version → Bool
unfolding at_least
both_at_least (some v) (some w) = at_least v w
both_at_least v w = false

unfoldable pub version_at_least : DigitOf → Option Text → Text → Bool
unfolding both_at_least parse_semver_prefix
version_at_least digit_of value minimum =
    both_at_least (parse_semver_prefix digit_of value) (parse_semver_prefix digit_of (some minimum))

-- ===== src/Versions/Tests.antt =====
-- A run, and the theorem about printed versions at concrete ones.
use gemma_4_31b_mtp_v_llm_se.Prelude.{
  ℕ, ◌-◌, ◌+◌, ◌<◌, ◌≡◌, ◌↔◌, refl, true, false, ◌&&◌, none, some, [], ◌++◌, arith, leb,
  if◌then◌else◌,
}
use gemma_4_31b_mtp_v_llm_se.Prelude.Text.{codes}
use gemma_4_31b_mtp_v_llm_se.Versions.{Version, DigitOf, parse_semver_prefix, version_at_least}
use gemma_4_31b_mtp_v_llm_se.Versions.Order.{
  ReadsAscii, IsAtLeast, printed, version_at_least-printed,
}

unfoldable ascii_digit : DigitOf
ascii_digit c = if leb b'0' c && leb c b'9' then some (c - b'0') else none

digit_value : (d : ℕ) → d < 10 → ascii_digit (d + b'0') ≡ some d
unfolding ascii_digit
digit_value d h = ground arith

ascii_digit-ReadsAscii : ReadsAscii ascii_digit
ascii_digit-ReadsAscii = record { digit = digit_value; dot = unfold ascii_digit in refl }

abbrev release : Version
release = record { major = 0; minor = 10; patch = 1 }

abbrev candidate : Version
candidate = record { major = 0; minor = 9; patch = 22 }

version_at_least-printed_example :
    (parse_semver_prefix ascii_digit (some (printed release ++ codes "rc2")) ≡ some release)
    × ((version_at_least ascii_digit
            (some (printed release ++ codes "rc2"))
            (printed candidate ++ [])
          ≡ true)
        ↔ IsAtLeast release candidate)
version_at_least-printed_example =
    version_at_least-printed ascii_digit ascii_digit-ReadsAscii release candidate (codes "rc2") []
      (unfold ascii_digit in refl) tt

-- Ten is more than nine; two numbers are no version.
compared :
    (version_at_least ascii_digit (some (codes "0.10.0+cu128")) (codes "0.9.2") ≡ true)
    × (version_at_least ascii_digit (some (codes "0.10")) (codes "0.9.2") ≡ false)
unfolding version_at_least ascii_digit
compared = (refl, refl)

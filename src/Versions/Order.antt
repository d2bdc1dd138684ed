-- ===== src/Versions/Order.antt =====
-- Versions are compared number by number, whatever follows the third.
use gemma_4_31b_mtp_v_llm_se.Prelude.{
  ℕ, zero, suc, ◌+◌, ◌*◌, ◌/◌, ◌%◌, ◌<◌, ◌≤◌, Bool, true, false, ◌≡◌, ◌⊎◌, ◌↔◌, refl, ap, ◌∙◌, inl,
  inr, none, some, [], ◌∷◌, ◌++◌, arith, ltb, ltb→lt, Bool-cases, append_assoc,
}
use gemma_4_31b_mtp_v_llm_se.Prelude.Text.{Text, codes}
use gemma_4_31b_mtp_v_llm_se.Cluster.Shell.{digit_text, decimal_loop, decimal}
use gemma_4_31b_mtp_v_llm_se.Cluster.Shell.RoundTrip.{codes-append}
use gemma_4_31b_mtp_v_llm_se.Cluster.Shell.Decimal.{
  codes-digit, loop_small, loop_large, large_less, zero_times, divided,
}
use gemma_4_31b_mtp_v_llm_se.Versions.{
  Version, DigitOf, read_digits, read_dot, version_of, read_patch, read_minor, parse_semver_prefix,
  at_least, both_at_least, version_at_least,
}

-- The digits of ASCII have their values, and the dot is no digit.
pub record ReadsAscii (digit_of : DigitOf) : Type 0 where
  pub digit : (d : ℕ) → d < 10 → digit_of (d + b'0') ≡ some d
  pub dot : digit_of b'.' ≡ none

-- No digit comes next.
abbrev pub EndsDigits : DigitOf → Text → Type 0
EndsDigits digit_of [] = Unit
EndsDigits digit_of (c ∷ cs) = digit_of c ≡ none

-- The order of versions
abbrev pub IsAtLeast : Version → Version → Type 0
IsAtLeast v w =
    (w.major < v.major)
    ⊎ ((v.major ≡ w.major) × ((w.minor < v.minor) ⊎ ((v.minor ≡ w.minor) × (w.patch ≤ v.patch))))

abbrev pub printed : Version → Text
printed v =
    codes (decimal v.major) ++ b'.' ∷ (codes (decimal v.minor) ++ b'.' ∷ codes (decimal v.patch))

at_least_iff : (v w : Version) → (at_least v w ≡ true) ↔ IsAtLeast v w
unfolding at_least
at_least_iff v w = ground arith

digits_end :
    (digit_of : DigitOf) (value : ℕ) (rest : Text)
    → EndsDigits digit_of rest
    → read_digits digit_of value true rest ≡ some (value, rest)
unfolding read_digits
digits_end digit_of value [] h = refl
digits_end digit_of value (c ∷ cs) h = ground (arith, h)

digit_step :
    (digit_of : DigitOf) (value : ℕ) (seen : Bool) (c d : ℕ) (rest : Text)
    → digit_of c ≡ some d
    → read_digits digit_of value seen (c ∷ rest) ≡ read_digits digit_of (value * 10 + d) true rest
unfolding read_digits
digit_step digit_of value seen c d rest h = ground (arith, h)

read_digits-decimal_loop :
    (digit_of : DigitOf)
    → ReadsAscii digit_of
    → (fuel n : ℕ) (seen : Bool) (rest : Text) → n < fuel
    → read_digits digit_of 0 seen (codes (decimal_loop fuel n) ++ rest)
      ≡ read_digits digit_of n true rest
read_digits-decimal_loop digit_of ascii zero n seen rest h = absurd (omega arith)
read_digits-decimal_loop digit_of ascii (suc fuel) n seen rest h = elim (Bool-cases (ltb n 10)) [
  | inl e ↦
      let small : n < 10 = ltb→lt n 10 e in
      rw (loop_small fuel n e, codes-digit n small)
        (digit_step digit_of 0 seen (n + b'0') n rest (ascii.digit n small)
          ∙ ap (λ m. read_digits digit_of m true rest) (zero_times n))
  | inr e ↦
      let less : n / 10 < fuel = large_less n fuel e h in
      let final : n % 10 < 10 = omega arith in
      rw
        (
          loop_large fuel n e,
          codes-append (decimal_loop fuel (n / 10)) (digit_text (n % 10)),
          codes-digit (n % 10) final,
          append_assoc (codes (decimal_loop fuel (n / 10))) ((n % 10 + b'0') ∷ []) rest,
          read_digits-decimal_loop digit_of ascii fuel (n / 10) seen ((n % 10 + b'0') ∷ rest) less,
          digit_step digit_of (n / 10) true (n % 10 + b'0') (n % 10) rest
              (ascii.digit (n % 10) final),
        )
        (ap (λ m. read_digits digit_of m true rest) (divided n))
]

-- A number is read, with what follows it.
read_digits-decimal :
    (digit_of : DigitOf)
    → ReadsAscii digit_of
    → (n : ℕ) (rest : Text) → EndsDigits digit_of rest
    → read_digits digit_of 0 false (codes (decimal n) ++ rest) ≡ some (n, rest)
unfolding decimal
read_digits-decimal digit_of ascii n rest h =
    read_digits-decimal_loop digit_of ascii (suc n) n false rest (omega arith)
    ∙ digits_end digit_of n rest h

read_dot-decimal :
    (digit_of : DigitOf)
    → ReadsAscii digit_of
    → (n : ℕ) (rest : Text)
    → read_dot (read_digits digit_of 0 false (codes (decimal n) ++ b'.' ∷ rest)) ≡ some (n, rest)
unfolding read_dot
read_dot-decimal digit_of ascii n rest =
    ap read_dot (read_digits-decimal digit_of ascii n (b'.' ∷ rest) ascii.dot)

printed-append :
    (v : Version) (rest : Text)
    → printed v ++ rest
      ≡ codes (decimal v.major)
        ++ b'.' ∷ (codes (decimal v.minor) ++ b'.' ∷ (codes (decimal v.patch) ++ rest))
printed-append v rest =
    rw
      (
        append_assoc (codes (decimal v.major))
            (b'.' ∷ (codes (decimal v.minor) ++ b'.' ∷ codes (decimal v.patch))) rest,
        append_assoc (codes (decimal v.minor)) (b'.' ∷ codes (decimal v.patch)) rest,
      )
      refl

parse_semver_prefix-printed :
    (digit_of : DigitOf)
    → ReadsAscii digit_of
    → (v : Version) (rest : Text) → EndsDigits digit_of rest
    → parse_semver_prefix digit_of (some (printed v ++ rest)) ≡ some v
unfolding parse_semver_prefix read_minor read_patch version_of
parse_semver_prefix-printed digit_of ascii v rest h =
    rw
      (
        printed-append v rest,
        read_dot-decimal digit_of ascii v.major
            (codes (decimal v.minor) ++ b'.' ∷ (codes (decimal v.patch) ++ rest)),
        read_dot-decimal digit_of ascii v.minor (codes (decimal v.patch) ++ rest),
        read_digits-decimal digit_of ascii v.patch rest h,
      )
      refl

-- Two versions that are printed with their numbers and dots, with anything behind them that does not
-- start with a digit, are read back, and the one is at least the other where it is so number by number,
-- the major one first. The digits of ASCII must have their values, and the dot be none.
pub version_at_least-printed :
    (digit_of : DigitOf) (ascii : ReadsAscii digit_of) (v w : Version) (rest more : Text)
    (h : EndsDigits digit_of rest) (k : EndsDigits digit_of more)
    → (parse_semver_prefix digit_of (some (printed v ++ rest)) ≡ some v)
      × ((version_at_least digit_of (some (printed v ++ rest)) (printed w ++ more) ≡ true)
          ↔ IsAtLeast v w)
unfolding version_at_least both_at_least
version_at_least-printed digit_of ascii v w rest more h k = (
  parse_semver_prefix-printed digit_of ascii v rest h,
  rw
      (
        parse_semver_prefix-printed digit_of ascii v rest h,
        parse_semver_prefix-printed digit_of ascii w more k,
      )
      (at_least_iff v w),
)

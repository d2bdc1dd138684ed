-- ===== src/Cluster/Shell/Decimal.antt =====
-- The decimal text of a number is read back as the number; the loop has turns enough.
use gemma_4_31b_mtp_v_llm_se.Prelude.{
  ℕ, zero, suc, ◌+◌, ◌-◌, ◌*◌, ◌/◌, ◌%◌, ◌<◌, Bool, true, false, ◌&&◌, ◌≡◌, refl, sym, ap, ◌∙◌, inl,
  inr, some, [], ◌∷◌, ◌++◌, arith, leb, ltb, ltb→lt, Bool-cases, append_assoc, append-nil,
}
use gemma_4_31b_mtp_v_llm_se.Prelude.Text.{Text, codes}
use gemma_4_31b_mtp_v_llm_se.Gateway.Http.{parse_digits}
use gemma_4_31b_mtp_v_llm_se.Cluster.Shell.{digit_text, decimal_loop, decimal}
use gemma_4_31b_mtp_v_llm_se.Cluster.Shell.RoundTrip.{codes-append}
use Prim.Native.String.{◌++◌ as ◌<>◌}

pub codes-digit : (d : ℕ) → d < 10 → codes (digit_text d) ≡ (d + b'0') ∷ []
unfolding digit_text
codes-digit zero h = refl
codes-digit (suc zero) h = refl
codes-digit (suc (suc zero)) h = refl
codes-digit (suc (suc (suc zero))) h = refl
codes-digit (suc (suc (suc (suc zero)))) h = refl
codes-digit (suc (suc (suc (suc (suc zero))))) h = refl
codes-digit (suc (suc (suc (suc (suc (suc zero)))))) h = refl
codes-digit (suc (suc (suc (suc (suc (suc (suc zero))))))) h = refl
codes-digit (suc (suc (suc (suc (suc (suc (suc (suc zero)))))))) h = refl
codes-digit (suc (suc (suc (suc (suc (suc (suc (suc (suc zero))))))))) h = refl
codes-digit (suc (suc (suc (suc (suc (suc (suc (suc (suc (suc d)))))))))) h = absurd (omega arith)

in_range : (d : ℕ) → d < 10 → (leb b'0' (d + b'0') && leb (d + b'0') b'9') ≡ true
in_range d h = ground arith

digit_value : (d : ℕ) → d + b'0' - b'0' ≡ d
digit_value d = omega arith

parse-digit :
    (value : ℕ) (digit : Bool) (d : ℕ) (rest : Text)
    → d < 10
    → parse_digits value digit ((d + b'0') ∷ rest) ≡ parse_digits (value * 10 + d) true rest
unfolding parse_digits
parse-digit value digit d rest h = rw (in_range d h, digit_value d) refl

pub loop_small : (fuel n : ℕ) → ltb n 10 ≡ true → decimal_loop (suc fuel) n ≡ digit_text n
unfolding decimal_loop
loop_small fuel n h = ground arith

pub loop_large :
    (fuel n : ℕ)
    → ltb n 10 ≡ false
    → decimal_loop (suc fuel) n ≡ decimal_loop fuel (n / 10) <> digit_text (n % 10)
unfolding decimal_loop
loop_large fuel n h = ground arith

pub large_less : (n fuel : ℕ) → ltb n 10 ≡ false → n < suc fuel → n / 10 < fuel
large_less n fuel e h = ground arith

pub zero_times : (n : ℕ) → 0 * 10 + n ≡ n
zero_times n = omega arith

pub divided : (n : ℕ) → n / 10 * 10 + n % 10 ≡ n
divided n = omega arith

parse-decimal_loop :
    (fuel n : ℕ) (digit : Bool) (rest : Text)
    → n < fuel
    → parse_digits 0 digit (codes (decimal_loop fuel n) ++ rest) ≡ parse_digits n true rest
parse-decimal_loop zero n digit rest h = absurd (omega arith)
parse-decimal_loop (suc fuel) n digit rest h = elim (Bool-cases (ltb n 10)) [
  | inl e ↦
      let small : n < 10 = ltb→lt n 10 e in
      rw (loop_small fuel n e, codes-digit n small)
        (parse-digit 0 digit n rest small ∙ ap (λ m. parse_digits m true rest) (zero_times n))
  | inr e ↦
      let less : n / 10 < fuel = large_less n fuel e h in
      let last : n % 10 < 10 = omega arith in
      rw
        (
          loop_large fuel n e,
          codes-append (decimal_loop fuel (n / 10)) (digit_text (n % 10)),
          codes-digit (n % 10) last,
          append_assoc (codes (decimal_loop fuel (n / 10))) ((n % 10 + b'0') ∷ []) rest,
          parse-decimal_loop fuel (n / 10) digit ((n % 10 + b'0') ∷ rest) less,
          parse-digit (n / 10) true (n % 10) rest last,
        )
        (ap (λ m. parse_digits m true rest) (divided n))
]

ended : (n : ℕ) → parse_digits n true [] ≡ some n
unfolding parse_digits
ended n = refl

-- `int(str(n)) == n`
pub parse-decimal : (n : ℕ) → parse_digits 0 false (codes (decimal n)) ≡ some n
parse-decimal n =
    unfold decimal in
    rw (sym (append-nil (codes (decimal_loop (suc n) n))))
      (parse-decimal_loop (suc n) n false [] (omega arith) ∙ ended n)

-- ===== src/Metrics/Tests.antt =====
-- Runs, and the theorems at concrete texts and states, with whole numbers for floats.
use gemma_4_31b_mtp_v_llm_se.Prelude.{
  ℕ, ◌+◌, ◌-◌, ◌≡◌, refl, true, false, none, some, [], ◌∷◌, ◌++◌, any, ltb,
}
use gemma_4_31b_mtp_v_llm_se.Prelude.Text.{Text, codes}
use gemma_4_31b_mtp_v_llm_se.Gateway.Http.{parse_digits}
use gemma_4_31b_mtp_v_llm_se.Metrics.Lines.{drafted, metric_kind, kind_of, normalize, split_lines}
use gemma_4_31b_mtp_v_llm_se.Metrics.{Ops, no_totals, MtpState, samples_of, parse_mtp_metrics}
use gemma_4_31b_mtp_v_llm_se.Metrics.Reference.{
  first_error, is_sample, sums_of, state_of, parse_mtp_metrics-eq-sums,
}

abbrev whole : Ops ℕ
whole = record {
  float_of = parse_digits 0 false;
  is_finite = λ n. true;
  nought = 0;
  plus = λ m n. m + n;
  minus = λ m n. m - n;
  over = λ m n. m;
  gt = λ m n. ltb n m;
}

abbrev text_after : Text
text_after =
    codes "# HELP\nvllm:spec_decode_num_draft_tokens_total{model_name=\"gemma\"} 12\n"
    ++ codes "vllm:spec_decode_num_draft_tokens_total{model_name=\"other\"} 7\n"

parse_mtp_metrics-eq-sums_example :
    parse_mtp_metrics whole text_after (some (codes "gemma"))
    ≡ state_of whole
        (first_error (samples_of whole (some (codes "gemma")) text_after))
        (any is_sample (samples_of whole (some (codes "gemma")) text_after))
        (sums_of whole (no_totals whole) (samples_of whole (some (codes "gemma")) text_after))
parse_mtp_metrics-eq-sums_example =
    parse_mtp_metrics-eq-sums whole text_after (some (codes "gemma"))

abbrev state_after : MtpState ℕ
state_after = parse_mtp_metrics whole text_after (some (codes "gemma"))

abbrev state_before : MtpState ℕ
state_before = parse_mtp_metrics whole (codes "vllm:spec_decode_num_drafts_total 3\n") none

lines : split_lines (codes "a\r\n\nb\n") ≡ codes "a" ∷ [] ∷ codes "b" ∷ []
unfolding split_lines
lines = refl

kind : metric_kind (codes "vllm:spec_decode_num_draft_tokens_total") ≡ some drafted
unfolding metric_kind kind_of normalize
kind = refl

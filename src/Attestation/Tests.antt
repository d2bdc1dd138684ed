-- ===== src/Attestation/Tests.antt =====
-- The theorems about configurations at concrete ones.
use text.Mathlib.Text.{◌==◌ as str_eq}
use gemma_4_31b_mtp_v_llm_se.Prelude.{◌||◌, if◌then◌else◌}
use gemma_4_31b_mtp_v_llm_se.Prelude.{◌≡◌, ◌↔◌, refl, true, false, none, some, [], ◌∷◌, All}
use gemma_4_31b_mtp_v_llm_se.Json.{
  pos, nan, null, bool, int, str, dict, Fields, no_entries, entry, get_or_null,
}
use gemma_4_31b_mtp_v_llm_se.Attestation.{Python, attestation_fields, config_matches}
use gemma_4_31b_mtp_v_llm_se.Attestation.Merging.{merge_observed_config}
use gemma_4_31b_mtp_v_llm_se.Attestation.Merged.{last_known, merge_observed_config-last_known}
use gemma_4_31b_mtp_v_llm_se.Attestation.Verified.{IsAttested, config_matches_iff}

abbrev pub python : Python
python = record {
  is_digits = λ s. str_eq s "4096" || str_eq s "²";
  int_of_text = λ s. if str_eq s "4096" then some (pos 4096) else none;
  float_of_text = λ s. none;
  float_of_int = λ n. nan;
  is_near = λ x y. false;
  same = λ v w. false;
  digit_of = λ c. none;
}

abbrev from_models : Fields
from_models =
    entry "max_model_len" (int (pos 4096)) (
      entry "_sources" (dict (entry "max_model_len" (str "vllm_models_api") no_entries)) no_entries)

abbrev from_process : Fields
from_process = entry "max_model_len" null (entry "enforce_eager" (bool true) no_entries)

merge_observed_config-last_known_example :
    get_or_null "max_model_len" (merge_observed_config (from_models ∷ from_process ∷ []))
    ≡ last_known "max_model_len" null (from_models ∷ from_process ∷ [])
merge_observed_config-last_known_example =
    merge_observed_config-last_known (from_models ∷ from_process ∷ []) "max_model_len" refl

config_matches_iff_example :
    (config_matches python from_models (merge_observed_config (from_models ∷ from_process ∷ []))
      ≡ some true)
    ↔ All
        (IsAttested python from_models (merge_observed_config (from_models ∷ from_process ∷ [])))
        attestation_fields
config_matches_iff_example =
    config_matches_iff python from_models (merge_observed_config (from_models ∷ from_process ∷ []))

-- ===== src/Attestation/Trusted/Tests.antt =====
-- Observations of concrete command lines and manifests.
use gemma_4_31b_mtp_v_llm_se.Json.{get_or_null}
use gemma_4_31b_mtp_v_llm_se.Attestation.{int_or_none}
use gemma_4_31b_mtp_v_llm_se.Attestation.Argv.{option_value}
use gemma_4_31b_mtp_v_llm_se.Attestation.Matching.{Reads, ReadsArgv}
use gemma_4_31b_mtp_v_llm_se.Prelude.{
  ◌≡◌, refl, subst, arith, ℕ, String, true, leb, Option, none, some, List, [], ◌∷◌, drop, length,
  if-cases, if◌then◌else◌,
}
use gemma_4_31b_mtp_v_llm_se.Prelude.Text.{Text, codes}
use gemma_4_31b_mtp_v_llm_se.Prelude.Chars.{text_of}
use gemma_4_31b_mtp_v_llm_se.Json.{pos, Value, int, str, list, dict, Fields, no_entries, entry, get}
use gemma_4_31b_mtp_v_llm_se.Redaction.{Codec}
use gemma_4_31b_mtp_v_llm_se.Redaction.Total.{strings_pass, is_shorter}
use gemma_4_31b_mtp_v_llm_se.Attestation.Observed.{
  Runtime, texts, observed_config_from_process_argv,
}
use gemma_4_31b_mtp_v_llm_se.Attestation.Manifest.{observed_config_from_active_manifest}
use gemma_4_31b_mtp_v_llm_se.Attestation.Trusted.{IsTrusted, active_manifest-IsTrusted}
use gemma_4_31b_mtp_v_llm_se.Attestation.Tests.{python}

-- A decoder that reads the configuration of a method from every text with more than three characters
abbrev read_method : Text → Option Value
read_method text =
    if leb 4 (length text) then some (dict (entry "method" (str "mtp") no_entries)) else none

abbrev text_of_str : Value → Text
text_of_str (str s) = codes s
text_of_str v = []

abbrev codec : Codec
codec = record { json_loads = read_method; json_dumps = text_of_str }

abbrev runtime : Runtime
runtime = record { python = python; codec = codec; str_of = text_of_str; sha256 = text_of }

abbrev Passes : ℕ → Option Value → Type 0
Passes n none = Unit
Passes n (some v) = strings_pass (is_shorter n) v ≡ true

read_method-shorter :
    (text : Text) (v : Value)
    → read_method text ≡ some v
    → strings_pass (is_shorter (length text)) v ≡ true
unfolding strings_pass
read_method-shorter text v e = subst (Passes (length text)) e (
    if-cases (Passes (length text)) (leb 4 (length text))
      (some (dict (entry "method" (str "mtp") no_entries))) none (λ long. ground (arith, long))
      (λ short. tt))

abbrev served : List Text
served =
    codes "/opt/venv/vllm"
    ∷ codes "serve"
    ∷ codes "google/gemma"
    ∷ codes "--max-model-len=4096"
    ∷ codes "--quantization"
    ∷ codes "fp8"
    ∷ codes "--enforce-eager"
    ∷ codes "--speculative-config"
    ∷ codes "method"
    ∷ []

-- The manifest of the same command with another path before `serve`
abbrev manifest : Fields
manifest = entry "pid" (int (pos 7)) (
    entry "argv" (list (texts (codes "vllm" ∷ drop 1 served)))
      (entry "package_versions" (dict (entry "vllm" (str "0.11.0") no_entries)) no_entries))

abbrev observed_of : Option Fields → String → Option Value
observed_of none key = none
observed_of (some out) key = get key out

observed_method :
    observed_of
      (observed_config_from_active_manifest runtime manifest (some (pos 7)) (some served))
      "mtp_method"
    ≡ some (str "mtp")
unfolding observed_config_from_active_manifest text_of
observed_method = refl

observed_version :
    observed_of
      (observed_config_from_active_manifest runtime manifest (some (pos 7)) (some served))
      "vllm_version"
    ≡ some (str "0.11.0")
unfolding observed_config_from_active_manifest text_of
observed_version = refl

observed_quantization :
    observed_of (observed_config_from_process_argv runtime served) "quantization" ≡ some (str "fp8")
unfolding observed_config_from_process_argv text_of
observed_quantization = refl

-- A path in the name under which the model is served stays.
kept_name :
    observed_of
      (observed_config_from_process_argv runtime (codes "--served-model-name=/home/ann/m" ∷ []))
      "served_model_name"
    ≡ some (str "/home/ann/m")
unfolding observed_config_from_process_argv text_of
kept_name = refl

-- The manifest of a process with another pid tells nothing.
other_pid :
    observed_config_from_active_manifest runtime manifest (some (pos 8)) (some served)
    ≡ some no_entries
unfolding observed_config_from_active_manifest text_of
other_pid = refl

observed_length :
    observed_of (observed_config_from_process_argv runtime served) "max_model_len"
    ≡ some (int (pos 4096))
unfolding observed_config_from_process_argv text_of
observed_length = refl

-- `isdigit` holds of the text, and `int` raises.
refused_length :
    observed_config_from_process_argv runtime (codes "--max-model-len" ∷ codes "²" ∷ []) ≡ none
unfolding observed_config_from_process_argv text_of
refused_length = refl

pid-Reads : Reads runtime (get_or_null "pid" manifest)
unfolding int_or_none get_or_null get
pid-Reads = (some (pos 7), refl)

served-ReadsArgv : ReadsArgv runtime (some served)
unfolding int_or_none option_value text_of get
served-ReadsArgv =
    ((tt, (tt, ((some (pos 4096), refl), (tt, (tt, (tt, (tt, ((none, refl), (tt, tt))))))))), tt)

active_manifest-IsTrusted_example :
    (out : Fields) × (observed_config_from_active_manifest runtime manifest
        (some (pos 7))
        (some served)
      ≡ some out)
    × IsTrusted runtime read_method-shorter manifest (some (pos 7)) (some served) "quantization" out
active_manifest-IsTrusted_example =
    active_manifest-IsTrusted runtime read_method-shorter manifest (some (pos 7)) (some served)
      "quantization" refl pid-Reads served-ReadsArgv

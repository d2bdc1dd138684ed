-- ===== src/Attestation/Observed.antt =====
-- The configuration observed of a running server, from its command line and the manifest of its launch, of
-- src/gemma4_mtp_vllm/runtime_config.py. `none` stands for a redaction that does not return and for
-- a ValueError.
use gemma_4_31b_mtp_v_llm_se.Prelude.{
  String, Option, none, some, List, [], ◌∷◌, any, is_empty, if◌then◌else◌,
}
use gemma_4_31b_mtp_v_llm_se.Prelude.Text.{Text, codes}
use gemma_4_31b_mtp_v_llm_se.Prelude.Chars.{text_of}
use gemma_4_31b_mtp_v_llm_se.Json.{
  Value, bool, str, list, dict, Items, no_items, item, Fields, no_entries, get,
}
use gemma_4_31b_mtp_v_llm_se.Metrics.Lines.{text_eq}
use gemma_4_31b_mtp_v_llm_se.Gateway.Completions.{set_field}
use gemma_4_31b_mtp_v_llm_se.Redaction.{Codec, redact_public_value}
use gemma_4_31b_mtp_v_llm_se.Redaction.Arguments.{redact_argv}
use gemma_4_31b_mtp_v_llm_se.Attestation.{Python, int_or_none}
use gemma_4_31b_mtp_v_llm_se.Attestation.Argv.{
  find_serve_index, argument_after, option_value, int_value, coerce_argv_value,
}

infixl 10 ◌>>=◌
abbrev pub ◌>>=◌ {ℓ κ} : {A : Type ℓ} {B : Type κ} → Option A → (A → Option B) → Option B
none >>= f = none
some a >>= f = f a

-- What the file takes from Python, json and hashlib
pub record Runtime : Type 0 where
  pub python : Python
  pub codec : Codec
  pub str_of : Value → Text
  pub sha256 : Text → String

-- What is observed so far, and the sources
abbrev pub Observed : Type 0
Observed = Fields × Fields

unfoldable pub observe : String → String → Value → Observed → Observed
unfolding set_field
observe source field v (observed, sources) =
    (set_field field v observed, set_field field (str source) sources)

unfoldable pub observe_if : String → Option Value → Observed → Observed
unfolding observe
observe_if field none o = o
observe_if field (some v) o = observe "process_cmdline" field v o

abbrev pub texts : List Text → Items
texts [] = no_items
texts (value ∷ argv) = item (str (text_of value)) (texts argv)

-- The value of a field that may not be there
abbrev pub redacted_if : Codec → Option Value → Option (Option Value)
redacted_if codec none = some none
redacted_if codec (some v) = redact_public_value codec v >>= λ w. some (some w)

abbrev pub text_value : Option Text → Option Value
text_value none = none
text_value (some value) = some (str (text_of value))

abbrev pub option_map : List (String × Text)
option_map =
    ("served_model_name", codes "--served-model-name")
    ∷ ("tensor_parallel_size", codes "--tensor-parallel-size")
    ∷ ("max_model_len", codes "--max-model-len")
    ∷ ("gpu_memory_utilization", codes "--gpu-memory-utilization")
    ∷ ("cpu_offload_gb", codes "--cpu-offload-gb")
    ∷ ("max_num_seqs", codes "--max-num-seqs")
    ∷ ("max_num_batched_tokens", codes "--max-num-batched-tokens")
    ∷ ("quantization", codes "--quantization")
    ∷ ("kv_cache_dtype", codes "--kv-cache-dtype")
    ∷ []

abbrev pub coerced : Python → String → Option Text → Option (Option Value)
coerced p field none = some none
coerced p field (some value) = coerce_argv_value p field value >>= λ v. some (some v)

-- The loop over `option_map`
unfoldable pub observe_options :
    Python → List Text → List (String × Text) → Observed → Option Observed
unfolding observe_if option_value coerce_argv_value
observe_options p argv [] o = some o
observe_options p argv ((field, option) ∷ options) o =
    coerced p field (option_value option argv) >>= λ v.
    observe_options p argv options (observe_if field v o)

unfoldable pub observe_flags : List Text → Observed → Observed
unfolding observe text_eq
observe_flags argv o =
    observe "process_cmdline" "language_model_only"
      (bool (any (text_eq (codes "--language-model-only")) argv))
      (observe "process_cmdline" "enforce_eager"
        (bool (any (text_eq (codes "--enforce-eager")) argv)) o)

-- The model of the speculative configuration: only a text is redacted
abbrev pub redacted_model : Codec → Option Value → Option (Option Value)
redacted_model codec (some (str s)) = redacted_if codec (some (str s))
redacted_model codec v = some v

abbrev pub int_if : Python → Option Value → Option (Option Value)
int_if p none = some none
int_if p (some v) = int_value (int_or_none p v) >>= λ w. some (some w)

unfoldable pub observe_spec : Runtime → Value → Observed → Option Observed
unfolding observe_if get redact_public_value int_or_none
observe_spec r (dict spec) o = do
  model ← redacted_model r.codec (get "model" spec)
  tokens ← int_if r.python (get "num_speculative_tokens" spec)
  some (
      observe_if "num_speculative_tokens" tokens
        (observe_if "drafter_model" model (observe_if "mtp_method" (get "method" spec) o)))
observe_spec r v o = some o

abbrev pub spec_of : Option Value → Value
spec_of none = dict no_entries
spec_of (some v) = v

unfoldable pub observe_speculative : Runtime → Option Text → Observed → Option Observed
unfolding observe_spec
observe_speculative r none o = some o
observe_speculative r (some text) o =
    if is_empty text then some o else observe_spec r (spec_of (r.codec.json_loads text)) o

unfoldable pub with_sources : Observed → Fields
unfolding set_field
with_sources (observed, sources) = set_field "_sources" (dict sources) observed

-- The argument after `serve`
abbrev pub served_model : List Text → Option Value
served_model argv = text_value (argument_after argv (find_serve_index argv))

-- What is observed before the speculative configuration is read
unfoldable pub observe_argv : Runtime → List Text → List Text → Option Value → Option Observed
unfolding observe observe_if observe_options observe_flags
observe_argv r argv redacted target = do
  observed ← observe_options r.python argv option_map (
      observe_if "target_model" target
        (observe "process_cmdline" "runtime_argv" (list (texts redacted)) (no_entries, no_entries)))
  some (observe_flags argv observed)

-- `observed_config_from_process_argv`
unfoldable pub observed_config_from_process_argv : Runtime → List Text → Option Fields
unfolding observe_argv observe_speculative with_sources redact_argv redact_public_value
    find_serve_index option_value
observed_config_from_process_argv r argv = do
  redacted ← redact_argv r.codec argv
  target ← redacted_if r.codec (served_model argv)
  before ← observe_argv r argv redacted target
  observed ← observe_speculative r (option_value (codes "--speculative-config") argv) before
  some (with_sources observed)

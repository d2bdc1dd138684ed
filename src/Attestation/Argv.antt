-- ===== src/Attestation/Argv.antt =====
-- What src/gemma4_mtp_vllm/runtime_config.py reads of the command line of a server.
use gemma_4_31b_mtp_v_llm_se.Prelude.{
  ℕ, suc, String, not, ◌&&◌, Option, none, some, List, [], ◌∷◌, ◌++◌, any, drop, length, is_empty,
  if◌then◌else◌,
}
use gemma_4_31b_mtp_v_llm_se.Prelude.Text.{Text, codes, starts_with}
use gemma_4_31b_mtp_v_llm_se.Prelude.Chars.{text_of}
use gemma_4_31b_mtp_v_llm_se.Json.{ℤ, Float, Value, null, int, float, str}
use gemma_4_31b_mtp_v_llm_se.Metrics.Lines.{text_eq}
use gemma_4_31b_mtp_v_llm_se.Attestation.{Python, int_or_none, float_or_none}
use text.Mathlib.Text.{◌==◌ as str_eq}

abbrev pub next_index : Option ℕ → Option ℕ
next_index none = none
next_index (some n) = some (suc n)

-- `_find_serve_index`
unfoldable pub find_serve_index : List Text → Option ℕ
unfolding text_eq
find_serve_index [] = none
find_serve_index (value ∷ argv) =
    let rest = find_serve_index argv in
    if text_eq value (codes "serve") then some 0 else next_index rest

abbrev pub tail_at : List Text → Option ℕ → Option (List Text)
tail_at argv none = none
tail_at argv (some n) = some (drop n argv)

-- `_argv_tail_from_serve`
unfoldable pub argv_tail_from_serve : List Text → Option (List Text)
unfolding find_serve_index
argv_tail_from_serve argv = tail_at argv (find_serve_index argv)

abbrev pub first_of : List Text → Option Text
first_of [] = none
first_of (value ∷ argv) = some value

abbrev pub argument_after : List Text → Option ℕ → Option Text
argument_after argv none = none
argument_after argv (some n) = first_of (drop (suc n) argv)

abbrev pub or_later : Option Text → Option Text → Option Text
or_later (some value) later = some value
or_later none later = later

-- One turn of `_option_value`, with the arguments behind
unfoldable pub value_at : Text → Text → List Text → Option Text
unfolding text_eq starts_with
value_at option value argv =
    if text_eq value option && not (is_empty argv)
    then first_of argv
    else if starts_with value (option ++ b'=' ∷ [])
    then some (drop (length (option ++ b'=' ∷ [])) value)
    else none

-- `_option_value`
unfoldable pub option_value : Text → List Text → Option Text
unfolding value_at
option_value option [] = none
option_value option (value ∷ argv) =
    or_later (value_at option value argv) (option_value option argv)

abbrev pub int_value : Option (Option ℤ) → Option Value
int_value none = none
int_value (some none) = some null
int_value (some (some n)) = some (int n)

abbrev pub float_value : Option Float → Value
float_value none = null
float_value (some x) = float x

abbrev pub int_fields : List String
int_fields =
    "tensor_parallel_size" ∷ "max_model_len" ∷ "max_num_seqs" ∷ "max_num_batched_tokens" ∷ []

abbrev pub float_fields : List String
float_fields = "gpu_memory_utilization" ∷ "cpu_offload_gb" ∷ []

-- `_coerce_argv_value`, or `none` for a ValueError
unfoldable pub coerce_argv_value : Python → String → Text → Option Value
unfolding int_or_none float_or_none
coerce_argv_value p field value =
    if any (str_eq field) int_fields
    then int_value (int_or_none p (str (text_of value)))
    else if any (str_eq field) float_fields
    then some (float_value (float_or_none p (str (text_of value))))
    else some (str (text_of value))

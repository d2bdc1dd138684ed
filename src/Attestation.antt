-- ===== src/Attestation.antt =====
-- src/gemma4_mtp_vllm/runtime_config.py: how what was observed of a running server is compared
-- with what its profile asks for. `none` stands for a TypeError or a ValueError. The functions of Python that it takes are
-- the fields of `Python`.
pub mod Merging
pub mod Merged
pub mod Verified
pub mod Argv
pub mod Observed
pub mod Manifest
pub mod Matching
pub mod Written
pub mod Reading
pub mod Current
pub mod Trusted
mod Tests
use gemma_4_31b_mtp_v_llm_se.Prelude.{
  ℕ, String, Bool, true, false, not, ◌&&◌, ◌||◌, Option, none, some, List, [], ◌∷◌, any, all, map,
  if◌then◌else◌,
}
use gemma_4_31b_mtp_v_llm_se.Prelude.Text.{Text, codes}
use gemma_4_31b_mtp_v_llm_se.Json.{
  ℤ, pos, negsuc, Float, Value, null, bool, int, float, str, list, dict, Fields, no_entries, entry,
  get, get_or_null, is_null, is_str,
}
use gemma_4_31b_mtp_v_llm_se.Gateway.Completions.{set_field}
use gemma_4_31b_mtp_v_llm_se.Gateway.Visible.Stream.{int_eq}
use gemma_4_31b_mtp_v_llm_se.Versions.{DigitOf, version_at_least}
use text.Mathlib.Text.{◌==◌ as str_eq}

-- `isdigit` of a text, `int` of a text, or `none` for a ValueError, `float` of a text likewise, `float` of an
-- int that is not too large, whether two floats are less than 1e-9 apart, `==` where the desired value is
-- no number, and the decimal digits
pub record Python : Type 0 where
  pub is_digits : String → Bool
  pub int_of_text : String → Option ℤ
  pub float_of_text : String → Option Float
  pub float_of_int : ℤ → Float
  pub is_near : Float → Float → Bool
  pub same : Value → Value → Bool
  pub digit_of : DigitOf

abbrev pub read_int : Option ℤ → Option (Option ℤ)
read_int none = none
read_int (some n) = some (some n)

-- `_int_or_none`, whose None is `some none`
unfoldable pub int_or_none : Python → Value → Option (Option ℤ)
int_or_none p (int n) = some (some n)
int_or_none p (str s) = if p.is_digits s then read_int (p.int_of_text s) else some none
int_or_none p v = some none

-- `_float_or_none`
unfoldable pub float_or_none : Python → Value → Option Float
float_or_none p (int n) = some (p.float_of_int n)
float_or_none p (float x) = some x
float_or_none p (str s) = p.float_of_text s
float_or_none p v = none

unfoldable pub same_int : ℤ → Option (Option ℤ) → Option Bool
unfolding int_eq
same_int n none = none
same_int n (some none) = some false
same_int n (some (some m)) = some (int_eq m n)

unfoldable pub near_float : Python → Float → Option Float → Bool
near_float p x none = false
near_float p x (some y) = p.is_near y x

unfoldable pub same_bool : Bool → Value → Bool
same_bool b (bool true) = b
same_bool b (bool false) = not b
same_bool b v = false

-- `_values_equal`
unfoldable pub values_equal : Python → Value → Value → Option Bool
unfolding same_bool same_int int_or_none float_or_none near_float
values_equal p (bool b) v = some (same_bool b v)
values_equal p (int n) v = same_int n (int_or_none p v)
values_equal p (float x) v = some (near_float p x (float_or_none p v))
values_equal p desired v = some (p.same v desired)

pub data Status : Type 0 where
  unknown not_applicable verified mismatch partial : Status

pub data Reason : Type 0 where
  not_requested not_observed source_unknown path_redacted : Reason

-- A field of the verification; its two values stand in the arguments
pub record Field : Type 0 where
  pub status : Status
  pub source : Value
  pub reason : Option Reason

abbrev pub verified_if : Bool → Status
verified_if b = if b then verified else mismatch

-- `version_at_least(observed, desired)`
unfoldable pub version_status : Python → Value → Value → Option Status
unfolding version_at_least
version_status p (str desired) (str seen) =
    some (verified_if (version_at_least p.digit_of (some (codes seen)) (codes desired)))
version_status p null (str seen) = some mismatch
version_status p desired seen = none

abbrev pub is_optional : String → Bool
is_optional field =
    any (str_eq field)
      ("kv_cache_dtype" ∷ "max_num_seqs" ∷ "max_num_batched_tokens" ∷ "quantization" ∷ [])

abbrev pub is_redacted : Value → Bool
is_redacted v = is_str "REDACTED_PATH" v

abbrev pub equal_status : Option Bool → Option Status
equal_status none = none
equal_status (some b) = some (verified_if b)

unfoldable pub compared_status : Python → String → Value → Value → Option Status
unfolding version_status values_equal
compared_status p field desired seen =
    if str_eq field "vllm_version"
    then version_status p desired seen
    else if is_null desired
    then some verified
    else equal_status (values_equal p desired seen)

abbrev pub without_reason : Value → Option Status → Option Field
without_reason source none = none
without_reason source (some status) =
    some (record { status = status; source = source; reason = none })

abbrev pub not_known : Value → Reason → Field
not_known source reason = record { status = unknown; source = source; reason = some reason }

-- `_verification_field`
unfoldable pub verification_field : Python → String → Value → Value → Value → Option Field
unfolding compared_status is_str
verification_field p field desired seen source =
    if is_null desired && (is_null seen && is_optional field)
    then some
        (record { status = not_applicable; source = str "profile"; reason = some not_requested })
    else if is_null seen
    then some (not_known source not_observed)
    else if is_str "unknown" source
    then some (not_known source source_unknown)
    else if is_redacted desired || is_redacted seen
    then some (not_known source path_redacted)
    else without_reason source (compared_status p field desired seen)

abbrev pub attestation_fields : List String
attestation_fields =
    "target_model" ∷ "served_model_name" ∷ "drafter_model" ∷ "mtp_method" ∷ "num_speculative_tokens"
    ∷ "tensor_parallel_size" ∷ "quantization" ∷ "cpu_offload_gb" ∷ "max_model_len" ∷ "max_num_seqs"
    ∷ "max_num_batched_tokens" ∷ "enforce_eager" ∷ "language_model_only" ∷ "gpu_memory_utilization"
    ∷ "kv_cache_dtype" ∷ "vllm_version" ∷ "torch_version" ∷ "cuda_version" ∷ "target_served" ∷ []

-- `sources.get(field, "unknown")`, of what stands under "_sources"
unfoldable pub source_of : Value → String → Value
unfolding get
source_of (dict sources) field = elim (get field sources) [ none ↦ str "unknown" | some v ↦ v ]
source_of v field = str "unknown"

abbrev pub and_field : Option Field → Option (List Field) → Option (List Field)
and_field none fields = none
and_field (some field) none = none
and_field (some field) (some fields) = some (field ∷ fields)

unfoldable pub field_named : Python → Fields → Fields → String → Option Field
unfolding verification_field source_of get_or_null
field_named p desired seen field =
    verification_field p field (get_or_null field desired) (get_or_null field seen)
      (source_of (get_or_null "_sources" seen) field)

unfoldable pub fields_of : Python → Fields → Fields → List String → Option (List Field)
unfolding field_named
fields_of p desired seen [] = some []
fields_of p desired seen (field ∷ fields) =
    and_field (field_named p desired seen field) (fields_of p desired seen fields)

abbrev pub is_mismatch : Field → Bool
is_mismatch field = elim field.status [ mismatch ↦ true | _ ↦ false ]

abbrev pub is_verified : Field → Bool
is_verified field = elim field.status [ verified ↦ true | _ ↦ false ]

abbrev pub is_good : Field → Bool
is_good field = elim field.status [ verified ↦ true | not_applicable ↦ true | _ ↦ false ]

unfoldable pub status_of : List Field → Status
status_of fields =
    if any is_mismatch fields
    then mismatch
    else if all is_good fields
    then verified
    else if any is_verified fields
    then partial
    else unknown

abbrev pub with_status : Option (List Field) → Option (Status × List Field)
with_status none = none
with_status (some fields) = some (status_of fields, fields)

-- `build_config_verification`, its fields in the order of the attestation
unfoldable pub build_config_verification : Python → Fields → Fields → Option (Status × List Field)
unfolding status_of fields_of
build_config_verification p desired seen = with_status (fields_of p desired seen attestation_fields)

abbrev pub is_verified_status : Option (Status × List Field) → Option Bool
is_verified_status none = none
is_verified_status (some (verified, fields)) = some true
is_verified_status (some (status, fields)) = some false

unfoldable pub config_matches : Python → Fields → Fields → Option Bool
unfolding build_config_verification
config_matches p desired seen = is_verified_status (build_config_verification p desired seen)

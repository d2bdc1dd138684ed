-- ===== src/Requests/Policy.antt =====
-- policy.py: the fields of a body that the gateway does not support. A validator accepts, or raises
-- `UnsupportedFeature`; the texts of the errors are constructors of `Reason`.
pub mod Parts
pub mod Accepts
pub mod Refusals
mod Tests
use gemma_4_31b_mtp_v_llm_se.Prelude.{
  ℕ, zero, suc, String, Bool, true, false, not, ◌&&◌, ◌||◌, Option, none, some, List, [], ◌∷◌,
  if◌then◌else◌, is_empty,
}
use gemma_4_31b_mtp_v_llm_se.Prelude.Text.{codes}
use gemma_4_31b_mtp_v_llm_se.Json.{
  pos, negsuc, Float, nan, infinity, fraction, Value, null, bool, int, float, str, list, dict,
  Items, no_items, item, Fields, no_entries, get, get_or_null, is_str, is_null, truthy,
}
use text.Mathlib.Text.{◌==◌ as str_eq}

pub data Reason : Type 0 where
  openai_field anthropic_field : String → Reason
  structured_format : Reason

pub record UnsupportedFeature : Type 0 where
  pub status_code : ℕ
  pub code : String
  pub message : Reason

pub data Verdict : Type 0 where
  accepted : Verdict
  refused : UnsupportedFeature → Verdict

abbrev pub unsupported_feature : Reason → UnsupportedFeature
unsupported_feature reason = record {
  status_code = 400;
  code = "unsupported_feature";
  message = reason;
}

abbrev pub unsupported : Reason → Verdict
unsupported reason = refused (unsupported_feature reason)

abbrev pub openai_reject_fields : List String
openai_reject_fields = "tools" ∷ "tool_choice" ∷ "function_call" ∷ "functions" ∷ "stop" ∷ []

abbrev pub anthropic_reject_fields : List String
anthropic_reject_fields =
    "tools" ∷ "tool_choice" ∷ "thinking" ∷ "mcp" ∷ "files" ∷ "stop_sequences" ∷ []

-- `isinstance(value, list) and len(value) == 0`
pub is_empty_list : Value → Bool
is_empty_list (list no_items) = true
is_empty_list v = false

-- `isinstance(value, dict) and value.get("type") == kind`
pub has_type : String → Value → Bool
has_type kind (dict fs) = is_str kind (get_or_null "type" fs)
has_type kind v = false

pub is_openai_noop : String → Value → Bool
is_openai_noop field v =
    if str_eq field "tools" && is_empty_list v
    then true
    else if str_eq field "tool_choice" && (is_null v || is_str "none" v)
    then true
    else if str_eq field "functions" && is_empty_list v
    then true
    else if str_eq field "function_call" && (is_null v || is_str "none" v)
    then true
    else if str_eq field "stop" && is_null v
    then true
    else false

pub is_anthropic_noop : String → Value → Bool
is_anthropic_noop field v =
    if str_eq field "tools" && is_empty_list v
    then true
    else if str_eq field "tool_choice" && has_type "none" v
    then true
    else if str_eq field "thinking" && has_type "disabled" v
    then true
    else if str_eq field "stop_sequences" && is_empty_list v
    then true
    else if (str_eq field "mcp" || str_eq field "files") && is_empty_list v
    then true
    else false

-- The loop over the fields that are not supported, then what the validator does behind it.
pub reject_loop :
    (String → Value → Bool) → (String → Reason) → List String → Fields → Verdict → Verdict
reject_loop is_noop reason [] payload next = next
reject_loop is_noop reason (field ∷ fields) payload next =
    let rest = reject_loop is_noop reason fields payload next in
    elim (get field payload) [
      | none ↦ rest
      | some v ↦ if is_noop field v then rest else unsupported (reason field)
    ]

-- The check of `response_format`
pub reject_format : Value → Bool → Verdict
reject_format (dict format) mtp_enabled =
    let format_type = get_or_null "type" format in
    if truthy format_type && not (is_str "text" format_type) && mtp_enabled
    then unsupported structured_format
    else accepted
reject_format v mtp_enabled = accepted

pub validate_openai_request : Fields → Bool → Verdict
validate_openai_request payload mtp_enabled =
    reject_loop is_openai_noop openai_field openai_reject_fields payload
      (reject_format (get_or_null "response_format" payload) mtp_enabled)

pub validate_anthropic_request : Fields → Verdict
validate_anthropic_request payload =
    reject_loop is_anthropic_noop anthropic_field anthropic_reject_fields payload accepted

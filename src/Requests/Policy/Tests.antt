-- ===== src/Requests/Policy/Tests.antt =====
-- Runs of the validators of policy.py, and the theorems about them at concrete bodies.
use gemma_4_31b_mtp_v_llm_se.Prelude.{◌≡◌, ◌↔◌, ◌⊎◌, refl, true, false, All}
use gemma_4_31b_mtp_v_llm_se.Json.{
  truthy, null, str, list, dict, no_items, item, Fields, no_entries, entry, get, get_or_null,
  is_str,
}
use gemma_4_31b_mtp_v_llm_se.Requests.Policy.{
  accepted, unsupported, unsupported_feature, openai_field, anthropic_field, structured_format,
  openai_reject_fields, is_empty_list, has_type, is_openai_noop, is_anthropic_noop, reject_loop,
  reject_format, validate_openai_request, validate_anthropic_request,
}
use gemma_4_31b_mtp_v_llm_se.Requests.Policy.Parts.{IsIdle, IsOpenaiPlain, IsAnthropicPlain}
use gemma_4_31b_mtp_v_llm_se.Requests.Policy.Accepts.{openai_request_iff, anthropic_request_iff}
use gemma_4_31b_mtp_v_llm_se.Requests.Policy.Refusals.{BlamesFirst, openai_request-refused}

policies : Unit {0}
unfolding validate_openai_request validate_anthropic_request reject_loop reject_format
    is_openai_noop is_anthropic_noop is_empty_list has_type truthy get get_or_null is_str
policies = tt

abbrev tools : Fields
tools = entry "tools" (list no_items) (entry "tool_choice" (str "none") no_entries)

abbrev call : Fields
call = entry "stop" (str "x") (entry "functions" (list (item null no_items)) tools)

abbrev schema : Fields
schema = entry "response_format" (dict (entry "type" (str "json_schema") no_entries)) tools

verdicts :
    (validate_openai_request tools true ≡ accepted)
    × (validate_anthropic_request tools ≡ unsupported (anthropic_field "tool_choice"))
    × (validate_openai_request call true ≡ unsupported (openai_field "functions"))
    × (validate_openai_request schema true ≡ unsupported structured_format)
    × (validate_openai_request schema false ≡ accepted)
unfolding policies
verdicts = (refl, refl, refl, refl, refl)

openai_request_iff_example :
    (validate_openai_request schema true ≡ accepted) ↔ IsOpenaiPlain schema true
openai_request_iff_example = openai_request_iff schema true

anthropic_request_iff_example :
    (validate_anthropic_request tools ≡ accepted) ↔ IsAnthropicPlain tools
anthropic_request_iff_example = anthropic_request_iff tools

openai_request-refused_example :
    BlamesFirst is_openai_noop openai_field call openai_reject_fields
      (unsupported_feature (openai_field "functions"))
    ⊎ (All (IsIdle is_openai_noop call) openai_reject_fields
        × (true ≡ true)
        × (unsupported (openai_field "functions") ≡ unsupported structured_format))
unfolding policies
openai_request-refused_example = openai_request-refused call true _ refl

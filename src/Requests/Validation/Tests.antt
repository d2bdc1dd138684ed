-- ===== src/Requests/Validation/Tests.antt =====
-- Runs of the validators, and the theorems about them at concrete bodies.
use gemma_4_31b_mtp_v_llm_se.Prelude.{◌^◌, ◌≡◌, ◌↔◌, refl, true, arith}
use gemma_4_31b_mtp_v_llm_se.Prelude.Text.{strip, is_space}
use gemma_4_31b_mtp_v_llm_se.Json.{
  pos, negsuc, fraction, nan, int, float, str, list, dict, bool, no_items, item, Fields, no_entries,
  entry, get, get_or_null, is_str,
}
use gemma_4_31b_mtp_v_llm_se.Requests.Validation.{
  ok, raise, overflow_error, invalid, must_be_number, must_be_at_most, must_be_positive,
  must_be_at_least, is_non_empty_str, is_prompt, is_text, is_text_block, content_is_text,
  content_present, validate_positive_int, validate_number, validate_bool, validate_message,
  validate_each, validate_messages, float_limit, magnitude, is_below, is_above, check_bounds,
  check_minimum, check_maximum, require_model, require_prompt, require_positive_int,
  optional_positive_int, optional_number, optional_bool, optional_system,
  validate_openai_chat_payload, validate_openai_completions_payload,
  validate_anthropic_messages_payload, validate_anthropic_count_tokens_payload,
}
use gemma_4_31b_mtp_v_llm_se.Requests.Validation.Chat.{
  IsChatRequest, IsMessageRequest, chat_payload_iff, messages_payload_iff,
}
use gemma_4_31b_mtp_v_llm_se.Requests.Validation.Errors.{
  IsAnswered, payloads-IsAnswered, temperature_overflows,
}

validators : Unit {0}
unfolding validate_openai_chat_payload validate_openai_completions_payload
    validate_anthropic_messages_payload validate_anthropic_count_tokens_payload require_model
    require_prompt require_positive_int optional_positive_int optional_number optional_bool
    optional_system validate_messages validate_each validate_message content_present content_is_text
    is_text_block is_text is_prompt is_non_empty_str validate_positive_int validate_number
    validate_bool float_limit magnitude is_below is_above check_bounds check_minimum check_maximum
    get get_or_null is_str strip
validators = tt

abbrev message : Fields
message = entry "role" (str "user") (entry "content" (str "hi") no_entries)

abbrev body : Fields → Fields
body rest =
    entry "model" (str "gemma") (entry "messages" (list (item (dict message) no_items)) rest)

abbrev half : Fields
half = entry "top_p" (float (fraction (pos 1) 1)) no_entries

verdicts :
    (validate_openai_chat_payload (body half) ≡ ok)
    × (validate_openai_chat_payload (body (entry "top_p" (int (pos 2)) no_entries))
        ≡ invalid (must_be_at_most "top_p" 1))
    × (validate_openai_chat_payload (body (entry "temperature" (bool true) no_entries))
        ≡ invalid (must_be_number "temperature"))
    × (validate_openai_chat_payload (body (entry "temperature" (float nan) no_entries))
        ≡ invalid (must_be_number "temperature"))
    × (validate_openai_chat_payload (body (entry "temperature" (int (negsuc 0)) no_entries))
        ≡ invalid (must_be_at_least "temperature" 0))
    × (validate_openai_chat_payload (body (entry "max_tokens" (int (pos 0)) no_entries))
        ≡ invalid (must_be_positive "max_tokens"))
unfolding validators
verdicts = (refl, refl, refl, refl, refl, refl)

chat_payload_iff_example :
    (validate_openai_chat_payload (body half) ≡ ok) ↔ IsChatRequest (body half)
chat_payload_iff_example = chat_payload_iff (body half)

messages_payload_iff_example :
    (validate_anthropic_messages_payload (body half) ≡ ok) ↔ IsMessageRequest (body half)
messages_payload_iff_example = messages_payload_iff (body half)

payloads-IsAnswered_example :
    IsAnswered (validate_openai_chat_payload (body half))
    × IsAnswered (validate_openai_completions_payload (body half))
    × IsAnswered (validate_anthropic_messages_payload (body half))
    × IsAnswered (validate_anthropic_count_tokens_payload (body half))
unfolding get
payloads-IsAnswered_example = payloads-IsAnswered (body half) tt tt

abbrev huge : Fields
huge = body (entry "temperature" (int (pos (2 ^ 1024))) no_entries)

temperature_overflows_example : validate_openai_chat_payload huge ≡ raise overflow_error
unfolding get float_limit magnitude is_space
temperature_overflows_example =
    temperature_overflows huge (pos (2 ^ 1024)) ("gemma", refl, refl)
      ((("user", refl, refl), tt), tt) tt tt refl (omega arith)

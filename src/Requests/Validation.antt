-- ===== src/Requests/Validation.antt =====
-- server/validation.py. A validator returns, or raises `RequestValidationError`; `isfinite` raises
-- `OverflowError` for an int that no float can hold. The texts of the errors are constructors of
-- `Message`, with the field's name and the index that the text names.
pub mod Parts
mod Checks
pub mod Chat
pub mod Errors
mod Tests
use gemma_4_31b_mtp_v_llm_se.Prelude.{
  ℕ, zero, suc, ◌+◌, ◌-◌, ◌*◌, ◌^◌, String, Bool, true, false, not, ◌&&◌, ◌||◌, Option, none, some,
  leb, ltb, if◌then◌else◌, is_empty,
}
use gemma_4_31b_mtp_v_llm_se.Prelude.Text.{codes, strip}
use gemma_4_31b_mtp_v_llm_se.Json.{
  ℤ, pos, negsuc, Float, nan, infinity, fraction, Value, null, bool, int, float, str, list, dict,
  Items, no_items, item, Fields, get, get_or_null, is_str, all_items,
}

pub data Message : Type 0 where
  model_must_be_text prompt_must_be_text system_must_be_text : Message
  is_required must_be_positive must_be_number must_be_boolean must_be_list : String → Message
  must_be_at_least must_be_at_most : String → ℕ → Message
  must_be_object role_must_be_text content_must_be_text : String → ℕ → Message

pub record RequestValidationError : Type 0 where
  pub message : Message
  pub code : String
  pub status_code : ℕ

pub data Exception : Type 0 where
  request_validation_error : RequestValidationError → Exception
  overflow_error : Exception

-- A validator returns nothing: `ok`, or what it raises.
pub data Result : Type 0 where
  ok : Result
  raise : Exception → Result

infixr 5 ◌>>◌
abbrev pub ◌>>◌ : Result → Result → Result
ok >> next = next
raise e >> next = raise e

abbrev pub invalid : Message → Result
invalid message = raise (
    request_validation_error
      (record { message = message; code = "invalid_request"; status_code = 400 }))

pub is_non_empty_str : Value → Bool
is_non_empty_str (str s) = not (is_empty (strip (codes s)))
is_non_empty_str v = false

pub require_model : Fields → Result
require_model payload =
    if is_non_empty_str (get_or_null "model" payload) then ok else invalid model_must_be_text

pub is_text : Value → Bool
is_text (str s) = true
is_text v = false

pub is_prompt : Value → Bool
is_prompt (str s) = true
is_prompt (list (item v vs)) = all_items is_text (item v vs)
is_prompt v = false

pub require_prompt : Fields → Result
require_prompt payload =
    if is_prompt (get_or_null "prompt" payload) then ok else invalid prompt_must_be_text

pub validate_positive_int : Value → String → Result
validate_positive_int (int (pos (suc n))) field = ok
validate_positive_int v field = invalid (must_be_positive field)

pub require_positive_int : Fields → String → Result
require_positive_int payload field = elim (get field payload) [
  | none ↦ invalid (is_required field)
  | some v ↦ validate_positive_int v field
]

pub optional_positive_int : Fields → String → Result
optional_positive_int payload field = elim (get field payload) [
  | none ↦ ok
  | some v ↦ validate_positive_int v field
]

-- The first int that rounds to no float: 2^1024 less half of the last place.
pub float_limit : ℕ
float_limit = 2 ^ 1024 - 2 ^ 970

pub magnitude : ℤ → ℕ
magnitude (pos n) = n
magnitude (negsuc n) = suc n

-- `value < bound` and `value > bound` for a bound that is a natural number
pub is_below : ℤ → ℕ → ℕ → Bool
is_below (pos n) d bound = ltb n (bound * suc d)
is_below (negsuc n) d bound = true

pub is_above : ℤ → ℕ → ℕ → Bool
is_above (pos n) d bound = ltb (bound * suc d) n
is_above (negsuc n) d bound = false

check_maximum : ℤ → ℕ → String → Option ℕ → Result
check_maximum n d field none = ok
check_maximum n d field (some bound) =
    if is_above n d bound then invalid (must_be_at_most field bound) else ok

check_minimum : ℤ → ℕ → String → Option ℕ → Result
check_minimum n d field none = ok
check_minimum n d field (some bound) =
    if is_below n d bound then invalid (must_be_at_least field bound) else ok

-- `n / (d + 1)` against the bounds, the minimum first
pub check_bounds : ℤ → ℕ → String → Option ℕ → Option ℕ → Result
unfolding check_minimum check_maximum
check_bounds n d field minimum maximum =
    check_minimum n d field minimum >> check_maximum n d field maximum

pub validate_number : Value → String → Option ℕ → Option ℕ → Result
validate_number (int n) field minimum maximum =
    if leb float_limit (magnitude n)
    then raise overflow_error
    else check_bounds n 0 field minimum maximum
validate_number (float (fraction n d)) field minimum maximum =
    check_bounds n d field minimum maximum
validate_number v field minimum maximum = invalid (must_be_number field)

pub optional_number : Fields → String → Option ℕ → Option ℕ → Result
optional_number payload field minimum maximum = elim (get field payload) [
  | none ↦ ok
  | some v ↦ validate_number v field minimum maximum
]

pub validate_bool : Value → String → Result
validate_bool (bool b) field = ok
validate_bool v field = invalid (must_be_boolean field)

pub optional_bool : Fields → String → Result
optional_bool payload field = elim (get field payload) [
  | none ↦ ok
  | some v ↦ validate_bool v field
]

pub is_text_block : Value → Bool
is_text_block (dict fs) = is_str "text" (get_or_null "type" fs) && is_text (get_or_null "text" fs)
is_text_block v = false

pub content_is_text : Value → Bool
content_is_text (str s) = true
content_is_text (list blocks) = all_items is_text_block blocks
content_is_text v = false

pub optional_system : Fields → Result
optional_system payload = elim (get "system" payload) [
  | none ↦ ok
  | some v ↦ if content_is_text v then ok else invalid system_must_be_text
]

content_present : Option Value → Bool
content_present none = false
content_present (some v) = content_is_text v

pub validate_message : Value → String → ℕ → Result
unfolding content_present
validate_message (dict fs) field index =
    if not (is_non_empty_str (get_or_null "role" fs))
    then invalid (role_must_be_text field index)
    else if not (content_present (get "content" fs))
    then invalid (content_must_be_text field index)
    else ok
validate_message v field index = invalid (must_be_object field index)

-- The loop over `enumerate(value)`, from the given index on.
pub validate_each : Items → String → ℕ → Result
validate_each no_items field index = ok
validate_each (item v vs) field index =
    validate_message v field index >> validate_each vs field (suc index)

pub validate_messages : Value → String → Result
validate_messages (list (item v vs)) field = validate_each (item v vs) field 0
validate_messages v field = invalid (must_be_list field)

pub validate_openai_chat_payload : Fields → Result
validate_openai_chat_payload payload =
    require_model payload
    >> validate_messages (get_or_null "messages" payload) "messages"
    >> optional_positive_int payload "max_tokens"
    >> optional_positive_int payload "top_k"
    >> optional_number payload "temperature" (some 0) none
    >> optional_number payload "top_p" (some 0) (some 1)
    >> optional_bool payload "stream"

pub validate_openai_completions_payload : Fields → Result
validate_openai_completions_payload payload =
    require_model payload
    >> require_prompt payload
    >> optional_positive_int payload "max_tokens"
    >> optional_number payload "temperature" (some 0) none
    >> optional_number payload "top_p" (some 0) (some 1)

pub validate_anthropic_messages_payload : Fields → Result
validate_anthropic_messages_payload payload =
    require_model payload
    >> require_positive_int payload "max_tokens"
    >> validate_messages (get_or_null "messages" payload) "messages"
    >> optional_system payload
    >> optional_number payload "temperature" (some 0) none
    >> optional_number payload "top_p" (some 0) (some 1)
    >> optional_positive_int payload "top_k"
    >> optional_bool payload "stream"

pub validate_anthropic_count_tokens_payload : Fields → Result
validate_anthropic_count_tokens_payload payload =
    require_model payload
    >> validate_messages (get_or_null "messages" payload) "messages"
    >> optional_system payload

-- ===== src/Requests/Validation/Errors.antt =====
-- What the validators of validation.py raise.
use gemma_4_31b_mtp_v_llm_se.Prelude.{
  ℕ, suc, ◌≤◌, ◌<◌, ◌≡◌, refl, String, Option, none, some, arith, Option-cases, inl, inr,
}
use gemma_4_31b_mtp_v_llm_se.Json.{
  IfThere, ℤ, pos, fraction, Value, int, float, list, dict, Items, no_items, item, Fields, get,
  get_or_null,
}
use gemma_4_31b_mtp_v_llm_se.Requests.Validation.{
  Result, ok, raise, ◌>>◌, request_validation_error, overflow_error, validate_messages,
  validate_message, validate_each, validate_positive_int, validate_bool, require_model,
  require_prompt, require_positive_int, optional_positive_int, optional_number, optional_bool,
  optional_system, float_limit, magnitude, validate_number, check_bounds, check_minimum,
  check_maximum, validate_openai_chat_payload, validate_openai_completions_payload,
  validate_anthropic_messages_payload, validate_anthropic_count_tokens_payload,
}
use gemma_4_31b_mtp_v_llm_se.Requests.Validation.Parts.{
  IsName, IsPositiveInt, IsThere, IsMessageList,
}
use gemma_4_31b_mtp_v_llm_se.Requests.Validation.Checks.{
  require_model_iff, optional_positive_int_iff,
}
use gemma_4_31b_mtp_v_llm_se.Requests.Validation.Chat.{messages_iff}

-- Whatever is raised is answered by status 400 and the code of an invalid request.
abbrev pub IsAnswered : Result → Type 0
IsAnswered ok = Unit
IsAnswered (raise (request_validation_error e)) =
    (e.status_code ≡ 400) × (e.code ≡ "invalid_request")
IsAnswered (raise overflow_error) = ⊥

-- An int that a float can hold
abbrev pub IsFloatable : Option Value → Type 0
IsFloatable (some (int n)) = magnitude n < float_limit
IsFloatable v = Unit

then-IsAnswered : (m next : Result) → IsAnswered m → IsAnswered next → IsAnswered (m >> next)
then-IsAnswered ok next p q = q
then-IsAnswered (raise e) next p q = p

require_model-IsAnswered : (p : Fields) → IsAnswered (require_model p)
unfolding require_model
require_model-IsAnswered p = ground arith

require_prompt-IsAnswered : (p : Fields) → IsAnswered (require_prompt p)
unfolding require_prompt
require_prompt-IsAnswered p = ground arith

validate_positive_int-IsAnswered :
    (v : Value) (field : String) → IsAnswered (validate_positive_int v field)
unfolding validate_positive_int
validate_positive_int-IsAnswered (int (pos (suc n))) field = tt
validate_positive_int-IsAnswered v field = (refl, refl)

optional_positive_int-IsAnswered :
    (p : Fields) (field : String) → IsAnswered (optional_positive_int p field)
unfolding optional_positive_int
optional_positive_int-IsAnswered p field = elim (Option-cases (get field p)) [
  | inl n ↦ ground arith
  | inr (v, e) ↦ ground (arith, validate_positive_int-IsAnswered v field)
]

require_positive_int-IsAnswered :
    (p : Fields) (field : String) → IsAnswered (require_positive_int p field)
unfolding require_positive_int
require_positive_int-IsAnswered p field = elim (Option-cases (get field p)) [
  | inl n ↦ ground arith
  | inr (v, e) ↦ ground (arith, validate_positive_int-IsAnswered v field)
]

check_bounds-IsAnswered :
    (n : ℤ) (d : ℕ) (field : String) (low high : Option ℕ)
    → IsAnswered (check_bounds n d field low high)
unfolding check_bounds check_minimum check_maximum
check_bounds-IsAnswered n d field low high = ground arith

validate_number-IsAnswered :
    (v : Value) (field : String) (low high : Option ℕ)
    → IsFloatable (some v)
    → IsAnswered (validate_number v field low high)
unfolding validate_number
validate_number-IsAnswered (int n) field low high h =
    ground (arith, check_bounds-IsAnswered n 0 field low high)
validate_number-IsAnswered (float (fraction n d)) field low high h =
    check_bounds-IsAnswered n d field low high
validate_number-IsAnswered v field low high h = (refl, refl)

optional_number-IsAnswered :
    (p : Fields) (field : String) (low high : Option ℕ)
    → IsFloatable (get field p)
    → IsAnswered (optional_number p field low high)
unfolding optional_number
optional_number-IsAnswered p field low high = there (get field p)
  where
    there :
        (o : Option Value)
        → IsFloatable o
        → IsAnswered
            (elim o as (λ _. Result) [ none ↦ ok | some v ↦ validate_number v field low high ])
    there none h = tt
    there (some v) h = validate_number-IsAnswered v field low high h

optional_bool-IsAnswered : (p : Fields) (field : String) → IsAnswered (optional_bool p field)
unfolding optional_bool validate_bool
optional_bool-IsAnswered p field = ground arith

optional_system-IsAnswered : (p : Fields) → IsAnswered (optional_system p)
unfolding optional_system
optional_system-IsAnswered p = ground arith

validate_message-IsAnswered :
    (v : Value) (field : String) (index : ℕ) → IsAnswered (validate_message v field index)
unfolding validate_message
validate_message-IsAnswered (dict fs) field index = ground arith
validate_message-IsAnswered v field index = (refl, refl)

validate_each-IsAnswered :
    (vs : Items) (field : String) (index : ℕ) → IsAnswered (validate_each vs field index)
unfolding validate_each
validate_each-IsAnswered no_items field index = tt
validate_each-IsAnswered (item v vs) field index =
    then-IsAnswered (validate_message v field index) (validate_each vs field (suc index))
      (validate_message-IsAnswered v field index) (validate_each-IsAnswered vs field (suc index))

validate_messages-IsAnswered : (v : Value) (field : String) → IsAnswered (validate_messages v field)
unfolding validate_messages
validate_messages-IsAnswered (list (item v vs)) field = validate_each-IsAnswered (item v vs) field 0
validate_messages-IsAnswered v field = (refl, refl)

-- Every body that one of the four validators refuses, whatever is wrong with it, is refused by a
-- `RequestValidationError` of status 400 and code "invalid_request", if its temperature and its
-- top_p are no ints too large for a float.
pub payloads-IsAnswered :
    (p : Fields)
    → IsFloatable (get "temperature" p)
    → IsFloatable (get "top_p" p)
    → IsAnswered (validate_openai_chat_payload p)
      × IsAnswered (validate_openai_completions_payload p)
      × IsAnswered (validate_anthropic_messages_payload p)
      × IsAnswered (validate_anthropic_count_tokens_payload p)
unfolding validate_openai_chat_payload validate_openai_completions_payload
    validate_anthropic_messages_payload validate_anthropic_count_tokens_payload
payloads-IsAnswered p t u =
    let model = require_model-IsAnswered p in
    let messages = validate_messages-IsAnswered (get_or_null "messages" p) "messages" in
    let max_tokens = optional_positive_int-IsAnswered p "max_tokens" in
    let top_k = optional_positive_int-IsAnswered p "top_k" in
    let temperature = optional_number-IsAnswered p "temperature" (some 0) none t in
    let top_p = optional_number-IsAnswered p "top_p" (some 0) (some 1) u in
    let stream = optional_bool-IsAnswered p "stream" in
    let system = optional_system-IsAnswered p in
    let either = then-IsAnswered in
    (
      either _ _ model (
          either _ _ messages (
            either _ _ max_tokens
              (either _ _ top_k (either _ _ temperature (either _ _ top_p stream))))),
      either _ _ model (
          either _ _ (require_prompt-IsAnswered p)
            (either _ _ max_tokens (either _ _ temperature top_p))),
      either _ _ model (
          either _ _ (require_positive_int-IsAnswered p "max_tokens") (
            either _ _ messages (
              either _ _ system
                (either _ _ temperature (either _ _ top_p (either _ _ top_k stream)))))),
      either _ _ model (either _ _ messages system),
    )

optional_number-overflows :
    (p : Fields) (field : String) (n : ℤ) (low high : Option ℕ)
    → get field p ≡ some (int n)
    → float_limit ≤ magnitude n
    → optional_number p field low high ≡ raise overflow_error
unfolding optional_number validate_number
optional_number-overflows p field n low high e h = ground arith

-- An int temperature too large for a float, in a chat body whose model, messages, max_tokens and
-- top_k are right, raises `OverflowError`, which is no `RequestValidationError`.
pub temperature_overflows :
    (p : Fields) (n : ℤ)
    → IsThere IsName (get "model" p)
    → IsThere IsMessageList (get "messages" p)
    → IfThere IsPositiveInt (get "max_tokens" p)
    → IfThere IsPositiveInt (get "top_k" p)
    → get "temperature" p ≡ some (int n)
    → float_limit ≤ magnitude n
    → validate_openai_chat_payload p ≡ raise overflow_error
unfolding validate_openai_chat_payload
temperature_overflows p n model messages max_tokens top_k e h = rw (
  (require_model_iff p).1 model,
  (messages_iff p).1 messages,
  (optional_positive_int_iff p "max_tokens").1 max_tokens,
  (optional_positive_int_iff p "top_k").1 top_k,
  optional_number-overflows p "temperature" n (some 0) none e h,
)

-- ===== src/Requests/Validation/Chat.antt =====
-- Which bodies the four validators of validation.py accept, and what they raise.
use gemma_4_31b_mtp_v_llm_se.Prelude.{◌≡◌, ◌↔◌, Option, none, some}
use gemma_4_31b_mtp_v_llm_se.Json.{IfThere, Value, null, Fields, get, get_or_null}
use gemma_4_31b_mtp_v_llm_se.Requests.Validation.{
  ok, validate_messages, require_model, require_prompt, require_positive_int, optional_positive_int,
  optional_number, optional_system, validate_openai_chat_payload,
  validate_openai_completions_payload, validate_anthropic_messages_payload,
}
use gemma_4_31b_mtp_v_llm_se.Requests.Validation.Parts.{
  IsName, IsPositiveInt, IsNumber, IsBool, IsTextContent, IsThere, IsMessageList, IsPrompt,
}
use gemma_4_31b_mtp_v_llm_se.Requests.Validation.Checks.{
  then_iff, validate_messages_iff, require_model_iff, require_prompt_iff, require_positive_int_iff,
  optional_positive_int_iff, optional_number_iff, optional_bool_iff, optional_system_iff,
}

validate_messages-null : validate_messages null "messages" ≡ ok → ⊥
unfolding validate_messages
validate_messages-null h = cc

pub messages_iff :
    (p : Fields)
    → (validate_messages (get_or_null "messages" p) "messages" ≡ ok)
      ↔ IsThere IsMessageList (get "messages" p)
unfolding get_or_null
messages_iff p = there (get "messages" p)
  where
    there :
        (o : Option Value)
        → (validate_messages (elim o as (λ _. Value) [ none ↦ null | some v ↦ v ]) "messages" ≡ ok)
          ↔ IsThere IsMessageList o
    there none = (λ h. validate_messages-null h, λ h. absurd h)
    there (some v) = validate_messages_iff v "messages"

-- The body of a chat completion
pub record IsChatRequest (p : Fields) : Type 0 where
  pub model : IsThere IsName (get "model" p)
  pub messages : IsThere IsMessageList (get "messages" p)
  pub max_tokens : IfThere IsPositiveInt (get "max_tokens" p)
  pub top_k : IfThere IsPositiveInt (get "top_k" p)
  pub temperature : IfThere (IsNumber (some 0) none) (get "temperature" p)
  pub top_p : IfThere (IsNumber (some 0) (some 1)) (get "top_p" p)
  pub stream : IfThere IsBool (get "stream" p)

pub record IsCompletionRequest (p : Fields) : Type 0 where
  pub model : IsThere IsName (get "model" p)
  pub prompt : IsThere IsPrompt (get "prompt" p)
  pub max_tokens : IfThere IsPositiveInt (get "max_tokens" p)
  pub temperature : IfThere (IsNumber (some 0) none) (get "temperature" p)
  pub top_p : IfThere (IsNumber (some 0) (some 1)) (get "top_p" p)

-- The body of an Anthropic message: `max_tokens` must be there.
pub record IsMessageRequest (p : Fields) : Type 0 where
  pub model : IsThere IsName (get "model" p)
  pub max_tokens : IsThere IsPositiveInt (get "max_tokens" p)
  pub messages : IsThere IsMessageList (get "messages" p)
  pub system : IfThere IsTextContent (get "system" p)
  pub temperature : IfThere (IsNumber (some 0) none) (get "temperature" p)
  pub top_p : IfThere (IsNumber (some 0) (some 1)) (get "top_p" p)
  pub top_k : IfThere IsPositiveInt (get "top_k" p)
  pub stream : IfThere IsBool (get "stream" p)

-- A chat body is accepted exactly when its model is a text that is not blank, its messages are a
-- list with an element, each with a role that is not blank and text for its content, and its
-- optional fields, where they are there, are: positive ints, a temperature of at least 0, a top_p
-- from 0 to 1 (both finite as floats, and a bool is no number), and a Boolean stream.
pub chat_payload_iff : (p : Fields) → (validate_openai_chat_payload p ≡ ok) ↔ IsChatRequest p
unfolding validate_openai_chat_payload
chat_payload_iff p = (
  λ h.
      let (model, h₁) = (then_iff (require_model p) _).0 h in
      let (messages, h₂) =
        (then_iff (validate_messages (get_or_null "messages" p) "messages") _).0 h₁ in
      let (max_tokens, h₃) = (then_iff (optional_positive_int p "max_tokens") _).0 h₂ in
      let (top_k, h₄) = (then_iff (optional_positive_int p "top_k") _).0 h₃ in
      let (temperature, h₅) = (then_iff (optional_number p "temperature" (some 0) none) _).0 h₄ in
      let (top_p, stream) = (then_iff (optional_number p "top_p" (some 0) (some 1)) _).0 h₅ in
      record {
        model = (require_model_iff p).0 model;
        messages = (messages_iff p).0 messages;
        max_tokens = (optional_positive_int_iff p "max_tokens").0 max_tokens;
        top_k = (optional_positive_int_iff p "top_k").0 top_k;
        temperature = (optional_number_iff p "temperature" (some 0) none).0 temperature;
        top_p = (optional_number_iff p "top_p" (some 0) (some 1)).0 top_p;
        stream = (optional_bool_iff p "stream").0 stream;
      },
  λ r. rw (
    (require_model_iff p).1 r.model,
    (messages_iff p).1 r.messages,
    (optional_positive_int_iff p "max_tokens").1 r.max_tokens,
    (optional_positive_int_iff p "top_k").1 r.top_k,
    (optional_number_iff p "temperature" (some 0) none).1 r.temperature,
    (optional_number_iff p "top_p" (some 0) (some 1)).1 r.top_p,
    (optional_bool_iff p "stream").1 r.stream,
  ),
)

-- A completion body is accepted exactly when its model is a text that is not blank, its prompt is a
-- text or a list of texts with an element, and max_tokens, temperature and top_p, where they are
-- there, are as for a chat body.
pub completions_payload_iff :
    (p : Fields) → (validate_openai_completions_payload p ≡ ok) ↔ IsCompletionRequest p
unfolding validate_openai_completions_payload
completions_payload_iff p = (
  λ h.
      let (model, h₁) = (then_iff (require_model p) _).0 h in
      let (prompt, h₂) = (then_iff (require_prompt p) _).0 h₁ in
      let (max_tokens, h₃) = (then_iff (optional_positive_int p "max_tokens") _).0 h₂ in
      let (temperature, top_p) =
        (then_iff (optional_number p "temperature" (some 0) none) _).0 h₃ in
      record {
        model = (require_model_iff p).0 model;
        prompt = (require_prompt_iff p).0 prompt;
        max_tokens = (optional_positive_int_iff p "max_tokens").0 max_tokens;
        temperature = (optional_number_iff p "temperature" (some 0) none).0 temperature;
        top_p = (optional_number_iff p "top_p" (some 0) (some 1)).0 top_p;
      },
  λ r. rw (
    (require_model_iff p).1 r.model,
    (require_prompt_iff p).1 r.prompt,
    (optional_positive_int_iff p "max_tokens").1 r.max_tokens,
    (optional_number_iff p "temperature" (some 0) none).1 r.temperature,
    (optional_number_iff p "top_p" (some 0) (some 1)).1 r.top_p,
  ),
)

-- An Anthropic message body is accepted exactly when it is as for a chat body, its max_tokens is
-- there, and its system, where it is there, is text.
pub messages_payload_iff :
    (p : Fields) → (validate_anthropic_messages_payload p ≡ ok) ↔ IsMessageRequest p
unfolding validate_anthropic_messages_payload
messages_payload_iff p = (
  λ h.
      let (model, h₁) = (then_iff (require_model p) _).0 h in
      let (max_tokens, h₂) = (then_iff (require_positive_int p "max_tokens") _).0 h₁ in
      let (messages, h₃) =
        (then_iff (validate_messages (get_or_null "messages" p) "messages") _).0 h₂ in
      let (system, h₄) = (then_iff (optional_system p) _).0 h₃ in
      let (temperature, h₅) = (then_iff (optional_number p "temperature" (some 0) none) _).0 h₄ in
      let (top_p, h₆) = (then_iff (optional_number p "top_p" (some 0) (some 1)) _).0 h₅ in
      let (top_k, stream) = (then_iff (optional_positive_int p "top_k") _).0 h₆ in
      record {
        model = (require_model_iff p).0 model;
        max_tokens = (require_positive_int_iff p "max_tokens").0 max_tokens;
        messages = (messages_iff p).0 messages;
        system = (optional_system_iff p).0 system;
        temperature = (optional_number_iff p "temperature" (some 0) none).0 temperature;
        top_p = (optional_number_iff p "top_p" (some 0) (some 1)).0 top_p;
        top_k = (optional_positive_int_iff p "top_k").0 top_k;
        stream = (optional_bool_iff p "stream").0 stream;
      },
  λ r. rw (
    (require_model_iff p).1 r.model,
    (require_positive_int_iff p "max_tokens").1 r.max_tokens,
    (messages_iff p).1 r.messages,
    (optional_system_iff p).1 r.system,
    (optional_number_iff p "temperature" (some 0) none).1 r.temperature,
    (optional_number_iff p "top_p" (some 0) (some 1)).1 r.top_p,
    (optional_positive_int_iff p "top_k").1 r.top_k,
    (optional_bool_iff p "stream").1 r.stream,
  ),
)

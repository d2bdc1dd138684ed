-- ===== src/Gateway/Handlers.antt =====
-- The handlers of /v1/chat/completions, /v1/messages and /v1/messages/count_tokens in server/app.py. As
-- in Gateway.Completions, a handler is the list of its calls of the runtime state and its answer. `none`
-- stands for a sanitizer out of fuel.
pub mod Slots
mod Tests
use gemma_4_31b_mtp_v_llm_se.Prelude.{
  ℕ, zero, suc, min, String, Bool, true, false, Option, none, some, List, [], ◌∷◌, ◌++◌, map,
  if◌then◌else◌,
}
use gemma_4_31b_mtp_v_llm_se.Prelude.Text.{Text}
use gemma_4_31b_mtp_v_llm_se.Json.{
  ℤ, pos, Value, str, int, Fields, no_entries, get, get_or_null, truthy,
}
use gemma_4_31b_mtp_v_llm_se.Requests.Validation.{
  Result, ok, raise, request_validation_error, overflow_error, validate_openai_chat_payload,
  validate_anthropic_messages_payload, validate_anthropic_count_tokens_payload,
}
use gemma_4_31b_mtp_v_llm_se.Requests.Policy.{
  Verdict, accepted, refused, validate_openai_request, validate_anthropic_request,
}
use gemma_4_31b_mtp_v_llm_se.Gateway.RuntimeState.{record_backend_error}
use gemma_4_31b_mtp_v_llm_se.Gateway.Completions.{
  Call, note, Answer, failed, generated, crashed, ReadBody, unreadable, object, Upstream, set_field,
  requested_tokens, vllm_error, alias_known,
}
use gemma_4_31b_mtp_v_llm_se.Gateway.Chat.Body.{Sampling, prepare_openai_body}
use gemma_4_31b_mtp_v_llm_se.Gateway.Chat.{
  StreamEnd, exhausted, http_failed, broke, Tally, no_tally, Ending, ended, caught, passed, lost,
  chat_loop, events_loop, Streaming, with_stream_slot, with_response_slot,
}
use gemma_4_31b_mtp_v_llm_se.Anthropic.{Event, message_stop, stream_events}
use gemma_4_31b_mtp_v_llm_se.Anthropic.Messages.{
  Reply, raised, out_of_fuel, anthropic_request_to_openai, openai_response_to_anthropic,
}

-- What the handlers share: the functions of Python that are arguments, and the server
pub record Server : Type 0 where
  pub str_of : Value → Text
  pub int_of : Value → Option ℤ
  pub aliases : List String
  pub served : String
  pub limit : ℕ
  pub sampling : Sampling

-- What the backend does to a body: the chunks of its stream and their end, or how its response comes,
-- and what stands in it
pub record Upstreams : Type 0 where
  pub chunks : Fields → List Fields
  pub last : Fields → StreamEnd
  pub response : Fields → Upstream
  pub reply : Fields → Fields

abbrev pub Outcome : Type 0
Outcome = Option (List Call × Answer)

-- The checks of a body: the validator, the policy, the alias
unfoldable pub checked : Server → Result → Verdict → Fields → Outcome → Outcome
unfolding alias_known get_or_null
checked server (raise (request_validation_error e)) verdict payload next =
    some ([], failed e.status_code e.code)
checked server (raise overflow_error) verdict payload next = some ([], crashed)
checked server ok (refused feature) payload next =
    some ([], failed feature.status_code feature.code)
checked server ok accepted payload next =
    if alias_known (get_or_null "model" payload) server.aliases
    then next
    else some ([], failed 404 "model_not_found")

unfoldable pub chat_with : Server → Upstreams → Bool → Streaming → Bool → Option Fields → Outcome
unfolding with_stream_slot with_response_slot chat_loop
chat_with server u admitted b streaming none = none
chat_with server u admitted b true (some body) = some (
    with_stream_slot admitted
      (λ n. chat_loop server.int_of n (u.chunks body) (u.last body) [] no_tally) b)
chat_with server u admitted b false (some body) =
    some (with_response_slot admitted (u.response body) b)

-- `chat_completions`; `admitted` tells how the attempt to get a slot ends
unfoldable pub chat_completions : ReadBody → Server → Upstreams → Bool → Streaming → Outcome
unfolding checked chat_with prepare_openai_body truthy get_or_null
chat_completions (unreadable status_code code) server u admitted b =
    some ([], failed status_code code)
chat_completions (object payload) server u admitted b =
    checked server (validate_openai_chat_payload payload) (validate_openai_request payload true)
      payload
      (chat_with server u admitted b (truthy (get_or_null "stream" payload))
        (prepare_openai_body server.str_of payload server.sampling server.limit server.served))

abbrev pub stops : List Event → Bool
stops [] = false
stops (message_stop ∷ []) = true
stops (event ∷ events) = stops events

-- The events of the translator, which lack `message_stop` where a chunk raises
abbrev pub translated : Option (List Event) → List Event × Ending
translated none = ([], lost)
translated (some events) = (events, if stops events then ended else passed)

-- The stream of the backend is read to its end before the first event.
unfoldable pub message_events : String → String → List Fields → StreamEnd → List Event × Ending
unfolding stream_events
message_events id model chunks exhausted = translated (stream_events id model 0 chunks)
message_events id model chunks http_failed = ([], caught)
message_events id model chunks broke = ([], passed)

-- `payload.get("model") or DEFAULT_ANTHROPIC_MODEL_ALIAS`, of a model that was checked
abbrev pub model_named : Value → String
model_named (str s) = s
model_named v = "claude-gemma-4-31b-mtp"

unfoldable pub run_messages : String → Value → Upstreams → Fields → ℕ → Tally × Ending
unfolding events_loop message_events
run_messages id model u body n =
    let (events, ending) = message_events id (model_named model) (u.chunks body) (u.last body) in
    events_loop n events ending no_tally

-- `openai_body["max_tokens"] = min(int(...), limit)`
unfoldable pub clamp_body : ℕ → Fields → Fields
unfolding requested_tokens set_field get
clamp_body limit body =
    set_field "max_tokens" (int (pos (min (requested_tokens (get "max_tokens" body) limit) limit)))
      body

unfoldable pub answer_with : List Call → Reply → Outcome
answer_with calls out_of_fuel = none
answer_with calls raised = some (calls, crashed)
answer_with calls reply = some (calls, generated)

-- A response that came is translated, after it was recorded; the translation may raise.
unfoldable pub translate_response : Reply → List Call × Answer → Outcome
unfolding answer_with
translate_response reply (calls, generated) = answer_with calls reply
translate_response reply r = some r

unfoldable pub messages_with :
    Server → Upstreams → Bool → Streaming → Bool → String → Value → Option Fields → Outcome
unfolding with_stream_slot with_response_slot run_messages clamp_body translate_response
    openai_response_to_anthropic
messages_with server u admitted b streaming id model none = none
messages_with server u admitted b true id model (some body) =
    some (with_stream_slot admitted (run_messages id model u (clamp_body server.limit body)) b)
messages_with server u admitted b false id model (some body) =
    translate_response
      (openai_response_to_anthropic server.int_of id (model_named model)
        (u.reply (clamp_body server.limit body)))
      (with_response_slot admitted (u.response (clamp_body server.limit body)) b)

-- `anthropic_messages`, with the identifier of the message
unfoldable pub anthropic_messages :
    ReadBody → Server → Upstreams → Bool → Streaming → String → Outcome
unfolding checked messages_with anthropic_request_to_openai truthy get_or_null
anthropic_messages (unreadable status_code code) server u admitted b id =
    some ([], failed status_code code)
anthropic_messages (object payload) server u admitted b id =
    checked server (validate_anthropic_messages_payload payload)
      (validate_anthropic_request payload) payload
      (messages_with server u admitted b (truthy (get_or_null "stream" payload)) id
        (get_or_null "model" payload)
        (anthropic_request_to_openai server.str_of payload server.served))

-- How the tokenizer answers: with a count, a `VllmHttpError`, or an error that the handler catches too
pub data Tokenized : Type 0 where
  counts : ℤ → Tokenized
  http_refused : (status_code : ℕ) (code : String) → Tokenized
  unavailable : Tokenized

unfoldable pub count_with : Tokenized → List Call × Answer
unfolding vllm_error
count_with (counts n) = ([], generated)
count_with (http_refused status_code code) = vllm_error status_code code
count_with unavailable =
    (note (record_backend_error "tokenizer_unavailable") ∷ [], failed 503 "backend_unavailable")

unfoldable pub count_body : (Fields → Tokenized) → Option Fields → Outcome
unfolding count_with
count_body tokenize none = none
count_body tokenize (some body) = some (count_with (tokenize body))

-- `anthropic_count_tokens`
unfoldable pub anthropic_count_tokens : ReadBody → Server → (Fields → Tokenized) → Outcome
unfolding checked count_body anthropic_request_to_openai
anthropic_count_tokens (unreadable status_code code) server tokenize =
    some ([], failed status_code code)
anthropic_count_tokens (object payload) server tokenize =
    checked server (validate_anthropic_count_tokens_payload payload)
      (validate_anthropic_request payload) payload
      (count_body tokenize (anthropic_request_to_openai server.str_of payload server.served))

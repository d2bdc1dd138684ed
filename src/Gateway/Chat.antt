-- ===== src/Gateway/Chat.antt =====
-- What the handlers of /v1/chat/completions and /v1/messages in server/app.py are made of: their
-- streams. A stream is given the chunks of the backend and how they end,
-- and the client, which may leave before the stream starts or at one of its events.
pub mod Body
pub mod Total
use gemma_4_31b_mtp_v_llm_se.Prelude.{
  ℕ, zero, suc, ◌+◌, min, String, Bool, true, false, not, ◌&&◌, ◌||◌, Option, none, some, List, [],
  ◌∷◌, ◌++◌, ltb, is_empty, if◌then◌else◌,
}
use gemma_4_31b_mtp_v_llm_se.Prelude.Text.{Text}
use gemma_4_31b_mtp_v_llm_se.Json.{
  ℤ, pos, negsuc, Float, Value, null, bool, int, float, str, list, dict, Items, no_items, item,
  Fields, no_entries, entry, get, get_or_null, truthy,
}
use gemma_4_31b_mtp_v_llm_se.Sanitizer.{Sanitizer, finish}
use gemma_4_31b_mtp_v_llm_se.Requests.Validation.{
  Result, ok, raise, request_validation_error, overflow_error, validate_openai_chat_payload,
  validate_anthropic_messages_payload,
}
use gemma_4_31b_mtp_v_llm_se.Requests.Policy.{
  Verdict, accepted, refused, validate_openai_request, validate_anthropic_request,
}
use gemma_4_31b_mtp_v_llm_se.Gateway.RuntimeState.{
  record_generation, record_backend_error, record_mtp_delta,
}
use gemma_4_31b_mtp_v_llm_se.Gateway.Completions.{
  Call, attempt, release, note, Answer, failed, generated, streamed, crashed, ReadBody, unreadable,
  object, Probe, Upstream, set_field, requested_tokens, generate, alias_known,
}
use gemma_4_31b_mtp_v_llm_se.Gateway.Visible.Stream.{Sanitizers, sanitize_openai_stream_chunk}
use gemma_4_31b_mtp_v_llm_se.Anthropic.{
  Event, message_start, content_block_start, content_block_delta, content_block_stop, message_delta,
  message_stop, StopReason,
}
use gemma_4_31b_mtp_v_llm_se.Anthropic.Messages.{anthropic_request_to_openai}

-- How the chunks of the backend end: by themselves, with a `VllmHttpError`, or with another exception
pub data StreamEnd : Type 0 where
  exhausted http_failed broke : StreamEnd

-- How far the client reads: it leaves before the stream starts, or at the event with the number,
-- unless the stream ends before that.
pub data Client : Type 0 where
  never_reads : Client
  reads : (events : ℕ) → Client

-- The local variables of `event_stream`
pub record Tally : Type 0 where
  pub delta_tokens : ℕ
  pub usage_tokens : Option ℤ
  pub stream_completed : Bool

abbrev pub no_tally : Tally
no_tally = record { delta_tokens = 0; usage_tokens = none; stream_completed = false }

-- How the `try` of `event_stream` ends: by itself, with the `VllmHttpError` that is caught, or with what
-- goes through the `finally`, also when the client has left. `lost` stands for a sanitizer out of fuel.
pub data Ending : Type 0 where
  ended caught passed lost : Ending

-- `_stream_usage_tokens`; `int_of` is `int`, with `none` for the errors that are caught
unfoldable pub usage_after : (Value → Option ℤ) → Value → Option ℤ → Option ℤ
unfolding get_or_null
usage_after int_of (dict usage) current = elim (int_of (get_or_null "completion_tokens" usage)) [
  | none ↦ current
  | some n ↦ some n
]
usage_after int_of v current = current

-- Whether a choice brings content
unfoldable pub brings_content : Value → Bool
unfolding truthy get_or_null
brings_content (dict choice) = elim (get_or_null "delta" choice) [
  | dict delta ↦ truthy (get_or_null "content" delta)
  | _ ↦ false
]
brings_content v = false

unfoldable pub any_content : Items → Bool
unfolding brings_content
any_content no_items = false
any_content (item v vs) = brings_content v || any_content vs

-- `_chunk_has_content_delta`, of choices that can be walked
unfoldable pub chunk_has_content_delta : Fields → Bool
unfolding any_content get_or_null
chunk_has_content_delta chunk = elim (get_or_null "choices" chunk) [
  | list vs ↦ any_content vs
  | _ ↦ false
]

-- Each sanitizer that shows a tail sends it as a last chunk, before the marker of the end.
unfoldable pub flush : ℕ → Sanitizers → Tally → Tally × Ending
flush zero [] t = (record t { stream_completed = true }, passed)
flush (suc n) [] t = (record t { stream_completed = true }, ended)
flush patience ((index, s) ∷ ss) t = elim (finish s) [
  | none ↦ (t, lost)
  | some ([], s') ↦ flush patience ss t
  | some (c ∷ cs, s') ↦ elim patience [
    | zero ↦ (record t { delta_tokens = t.delta_tokens + 1 }, passed)
    | suc n ↦ flush n ss (record t { delta_tokens = t.delta_tokens + 1 })
  ]
]

abbrev pub counted : Bool → ℕ → ℕ
counted b n = if b then n + 1 else n

-- What a chunk that was sanitized changes
unfoldable pub tally_chunk : (Value → Option ℤ) → Fields → Tally → Tally
unfolding usage_after chunk_has_content_delta get_or_null
tally_chunk int_of chunk t = record t {
  usage_tokens = usage_after int_of (get_or_null "usage" chunk) t.usage_tokens;
  delta_tokens = counted (chunk_has_content_delta chunk) t.delta_tokens;
}

unfoldable pub end_of : StreamEnd → Ending
end_of exhausted = ended
end_of http_failed = caught
end_of broke = passed

-- The `try` of the `event_stream` of chat
unfoldable pub chat_loop :
    (Value → Option ℤ) → ℕ → List Fields → StreamEnd → Sanitizers → Tally → Tally × Ending
unfolding flush tally_chunk end_of sanitize_openai_stream_chunk truthy get_or_null
chat_loop int_of patience [] stream_end ss t = (t, end_of stream_end)
chat_loop int_of patience (chunk ∷ chunks) stream_end ss t =
    elim (truthy (get_or_null "_done" chunk)) [
      | true ↦ flush patience ss t
      | false ↦ elim (sanitize_openai_stream_chunk chunk ss) [
        | none ↦ (t, lost)
        | some (shown, ss') ↦ elim patience [
          | zero ↦ (tally_chunk int_of shown t, passed)
          | suc n ↦ chat_loop int_of n chunks stream_end ss' (tally_chunk int_of shown t)
        ]
      ]
    ]

-- What an event changes
unfoldable pub tally_event : Event → Tally → Tally
tally_event (content_block_delta text) t = record t { delta_tokens = t.delta_tokens + 1 }
tally_event (message_delta reason tokens) t = record t { usage_tokens = some (pos tokens) }
tally_event message_stop t = record t { stream_completed = true }
tally_event event t = t

-- The `try` of the `event_stream` of messages, over the events of the translator, which waits for the
-- whole stream of the backend
unfoldable pub events_loop : ℕ → List Event → Ending → Tally → Tally × Ending
unfolding tally_event
events_loop patience [] ending t = (t, ending)
events_loop zero (event ∷ events) ending t = (tally_event event t, passed)
events_loop (suc n) (event ∷ events) ending t = events_loop n events ending (tally_event event t)

-- Whether anything was generated, and how many tokens are recorded
unfoldable pub is_recorded : Tally → Bool
is_recorded t = t.stream_completed || (ltb 0 t.delta_tokens || is_counted t.usage_tokens)
  where
    is_counted : Option ℤ → Bool
    is_counted none = false
    is_counted (some n) = true

unfoldable pub tokens_of : Tally → ℤ
tokens_of t = elim t.usage_tokens [ none ↦ pos t.delta_tokens | some n ↦ n ]

-- The inner `try` of the `finally`
unfoldable pub record_stream : Tally → ℤ → Fields → Probe → (Fields → Fields → Fields) → List Call
unfolding is_recorded tokens_of
record_stream t elapsed before after delta =
    if is_recorded t
    then note (record_generation (some (tokens_of t)) elapsed (pos 1)) ∷ (elim after [
      | none ↦ []
      | some fields ↦ note (record_mtp_delta (delta before fields)) ∷ []
    ])
    else []

-- The `except VllmHttpError`
unfoldable pub error_calls : Ending → List Call
error_calls caught = note (record_backend_error "vllm_http_error") ∷ []
error_calls ending = []

-- What the backend, the clock and the client do during a stream, or during a whole response
pub record Streaming : Type 0 where
  pub before : Probe
  pub elapsed : ℤ
  pub after : Probe
  pub delta : Fields → Fields → Fields
  pub client : Client

-- `event_stream`, with what its `try` left
unfoldable pub end_stream : Tally × Ending → Fields → Streaming → List Call
unfolding error_calls record_stream
end_stream (t, ending) before b =
    (error_calls ending ++ record_stream t b.elapsed before b.after b.delta) ++ release ∷ []

-- The stream, from the probe before it to the release of the slot
unfoldable pub run_stream : (ℕ → Tally × Ending) → Streaming → Probe → Client → List Call × Answer
unfolding end_stream
run_stream try_stream b none client = (release ∷ [], crashed)
run_stream try_stream b (some before) never_reads = ([], streamed)
run_stream try_stream b (some before) (reads n) = (end_stream (try_stream n) before b, streamed)

abbrev pub with_attempt : List Call × Answer → List Call × Answer
with_attempt (calls, answer) = (attempt ∷ calls, answer)

-- The slot, around a stream and around a whole response
unfoldable pub with_stream_slot : Bool → (ℕ → Tally × Ending) → Streaming → List Call × Answer
unfolding run_stream
with_stream_slot false try_stream b = (attempt ∷ [], failed 429 "queue_full")
with_stream_slot true try_stream b = with_attempt (run_stream try_stream b b.before b.client)

unfoldable pub with_response_slot : Bool → Upstream → Streaming → List Call × Answer
unfolding generate
with_response_slot false upstream b = (attempt ∷ [], failed 429 "queue_full")
with_response_slot true upstream b =
    let (calls, answer) = generate b.before upstream b.after b.delta in
    (attempt ∷ (calls ++ release ∷ []), answer)

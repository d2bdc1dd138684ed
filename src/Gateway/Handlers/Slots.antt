-- ===== src/Gateway/Handlers/Slots.antt =====
-- A slot that a handler takes is given back once, whatever the backend does, and wherever the client
-- leaves the stream once it has started.
use gemma_4_31b_mtp_v_llm_se.Prelude.{
  ℕ, ◌≡◌, ◌⊎◌, refl, ap, String, Bool, true, false, Option, none, some, List, [], ◌∷◌, ◌++◌, All,
  All-append, inl, inr, if-either,
}
use gemma_4_31b_mtp_v_llm_se.Json.{ℤ, pos, Value, Fields, get_or_null, truthy}
use gemma_4_31b_mtp_v_llm_se.Requests.Validation.{
  Result, ok, raise, request_validation_error, overflow_error, validate_openai_chat_payload,
  validate_anthropic_messages_payload,
}
use gemma_4_31b_mtp_v_llm_se.Requests.Policy.{
  Verdict, accepted, refused, validate_openai_request, validate_anthropic_request,
}
use gemma_4_31b_mtp_v_llm_se.Gateway.RuntimeState.Slots.{Note, generation, measured}
use gemma_4_31b_mtp_v_llm_se.Gateway.Completions.{
  Call, attempt, release, Answer, generated, streamed, ReadBody, unreadable, object, Upstream,
  Probe, alias_known,
}
use gemma_4_31b_mtp_v_llm_se.Gateway.Completions.Slots.{IsNote, IsBalanced, generate-Notes}
use gemma_4_31b_mtp_v_llm_se.Gateway.Chat.{
  Client, never_reads, reads, Tally, Ending, caught, is_recorded, tokens_of, record_stream,
  error_calls, Streaming, end_stream, run_stream, with_attempt, with_stream_slot,
  with_response_slot,
}
use gemma_4_31b_mtp_v_llm_se.Gateway.Chat.Total.{Exists, prepare_openai_body-Exists}
use gemma_4_31b_mtp_v_llm_se.Gateway.Handlers.{
  Server, Upstreams, Outcome, checked, chat_with, chat_completions, answer_with, translate_response,
  model_named, clamp_body, messages_with, anthropic_messages,
}
use gemma_4_31b_mtp_v_llm_se.Anthropic.Messages.{Reply, raised, out_of_fuel}
use gemma_4_31b_mtp_v_llm_se.Anthropic.Messages.Converted.{anthropic_request_to_openai-IsCleaned}
use gemma_4_31b_mtp_v_llm_se.Anthropic.Messages.Replied.{
  Replies, openai_response_to_anthropic-Replies,
}

-- The calls of a handler are balanced, or the client left before the stream started, and the slot that
-- was taken is not given back.
abbrev pub IsAccounted : Bool → Client → Outcome → Type 0
IsAccounted admitted client none = ⊥
IsAccounted admitted client (some r) =
    IsBalanced admitted r
    ⊎ ((client ≡ never_reads) × ((admitted ≡ true) × (r ≡ (attempt ∷ [], streamed))))

error_calls-AreNotes : (ending : Ending) → All IsNote (error_calls ending)
unfolding error_calls
error_calls-AreNotes caught = (λ s. Note.failed "vllm_http_error", tt)
error_calls-AreNotes ending = tt

record_stream-AreNotes :
    (t : Tally) (elapsed : ℤ) (before : Fields) (after : Probe) (delta : Fields → Fields → Fields)
    → All IsNote (record_stream t elapsed before after delta)
unfolding record_stream
record_stream-AreNotes t elapsed before none delta =
    if-either (All IsNote) (is_recorded t) _ _
      (λ s. generation (some (tokens_of t)) elapsed (pos 1), tt) tt
record_stream-AreNotes t elapsed before (some fields) delta =
    if-either (All IsNote) (is_recorded t) _ _
      (
        λ s. generation (some (tokens_of t)) elapsed (pos 1),
        (λ s. measured (delta before fields), tt),
      )
      tt

end_stream-ends :
    (r : Tally × Ending) (before : Fields) (b : Streaming)
    → (calls : List Call) × ((end_stream r before b ≡ calls ++ release ∷ []) × All IsNote calls)
unfolding end_stream
end_stream-ends (t, ending) before b = (
  error_calls ending ++ record_stream t b.elapsed before b.after b.delta,
  (
    refl,
    All-append IsNote (error_calls ending) _ (error_calls-AreNotes ending)
        (record_stream-AreNotes t b.elapsed before b.after b.delta),
  ),
)

run_stream-IsAccounted :
    (try_stream : ℕ → Tally × Ending) (b : Streaming) (before : Probe) (client : Client)
    → IsAccounted true client (some (with_attempt (run_stream try_stream b before client)))
unfolding run_stream
run_stream-IsAccounted try_stream b none client = inl (inr (inr ([], refl, refl, tt)))
run_stream-IsAccounted try_stream b (some before) never_reads = inr (refl, (refl, refl))
run_stream-IsAccounted try_stream b (some before) (reads n) =
    let (calls, (e, notes)) = end_stream-ends (try_stream n) before b in
    inl (inr (inr (calls, refl, ap (λ cs. attempt ∷ cs) e, notes)))

with_stream_slot-IsAccounted :
    (admitted : Bool) (try_stream : ℕ → Tally × Ending) (b : Streaming)
    → IsAccounted admitted b.client (some (with_stream_slot admitted try_stream b))
unfolding with_stream_slot
with_stream_slot-IsAccounted false try_stream b = inl (inr (inl (refl, refl, refl)))
with_stream_slot-IsAccounted true try_stream b =
    run_stream-IsAccounted try_stream b b.before b.client

with_response_slot-IsAccounted :
    (admitted : Bool) (upstream : Upstream) (b : Streaming)
    → IsAccounted admitted b.client (some (with_response_slot admitted upstream b))
unfolding with_response_slot
with_response_slot-IsAccounted false upstream b = inl (inr (inl (refl, refl, refl)))
with_response_slot-IsAccounted true upstream b =
    inl (inr (inr (_, refl, refl, generate-Notes b.before upstream b.after b.delta)))

answered-IsAccounted :
    (client : Client) (calls : List Call) (reply : Reply)
    → All IsNote calls
    → Replies reply
    → IsAccounted true client (answer_with (attempt ∷ (calls ++ release ∷ [])) reply)
unfolding answer_with
answered-IsAccounted client calls out_of_fuel notes h = h
answered-IsAccounted client calls raised notes h = inl (inr (inr (calls, refl, refl, notes)))
answered-IsAccounted client calls reply notes h = inl (inr (inr (calls, refl, refl, notes)))

response-IsAccounted :
    (client : Client) (calls : List Call) (answer : Answer) (reply : Reply)
    → All IsNote calls
    → Replies reply
    → IsAccounted true client (translate_response reply (attempt ∷ (calls ++ release ∷ []), answer))
unfolding translate_response
response-IsAccounted client calls generated reply notes h =
    answered-IsAccounted client calls reply notes h
response-IsAccounted client calls answer reply notes h = inl (inr (inr (calls, refl, refl, notes)))

translated-IsAccounted :
    (admitted : Bool) (upstream : Upstream) (b : Streaming) (reply : Reply)
    → Replies reply
    → IsAccounted admitted b.client
        (translate_response reply (with_response_slot admitted upstream b))
unfolding with_response_slot
translated-IsAccounted false upstream b reply h =
    unfold translate_response in inl (inr (inl (refl, refl, refl)))
translated-IsAccounted true upstream b reply h =
    response-IsAccounted b.client _ _ reply (generate-Notes b.before upstream b.after b.delta) h

checked-IsAccounted :
    (admitted : Bool) (client : Client) (server : Server) (r : Result) (verdict : Verdict)
    (payload : Fields) (next : Outcome)
    → IsAccounted admitted client next
    → IsAccounted admitted client (checked server r verdict payload next)
unfolding checked
checked-IsAccounted admitted client server (raise (request_validation_error e)) verdict payload next
      h =
    inl (inl refl)
checked-IsAccounted admitted client server (raise overflow_error) verdict payload next h =
    inl (inl refl)
checked-IsAccounted admitted client server ok (refused feature) payload next h = inl (inl refl)
checked-IsAccounted admitted client server ok accepted payload next h =
    if-either {A = Outcome} (IsAccounted admitted client)
      (alias_known (get_or_null "model" payload) server.aliases) _ _ h (inl (inl refl))

chat_with-IsAccounted :
    (server : Server) (u : Upstreams) (admitted : Bool) (b : Streaming) (streaming : Bool)
    (body : Option Fields)
    → Exists body
    → IsAccounted admitted b.client (chat_with server u admitted b streaming body)
unfolding chat_with
chat_with-IsAccounted server u admitted b streaming none h = h
chat_with-IsAccounted server u admitted b true (some body) h =
    with_stream_slot-IsAccounted admitted _ b
chat_with-IsAccounted server u admitted b false (some body) h =
    with_response_slot-IsAccounted admitted _ b

messages_with-IsAccounted :
    (server : Server) (u : Upstreams) (admitted : Bool) (b : Streaming) (streaming : Bool)
    (id : String) (model : Value) (body : Option Fields)
    → Exists body
    → IsAccounted admitted b.client (messages_with server u admitted b streaming id model body)
unfolding messages_with
messages_with-IsAccounted server u admitted b streaming id model none h = h
messages_with-IsAccounted server u admitted b true id model (some body) h =
    with_stream_slot-IsAccounted admitted _ b
messages_with-IsAccounted server u admitted b false id model (some body) h =
    translated-IsAccounted admitted _ b _ (
      openai_response_to_anthropic-Replies server.int_of id (model_named model)
        (u.reply (clamp_body server.limit body)))

chat_completions-IsAccounted :
    (body : ReadBody) (server : Server) (u : Upstreams) (admitted : Bool) (b : Streaming)
    → IsAccounted admitted b.client (chat_completions body server u admitted b)
unfolding chat_completions
chat_completions-IsAccounted (unreadable status_code code) server u admitted b = inl (inl refl)
chat_completions-IsAccounted (object payload) server u admitted b =
    checked-IsAccounted admitted b.client server (validate_openai_chat_payload payload)
      (validate_openai_request payload true) payload _
      (chat_with-IsAccounted server u admitted b (truthy (get_or_null "stream" payload)) _ (
        prepare_openai_body-Exists server.str_of payload server.sampling server.limit
          server.served))

converted-Exists : (o : Option Fields) (body : Fields) → o ≡ some body → Exists o
converted-Exists none body e = absurd (cc e)
converted-Exists (some other) body e = tt

anthropic_messages-IsAccounted :
    (body : ReadBody) (server : Server) (u : Upstreams) (admitted : Bool) (b : Streaming)
    (id : String)
    → IsAccounted admitted b.client (anthropic_messages body server u admitted b id)
unfolding anthropic_messages
anthropic_messages-IsAccounted (unreadable status_code code) server u admitted b id = inl (inl refl)
anthropic_messages-IsAccounted (object payload) server u admitted b id =
    let (messages, (cleaned, (body, (e, entries)))) =
      anthropic_request_to_openai-IsCleaned server.str_of payload server.served in
    checked-IsAccounted admitted b.client server (validate_anthropic_messages_payload payload)
      (validate_anthropic_request payload) payload _
      (messages_with-IsAccounted server u admitted b (truthy (get_or_null "stream" payload)) id
        (get_or_null "model" payload) _ (converted-Exists _ body e))

-- Whatever body comes, and whatever the backend does, the handlers of chat and of Anthropic messages call
-- nothing; or ask for a slot, are refused, and answer 429; or take a slot, record, and give the slot
-- back as their last call, once, also when the client leaves a stream that has started. Only when the
-- client leaves before the stream starts, a slot is taken and not given back.
pub handlers-IsAccounted :
    (body : ReadBody) (server : Server) (u : Upstreams) (admitted : Bool) (b : Streaming)
    (id : String)
    → IsAccounted admitted b.client (chat_completions body server u admitted b)
      × IsAccounted admitted b.client (anthropic_messages body server u admitted b id)
handlers-IsAccounted body server u admitted b id = (
  chat_completions-IsAccounted body server u admitted b,
  anthropic_messages-IsAccounted body server u admitted b id,
)

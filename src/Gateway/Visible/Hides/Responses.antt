-- ===== src/Gateway/Visible/Hides/Responses.antt =====
-- A whole response holds no field of hidden reasoning.
use gemma_4_31b_mtp_v_llm_se.Gateway.Visible.Stream.{Sanitizers, sanitize_openai_stream_chunk}
use gemma_4_31b_mtp_v_llm_se.Gateway.Visible.Hides.Chunks.{
  IsClearChunk, sanitize_openai_stream_chunk-IsClearChunk,
}
use gemma_4_31b_mtp_v_llm_se.Prelude.{◌≡◌, refl, sym, subst, Option, none, some}
use gemma_4_31b_mtp_v_llm_se.Prelude.Text.{Text, codes}
use gemma_4_31b_mtp_v_llm_se.Json.{
  Value, str, list, dict, Items, no_items, item, AllItems, Fields, get, get_or_null,
}
use gemma_4_31b_mtp_v_llm_se.Sanitizer.History.{
  visible_text_for_history, visible_text_for_history-IsTidy, tidy,
}
use gemma_4_31b_mtp_v_llm_se.Gateway.Visible.{
  drop_reasoning_fields, with_content, and_item, as_list,
}
use gemma_4_31b_mtp_v_llm_se.Gateway.Visible.Response.{
  clean_field, clean_content, clean_message, clean_message_of, clean_text, as_dict, then_clean_text,
  clean_choice, clean_choices, clean_choices_of, sanitize_openai_response,
}
use gemma_4_31b_mtp_v_llm_se.Gateway.Chat.Total.{Exists, content-Exists, shown_value-Exists}
use gemma_4_31b_mtp_v_llm_se.Gateway.Visible.Hides.{
  HidesReasoning, drop_reasoning_fields-HidesReasoning, set_field-HidesReasoning,
  get_or_null-set_field, get_or_null-set_field_other, IsClear, IsClearChoice, AreClear,
}

abbrev IsClearMessage : Option Value → Type 0
IsClearMessage none = ⊥
IsClearMessage (some v) = IsClear v

with_content-IsClearMessage :
    (message : Fields) (o : Option Value)
    → HidesReasoning message
    → Exists o
    → IsClearMessage (with_content message o)
with_content-IsClearMessage message none h k = k
with_content-IsClearMessage message (some content) h k =
    set_field-HidesReasoning "content" content message refl refl h

clean_content-IsClearMessage :
    (str_of : Value → Text) (message : Fields) (o : Option Value)
    → HidesReasoning message
    → IsClearMessage (clean_content str_of message o)
unfolding clean_content
clean_content-IsClearMessage str_of message none h = h
clean_content-IsClearMessage str_of message (some content) h =
    with_content-IsClearMessage message _ h (content-Exists str_of content)

-- A choice on its way
abbrev IsClearFields : Option Fields → Type 0
IsClearFields none = ⊥
IsClearFields (some choice) = IsClearChoice "message" (dict choice)

clean_field-IsClearFields :
    (choice : Fields) (o : Option Value)
    → HidesReasoning choice
    → IsClearMessage o
    → IsClearFields (clean_field "message" o choice)
unfolding clean_field
clean_field-IsClearFields choice none h k = k
clean_field-IsClearFields choice (some v) h k = (
  set_field-HidesReasoning "message" v choice refl refl h,
  subst IsClear (sym (get_or_null-set_field "message" v choice)) k,
)

message_of-IsClearFields :
    (str_of : Value → Text) (v : Value) (choice : Fields)
    → v ≡ get_or_null "message" choice
    → HidesReasoning choice
    → IsClearFields (clean_message_of str_of v choice)
unfolding clean_message_of
message_of-IsClearFields str_of (dict message) choice e h =
    clean_field-IsClearFields choice (clean_message str_of message) h (
      unfold clean_message in
      clean_content-IsClearMessage str_of (drop_reasoning_fields message)
        (get "content" (drop_reasoning_fields message))
        (drop_reasoning_fields-HidesReasoning message))
message_of-IsClearFields str_of v choice e h = (h, subst IsClear e tt)

text_field-IsClearFields :
    (choice : Fields) (o : Option Value)
    → Exists o
    → IsClearFields (some choice)
    → IsClearFields (clean_field "text" o choice)
unfolding clean_field
text_field-IsClearFields choice none k h = k
text_field-IsClearFields choice (some v) k (h, c) = (
  set_field-HidesReasoning "text" v choice refl refl h,
  subst IsClear (sym (get_or_null-set_field_other "message" "text" v choice refl)) c,
)

clean_text-IsClearFields :
    (v : Value) (choice : Fields)
    → IsClearFields (some choice)
    → IsClearFields (clean_text v choice)
unfolding clean_text
clean_text-IsClearFields (str text) choice h =
    let (cleaned, (same, (e, tidied))) = visible_text_for_history-IsTidy (codes text) in
    text_field-IsClearFields choice _
      (shown_value-Exists (visible_text_for_history (codes text)) (tidy cleaned) e) h
clean_text-IsClearFields v choice h = h

abbrev IsClearResult : Option Value → Type 0
IsClearResult none = ⊥
IsClearResult (some v) = IsClearChoice "message" v

as_dict-IsClearResult : (o : Option Fields) → IsClearFields o → IsClearResult (as_dict o)
as_dict-IsClearResult none h = h
as_dict-IsClearResult (some choice) h = h

then_clean_text-IsClearResult :
    (o : Option Fields) → IsClearFields o → IsClearResult (then_clean_text o)
unfolding then_clean_text
then_clean_text-IsClearResult none h = h
then_clean_text-IsClearResult (some choice) h =
    as_dict-IsClearResult _ (clean_text-IsClearFields (get_or_null "text" choice) choice h)

abbrev AreClearItems : Option Items → Type 0
AreClearItems none = ⊥
AreClearItems (some vs) = AllItems (IsClearChoice "message") vs

and_item-AreClearItems :
    (v : Option Value) (vs : Option Items)
    → IsClearResult v
    → AreClearItems vs
    → AreClearItems (and_item v vs)
and_item-AreClearItems none vs h k = h
and_item-AreClearItems (some v) none h k = k
and_item-AreClearItems (some v) (some vs) h k = (h, k)

clean_choices-AreClearItems :
    (str_of : Value → Text) (vs : Items) → AreClearItems (clean_choices str_of vs)
unfolding clean_choices clean_choice
clean_choices-AreClearItems str_of no_items = tt
clean_choices-AreClearItems str_of (item (dict choice) vs) =
    let copied = drop_reasoning_fields choice in
    and_item-AreClearItems (clean_choice str_of choice) (clean_choices str_of vs)
      (then_clean_text-IsClearResult (clean_message_of str_of (get_or_null "message" copied) copied)
        (message_of-IsClearFields str_of (get_or_null "message" copied) copied refl
          (drop_reasoning_fields-HidesReasoning choice)))
      (clean_choices-AreClearItems str_of vs)
clean_choices-AreClearItems str_of (item v vs) =
    and_item-AreClearItems (some v) (clean_choices str_of vs) tt
      (clean_choices-AreClearItems str_of vs)

-- A response is there, and its choices and their messages are clear.
abbrev pub IsClearResponse : Option Fields → Type 0
IsClearResponse none = ⊥
IsClearResponse (some response) = AreClear "message" (get_or_null "choices" response)

choices_field-IsClearResponse :
    (response : Fields) (o : Option Items)
    → AreClearItems o
    → IsClearResponse (clean_field "choices" (as_list o) response)
unfolding clean_field
choices_field-IsClearResponse response none h = h
choices_field-IsClearResponse response (some vs) h =
    subst (AreClear "message") (sym (get_or_null-set_field "choices" (list vs) response)) h

choices_of-IsClearResponse :
    (str_of : Value → Text) (v : Value) (response : Fields)
    → v ≡ get_or_null "choices" response
    → IsClearResponse (clean_choices_of str_of v response)
unfolding clean_choices_of
choices_of-IsClearResponse str_of (list vs) response e =
    choices_field-IsClearResponse response (clean_choices str_of vs)
      (clean_choices-AreClearItems str_of vs)
choices_of-IsClearResponse str_of v response e = subst (AreClear "message") e tt

pub sanitize_openai_response-IsClearResponse :
    (str_of : Value → Text) (response : Fields)
    → IsClearResponse (sanitize_openai_response str_of response)
unfolding sanitize_openai_response
sanitize_openai_response-IsClearResponse str_of response =
    choices_of-IsClearResponse str_of (get_or_null "choices" response) response refl

-- Of every chunk of a stream, whatever the sanitizers of the stream are, and of every response,
-- something is sent on: the sanitizers are never out of fuel. In what is sent on, no choice that is an
-- object has the field `reasoning_content` or `logprobs`; nor has its `delta`, in a chunk, or its
-- `message`, in a response, where that is an object.
pub sanitized-hides_reasoning :
    (chunk : Fields) (ss : Sanitizers) (str_of : Value → Text) (response : Fields)
    → IsClearChunk (sanitize_openai_stream_chunk chunk ss)
      × IsClearResponse (sanitize_openai_response str_of response)
sanitized-hides_reasoning chunk ss str_of response = (
  sanitize_openai_stream_chunk-IsClearChunk chunk ss,
  sanitize_openai_response-IsClearResponse str_of response,
)

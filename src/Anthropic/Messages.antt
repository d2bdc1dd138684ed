-- ===== src/Anthropic/Messages.antt =====
-- anthropic_adapter.py: `anthropic_request_to_openai` and `openai_response_to_anthropic`, with their
-- helpers. `none` stands for a sanitizer out of fuel. `str_of` is `str` of a value that is no text.
pub mod Cleaned
pub mod History
pub mod Converted
pub mod Replied
use gemma_4_31b_mtp_v_llm_se.Prelude.{
  ℕ, suc, String, Bool, true, false, not, ◌&&◌, Option, none, some, List, [], ◌∷◌, ◌++◌, any,
  is_empty, if◌then◌else◌,
}
use gemma_4_31b_mtp_v_llm_se.Prelude.Text.{Text, codes}
use gemma_4_31b_mtp_v_llm_se.Prelude.Chars.{text_of}
use gemma_4_31b_mtp_v_llm_se.Json.{
  ℤ, pos, Value, null, str, int, list, dict, Items, no_items, item, Fields, no_entries, entry, get,
  get_or_null, is_str, is_null, truthy,
}
use gemma_4_31b_mtp_v_llm_se.Sanitizer.{Sanitizer, init, feed, finish}
use gemma_4_31b_mtp_v_llm_se.Sanitizer.History.{visible_text_for_history}
use gemma_4_31b_mtp_v_llm_se.Anthropic.{StopReason, stop_reason}
use text.Mathlib.Text.{◌==◌ as str_eq}

-- `value if isinstance(value, str) else str(value)`
unfoldable pub text_or_str : (Value → Text) → Value → Text
text_or_str str_of (str s) = codes s
text_or_str str_of v = str_of v

-- `str(block.get("text", ""))`
unfoldable pub block_text : (Value → Text) → Fields → Text
unfolding text_or_str get
block_text str_of block = elim (get "text" block) [ none ↦ [] | some v ↦ text_or_str str_of v ]

abbrev pub is_text_block : Fields → Bool
is_text_block block = is_str "text" (get_or_null "type" block)

-- The texts of the blocks of type "text"
unfoldable pub block_texts : (Value → Text) → Items → List Text
unfolding block_text is_str get_or_null
block_texts str_of no_items = []
block_texts str_of (item (dict block) blocks) =
    let rest = block_texts str_of blocks in
    if is_text_block block then block_text str_of block ∷ rest else rest
block_texts str_of (item v blocks) = block_texts str_of blocks

-- `"\n".join(texts)`
unfoldable pub join_by_lines : List Text → Text
join_by_lines [] = []
join_by_lines (text ∷ []) = text
join_by_lines (text ∷ next ∷ texts) = text ++ (10 ∷ join_by_lines (next ∷ texts))

-- `_content_to_text` without `sanitize_thoughts`
unfoldable pub content_to_text : (Value → Text) → Value → Text
unfolding block_texts join_by_lines
content_to_text str_of null = []
content_to_text str_of (str s) = codes s
content_to_text str_of (list blocks) = join_by_lines (block_texts str_of blocks)
content_to_text str_of (dict block) =
    if is_text_block block then block_text str_of block else str_of (dict block)
content_to_text str_of v = str_of v

abbrev pub unless_empty : Text → List Text → List Text
unless_empty [] texts = texts
unless_empty (c ∷ cs) texts = (c ∷ cs) ∷ texts

-- The pieces that are shown of the texts, and of the tail, without the empty ones
unfoldable pub shown_pieces : List Text → Sanitizer → Option (List Text)
shown_pieces [] s = elim (finish s) [ none ↦ none | some (tail, s') ↦ some (unless_empty tail []) ]
shown_pieces (text ∷ texts) s = elim (feed text s) [
  | none ↦ none
  | some (piece, s') ↦ elim (shown_pieces texts s') [
    | none ↦ none
    | some pieces ↦ some (unless_empty piece pieces)
  ]
]

unfoldable pub tidy_pieces : Option (List Text) → Option Text
unfolding join_by_lines visible_text_for_history
tidy_pieces none = none
tidy_pieces (some pieces) = visible_text_for_history (join_by_lines pieces)

-- `_sanitized_content_to_text`
unfoldable pub sanitized_content_to_text : (Value → Text) → Value → Option Text
unfolding tidy_pieces shown_pieces block_texts
sanitized_content_to_text str_of null = some []
sanitized_content_to_text str_of (str s) = visible_text_for_history (codes s)
sanitized_content_to_text str_of (list blocks) =
    tidy_pieces (shown_pieces (block_texts str_of blocks) init)
sanitized_content_to_text str_of (dict block) =
    visible_text_for_history
      (if is_text_block block then block_text str_of block else str_of (dict block))
sanitized_content_to_text str_of v = visible_text_for_history (str_of v)

pub record Message : Type 0 where
  pub role : String
  pub content : Text

-- `str(message.get("role") or "user")`
unfoldable pub role_of : (Value → Text) → Value → String
unfolding truthy text_of
role_of str_of (str s) = if truthy (str s) then s else "user"
role_of str_of v = if truthy v then text_of (str_of v) else "user"

unfoldable pub content_of : (Value → Text) → String → Value → Option Text
unfolding sanitized_content_to_text content_to_text
content_of str_of role content =
    if str_eq role "assistant"
    then sanitized_content_to_text str_of content
    else some (content_to_text str_of content)

abbrev pub with_role : String → Option Text → Option Message
with_role role none = none
with_role role (some content) = some (record { role = role; content = content })

unfoldable pub message_of : (Value → Text) → Fields → Option Message
unfolding content_of role_of get_or_null
message_of str_of message =
    let role = role_of str_of (get_or_null "role" message) in
    with_role role (content_of str_of role (get_or_null "content" message))

abbrev pub and_then : Option Message → Option (List Message) → Option (List Message)
and_then none messages = none
and_then (some message) none = none
and_then (some message) (some messages) = some (message ∷ messages)

-- The loop over the messages; what is no dictionary is passed over
unfoldable pub messages_of : (Value → Text) → Items → Option (List Message)
unfolding message_of
messages_of str_of no_items = some []
messages_of str_of (item (dict message) messages) =
    and_then (message_of str_of message) (messages_of str_of messages)
messages_of str_of (item v messages) = messages_of str_of messages

unfoldable pub raw_messages : (Value → Text) → Value → Option (List Message)
unfolding messages_of
raw_messages str_of (list messages) = messages_of str_of messages
raw_messages str_of v = some []

abbrev pub with_system : Text → Option (List Message) → Option (List Message)
with_system [] messages = messages
with_system system messages =
    and_then (some (record { role = "system"; content = system })) messages

-- `_build_messages`
unfoldable pub build_messages : (Value → Text) → Fields → Option (List Message)
unfolding raw_messages content_to_text get_or_null
build_messages str_of payload =
    with_system (content_to_text str_of (get_or_null "system" payload))
      (raw_messages str_of (get_or_null "messages" payload))

unfoldable pub message_items : List Message → Items
unfolding text_of
message_items [] = no_items
message_items (m ∷ ms) =
    item (dict (entry "role" (str m.role) (entry "content" (str (text_of m.content)) no_entries)))
      (message_items ms)

abbrev pub copied_fields : List String
copied_fields = "max_tokens" ∷ "temperature" ∷ "top_p" ∷ "top_k" ∷ "seed" ∷ []

-- A field that is there and not `None`
abbrev pub unless_null : Option Value → Option Value
unless_null none = none
unless_null (some v) = if is_null v then none else some v

abbrev pub put : String → Option Value → Fields → Fields
put key none fields = fields
put key (some v) fields = entry key v fields

-- `for field in (...): if field in payload and payload[field] is not None: body[field] = ...`
unfoldable pub copy_fields : List String → Fields → Fields
unfolding get
copy_fields [] payload = no_entries
copy_fields (key ∷ keys) payload =
    put key (unless_null (get key payload)) (copy_fields keys payload)

unfoldable pub body_of : Fields → String → Option (List Message) → Option Fields
unfolding message_items copy_fields
body_of payload openai_model none = none
body_of payload openai_model (some messages) = some (
    entry "model" (str openai_model)
      (entry "messages" (list (message_items messages)) (copy_fields copied_fields payload)))

-- `anthropic_request_to_openai`
unfoldable pub anthropic_request_to_openai : (Value → Text) → Fields → String → Option Fields
unfolding build_messages body_of
anthropic_request_to_openai str_of payload openai_model =
    body_of payload openai_model (build_messages str_of payload)

-- `_extract_message_content`, or `none` where its shape raises
unfoldable pub content_shown : Value → Option Text
unfolding visible_text_for_history
content_shown (str s) = visible_text_for_history (codes s)
content_shown v = some []

pub data Reply : Type 0 where
  raised out_of_fuel : Reply
  replied :
      (id : String) (model : String) (content : Text) (reason : StopReason)
      (input_tokens output_tokens : ℤ)
      → Reply

-- `int(value or 0)`; `int_of` is `int`, with `none` where it raises
unfoldable pub count_or_zero : (Value → Option ℤ) → Value → Option ℤ
unfolding truthy
count_or_zero int_of v = if truthy v then int_of v else some (pos 0)

unfoldable pub reply_with : String → String → StopReason → Option Text → Option ℤ → Option ℤ → Reply
reply_with id model reason none input output = out_of_fuel
reply_with id model reason (some content) (some input) (some output) =
    replied id model content reason input output
reply_with id model reason (some content) input output = raised

-- `x or {}`, where x must be a dictionary
unfoldable pub fields_or_none : Value → Option Fields
unfolding truthy
fields_or_none (dict fields) = some fields
fields_or_none v = if truthy v then none else some no_entries

-- `choices[0] if choices else {}`
unfoldable pub primary_of : Value → Option Fields
unfolding truthy
primary_of (list (item (dict choice) choices)) = some choice
primary_of v = if truthy v then none else some no_entries

unfoldable pub reply_of :
    (Value → Option ℤ) → String → String → Option Fields → Option Fields → Option Fields → Reply
unfolding reply_with content_shown count_or_zero get_or_null
reply_of int_of id model (some primary) (some message) (some usage) =
    reply_with id model (stop_reason (get_or_null "finish_reason" primary))
      (content_shown (get_or_null "content" message))
      (count_or_zero int_of (get_or_null "prompt_tokens" usage))
      (count_or_zero int_of (get_or_null "completion_tokens" usage))
reply_of int_of id model primary message usage = raised

-- The message of the choice, as `_extract_message_content` takes it
unfoldable pub message_in : Option Fields → Option Fields
unfolding fields_or_none get_or_null
message_in none = none
message_in (some primary) = fields_or_none (get_or_null "message" primary)

-- `openai_response_to_anthropic`, with the identifier that it makes
unfoldable pub openai_response_to_anthropic : (Value → Option ℤ) → String → String → Fields → Reply
unfolding reply_of message_in primary_of fields_or_none get_or_null
openai_response_to_anthropic int_of id model payload =
    let primary = primary_of (get_or_null "choices" payload) in
    reply_of int_of id model primary (message_in primary)
      (fields_or_none (get_or_null "usage" payload))

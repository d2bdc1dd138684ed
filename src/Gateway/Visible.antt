-- ===== src/Gateway/Visible.antt =====
-- server/app.py: what goes to and comes from the backend, without hidden reasoning. `none` stands for
-- a sanitizer out of fuel; `str_of` is `str` of a value that is no text.
pub mod Stream
pub mod Hides
mod Tests
pub mod Response
use gemma_4_31b_mtp_v_llm_se.Prelude.{
  ℕ, String, Bool, true, false, not, ◌&&◌, Option, none, some, List, [], ◌∷◌, ◌++◌, ◌==◌,
  if◌then◌else◌,
}
use gemma_4_31b_mtp_v_llm_se.Prelude.Text.{Text, codes}
use gemma_4_31b_mtp_v_llm_se.Prelude.Chars.{text_of}
use gemma_4_31b_mtp_v_llm_se.Json.{
  ℤ, pos, negsuc, Value, null, bool, int, str, list, dict, Items, no_items, item, Fields,
  no_entries, entry, get, get_or_null, is_str, is_null, truthy,
}
use gemma_4_31b_mtp_v_llm_se.Sanitizer.{Sanitizer, init, feed, finish}
use gemma_4_31b_mtp_v_llm_se.Sanitizer.History.{visible_text_for_history}
use gemma_4_31b_mtp_v_llm_se.Gateway.Completions.{set_field}
use text.Mathlib.Text.{◌==◌ as str_eq}

-- `body.pop(key, None)`
unfoldable pub drop_field : String → Fields → Fields
drop_field key no_entries = no_entries
drop_field key (entry k v fs) =
    let rest = drop_field key fs in if str_eq k key then rest else entry k v rest

-- `_drop_openai_reasoning_fields`
unfoldable pub drop_reasoning_fields : Fields → Fields
unfolding drop_field
drop_reasoning_fields fs = drop_field "logprobs" (drop_field "reasoning_content" fs)

abbrev pub shown_value : Option Text → Option Value
shown_value none = none
shown_value (some text) = some (str (text_of text))

-- A block behind the fed ones
abbrev pub and_block : Value → Option (Items × Sanitizer) → Option (Items × Sanitizer)
and_block v none = none
and_block v (some (blocks, s)) = some (item v blocks, s)

abbrev pub shown_block : Fields → Option (Text × Sanitizer) → Option (Value × Sanitizer)
shown_block copied none = none
shown_block copied (some (shown, s)) =
    some (dict (set_field "text" (str (text_of shown)) copied), s)

-- One block: if it is of type "text", its text is fed
unfoldable pub feed_block : Value → Fields → Sanitizer → Option (Value × Sanitizer)
unfolding set_field is_str get_or_null
feed_block (str text) copied s =
    if is_str "text" (get_or_null "type" copied)
    then shown_block copied (feed (codes text) s)
    else some (dict copied, s)
feed_block v copied s = some (dict copied, s)

-- The loop of `_sanitize_openai_content` over the blocks
unfoldable pub feed_blocks : Items → Sanitizer → Option (Items × Sanitizer)
unfolding feed_block drop_reasoning_fields get_or_null
feed_blocks no_items s = some (no_items, s)
feed_blocks (item (dict block) blocks) s =
    let copied = drop_reasoning_fields block in
    elim (feed_block (get_or_null "text" copied) copied s) [
      | none ↦ none
      | some (v, s') ↦ and_block v (feed_blocks blocks s')
    ]
feed_blocks (item v blocks) s = and_block v (feed_blocks blocks s)

-- `f"{block.get('text', '')}{tail}"`
unfoldable pub text_with : (Value → Text) → Option Value → Text → String
unfolding text_of
text_with str_of none tail = text_of tail
text_with str_of (some (str s)) tail = text_of (codes s ++ tail)
text_with str_of (some v) tail = text_of (str_of v ++ tail)

-- The last text block takes the tail; the flag tells whether there was one.
unfoldable pub append_tail : (Value → Text) → Text → Items → Items × Bool
unfolding text_with set_field is_str get_or_null get
append_tail str_of tail no_items = (no_items, false)
append_tail str_of tail (item (dict block) blocks) =
    let (rest, done) = append_tail str_of tail blocks in
    if done
    then (item (dict block) rest, true)
    else if is_str "text" (get_or_null "type" block)
    then (
      item (dict (set_field "text" (str (text_with str_of (get "text" block) tail)) block)) rest,
      true,
    )
    else (item (dict block) rest, false)
append_tail str_of tail (item v blocks) =
    let (rest, done) = append_tail str_of tail blocks in (item v rest, done)

-- The tail goes to the last text block, if there is one.
unfoldable pub end_with : (Value → Text) → Items → Option (Text × Sanitizer) → Option Value
unfolding append_tail
end_with str_of blocks none = none
end_with str_of blocks (some ([], s)) = some (list blocks)
end_with str_of blocks (some (c ∷ cs, s)) =
    let (blocks', done) = append_tail str_of (c ∷ cs) blocks in some (list blocks')

unfoldable pub end_blocks : (Value → Text) → Option (Items × Sanitizer) → Option Value
unfolding end_with
end_blocks str_of none = none
end_blocks str_of (some (blocks, s)) = end_with str_of blocks (finish s)

-- `_sanitize_openai_content`
unfoldable pub sanitize_openai_content : (Value → Text) → Value → Option Value
unfolding end_blocks feed_blocks visible_text_for_history
sanitize_openai_content str_of (str s) = shown_value (visible_text_for_history (codes s))
sanitize_openai_content str_of (list blocks) = end_blocks str_of (feed_blocks blocks init)
sanitize_openai_content str_of v = some v

abbrev pub and_item : Option Value → Option Items → Option Items
and_item none vs = none
and_item (some v) none = none
and_item (some v) (some vs) = some (item v vs)

abbrev pub with_content : Fields → Option Value → Option Value
with_content message none = none
with_content message (some content) = some (dict (set_field "content" content message))

-- One message of `_sanitize_openai_messages`
unfoldable pub sanitize_message : (Value → Text) → Fields → Option Value
unfolding sanitize_openai_content drop_reasoning_fields set_field is_str get_or_null
sanitize_message str_of message =
    let copied = drop_reasoning_fields message in
    if is_str "assistant" (get_or_null "role" message)
    then with_content copied (sanitize_openai_content str_of (get_or_null "content" copied))
    else some (dict message)

unfoldable pub sanitize_items : (Value → Text) → Items → Option Items
unfolding sanitize_message
sanitize_items str_of no_items = some no_items
sanitize_items str_of (item (dict message) vs) =
    and_item (sanitize_message str_of message) (sanitize_items str_of vs)
sanitize_items str_of (item v vs) = and_item (some v) (sanitize_items str_of vs)

abbrev pub as_list : Option Items → Option Value
as_list none = none
as_list (some vs) = some (list vs)

-- `_sanitize_openai_messages`
unfoldable pub sanitize_openai_messages : (Value → Text) → Value → Option Value
unfolding sanitize_items
sanitize_openai_messages str_of (list vs) = as_list (sanitize_items str_of vs)
sanitize_openai_messages str_of v = some v

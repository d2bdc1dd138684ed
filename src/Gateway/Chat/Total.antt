-- ===== src/Gateway/Chat/Total.antt =====
-- No sanitizer runs out of fuel: every body for the backend is made.
use gemma_4_31b_mtp_v_llm_se.Prelude.{
  ℕ, arith, String, ◌≡◌, refl, sym, subst, Option, none, some, [], ◌∷◌, if-either,
}
use gemma_4_31b_mtp_v_llm_se.Prelude.Text.{Text, codes}
use gemma_4_31b_mtp_v_llm_se.Json.{
  Value, str, list, dict, Items, no_items, item, Fields, get_or_null, is_str,
}
use gemma_4_31b_mtp_v_llm_se.Sanitizer.{Sanitizer, init, feed, finish}
use gemma_4_31b_mtp_v_llm_se.Sanitizer.Whole.{feed_total, finish_total}
use gemma_4_31b_mtp_v_llm_se.Sanitizer.History.{
  visible_text_for_history, visible_text_for_history-IsTidy, tidy,
}
use gemma_4_31b_mtp_v_llm_se.Gateway.Visible.{
  drop_reasoning_fields, shown_value, shown_block, feed_block, and_block, feed_blocks, end_with,
  end_blocks, sanitize_openai_content, and_item, with_content, sanitize_message, sanitize_items,
  as_list, sanitize_openai_messages,
}
use gemma_4_31b_mtp_v_llm_se.Gateway.Chat.Body.{Sampling, body_with, prepare_openai_body}

-- There is a value.
abbrev pub Exists {ℓ} : {A : Type ℓ} → Option A → Type 0
Exists none = ⊥
Exists (some a) = Unit

pub shown_value-Exists : (o : Option Text) (text : Text) → o ≡ some text → Exists (shown_value o)
shown_value-Exists none text e = absurd (cc e)
shown_value-Exists (some shown) text e = tt

and_block-Exists : (v : Value) (o : Option (Items × Sanitizer)) → Exists o → Exists (and_block v o)
and_block-Exists v none h = h
and_block-Exists v (some (vs, s)) h = tt

shown_block_total :
    (copied : Fields) (o : Option (Text × Sanitizer)) (r : Text × Sanitizer)
    → o ≡ some r
    → (q : Value × Sanitizer) × (shown_block copied o ≡ some q)
shown_block_total copied none r e = absurd (cc e)
shown_block_total copied (some (shown, s)) r e = (_, refl)

feed_block_total :
    (v : Value) (copied : Fields) (s : Sanitizer)
    → (q : Value × Sanitizer) × (feed_block v copied s ≡ some q)
unfolding feed_block
feed_block_total (str text) copied s =
    let (r, e) = feed_total (codes text) s in
    if-either (λ (o : Option (Value × Sanitizer)). (q : Value × Sanitizer) × (o ≡ some q))
      (is_str "text" (get_or_null "type" copied)) _ _
      (shown_block_total copied (feed (codes text) s) r e) (_, refl)
feed_block_total v copied s = (_, refl)

block_step :
    (block : Fields) (blocks : Items) (s s' : Sanitizer) (v : Value)
    → feed_block (get_or_null "text" (drop_reasoning_fields block)) (drop_reasoning_fields block) s
      ≡ some (v, s')
    → feed_blocks (item (dict block) blocks) s ≡ and_block v (feed_blocks blocks s')
unfolding feed_blocks
block_step block blocks s s' v e = ground (arith, e)

feed_blocks-Exists : (blocks : Items) (s : Sanitizer) → Exists (feed_blocks blocks s)
unfolding feed_blocks
feed_blocks-Exists no_items s = tt
feed_blocks-Exists (item (dict block) blocks) s =
    let copied = drop_reasoning_fields block in
    let ((v, s'), e) = feed_block_total (get_or_null "text" copied) copied s in
    subst Exists (sym (block_step block blocks s s' v e))
      (and_block-Exists v (feed_blocks blocks s') (feed_blocks-Exists blocks s'))
feed_blocks-Exists (item v blocks) s =
    and_block-Exists v (feed_blocks blocks s) (feed_blocks-Exists blocks s)

end_with-Exists :
    (str_of : Value → Text) (blocks : Items) (o : Option (Text × Sanitizer)) (r : Text × Sanitizer)
    → o ≡ some r
    → Exists (end_with str_of blocks o)
unfolding end_with
end_with-Exists str_of blocks none r e = absurd (cc e)
end_with-Exists str_of blocks (some ([], s)) r e = tt
end_with-Exists str_of blocks (some (c ∷ cs, s)) r e = tt

end_blocks-Exists :
    (str_of : Value → Text) (o : Option (Items × Sanitizer))
    → Exists o
    → Exists (end_blocks str_of o)
unfolding end_blocks
end_blocks-Exists str_of none h = absurd h
end_blocks-Exists str_of (some (blocks, s)) h =
    let (r, e) = finish_total s in end_with-Exists str_of blocks (finish s) r e

pub content-Exists : (str_of : Value → Text) (v : Value) → Exists (sanitize_openai_content str_of v)
unfolding sanitize_openai_content
content-Exists str_of (str s) =
    let (cleaned, (same, (e, tidied))) = visible_text_for_history-IsTidy (codes s) in
    shown_value-Exists (visible_text_for_history (codes s)) (tidy cleaned) e
content-Exists str_of (list blocks) =
    end_blocks-Exists str_of (feed_blocks blocks init) (feed_blocks-Exists blocks init)
content-Exists str_of v = tt

with_content-Exists :
    (message : Fields) (o : Option Value) → Exists o → Exists (with_content message o)
with_content-Exists message none h = h
with_content-Exists message (some v) h = tt

message-Exists :
    (str_of : Value → Text) (message : Fields) → Exists (sanitize_message str_of message)
unfolding sanitize_message
message-Exists str_of message =
    let copied = drop_reasoning_fields message in
    if-either (λ (o : Option Value). Exists o) (is_str "assistant" (get_or_null "role" message)) _ _
      (with_content-Exists copied _ (content-Exists str_of (get_or_null "content" copied))) tt

and_item-Exists :
    (v : Option Value) (vs : Option Items) → Exists v → Exists vs → Exists (and_item v vs)
and_item-Exists none vs h k = h
and_item-Exists (some v) none h k = k
and_item-Exists (some v) (some vs) h k = tt

items-Exists : (str_of : Value → Text) (vs : Items) → Exists (sanitize_items str_of vs)
unfolding sanitize_items
items-Exists str_of no_items = tt
items-Exists str_of (item (dict message) vs) =
    and_item-Exists (sanitize_message str_of message) (sanitize_items str_of vs)
      (message-Exists str_of message) (items-Exists str_of vs)
items-Exists str_of (item v vs) =
    and_item-Exists (some v) (sanitize_items str_of vs) tt (items-Exists str_of vs)

as_list-Exists : (o : Option Items) → Exists o → Exists (as_list o)
as_list-Exists none h = h
as_list-Exists (some vs) h = tt

messages-Exists : (str_of : Value → Text) (v : Value) → Exists (sanitize_openai_messages str_of v)
unfolding sanitize_openai_messages
messages-Exists str_of (list vs) =
    as_list-Exists (sanitize_items str_of vs) (items-Exists str_of vs)
messages-Exists str_of v = tt

body_with-Exists :
    (payload : Fields) (sampling : Sampling) (limit : ℕ) (model : String) (o : Option Value)
    → Exists o
    → Exists (body_with payload sampling limit model o)
unfolding body_with
body_with-Exists payload sampling limit model none h = h
body_with-Exists payload sampling limit model (some v) h = tt

-- Every chat body is prepared.
pub prepare_openai_body-Exists :
    (str_of : Value → Text) (payload : Fields) (sampling : Sampling) (limit : ℕ) (model : String)
    → Exists (prepare_openai_body str_of payload sampling limit model)
unfolding prepare_openai_body
prepare_openai_body-Exists str_of payload sampling limit model =
    body_with-Exists payload sampling limit model _
      (messages-Exists str_of (get_or_null "messages" payload))

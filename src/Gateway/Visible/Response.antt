-- ===== src/Gateway/Visible/Response.antt =====
-- `_sanitize_openai_response` of server/app.py. `none` stands for a sanitizer out of fuel; `str_of` is
-- `str` of a value that is no text.
use gemma_4_31b_mtp_v_llm_se.Prelude.{String, Option, none, some}
use gemma_4_31b_mtp_v_llm_se.Prelude.Text.{Text, codes}
use gemma_4_31b_mtp_v_llm_se.Json.{
  Value, str, list, dict, Items, no_items, item, Fields, get, get_or_null,
}
use gemma_4_31b_mtp_v_llm_se.Sanitizer.History.{visible_text_for_history}
use gemma_4_31b_mtp_v_llm_se.Gateway.Completions.{set_field}
use gemma_4_31b_mtp_v_llm_se.Gateway.Visible.{
  drop_reasoning_fields, shown_value, sanitize_openai_content, with_content, and_item, as_list,
}

unfoldable pub clean_field : String → Option Value → Fields → Option Fields
unfolding set_field
clean_field key none fields = none
clean_field key (some v) fields = some (set_field key v fields)

unfoldable pub clean_content : (Value → Text) → Fields → Option Value → Option Value
unfolding sanitize_openai_content
clean_content str_of message none = some (dict message)
clean_content str_of message (some content) =
    with_content message (sanitize_openai_content str_of content)

-- The message of a choice of a response
unfoldable pub clean_message : (Value → Text) → Fields → Option Value
unfolding clean_content drop_reasoning_fields get
clean_message str_of message =
    let copied = drop_reasoning_fields message in clean_content str_of copied (get "content" copied)

unfoldable pub clean_message_of : (Value → Text) → Value → Fields → Option Fields
unfolding clean_message clean_field
clean_message_of str_of (dict message) choice =
    clean_field "message" (clean_message str_of message) choice
clean_message_of str_of v choice = some choice

unfoldable pub clean_text : Value → Fields → Option Fields
unfolding clean_field
clean_text (str text) choice =
    clean_field "text" (shown_value (visible_text_for_history (codes text))) choice
clean_text v choice = some choice

abbrev pub as_dict : Option Fields → Option Value
as_dict none = none
as_dict (some fields) = some (dict fields)

unfoldable pub then_clean_text : Option Fields → Option Value
unfolding clean_text get_or_null
then_clean_text none = none
then_clean_text (some choice) = as_dict (clean_text (get_or_null "text" choice) choice)

-- A choice of `_sanitize_openai_response`
unfoldable pub clean_choice : (Value → Text) → Fields → Option Value
unfolding then_clean_text clean_message_of drop_reasoning_fields get_or_null
clean_choice str_of choice =
    let copied = drop_reasoning_fields choice in
    then_clean_text (clean_message_of str_of (get_or_null "message" copied) copied)

unfoldable pub clean_choices : (Value → Text) → Items → Option Items
unfolding clean_choice
clean_choices str_of no_items = some no_items
clean_choices str_of (item (dict choice) vs) =
    and_item (clean_choice str_of choice) (clean_choices str_of vs)
clean_choices str_of (item v vs) = and_item (some v) (clean_choices str_of vs)

unfoldable pub clean_choices_of : (Value → Text) → Value → Fields → Option Fields
unfolding clean_choices clean_field
clean_choices_of str_of (list vs) response =
    clean_field "choices" (as_list (clean_choices str_of vs)) response
clean_choices_of str_of v response = some response

-- `_sanitize_openai_response`
unfoldable pub sanitize_openai_response : (Value → Text) → Fields → Option Fields
unfolding clean_choices_of get_or_null
sanitize_openai_response str_of response =
    clean_choices_of str_of (get_or_null "choices" response) response

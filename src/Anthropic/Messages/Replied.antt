-- ===== src/Anthropic/Messages/Replied.antt =====
-- The reply that is made of a response of the backend.
use gemma_4_31b_mtp_v_llm_se.Prelude.{String, refl, Option, none, some}
use gemma_4_31b_mtp_v_llm_se.Prelude.Text.{Text, codes}
use gemma_4_31b_mtp_v_llm_se.Json.{ℤ, Value, str, Fields, get_or_null}
use gemma_4_31b_mtp_v_llm_se.Sanitizer.History.{IsTidy}
use gemma_4_31b_mtp_v_llm_se.Anthropic.{StopReason}
use gemma_4_31b_mtp_v_llm_se.Anthropic.Messages.{
  Reply, raised, replied, out_of_fuel, reply_with, reply_of, content_shown, primary_of,
  openai_response_to_anthropic,
}
use gemma_4_31b_mtp_v_llm_se.Anthropic.Messages.Cleaned.{Tidies, history-Tidies}

-- The sanitizer is never out of fuel, and the text of the reply is tidy.
abbrev pub Replies : Reply → Type 0
Replies out_of_fuel = ⊥
Replies raised = Unit
Replies (replied id model content reason input output) = IsTidy content

content_shown-Tidies : (v : Value) → Tidies (content_shown v)
unfolding content_shown
content_shown-Tidies (str s) = history-Tidies (codes s)
content_shown-Tidies v = (tt, (refl, refl))

reply_with-Replies :
    (id model : String) (reason : StopReason) (content : Option Text) (input output : Option ℤ)
    → Tidies content
    → Replies (reply_with id model reason content input output)
unfolding reply_with
reply_with-Replies id model reason none input output h = h
reply_with-Replies id model reason (some content) (some input) (some output) h = h
reply_with-Replies id model reason (some content) input output h = tt

reply_of-Replies :
    (int_of : Value → Option ℤ) (id model : String) (primary message usage : Option Fields)
    → Replies (reply_of int_of id model primary message usage)
unfolding reply_of
reply_of-Replies int_of id model (some primary) (some message) (some usage) =
    reply_with-Replies id model _ (content_shown (get_or_null "content" message)) _ _
      (content_shown-Tidies (get_or_null "content" message))
reply_of-Replies int_of id model primary message usage = tt

pub openai_response_to_anthropic-Replies :
    (int_of : Value → Option ℤ) (id model : String) (payload : Fields)
    → Replies (openai_response_to_anthropic int_of id model payload)
unfolding openai_response_to_anthropic
openai_response_to_anthropic-Replies int_of id model payload =
    reply_of-Replies int_of id model (primary_of (get_or_null "choices" payload)) _ _

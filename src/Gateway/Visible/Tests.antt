-- ===== src/Gateway/Visible/Tests.antt =====
-- The theorem about what is sent on, at a chunk and a response with fields of hidden reasoning.
use gemma_4_31b_mtp_v_llm_se.Prelude.{String, []}
use gemma_4_31b_mtp_v_llm_se.Prelude.Text.{Text}
use gemma_4_31b_mtp_v_llm_se.Json.{
  pos, Value, null, str, int, list, dict, no_items, item, Fields, no_entries, entry,
}
use gemma_4_31b_mtp_v_llm_se.Gateway.Visible.Stream.{sanitize_openai_stream_chunk}
use gemma_4_31b_mtp_v_llm_se.Gateway.Visible.Response.{sanitize_openai_response}
use gemma_4_31b_mtp_v_llm_se.Gateway.Visible.Hides.Chunks.{IsClearChunk}
use gemma_4_31b_mtp_v_llm_se.Gateway.Visible.Hides.Responses.{
  IsClearResponse, sanitized-hides_reasoning,
}

abbrev reasoned : Value
reasoned = dict (
    entry "reasoning_content" (str "because")
      (entry "content" (str "a<think>b</think>c") no_entries))

abbrev with_choice : String → Fields
with_choice key =
    entry "choices"
      (list (
        item
          (dict (
            entry "index" (int (pos 0)) (
              entry key reasoned
                (entry "logprobs" null (entry "finish_reason" (str "stop") no_entries)))))
          no_items))
      no_entries

abbrev no_text : Value → Text
no_text v = []

sanitized-hides_reasoning_example :
    IsClearChunk (sanitize_openai_stream_chunk (with_choice "delta") [])
    × IsClearResponse (sanitize_openai_response no_text (with_choice "message"))
sanitized-hides_reasoning_example =
    sanitized-hides_reasoning (with_choice "delta") [] no_text (with_choice "message")

-- ===== src/Anthropic/Tests.antt =====
-- A run of the stream, and the theorem about it at concrete chunks.
use gemma_4_31b_mtp_v_llm_se.Json.{int, pos}
use gemma_4_31b_mtp_v_llm_se.Prelude.{◌≡◌, true, false, some, List, [], ◌∷◌, ◌++◌, map, length, All}
use gemma_4_31b_mtp_v_llm_se.Prelude.Text.{Text}
use gemma_4_31b_mtp_v_llm_se.Json.{
  bool, null, str, list, dict, item, no_items, entry, no_entries, Value, Fields, get, get_or_null,
  truthy,
}
use gemma_4_31b_mtp_v_llm_se.Sanitizer.{init, sanitize_stream}
use gemma_4_31b_mtp_v_llm_se.Sanitizer.Whole.{join}
use gemma_4_31b_mtp_v_llm_se.Anthropic.{
  read_content, read_delta, read_choices, read_chunk, stream_events, end_turn, message_start,
  message_delta, message_stop,
}
use gemma_4_31b_mtp_v_llm_se.Anthropic.Readings.{contents, last_reason}
use gemma_4_31b_mtp_v_llm_se.Anthropic.Blocks.{block, IsShown}
use gemma_4_31b_mtp_v_llm_se.Anthropic.Events.{closing, stream_events-well_formed}

abbrev chunk : Value → Value → Fields
chunk content finish_reason =
    entry "choices"
      (list (
        item
          (dict (
            entry "delta" (dict (entry "content" content no_entries))
              (entry "finish_reason" finish_reason no_entries)))
          no_items))
      no_entries

abbrev chunks : List Fields
chunks =
    chunk (str "one<thi") null
    ∷ chunk (str "nk>secret</think>two") null
    ∷ no_entries
    ∷ chunk null (str "length")
    ∷ entry "_done" (bool true) no_entries
    ∷ chunk (bool true) null
    ∷ []

stream_events-well_formed_example :
    (texts : List Text) × (sanitize_stream (contents (map read_chunk chunks)) init
      ≡ some (join texts))
    × All IsShown texts
    × (stream_events "msg_1" "gemma" 3 chunks
        ≡ some (
            message_start "msg_1" "gemma" 3
            ∷ (block false texts
                ++ (closing texts
                    ++ (message_delta (last_reason end_turn (map read_chunk chunks)) (length texts)
                        ∷ message_stop
                        ∷ [])))))
unfolding read_chunk read_choices read_delta read_content truthy get get_or_null
stream_events-well_formed_example = stream_events-well_formed "msg_1" "gemma" 3 chunks tt

abbrev no_text : Value → Text
no_text v = []

abbrev dialogue : Fields
dialogue = entry "system" (str "Be brief") (
    entry "max_tokens" (int (pos 5)) (
      entry "top_k" null (
        entry "messages"
          (list (
            item
              (dict (
                entry "role" (str "assistant")
                  (entry "content" (str "<think>x</think> yes ") no_entries)))
              no_items))
          no_entries)))

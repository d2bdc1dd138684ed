-- ===== src/Gateway/Handlers/Tests.antt =====
-- Runs of the handlers of chat and of messages, and their theorem at a concrete body.
use gemma_4_31b_mtp_v_llm_se.Prelude.{String, ◌≡◌, refl, true, false, none, some, [], ◌∷◌}
use gemma_4_31b_mtp_v_llm_se.Prelude.Text.{codes}
use gemma_4_31b_mtp_v_llm_se.Json.{
  pos, bool, int, str, list, dict, fraction, no_items, item, Value, Fields, no_entries, entry,
}
use gemma_4_31b_mtp_v_llm_se.Gateway.RuntimeState.{record_generation}
use gemma_4_31b_mtp_v_llm_se.Gateway.Completions.{release, note, timed_out, object}
use gemma_4_31b_mtp_v_llm_se.Gateway.Chat.{
  exhausted, Client, reads, no_tally, events_loop, end_stream, ended, passed, Streaming,
}
use gemma_4_31b_mtp_v_llm_se.Anthropic.{
  message_start, content_block_start, content_block_delta, content_block_stop, message_stop,
}
use gemma_4_31b_mtp_v_llm_se.Gateway.Handlers.{
  Server, Upstreams, chat_completions, anthropic_messages,
}
use gemma_4_31b_mtp_v_llm_se.Gateway.Handlers.Slots.{IsAccounted, handlers-IsAccounted}

abbrev server : Server
server = record {
  str_of = λ v. [];
  int_of = λ v. elim v [ int n ↦ some n | _ ↦ none ];
  aliases = "gemma" ∷ [];
  served = "served";
  limit = 4096;
  sampling = record {
    temperature = fraction (pos 1) 0;
    top_p = fraction (pos 19) 19;
    top_k = pos 64;
  };
}

abbrev message : String → String → Value
message role text = dict (entry "role" (str role) (entry "content" (str text) no_entries))

abbrev payload : Fields
payload = entry "model" (str "gemma") (
    entry "messages"
      (list
        (item (message "assistant" "<think>no</think>yes") (item (message "user" "hi") no_items)))
      (entry "max_tokens" (int (pos 9000)) (entry "stream" (bool true) no_entries)))

-- A chunk with one choice
abbrev chunk : String → Fields
chunk text =
    entry "choices"
      (list (
        item
          (dict (
            entry "index" (int (pos 0))
              (entry "delta" (dict (entry "content" (str text) no_entries)) no_entries)))
          no_items))
      no_entries

abbrev last_chunk : Fields
last_chunk = entry "_done" (bool true) no_entries

abbrev u : Upstreams
u = record {
  chunks = λ body. chunk "a <thi" ∷ chunk "nk>no</think>b" ∷ last_chunk ∷ [];
  last = λ body. exhausted;
  response = λ body. timed_out;
  reply = λ body. no_entries;
}

abbrev streaming : Client → Streaming
streaming client = record {
  before = some no_entries;
  elapsed = pos 3;
  after = none;
  delta = λ before after. after;
  client = client;
}

-- The client leaves at the third event.
events_read :
    events_loop 2
      (message_start "msg_1" "gemma" 0
        ∷ content_block_start
        ∷ content_block_delta (codes "yes")
        ∷ content_block_stop
        ∷ message_stop
        ∷ [])
      ended
      no_tally
    ≡ (record { delta_tokens = 1; usage_tokens = none; stream_completed = false }, passed)
unfolding events_loop
events_read = refl

-- What the stream above records: one token, and no change of the metrics, as their probe raises
recorded :
    end_stream
      (record { delta_tokens = 1; usage_tokens = none; stream_completed = false }, passed)
      no_entries
      (streaming (reads 2))
    ≡ note (record_generation (some (pos 1)) (pos 3) (pos 1)) ∷ release ∷ []
unfolding end_stream
recorded = refl

handlers-IsAccounted_example :
    IsAccounted true
      (reads 1)
      (chat_completions (object payload) server u true (streaming (reads 1)))
    × IsAccounted true
        (reads 1)
        (anthropic_messages (object payload) server u true (streaming (reads 1)) "msg_1")
handlers-IsAccounted_example =
    handlers-IsAccounted (object payload) server u true (streaming (reads 1)) "msg_1"

-- ===== src/Gateway/Pool/Tests.antt =====
-- The theorem about requests beside each other, at a stream and a completion.
use gemma_4_31b_mtp_v_llm_se.Prelude.{true, refl, none, some, List, [], ◌∷◌}
use gemma_4_31b_mtp_v_llm_se.Json.{
  pos, nan, bool, int, str, list, dict, no_items, item, Fields, no_entries, entry,
}
use gemma_4_31b_mtp_v_llm_se.Gateway.RuntimeState.{fresh, init}
use gemma_4_31b_mtp_v_llm_se.Gateway.Completions.{timed_out, object, Backend}
use gemma_4_31b_mtp_v_llm_se.Gateway.Chat.{http_failed, reads, Streaming}
use gemma_4_31b_mtp_v_llm_se.Gateway.Handlers.{Server, Upstreams}
use gemma_4_31b_mtp_v_llm_se.Gateway.Pool.{Job, chat, messages, completion, run}
use gemma_4_31b_mtp_v_llm_se.Gateway.Pool.Recovery.{tasks_of, Recovers, requests-Recovers}

abbrev server : Server
server = record {
  str_of = λ v. [];
  int_of = λ v. none;
  aliases = "gemma" ∷ [];
  served = "served";
  limit = 4096;
  sampling = record { temperature = nan; top_p = nan; top_k = pos 0 };
}

abbrev question : Fields
question = entry "model" (str "gemma") (
    entry "messages"
      (list
        (item (dict (entry "role" (str "user") (entry "content" (str "hi") no_entries))) no_items))
      (entry "max_tokens" (int (pos 5)) (entry "stream" (bool true) no_entries)))

abbrev backend : Backend
backend = record {
  before = some no_entries;
  answer = λ body. timed_out;
  after = none;
  delta = λ before after. after;
}

abbrev upstreams : Upstreams
upstreams = record {
  chunks = λ body. [];
  last = λ body. http_failed;
  response = λ body. timed_out;
  reply = λ body. no_entries;
}

abbrev streaming : Streaming
streaming = record {
  before = some no_entries;
  elapsed = pos 3;
  after = none;
  delta = λ before after. after;
  client = reads 4;
}

abbrev requests : List Job
requests =
    chat (object question) upstreams streaming
    ∷ messages (object question) upstreams streaming "msg_1"
    ∷ completion (object question) backend
    ∷ []

requests-Recovers_example :
    Recovers 1 (run (0 ∷ 2 ∷ 1 ∷ 0 ∷ []) (tasks_of server requests) (fresh 1))
requests-Recovers_example =
    requests-Recovers 1 (fresh 1) server requests (0 ∷ 2 ∷ 1 ∷ 0 ∷ []) (unfold init in refl)
      (refl, (refl, (tt, tt)))

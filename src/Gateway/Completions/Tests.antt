-- ===== src/Gateway/Completions/Tests.antt =====
-- Runs of the handler of completions, and the theorems about it at concrete bodies.
use gemma_4_31b_mtp_v_llm_se.Prelude.{◌≡◌, refl, true, some, [], ◌∷◌}
use gemma_4_31b_mtp_v_llm_se.Json.{pos, int, str, Fields, no_entries, entry, get, get_or_null}
use gemma_4_31b_mtp_v_llm_se.Requests.Validation.{ok}
use gemma_4_31b_mtp_v_llm_se.Gateway.RuntimeState.{record_backend_error}
use gemma_4_31b_mtp_v_llm_se.Gateway.Completions.{
  attempt, release, note, failed, timed_out, Backend, set_field, requested_tokens, completion_body,
  generate, alias_known, with_slot, accept,
}

completion_runs : Unit {0}
unfolding accept with_slot generate alias_known get_or_null get set_field requested_tokens
    completion_body
completion_runs = tt

abbrev payload : Fields
payload =
    entry "model" (str "gemma")
      (entry "prompt" (str "hi") (entry "max_tokens" (int (pos 9000)) no_entries))

abbrev late : Backend
late = record {
  before = some no_entries;
  answer = λ body. timed_out;
  after = some no_entries;
  delta = λ before after. after;
}

late_answer : accept ok payload ("gemma" ∷ []) "served" 4096 true late ≡ (
  attempt ∷ note (record_backend_error "generation_timeout") ∷ release ∷ [],
  failed 504 "backend_timeout",
)
unfolding completion_runs
late_answer = refl

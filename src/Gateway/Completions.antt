-- ===== src/Gateway/Completions.antt =====
-- The handler of /v1/completions in server/app.py. What it does to the runtime state, which other
-- handlers use between its awaits, is the list of its calls, in their order. The backend is an
-- argument: what it answers to a body, and what its metrics show before and after.
pub mod Slots
pub mod Bodies
mod Tests
use gemma_4_31b_mtp_v_llm_se.Prelude.{
  ℕ, zero, suc, ◌≤◌, min, String, Bool, true, false, ◌&&◌, Option, none, some, List, [], ◌∷◌, ◌++◌,
  leb, ltb, any, if◌then◌else◌,
}
use gemma_4_31b_mtp_v_llm_se.Json.{
  ℤ, pos, Value, int, str, Fields, no_entries, entry, get, get_or_null,
}
use gemma_4_31b_mtp_v_llm_se.Requests.Validation.{
  Result, ok, raise, request_validation_error, overflow_error, validate_openai_completions_payload,
}
use gemma_4_31b_mtp_v_llm_se.Gateway.RuntimeState.{
  RuntimeState, record_generation, record_backend_error, record_mtp_delta,
}
use text.Mathlib.Text.{◌==◌ as str_eq}

-- A call of the runtime state: an attempt to get a slot, its release, or one that records something.
pub data Call : Type 0 where
  attempt release : Call
  note : (RuntimeState → RuntimeState) → Call

-- A response of the given status and code, one with what the backend generated, a stream, or an
-- exception that leaves the handler
pub data Answer : Type 0 where
  failed : (status_code : ℕ) (code : String) → Answer
  generated : Answer
  streamed : Answer
  crashed : Answer

-- What `_bounded_json` returns: an error response, or the object
pub data ReadBody : Type 0 where
  unreadable : (status_code : ℕ) (code : String) → ReadBody
  object : Fields → ReadBody

-- How a generation ends: with a response, whose count of tokens is `none` where `int` raises on it;
-- by the timeout; with a `VllmHttpError` and the code that its text gives; or by another exception.
pub data Upstream : Type 0 where
  responded : (completion_tokens : Option ℤ) (elapsed : ℤ) → Upstream
  timed_out : Upstream
  http_error : (status_code : ℕ) (code : String) → Upstream
  broken : Upstream

-- The state of the metrics, or `none` for an exception that `_mtp_state_for_generation` lets pass
abbrev pub Probe : Type 0
Probe = Option Fields

-- `body[key] = value`
unfoldable pub set_field : String → Value → Fields → Fields
set_field key v no_entries = entry key v no_entries
set_field key v (entry k w fs) =
    let rest = set_field key v fs in if str_eq k key then entry k v fs else entry k w rest

-- `int(body.get("max_tokens") or limit)`, for what the validator lets through
unfoldable pub requested_tokens : Option Value → ℕ → ℕ
requested_tokens (some (int (pos (suc n)))) limit = suc n
requested_tokens v limit = limit

pub completion_body : Fields → String → ℕ → Fields
completion_body payload served_model_name max_output_tokens =
    set_field "max_tokens"
      (int (
        pos
          (min (requested_tokens (get "max_tokens" payload) max_output_tokens) max_output_tokens)))
      (set_field "model" (str served_model_name) payload)

-- `_vllm_error_response`
unfoldable pub vllm_error : ℕ → String → List Call × Answer
vllm_error status_code code =
    if leb 400 status_code && ltb status_code 500
    then ([], failed status_code code)
    else (note (record_backend_error "vllm_http_error") ∷ [], failed 503 "backend_unavailable")

-- Behind the `else`: the generation is recorded, then the change of the metrics.
pub record_response :
    Option ℤ → ℤ → Fields → Probe → (Fields → Fields → Fields) → List Call × Answer
record_response none elapsed before after delta = ([], crashed)
record_response (some tokens) elapsed before none delta =
    (note (record_generation (some tokens) elapsed (pos 1)) ∷ [], crashed)
record_response (some tokens) elapsed before (some after) delta = (
  note (record_generation (some tokens) elapsed (pos 1))
      ∷ note (record_mtp_delta (delta before after))
      ∷ [],
  generated,
)

-- The `try` with its `except` and `else` branches
unfoldable pub generate : Probe → Upstream → Probe → (Fields → Fields → Fields) → List Call × Answer
unfolding vllm_error record_response
generate none upstream after delta = ([], crashed)
generate (some before) (responded tokens elapsed) after delta =
    record_response tokens elapsed before after delta
generate (some before) timed_out after delta =
    (note (record_backend_error "generation_timeout") ∷ [], failed 504 "backend_timeout")
generate (some before) (http_error status_code code) after delta = vllm_error status_code code
generate (some before) broken after delta = ([], crashed)

-- `_alias_known`
unfoldable pub alias_known : Value → List String → Bool
alias_known (str s) aliases = any (str_eq s) aliases
alias_known v aliases = false

-- The backend, and `delta` for `mtp_metric_delta`, whose result is only passed on
pub record Backend : Type 0 where
  pub before : Probe
  pub answer : Fields → Upstream
  pub after : Probe
  pub delta : Fields → Fields → Fields

-- A slot, and the `try` with its `finally`; `admitted` tells how the attempt ends.
pub with_slot : Bool → Fields → Backend → List Call × Answer
unfolding generate
with_slot false body b = (attempt ∷ [], failed 429 "queue_full")
with_slot true body b =
    let (calls, answer) = generate b.before (b.answer body) b.after b.delta in
    (attempt ∷ (calls ++ release ∷ []), answer)

pub accept : Result → Fields → List String → String → ℕ → Bool → Backend → List Call × Answer
unfolding with_slot completion_body alias_known
accept (raise (request_validation_error e)) payload aliases served limit admitted b =
    ([], failed e.status_code e.code)
accept (raise overflow_error) payload aliases served limit admitted b = ([], crashed)
accept ok payload aliases served limit admitted b =
    if alias_known (get_or_null "model" payload) aliases
    then with_slot admitted (completion_body payload served limit) b
    else ([], failed 404 "model_not_found")

pub completions : ReadBody → List String → String → ℕ → Bool → Backend → List Call × Answer
unfolding accept
completions (unreadable status_code code) aliases served limit admitted b =
    ([], failed status_code code)
completions (object payload) aliases served limit admitted b =
    accept (validate_openai_completions_payload payload) payload aliases served limit admitted b

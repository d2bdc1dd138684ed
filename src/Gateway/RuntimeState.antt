-- ===== src/Gateway/RuntimeState.antt =====
-- server/runtime_state.py. Each method takes the state and returns the one behind it.
-- `generation_seconds` counts ticks of the clock, without the rounding of floats.
pub mod Slots
mod Tests
use gemma_4_31b_mtp_v_llm_se.Prelude.{
  ℕ, zero, suc, ◌+◌, ◌-◌, ltb, leb, if◌then◌else◌, String, Option, none, some, List, [], ◌∷◌,
}
use gemma_4_31b_mtp_v_llm_se.Json.{ℤ, pos, negsuc, Fields}

pub record RuntimeState : Type 0 where
  pub max_queue_size : ℕ
  pub active : ℕ
  pub total : ℕ
  pub rejected : ℕ
  pub backend_errors : ℕ
  pub generation_tokens : ℕ
  pub generation_seconds : ℕ
  pub batch_requests : ℕ
  pub last_mtp_delta : Option Fields
  pub last_request_id : Option String
  pub last_backend_error : Option String

abbrev pub fresh : ℕ → RuntimeState
fresh max_queue_size = record {
  max_queue_size = max_queue_size;
  active = 0;
  total = 0;
  rejected = 0;
  backend_errors = 0;
  generation_tokens = 0;
  generation_seconds = 0;
  batch_requests = 0;
  last_mtp_delta = none;
  last_request_id = none;
  last_backend_error = none;
}

-- `RuntimeState(max_queue_size=n)`, with `none` for the `ValueError`
unfoldable pub init : ℤ → Option RuntimeState
init (pos (suc n)) = some (fresh (suc n))
init v = none

pub data Admission : Type 0 where
  admitted : Admission
  queue_full : Admission

pub acquire_generation_slot : RuntimeState → Admission × RuntimeState
acquire_generation_slot s =
    if leb (s.max_queue_size + 1) s.active
    then (queue_full, record s { rejected = s.rejected + 1 })
    else (admitted, record s { active = s.active + 1; total = s.total + 1 })

pub release_slot : RuntimeState → RuntimeState
release_slot s = if ltb 0 s.active then record s { active = s.active - 1 } else s

-- `if value > 0: count += value`
pub add_positive : ℕ → ℤ → ℕ
add_positive count (pos n) = if ltb 0 n then count + n else count
add_positive count (negsuc n) = count

pub add_tokens : ℕ → Option ℤ → ℕ
unfolding add_positive
add_tokens count none = count
add_tokens count (some n) = add_positive count n

pub record_generation : Option ℤ → ℤ → ℤ → RuntimeState → RuntimeState
record_generation generation_tokens generation_seconds batch_size s = record s {
  generation_tokens = add_tokens s.generation_tokens generation_tokens;
  generation_seconds = add_positive s.generation_seconds generation_seconds;
  batch_requests = add_positive s.batch_requests batch_size;
}

pub record_backend_error : String → RuntimeState → RuntimeState
record_backend_error code s = record s {
  backend_errors = s.backend_errors + 1;
  last_backend_error = some code;
}

pub record_mtp_delta : Fields → RuntimeState → RuntimeState
record_mtp_delta delta s = record s { last_mtp_delta = some delta }

pub clear_backend_error : RuntimeState → RuntimeState
clear_backend_error s = record s { last_backend_error = none }

pub note_request : String → RuntimeState → RuntimeState
note_request request_id s = record s { last_request_id = some request_id }

-- ===== src/Gateway/Completions/Slots.antt =====
-- A slot that is taken is given back once, whatever the backend does.
use gemma_4_31b_mtp_v_llm_se.Prelude.{
  ℕ, ◌≡◌, ◌⊎◌, refl, String, Bool, true, false, none, some, List, [], ◌∷◌, ◌++◌, All, inl, inr,
  if-either, leb, ltb, ◌&&◌,
}
use gemma_4_31b_mtp_v_llm_se.Json.{pos, Fields, get_or_null}
use gemma_4_31b_mtp_v_llm_se.Requests.Validation.{
  Result, ok, raise, request_validation_error, overflow_error, validate_openai_completions_payload,
}
use gemma_4_31b_mtp_v_llm_se.Gateway.RuntimeState.{RuntimeState}
use gemma_4_31b_mtp_v_llm_se.Gateway.RuntimeState.Slots.{Note, generation, measured}
use gemma_4_31b_mtp_v_llm_se.Gateway.Completions.{
  Call, attempt, release, note, Answer, failed, ReadBody, unreadable, object, Upstream, responded,
  timed_out, http_error, broken, Probe, vllm_error, record_response, generate, alias_known, Backend,
  with_slot, accept, completions, completion_body,
}

-- A call that records something, and so leaves the slots alone
abbrev pub IsNote : Call → Type 0
IsNote (note f) = (s : RuntimeState) → Note s (f s)
IsNote c = ⊥

-- Nothing is called; or a slot is asked for and refused; or a slot is taken, something is recorded,
-- and the slot is given back, last and once.
abbrev pub IsBalanced : Bool → List Call × Answer → Type 0
IsBalanced admitted r =
    (r.0 ≡ [])
    ⊎ (((admitted ≡ false) × (r.0 ≡ attempt ∷ []) × (r.1 ≡ failed 429 "queue_full"))
        ⊎ ((calls : List Call) × (admitted ≡ true)
            × (r.0 ≡ attempt ∷ (calls ++ release ∷ []))
            × All IsNote calls))

abbrev pub Notes : List Call × Answer → Type 0
Notes r = All IsNote r.0

pub generate-Notes :
    (before : Probe) (upstream : Upstream) (after : Probe) (delta : Fields → Fields → Fields)
    → Notes (generate before upstream after delta)
unfolding generate record_response vllm_error
generate-Notes none upstream after delta = tt
generate-Notes (some before) (responded none elapsed) after delta = tt
generate-Notes (some before) (responded (some tokens) elapsed) none delta =
    (λ s. generation (some tokens) elapsed (pos 1), tt)
generate-Notes (some before) (responded (some tokens) elapsed) (some after) delta =
    (λ s. generation (some tokens) elapsed (pos 1), (λ s. measured (delta before after), tt))
generate-Notes (some before) timed_out after delta = (λ s. Note.failed "generation_timeout", tt)
generate-Notes (some before) (http_error status_code code) after delta =
    if-either {A = List Call × Answer} Notes (leb 400 status_code && ltb status_code 500) _ _ tt
      (λ s. Note.failed "vllm_http_error", tt)
generate-Notes (some before) broken after delta = tt

with_slot-IsBalanced :
    (admitted : Bool) (body : Fields) (b : Backend)
    → IsBalanced admitted (with_slot admitted body b)
unfolding with_slot
with_slot-IsBalanced false body b = inr (inl (refl, refl, refl))
with_slot-IsBalanced true body b =
    inr (inr (_, refl, refl, generate-Notes b.before (b.answer body) b.after b.delta))

accept-IsBalanced :
    (r : Result) (payload : Fields) (aliases : List String) (served : String) (limit : ℕ)
    (admitted : Bool) (b : Backend)
    → IsBalanced admitted (accept r payload aliases served limit admitted b)
unfolding accept
accept-IsBalanced (raise (request_validation_error e)) payload aliases served limit admitted b =
    inl refl
accept-IsBalanced (raise overflow_error) payload aliases served limit admitted b = inl refl
accept-IsBalanced ok payload aliases served limit admitted b =
    if-either {A = List Call × Answer} (IsBalanced admitted)
      (alias_known (get_or_null "model" payload) aliases) _ _
      (with_slot-IsBalanced admitted (completion_body payload served limit) b) (inl refl)

-- Whatever body comes and whatever the backend does, an exception included, the handler of
-- completions calls nothing; or asks for a slot, is refused, and answers 429; or takes a slot,
-- records, and gives the slot back as its last call, once.
pub completions-IsBalanced :
    (body : ReadBody) (aliases : List String) (served : String) (limit : ℕ) (admitted : Bool)
    (b : Backend)
    → IsBalanced admitted (completions body aliases served limit admitted b)
unfolding completions
completions-IsBalanced (unreadable status_code code) aliases served limit admitted b = inl refl
completions-IsBalanced (object payload) aliases served limit admitted b =
    accept-IsBalanced (validate_openai_completions_payload payload) payload aliases served limit
      admitted b

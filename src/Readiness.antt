-- ===== src/Readiness.antt =====
-- readiness.py. The reasons and warnings are texts. `runtime` is the state that
-- `RuntimeState.snapshot` shows; a profile is the two of its fields that are read.
pub mod Serving
mod Tests
use gemma_4_31b_mtp_v_llm_se.Prelude.{
  ℕ, zero, suc, String, Bool, true, false, not, ◌&&◌, ◌||◌, Option, none, some, List, [], ◌∷◌, ◌++◌,
  leb, ltb, ◌==◌, any, if◌then◌else◌,
}
use gemma_4_31b_mtp_v_llm_se.Prelude.Text.{Text, codes}
use gemma_4_31b_mtp_v_llm_se.Json.{
  ℤ, pos, negsuc, Value, null, str, dict, Fields, no_entries, entry, get_or_null, is_str, is_null,
}
use gemma_4_31b_mtp_v_llm_se.Gateway.RuntimeState.{RuntimeState}
use Prim.Native.String.{◌++◌ as str_append}
use text.Mathlib.Text.{◌==◌ as str_eq}

pub record Profile : Type 0 where
  pub num_speculative_tokens : ℤ
  pub language_model_only : Bool

pub data State : Type 0 where
  unavailable starting degraded warming ready : State

pub record Readiness : Type 0 where
  pub state : State
  pub reasons : List String
  pub warnings : List String

abbrev pub readiness_required_fields : List String
readiness_required_fields =
    "target_model" ∷ "served_model_name" ∷ "drafter_model" ∷ "mtp_method" ∷ "num_speculative_tokens"
    ∷ "tensor_parallel_size" ∷ "quantization" ∷ "cpu_offload_gb" ∷ "max_model_len" ∷ "max_num_seqs"
    ∷ "max_num_batched_tokens" ∷ "enforce_eager" ∷ "language_model_only" ∷ "gpu_memory_utilization"
    ∷ []

abbrev pub readiness_separate_fields : List String
readiness_separate_fields = "target_served" ∷ "vllm_version" ∷ []

pub remove : String → List String → List String
remove x [] = []
remove x (y ∷ ys) = let rest = remove x ys in if str_eq y x then rest else y ∷ rest

-- `list(dict.fromkeys(values))`: the first of equal values stays
pub dedupe : List String → List String
unfolding remove
dedupe [] = []
dedupe (x ∷ xs) = x ∷ remove x (dedupe xs)

-- `_readiness`
pub readiness : State → List String → List String → Readiness
unfolding dedupe
readiness state reasons warnings = record {
  state = state;
  reasons = dedupe reasons;
  warnings = dedupe warnings;
}

-- `_raw_backend_status`
pub raw_backend_status : Fields → Option String
raw_backend_status vllm_status = elim (get_or_null "raw" vllm_status) [
  | dict raw ↦ elim (get_or_null "status" raw) [ str s ↦ some s | _ ↦ none ]
  | _ ↦ none
]

-- The order of texts by their code points
unfoldable pub text_le : Text → Text → Bool
text_le [] ys = true
text_le (x ∷ xs) [] = false
text_le (x ∷ xs) (y ∷ ys) =
    let rest = text_le xs ys in if ltb x y then true else if x == y then rest else false

pub insert_field : String → Value → Fields → Fields
insert_field name v no_entries = entry name v no_entries
insert_field name v (entry k w fs) =
    let rest = insert_field name v fs in
    if text_le (codes name) (codes k) then entry name v (entry k w fs) else entry k w rest

-- `sorted(fields.items())`
pub sort_fields : Fields → Fields
unfolding insert_field
sort_fields no_entries = no_entries
sort_fields (entry k v fs) = insert_field k v (sort_fields fs)

-- Whether one field of the configuration is checked and has the given status
pub has_status : String → String → Value → Bool
has_status status name (dict f) =
    not (any (str_eq name) readiness_separate_fields) && is_str status (get_or_null "status" f)
has_status status name v = false

pub mismatches : Fields → List String
unfolding has_status
mismatches no_entries = []
mismatches (entry name v fs) =
    let rest = mismatches fs in
    if has_status "mismatch" name v then str_append "config_mismatch:" name ∷ rest else rest

pub unknowns : Fields → List String
unfolding has_status
unknowns no_entries = []
unknowns (entry name v fs) =
    let rest = unknowns fs in
    if has_status "unknown" name v && any (str_eq name) readiness_required_fields
    then str_append "config_unknown:" name ∷ rest
    else rest

-- `config_verification.get("fields")`, where it is a dictionary, in the order of its keys
pub fields_of : Value → Fields
unfolding sort_fields
fields_of (dict fields) = sort_fields fields
fields_of v = no_entries

pub config_fields : Fields → Fields
unfolding fields_of
config_fields config_verification = fields_of (get_or_null "fields" config_verification)

-- What `_append_mtp_readiness` appends, and whether it returns "warming"
pub record MtpReadiness : Type 0 where
  pub reasons : List String
  pub warnings : List String
  pub warming : Bool

abbrev pub nothing : MtpReadiness
nothing = record { reasons = []; warnings = []; warming = false }

-- `state in {"registered_but_idle", "not_registered"}`, `state in {None, "unavailable", "parse_error"}`
pub is_idle : Value → Bool
is_idle v = is_str "registered_but_idle" v || is_str "not_registered" v

pub is_missing : Value → Bool
is_missing v = is_null v || is_str "unavailable" v || is_str "parse_error" v

-- f"mtp_metrics_{state or 'missing'}"
pub metrics_warning : Value → String
metrics_warning (str s) = str_append "mtp_metrics_" (if str_eq s "" then "missing" else s)
metrics_warning v = "mtp_metrics_missing"

pub state_of : Option Fields → Value
state_of none = null
state_of (some fields) = get_or_null "state" fields

-- Before the first generation: the state of the metrics counts
pub mtp_before : Value → MtpReadiness
unfolding is_idle is_missing metrics_warning
mtp_before mtp_state =
    if is_idle mtp_state
    then record { reasons = []; warnings = "mtp_not_exercised" ∷ []; warming = true }
    else if is_missing mtp_state
    then record { reasons = []; warnings = metrics_warning mtp_state ∷ []; warming = false }
    else nothing

-- After it: the state of the last delta counts
pub mtp_after : Value → MtpReadiness
unfolding is_idle is_missing metrics_warning
mtp_after delta_state =
    if is_str "active" delta_state
    then nothing
    else if is_idle delta_state
    then record {
      reasons = "mtp_inactive_after_generation" ∷ [];
      warnings = "mtp_inactive_after_generation" ∷ [];
      warming = false;
    }
    else if is_missing delta_state
    then record {
      reasons = "mtp_unverified_after_generation" ∷ [];
      warnings = metrics_warning delta_state ∷ [];
      warming = false;
    }
    else nothing

pub speculates : Profile → Bool
speculates profile = elim profile.num_speculative_tokens [
  | pos n ↦ ltb 0 n && not profile.language_model_only
  | negsuc n ↦ false
]

pub append_mtp_readiness : Profile → Option Fields → RuntimeState → MtpReadiness
unfolding speculates state_of mtp_before mtp_after
append_mtp_readiness profile mtp runtime =
    if not (speculates profile)
    then nothing
    else if runtime.batch_requests == 0
    then mtp_before (state_of mtp)
    else mtp_after (state_of runtime.last_mtp_delta)

abbrev pub starting_statuses : List String
starting_statuses = "starting" ∷ "loading" ∷ "initializing" ∷ "warming" ∷ []

pub not_ok : Option String → Readiness
unfolding readiness
not_ok none = readiness degraded ("backend_not_ready" ∷ []) []
not_ok (some raw_status) =
    if any (str_eq raw_status) starting_statuses
    then readiness starting (str_append "backend_" raw_status ∷ []) []
    else readiness degraded ("backend_not_ready" ∷ []) []

pub last_error : Option String → List String
last_error none = []
last_error (some code) = if str_eq code "" then [] else str_append "last_backend_error:" code ∷ []

-- The end of `build_readiness_state`
pub verdict : List String → Bool → List String → Readiness
unfolding readiness
verdict (r ∷ rs) warming_up warnings = readiness degraded (r ∷ rs) warnings
verdict [] true warnings = readiness warming [] warnings
verdict [] false warnings = readiness ready [] warnings

-- What stands against the backend when it is up
pub up : Bool → Bool → Fields → MtpReadiness → Option String → Readiness
unfolding verdict mismatches unknowns last_error
up version_ok target_served fields m last_backend_error =
    let reasons =
      (if version_ok then [] else "old_vllm_version" ∷ [])
      ++ ((if target_served then [] else "target_not_served" ∷ [])
          ++ (mismatches fields ++ m.reasons)) in
    let warnings = unknowns fields ++ (last_error last_backend_error ++ m.warnings) in
    verdict reasons m.warming warnings

-- What the status of the backend leaves to say
pub by_status : Value → Option String → Readiness → Readiness
unfolding readiness not_ok
by_status backend_status raw_status when_ok =
    if is_str "unreachable" backend_status
    then readiness unavailable ("backend_unreachable" ∷ []) []
    else if not (is_str "ok" backend_status)
    then not_ok raw_status
    else when_ok

pub build_readiness_state :
    Profile
    → Fields
    → Bool
    → Bool
    → Fields
    → Option Fields
    → RuntimeState
    → Option String
    → Readiness
unfolding by_status up
build_readiness_state profile vllm_status version_ok target_served config_verification mtp runtime
      last_backend_error =
    by_status (get_or_null "status" vllm_status) (raw_backend_status vllm_status) (
      up version_ok target_served (config_fields config_verification)
        (append_mtp_readiness profile mtp runtime) last_backend_error)

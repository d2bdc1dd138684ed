-- ===== src/Readiness/Tests.antt =====
-- Runs of the readiness, and the theorems about it at a concrete state.
use gemma_4_31b_mtp_v_llm_se.Prelude.{
  ◌≡◌, ◌↔◌, refl, String, Bool, true, false, none, some, [], ◌∷◌,
}
use gemma_4_31b_mtp_v_llm_se.Json.{
  pos, str, dict, Fields, no_entries, entry, get, get_or_null, is_str,
}
use gemma_4_31b_mtp_v_llm_se.Gateway.RuntimeState.{RuntimeState, fresh}
use gemma_4_31b_mtp_v_llm_se.Readiness.{
  Profile, warming, Readiness, remove, dedupe, readiness, raw_backend_status, text_le, insert_field,
  sort_fields, has_status, mismatches, unknowns, fields_of, config_fields, is_idle, is_missing,
  metrics_warning, state_of, mtp_before, mtp_after, speculates, append_mtp_readiness, not_ok,
  last_error, verdict, up, by_status, build_readiness_state,
}
use gemma_4_31b_mtp_v_llm_se.Readiness.Serving.{is_serving, IsServing, build_readiness_state_iff}

readiness_runs : Unit {0}
unfolding build_readiness_state by_status up verdict last_error not_ok append_mtp_readiness
    speculates mtp_before mtp_after state_of is_idle is_missing metrics_warning config_fields
    fields_of unknowns mismatches has_status sort_fields insert_field text_le raw_backend_status
    readiness dedupe remove get get_or_null is_str
readiness_runs = tt

abbrev profile : Profile
profile = record { num_speculative_tokens = pos 3; language_model_only = false }

abbrev ok_status : Fields
ok_status = entry "status" (str "ok") no_entries

abbrev field_status : String → Fields
field_status status = entry "status" (str status) no_entries

abbrev config : Fields
config =
    entry "fields"
      (dict (
        entry "quantization" (dict (field_status "mismatch")) (
          entry "max_num_seqs" (dict (field_status "unknown"))
            (entry "enforce_eager" (dict (field_status "mismatch")) no_entries))))
      no_entries

abbrev build : Bool → Fields → RuntimeState → Readiness
build version_ok config_verification runtime =
    build_readiness_state profile ok_status version_ok true config_verification
      (some (entry "state" (str "registered_but_idle") no_entries)) runtime none

mismatched :
    (build false config (fresh 8)).reasons
    ≡ "old_vllm_version" ∷ "config_mismatch:enforce_eager" ∷ "config_mismatch:quantization" ∷ []
unfolding readiness_runs
mismatched = refl

warming_up : (build true no_entries (fresh 8)).state ≡ warming
unfolding readiness_runs
warming_up = refl

unverified :
    (build true no_entries (record (fresh 8) { batch_requests = 1 })).reasons
    ≡ "mtp_unverified_after_generation" ∷ []
unfolding readiness_runs
unverified = refl

build_readiness_state_iff_example :
    (is_serving (build true config (fresh 8)).state ≡ true)
    ↔ IsServing profile ok_status true true config (fresh 8)
build_readiness_state_iff_example =
    build_readiness_state_iff profile ok_status true true config
      (some (entry "state" (str "registered_but_idle") no_entries)) (fresh 8) none

-- ===== src/Readiness/Serving.antt =====
-- When the gateway says that it serves: ready, or warming up.
use gemma_4_31b_mtp_v_llm_se.Prelude.{
  ◌≡◌, ◌⊎◌, ◌↔◌, refl, ap, sym, ◌∙◌, String, Bool, true, false, ◌&&◌, ◌||◌, Option, none, some,
  List, [], ◌∷◌, ◌++◌, is_empty, arith, Bool-cases, inl, inr, if◌then◌else◌,
}
use gemma_4_31b_mtp_v_llm_se.Json.{
  is_str_iff, Value, str, dict, Fields, no_entries, entry, get_or_null, is_str,
}
use gemma_4_31b_mtp_v_llm_se.Gateway.RuntimeState.{RuntimeState}
use gemma_4_31b_mtp_v_llm_se.Readiness.{
  Profile, State, unavailable, warming, ready, Readiness, dedupe, readiness, raw_backend_status,
  insert_field, sort_fields, has_status, mismatches, fields_of, verdict, config_fields,
  MtpReadiness, is_idle, is_missing, state_of, mtp_before, mtp_after, speculates,
  append_mtp_readiness, not_ok, up, by_status, build_readiness_state,
}

pub is_serving : State → Bool
is_serving ready = true
is_serving warming = true
is_serving state = false

-- Every field of the configuration that is checked has another status than "mismatch".
abbrev pub Matches : Fields → Type 0
Matches no_entries = Unit
Matches (entry name v fs) = (has_status "mismatch" name v ≡ false) × Matches fs

abbrev pub ConfigMatches : Value → Type 0
ConfigMatches (dict fields) = Matches fields
ConfigMatches v = Unit

-- Speculative decoding is off, nothing is generated yet, or the last delta says that it is active
-- or is in a state that is not known to be idle or missing.
abbrev pub IsMtpFine : Profile → RuntimeState → Type 0
IsMtpFine profile runtime =
    (speculates profile ≡ false)
    ⊎ ((runtime.batch_requests ≡ 0)
        ⊎ ((state_of runtime.last_mtp_delta ≡ str "active")
            ⊎ ((is_idle (state_of runtime.last_mtp_delta)
                  || is_missing (state_of runtime.last_mtp_delta))
                ≡ false)))

pub record IsServing (profile : Profile) (vllm_status : Fields) (version_ok target_served : Bool)
    (config_verification : Fields) (runtime : RuntimeState) : Type 0 where
  pub status : get_or_null "status" vllm_status ≡ str "ok"
  pub version : version_ok ≡ true
  pub target : target_served ≡ true
  pub config : ConfigMatches (get_or_null "fields" config_verification)
  pub mtp : IsMtpFine profile runtime

insert_field-mismatches :
    (name : String) (v : Value) (fs : Fields)
    → is_empty (mismatches (insert_field name v fs)) ≡ is_empty (mismatches (entry name v fs))
unfolding insert_field mismatches
insert_field-mismatches name v no_entries = refl
insert_field-mismatches name v (entry k w fs) = ground (arith, insert_field-mismatches name v fs)

sort_fields-mismatches :
    (fs : Fields) → is_empty (mismatches (sort_fields fs)) ≡ is_empty (mismatches fs)
unfolding sort_fields mismatches
sort_fields-mismatches no_entries = refl
sort_fields-mismatches (entry k v fs) =
    ground (arith, insert_field-mismatches k v (sort_fields fs), sort_fields-mismatches fs)

Matches-mismatches : (fs : Fields) → (is_empty (mismatches fs) ≡ true) ↔ Matches fs
unfolding mismatches
Matches-mismatches no_entries = (λ h. tt, λ h. refl)
Matches-mismatches (entry name v fs) =
    let (there, back) = Matches-mismatches fs in
    (λ h. (ground arith, there (ground arith)), λ (h, k). ground (arith, back k))

fields_of-mismatches : (v : Value) → (is_empty (mismatches (fields_of v)) ≡ true) ↔ ConfigMatches v
unfolding fields_of
fields_of-mismatches (dict fields) =
    let (there, back) = Matches-mismatches fields in
    (
      λ h. there (sym (sort_fields-mismatches fields) ∙ h),
      λ h. sort_fields-mismatches fields ∙ back h,
    )
fields_of-mismatches v = (λ h. tt, λ h. unfold mismatches in refl)

mtp-reasons :
    (profile : Profile) (mtp : Option Fields) (runtime : RuntimeState)
    → (is_empty (append_mtp_readiness profile mtp runtime).reasons ≡ true)
      ↔ IsMtpFine profile runtime
unfolding append_mtp_readiness mtp_before mtp_after
mtp-reasons profile mtp runtime =
    ground (arith, is_str_iff "active" (state_of runtime.last_mtp_delta))

dedupe-empty : (xs : List String) → is_empty (dedupe xs) ≡ is_empty xs
unfolding dedupe
dedupe-empty [] = refl
dedupe-empty (x ∷ xs) = refl

verdict-serving :
    (reasons : List String) (warming_up : Bool) (warnings : List String)
    → is_serving (verdict reasons warming_up warnings).state ≡ is_empty reasons
unfolding verdict readiness is_serving
verdict-serving [] true warnings = refl
verdict-serving [] false warnings = refl
verdict-serving (r ∷ rs) warming_up warnings = refl

verdict-reasons :
    (reasons : List String) (warming_up : Bool) (warnings : List String)
    → is_empty (verdict reasons warming_up warnings).reasons
      ≡ is_serving (verdict reasons warming_up warnings).state
unfolding verdict readiness is_serving
verdict-reasons [] true warnings = unfold dedupe in refl
verdict-reasons [] false warnings = unfold dedupe in refl
verdict-reasons (r ∷ rs) warming_up warnings = dedupe-empty (r ∷ rs)

up-serving :
    (version_ok target_served : Bool) (fields : Fields) (m : MtpReadiness)
    (last_backend_error : Option String)
    → is_serving (up version_ok target_served fields m last_backend_error).state
      ≡ (version_ok && (target_served && (is_empty (mismatches fields) && is_empty m.reasons)))
unfolding up
up-serving version_ok target_served fields m last_backend_error =
    verdict-serving _ _ _ ∙ counted version_ok target_served (mismatches fields) m.reasons
  where
    counted :
        (a b : Bool) (xs ys : List String)
        → is_empty (
            (if a then [] else "old_vllm_version" ∷ [])
            ++ ((if b then [] else "target_not_served" ∷ []) ++ (xs ++ ys)))
          ≡ (a && (b && (is_empty xs && is_empty ys)))
    counted true true [] ys = refl
    counted true true (x ∷ xs) ys = refl
    counted true false xs ys = refl
    counted false b xs ys = refl

up-reasons :
    (version_ok target_served : Bool) (fields : Fields) (m : MtpReadiness)
    (last_backend_error : Option String)
    → let r = up version_ok target_served fields m last_backend_error in
      is_empty r.reasons ≡ is_serving r.state
unfolding up
up-reasons version_ok target_served fields m last_backend_error = verdict-reasons _ _ _

not_ok-serving :
    (raw : Option String)
    → (is_serving (not_ok raw).state ≡ false) × (is_empty (not_ok raw).reasons ≡ false)
unfolding not_ok is_serving readiness dedupe
not_ok-serving none = (refl, refl)
not_ok-serving (some raw_status) = ground arith

unavailable-serving : is_serving unavailable ≡ false
unfolding is_serving
unavailable-serving = refl

unreachable_not_ok : (v : Value) → v ≡ str "unreachable" → is_str "ok" v ≡ false
unfolding is_str
unreachable_not_ok v e = rw e

by_status-serving :
    (v : Value) (raw : Option String) (r : Readiness)
    → is_serving (by_status v raw r).state ≡ (is_str "ok" v && is_serving r.state)
unfolding by_status readiness
by_status-serving v raw r = elim (Bool-cases (is_str "unreachable" v)) [
  | inl y ↦
      ground (arith, unreachable_not_ok v ((is_str_iff "unreachable" v).0 y), unavailable-serving)
  | inr no_answer ↦ ground (arith, not_ok-serving raw)
]

by_status-reasons :
    (v : Value) (raw : Option String) (r : Readiness)
    → is_empty r.reasons ≡ is_serving r.state
    → is_empty (by_status v raw r).reasons ≡ is_serving (by_status v raw r).state
unfolding by_status readiness
by_status-reasons v raw r e =
    ground
      (arith, e, not_ok-serving raw, dedupe-empty ("backend_unreachable" ∷ []), unavailable-serving)

module _ (profile : Profile) (vllm_status : Fields) (version_ok target_served : Bool)
    (config_verification : Fields) (mtp : Option Fields) (runtime : RuntimeState)
    (last_backend_error : Option String) where
  -- The state is ready or warming exactly when the backend says "ok", its version and its target are
  -- right, no checked field of the configuration is a mismatch, and speculative decoding is off, not
  -- yet used, or not found idle or missing by the last measurement.
  pub build_readiness_state_iff :
      (is_serving
          (build_readiness_state profile vllm_status version_ok target_served config_verification
            mtp runtime last_backend_error).state
        ≡ true)
      ↔ IsServing profile vllm_status version_ok target_served config_verification runtime
  unfolding build_readiness_state config_fields
  build_readiness_state_iff =
      let status = get_or_null "status" vllm_status in
      let fields = config_fields config_verification in
      let m = append_mtp_readiness profile mtp runtime in
      let (ok_in, ok_out) = is_str_iff "ok" status in
      let (config_in, config_out) =
        fields_of-mismatches (get_or_null "fields" config_verification) in
      let (mtp_in, mtp_out) = mtp-reasons profile mtp runtime in
      let e =
        by_status-serving status (raw_backend_status vllm_status)
          (up version_ok target_served fields m last_backend_error)
        ∙ ap (λ b. is_str "ok" status && b)
            (up-serving version_ok target_served fields m last_backend_error) in
      (
        λ h.
            let all = sym e ∙ h in
            record {
              status = ok_in (ground (arith, all));
              version = ground (arith, all);
              target = ground (arith, all);
              config = config_in (ground (arith, all));
              mtp = mtp_in (ground (arith, all));
            },
        λ s. e ∙ rw (ok_out s.status, s.version, s.target, config_out s.config, mtp_out s.mtp),
      )

  -- There are no reasons exactly when the state is ready or warming.
  pub build_readiness_state-reasons :
      let r =
        build_readiness_state profile vllm_status version_ok target_served config_verification mtp
          runtime last_backend_error in
      is_empty r.reasons ≡ is_serving r.state
  unfolding build_readiness_state
  build_readiness_state-reasons =
      by_status-reasons (get_or_null "status" vllm_status) (raw_backend_status vllm_status) _ (
        up-reasons version_ok target_served (config_fields config_verification)
          (append_mtp_readiness profile mtp runtime) last_backend_error)

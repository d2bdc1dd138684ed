-- ===== src/Requests/Policy/Refusals.antt =====
-- What policy.py refuses a body for.
use gemma_4_31b_mtp_v_llm_se.Prelude.{
  ◌≡◌, ◌⊎◌, refl, ap, sym, subst, String, Bool, true, false, some, List, [], ◌∷◌, ◌++◌, All, arith,
  Bool-cases, Option-cases, inl, inr,
}
use gemma_4_31b_mtp_v_llm_se.Json.{IfThere, Value, dict, Fields, get, get_or_null}
use gemma_4_31b_mtp_v_llm_se.Requests.Policy.{
  Reason, Verdict, UnsupportedFeature, accepted, refused, unsupported, openai_field,
  anthropic_field, structured_format, openai_reject_fields, anthropic_reject_fields, is_openai_noop,
  is_anthropic_noop, reject_loop, reject_format, validate_openai_request,
  validate_anthropic_request,
}
use gemma_4_31b_mtp_v_llm_se.Requests.Policy.Parts.{IsIdle}

-- The refusal names the first of the fields that is there and asks for something.
abbrev pub BlamesFirst :
    (String → Value → Bool) → (String → Reason) → Fields → List String → UnsupportedFeature → Type 0
BlamesFirst is_noop reason p names e =
    (before : List String) × (name : String) × (after : List String) × (names
      ≡ before ++ name ∷ after)
    × All (IsIdle is_noop p) before
    × (v : Value) × (get name p ≡ some v)
    × (is_noop name v ≡ false)
    × (refused e ≡ unsupported (reason name))

module _ (is_noop : String → Value → Bool) (reason : String → Reason) (p : Fields) (next : Verdict)
    (e : UnsupportedFeature) where
  -- A field that is idle is passed over.
  IsIdle-refused :
      (name : String) (names : List String)
      → IsIdle is_noop p name
      → BlamesFirst is_noop reason p names e ⊎ (All (IsIdle is_noop p) names × (next ≡ refused e))
      → BlamesFirst is_noop reason p (name ∷ names) e
        ⊎ (All (IsIdle is_noop p) (name ∷ names) × (next ≡ refused e))
  IsIdle-refused name names i (inl (before, n, after, k, is, v, g, b, f)) =
      inl (name ∷ before, n, after, ap (λ r. name ∷ r) k, (i, is), v, g, b, f)
  IsIdle-refused name names i (inr (is, h)) = inr ((i, is), h)

  reject_loop-refused :
      (names : List String)
      → reject_loop is_noop reason names p next ≡ refused e
      → BlamesFirst is_noop reason p names e ⊎ (All (IsIdle is_noop p) names × (next ≡ refused e))
  unfolding reject_loop
  reject_loop-refused [] h = inr (tt, h)
  reject_loop-refused (name ∷ names) h = elim (Option-cases (get name p)) [
    | inl n ↦
        IsIdle-refused name names (subst (IfThere _) (sym n) tt)
          (reject_loop-refused names (ground arith))
    | inr (v, k) ↦ elim (Bool-cases (is_noop name v)) [
      | inl y ↦
          IsIdle-refused name names (subst (IfThere _) (sym k) y)
            (reject_loop-refused names (ground arith))
      | inr n ↦ inl ([], name, names, refl, tt, v, k, n, ground arith)
    ]
  ]

format-refused :
    (v : Value) (mtp_enabled : Bool) (e : UnsupportedFeature)
    → reject_format v mtp_enabled ≡ refused e
    → (mtp_enabled ≡ true) × (refused e ≡ unsupported structured_format)
unfolding reject_format
format-refused (dict fs) true e h = (refl, ground arith)
format-refused (dict fs) false e h = absurd (ground arith)
format-refused v mtp_enabled e h = absurd (ground arith)

-- An OpenAI body that is refused is refused with status 400 and code "unsupported_feature". The
-- error names the first of the unsupported fields, in the order of the table, that is there and
-- asks for something; or there is none, MTP is on, and the error is that of response_format.
pub openai_request-refused :
    (p : Fields) (mtp_enabled : Bool) (e : UnsupportedFeature)
    → validate_openai_request p mtp_enabled ≡ refused e
    → BlamesFirst is_openai_noop openai_field p openai_reject_fields e
      ⊎ (All (IsIdle is_openai_noop p) openai_reject_fields
          × (mtp_enabled ≡ true)
          × (refused e ≡ unsupported structured_format))
unfolding validate_openai_request
openai_request-refused p mtp_enabled e h =
    elim (reject_loop-refused is_openai_noop openai_field p _ e openai_reject_fields h) [
      | inl b ↦ inl b
      | inr (idle, k) ↦
          let (on, said) = format-refused (get_or_null "response_format" p) mtp_enabled e k in
          inr (idle, on, said)
    ]

-- An Anthropic body that is refused is refused with status 400 and code "unsupported_feature", and
-- the error names the first of the unsupported fields, in the order of the table, that is there and
-- asks for something.
pub anthropic_request-refused :
    (p : Fields) (e : UnsupportedFeature)
    → validate_anthropic_request p ≡ refused e
    → BlamesFirst is_anthropic_noop anthropic_field p anthropic_reject_fields e
unfolding validate_anthropic_request
anthropic_request-refused p e h =
    elim (reject_loop-refused is_anthropic_noop anthropic_field p accepted e anthropic_reject_fields
      h) [ inl b ↦ b | inr (idle, k) ↦ absurd (ground arith) ]

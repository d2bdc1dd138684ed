-- ===== src/Gateway/Completions/Bodies.antt =====
-- The body that the backend is asked with.
use gemma_4_31b_mtp_v_llm_se.Prelude.{
  ℕ, suc, ◌≤◌, ◌≡◌, min, refl, ◌∙◌, String, false, some, arith, eq_iff, eq_refl,
}
use gemma_4_31b_mtp_v_llm_se.Json.{pos, Value, int, str, Fields, no_entries, entry, get}
use gemma_4_31b_mtp_v_llm_se.Gateway.Completions.{set_field, requested_tokens, completion_body}
use text.Mathlib.Text.{◌==◌ as str_eq}

pub get-set_field : (key : String) (v : Value) (fs : Fields) → get key (set_field key v fs) ≡ some v
unfolding set_field get
get-set_field key v no_entries = ground (arith, eq_refl key)
get-set_field key v (entry k w fs) = ground (arith, eq_refl key, get-set_field key v fs)

pub get-set_field_other :
    (other key : String) (v : Value) (fs : Fields)
    → str_eq key other ≡ false
    → get other (set_field key v fs) ≡ get other fs
unfolding set_field get
get-set_field_other other key v no_entries h = ground arith
get-set_field_other other key v (entry k w fs) h =
    ground (arith, eq_iff k key, eq_iff k other, get-set_field_other other key v fs h)

-- The backend is asked for the model that it serves and for as many tokens as the client asks for,
-- or for the limit, where the client asks for more or does not say; what else the body holds is
-- passed on.
completion_body-fields :
    (payload : Fields) (served : String) (limit : ℕ) (other : String)
    → str_eq "max_tokens" other ≡ false
    → str_eq "model" other ≡ false
    → (get "model" (completion_body payload served limit) ≡ some (str served))
      × (get other (completion_body payload served limit) ≡ get other payload)
      × ((tokens : ℕ) × (get "max_tokens" (completion_body payload served limit)
            ≡ some (int (pos tokens)))
          × (tokens ≤ limit)
          × ((n : ℕ)
              → get "max_tokens" payload ≡ some (int (pos (suc n)))
              → tokens ≡ min (suc n) limit))
unfolding completion_body requested_tokens
completion_body-fields payload served limit other h k = (
  get-set_field_other "model" "max_tokens" _ _ refl ∙ get-set_field "model" (str served) payload,
  get-set_field_other other "max_tokens" _ _ h ∙ get-set_field_other other "model" _ payload k,
  (
    min (requested_tokens (get "max_tokens" payload) limit) limit,
    get-set_field "max_tokens" _ _,
    omega arith,
    λ n e. rw e,
  ),
)

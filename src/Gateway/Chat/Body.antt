-- ===== src/Gateway/Chat/Body.antt =====
-- `_prepare_openai_body` of server/app.py: the body for the backend.
use gemma_4_31b_mtp_v_llm_se.Prelude.{ℕ, suc, min, String, true, Option, none, some}
use gemma_4_31b_mtp_v_llm_se.Prelude.Text.{Text}
use gemma_4_31b_mtp_v_llm_se.Json.{
  ℤ, pos, Float, Value, bool, int, float, str, Fields, get, get_or_null,
}
use gemma_4_31b_mtp_v_llm_se.Gateway.Completions.{set_field}
use gemma_4_31b_mtp_v_llm_se.Gateway.Visible.{drop_field, sanitize_openai_messages}

-- `body.setdefault(key, value)`
unfoldable pub set_default : String → Value → Fields → Fields
unfolding get
set_default key v fields = elim (get key fields) [
  | none ↦ set_field key v fields
  | some old ↦ fields
]

-- `min(int(requested_max), limit)`, with the limit for what is no positive int
unfoldable pub clamped_tokens : Option Value → ℕ → ℕ
clamped_tokens (some (int (pos (suc n)))) limit = min (suc n) limit
clamped_tokens (some (bool true)) limit = min 1 limit
clamped_tokens v limit = limit

-- What the profile gives a chat that does not say it
pub record Sampling : Type 0 where
  pub temperature : Float
  pub top_p : Float
  pub top_k : ℤ

unfoldable pub set_top_k : ℤ → Fields → Fields
unfolding set_default
set_top_k (pos (suc n)) fields = set_default "top_k" (int (pos (suc n))) fields
set_top_k n fields = fields

unfoldable pub drop_unsupported : Fields → Fields
unfolding drop_field
drop_unsupported fields = drop_field "response_format" (
    drop_field "tool_choice"
      (drop_field "function_call" (drop_field "functions" (drop_field "tools" fields))))

unfoldable pub body_with : Fields → Sampling → ℕ → String → Option Value → Option Fields
unfolding drop_unsupported set_top_k set_default set_field clamped_tokens get
body_with payload sampling limit upstream_model none = none
body_with payload sampling limit upstream_model (some messages) = some (
    drop_unsupported (
      set_top_k sampling.top_k (
        set_default "top_p" (float sampling.top_p) (
          set_default "temperature" (float sampling.temperature) (
            set_field "max_tokens" (int (pos (clamped_tokens (get "max_tokens" payload) limit)))
              (set_field "model" (str upstream_model) (set_field "messages" messages payload)))))))

-- `_prepare_openai_body`; `none` stands for a sanitizer out of fuel
unfoldable pub prepare_openai_body : (Value → Text) → Fields → Sampling → ℕ → String → Option Fields
unfolding body_with sanitize_openai_messages get_or_null
prepare_openai_body str_of payload sampling limit upstream_model =
    body_with payload sampling limit upstream_model
      (sanitize_openai_messages str_of (get_or_null "messages" payload))

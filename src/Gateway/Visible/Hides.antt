-- ===== src/Gateway/Visible/Hides.antt =====
-- What the server sends on holds no field of hidden reasoning.
pub mod Chunks
pub mod Responses
use gemma_4_31b_mtp_v_llm_se.Prelude.{
  ◌≡◌, refl, sym, ◌∙◌, subst, ap, String, Bool, true, false, Option, none, some, List, [], ◌∷◌,
  arith, eq_iff, eq_refl, if◌then◌else◌, if-either,
}
use gemma_4_31b_mtp_v_llm_se.Prelude.Text.{Text, codes}
use gemma_4_31b_mtp_v_llm_se.Json.{
  Value, null, str, list, dict, Items, no_items, item, AllItems, Fields, no_entries, entry, get,
  get_or_null, is_null,
}
use gemma_4_31b_mtp_v_llm_se.Sanitizer.{Sanitizer, feed, finish}
use gemma_4_31b_mtp_v_llm_se.Sanitizer.Whole.{feed_total, finish_total}
use gemma_4_31b_mtp_v_llm_se.Gateway.Completions.{set_field}
use gemma_4_31b_mtp_v_llm_se.Gateway.Completions.Bodies.{get-set_field, get-set_field_other}
use gemma_4_31b_mtp_v_llm_se.Gateway.Visible.{drop_field, drop_reasoning_fields}
use text.Mathlib.Text.{◌==◌ as str_eq}

get-drop_field : (key : String) (fs : Fields) → get key (drop_field key fs) ≡ none
unfolding get drop_field
get-drop_field key no_entries = refl
get-drop_field key (entry k v fs) = ground (arith, get-drop_field key fs)

get-drop_field_other :
    (other key : String) (fs : Fields)
    → str_eq key other ≡ false
    → get other (drop_field key fs) ≡ get other fs
unfolding get drop_field
get-drop_field_other other key no_entries h = refl
get-drop_field_other other key (entry k v fs) h =
    ground (arith, eq_iff k key, eq_iff k other, get-drop_field_other other key fs h)

-- Neither `reasoning_content` nor `logprobs` is there.
abbrev pub HidesReasoning : Fields → Type 0
HidesReasoning fs = (get "reasoning_content" fs ≡ none) × (get "logprobs" fs ≡ none)

pub drop_reasoning_fields-HidesReasoning : (fs : Fields) → HidesReasoning (drop_reasoning_fields fs)
unfolding drop_reasoning_fields
drop_reasoning_fields-HidesReasoning fs = (
  get-drop_field_other "reasoning_content" "logprobs" (drop_field "reasoning_content" fs) refl
      ∙ get-drop_field "reasoning_content" fs,
  get-drop_field "logprobs" (drop_field "reasoning_content" fs),
)

pub set_field-HidesReasoning :
    (key : String) (v : Value) (fs : Fields)
    → str_eq key "reasoning_content" ≡ false
    → str_eq key "logprobs" ≡ false
    → HidesReasoning fs
    → HidesReasoning (set_field key v fs)
set_field-HidesReasoning key v fs h k (p, q) = (
  get-set_field_other "reasoning_content" key v fs h ∙ p,
  get-set_field_other "logprobs" key v fs k ∙ q,
)

pub drop_field-HidesReasoning :
    (key : String) (fs : Fields)
    → str_eq key "reasoning_content" ≡ false
    → str_eq key "logprobs" ≡ false
    → HidesReasoning fs
    → HidesReasoning (drop_field key fs)
drop_field-HidesReasoning key fs h k (p, q) = (
  get-drop_field_other "reasoning_content" key fs h ∙ p,
  get-drop_field_other "logprobs" key fs k ∙ q,
)

pub get_or_null-set_field :
    (key : String) (v : Value) (fs : Fields) → get_or_null key (set_field key v fs) ≡ v
unfolding get_or_null
get_or_null-set_field key v fs = ground (arith, get-set_field key v fs)

pub get_or_null-set_field_other :
    (other key : String) (v : Value) (fs : Fields)
    → str_eq key other ≡ false
    → get_or_null other (set_field key v fs) ≡ get_or_null other fs
unfolding get_or_null
get_or_null-set_field_other other key v fs h = ground (arith, get-set_field_other other key v fs h)

-- A value that hides the reasoning, if it is a dictionary
abbrev pub IsClear : Value → Type 0
IsClear (dict fs) = HidesReasoning fs
IsClear v = Unit

-- A choice, and what stands in it under the key
abbrev pub IsClearChoice : String → Value → Type 0
IsClearChoice key (dict choice) = HidesReasoning choice × IsClear (get_or_null key choice)
IsClearChoice key v = Unit

abbrev pub AreClear : String → Value → Type 0
AreClear key (list vs) = AllItems (IsClearChoice key) vs
AreClear key v = Unit

-- ===== src/Requests/Validation/Checks.antt =====
-- When each check of validation.py returns.
use gemma_4_31b_mtp_v_llm_se.Prelude.{
  ℕ, suc, ◌≡◌, ◌↔◌, refl, String, true, false, Option, none, some, leb, arith, Bool-cases, inl, inr,
}
use gemma_4_31b_mtp_v_llm_se.Json.{
  IfThere, ℤ, pos, negsuc, fraction, Value, null, bool, int, float, list, dict, Items, no_items,
  item, Fields, get, get_or_null, AllItems,
}
use gemma_4_31b_mtp_v_llm_se.Requests.Validation.{
  Result, ok, raise, ◌>>◌, is_non_empty_str, is_prompt, content_present, validate_positive_int,
  validate_number, validate_bool, validate_message, validate_each, validate_messages, float_limit,
  magnitude, is_below, is_above, check_bounds, check_minimum, check_maximum, require_model,
  require_prompt, require_positive_int, optional_positive_int, optional_number, optional_bool,
  optional_system,
}
use gemma_4_31b_mtp_v_llm_se.Requests.Validation.Parts.{
  IsName, IsPositiveInt, IsAtLeast, IsAtMost, IsNumber, IsBool, IsTextContent, IsThere, IsMessage,
  IsMessageList, IsPrompt, is_non_empty_str_iff, is_prompt_iff, content_is_text_iff, given_iff,
}

pub then_iff : (m next : Result) → ((m >> next) ≡ ok) ↔ ((m ≡ ok) × (next ≡ ok))
then_iff ok next = (λ h. (refl, h), λ (_, h). h)
then_iff (raise e) next = (λ h. cc, λ (h, _). cc)

pub validate_positive_int_iff :
    (v : Value) (field : String) → (validate_positive_int v field ≡ ok) ↔ IsPositiveInt v
unfolding validate_positive_int
validate_positive_int_iff (int (pos (suc n))) field = (λ h. (n, refl), λ h. refl)
validate_positive_int_iff v field = (λ h. cc, λ (n, e). cc)

pub validate_bool_iff : (v : Value) (field : String) → (validate_bool v field ≡ ok) ↔ IsBool v
unfolding validate_bool
validate_bool_iff (bool b) field = (λ h. (b, refl), λ h. refl)
validate_bool_iff v field = (λ h. cc, λ (b, e). cc)

check_minimum_iff :
    (n : ℤ) (d : ℕ) (field : String) (low : Option ℕ)
    → (check_minimum n d field low ≡ ok) ↔ IsAtLeast low n d
unfolding check_minimum is_below
check_minimum_iff n d field none = (λ h. tt, λ h. refl)
check_minimum_iff (pos n) d field (some b) = (λ h. ground arith, λ h. ground arith)
check_minimum_iff (negsuc n) d field (some b) = (λ h. cc, λ h. absurd h)

check_maximum_iff :
    (n : ℤ) (d : ℕ) (field : String) (high : Option ℕ)
    → (check_maximum n d field high ≡ ok) ↔ IsAtMost high n d
unfolding check_maximum is_above
check_maximum_iff n d field none = (λ h. tt, λ h. refl)
check_maximum_iff (pos n) d field (some b) = (λ h. ground arith, λ h. ground arith)
check_maximum_iff (negsuc n) d field (some b) = (λ h. tt, λ h. refl)

check_bounds_iff :
    (n : ℤ) (d : ℕ) (field : String) (low high : Option ℕ)
    → (check_bounds n d field low high ≡ ok) ↔ (IsAtLeast low n d × IsAtMost high n d)
unfolding check_bounds
check_bounds_iff n d field low high =
    let (split, join) = then_iff (check_minimum n d field low) (check_maximum n d field high) in
    let (low_in, low_out) = check_minimum_iff n d field low in
    let (high_in, high_out) = check_maximum_iff n d field high in
    (λ h. let (p, q) = split h in (low_in p, high_in q), λ (p, q). join (low_out p, high_out q))

pub validate_number_iff :
    (v : Value) (field : String) (low high : Option ℕ)
    → (validate_number v field low high ≡ ok) ↔ IsNumber low high v
unfolding validate_number
validate_number_iff (int n) field low high =
    let (in_bounds, out_bounds) = check_bounds_iff n 0 field low high in
    elim (Bool-cases (leb float_limit (magnitude n))) [
      | inl large ↦ (λ h. absurd (ground arith), λ (h, _, _). absurd (ground arith))
      | inr fits ↦ (
        λ h. let (p, q) = in_bounds (ground arith) in (ground arith, p, q),
        λ (h, p, q). ground (arith, out_bounds (p, q)),
      )
    ]
validate_number_iff (float (fraction n d)) field low high = check_bounds_iff n d field low high
validate_number_iff v field low high = (λ h. cc, λ h. absurd h)

content_present_iff : (o : Option Value) → (content_present o ≡ true) ↔ IsThere IsTextContent o
unfolding content_present
content_present_iff none = (λ h. cc, λ h. absurd h)
content_present_iff (some v) = content_is_text_iff v

is_non_empty_str-null : is_non_empty_str null ≡ false
unfolding is_non_empty_str
is_non_empty_str-null = refl

text_field_iff :
    (key : String) (fs : Fields)
    → (is_non_empty_str (get_or_null key fs) ≡ true) ↔ IsThere IsName (get key fs)
unfolding get_or_null
text_field_iff key fs =
    given_iff is_non_empty_str IsName is_non_empty_str_iff (get key fs) is_non_empty_str-null

pub validate_message_iff :
    (v : Value) (field : String) (index : ℕ) → (validate_message v field index ≡ ok) ↔ IsMessage v
unfolding validate_message
validate_message_iff (dict fs) field index =
    let (role, role') = text_field_iff "role" fs in
    let (content, content') = content_present_iff (get "content" fs) in
    (
      λ h. (role (ground arith), content (ground arith)),
      λ (h, k). ground (arith, role' h, content' k),
    )
validate_message_iff v field index = (λ h. cc, λ h. absurd h)

pub validate_each_iff :
    (vs : Items) (field : String) (index : ℕ)
    → (validate_each vs field index ≡ ok) ↔ AllItems IsMessage vs
unfolding validate_each
validate_each_iff no_items field index = (λ h. tt, λ h. refl)
validate_each_iff (item v vs) field index =
    let (split, join) =
      then_iff (validate_message v field index) (validate_each vs field (suc index)) in
    let (here, here') = validate_message_iff v field index in
    let (later, later') = validate_each_iff vs field (suc index) in
    (λ h. let (p, q) = split h in (here p, later q), λ (p, q). join (here' p, later' q))

pub validate_messages_iff :
    (v : Value) (field : String) → (validate_messages v field ≡ ok) ↔ IsMessageList v
unfolding validate_messages
validate_messages_iff (list (item v vs)) field = validate_each_iff (item v vs) field 0
validate_messages_iff v field = (λ h. cc, λ h. absurd h)

module _ (P : Value → Type 0) (check : Value → Result)
    (each : (v : Value) → (check v ≡ ok) ↔ P v) where
  optional_iff :
      (o : Option Value)
      → (elim o as (λ _. Result) [ none ↦ ok | some v ↦ check v ] ≡ ok) ↔ IfThere P o
  optional_iff none = (λ h. tt, λ h. refl)
  optional_iff (some v) = each v

  required_iff :
      (o : Option Value) (missing : Result)
      → ¬ (missing ≡ ok)
      → (elim o as (λ _. Result) [ none ↦ missing | some v ↦ check v ] ≡ ok) ↔ IsThere P o
  required_iff none missing h = (λ e. absurd (h e), λ e. absurd e)
  required_iff (some v) missing h = each v

pub require_model_iff : (p : Fields) → (require_model p ≡ ok) ↔ IsThere IsName (get "model" p)
unfolding require_model
require_model_iff p =
    let (name, name') = text_field_iff "model" p in
    (λ h. name (ground arith), λ h. ground (arith, name' h))

is_prompt-null : is_prompt null ≡ false
unfolding is_prompt
is_prompt-null = refl

pub require_prompt_iff : (p : Fields) → (require_prompt p ≡ ok) ↔ IsThere IsPrompt (get "prompt" p)
unfolding require_prompt get_or_null
require_prompt_iff p =
    let (prompt, prompt') =
      given_iff is_prompt IsPrompt is_prompt_iff (get "prompt" p) is_prompt-null in
    (λ h. prompt (ground arith), λ h. ground (arith, prompt' h))

pub optional_positive_int_iff :
    (p : Fields) (field : String)
    → (optional_positive_int p field ≡ ok) ↔ IfThere IsPositiveInt (get field p)
unfolding optional_positive_int
optional_positive_int_iff p field =
    optional_iff IsPositiveInt (λ v. validate_positive_int v field)
      (λ v. validate_positive_int_iff v field) (get field p)

pub require_positive_int_iff :
    (p : Fields) (field : String)
    → (require_positive_int p field ≡ ok) ↔ IsThere IsPositiveInt (get field p)
unfolding require_positive_int
require_positive_int_iff p field =
    required_iff IsPositiveInt (λ v. validate_positive_int v field)
      (λ v. validate_positive_int_iff v field) (get field p) _ (λ h. cc)

pub optional_number_iff :
    (p : Fields) (field : String) (low high : Option ℕ)
    → (optional_number p field low high ≡ ok) ↔ IfThere (IsNumber low high) (get field p)
unfolding optional_number
optional_number_iff p field low high =
    optional_iff (IsNumber low high) (λ v. validate_number v field low high)
      (λ v. validate_number_iff v field low high) (get field p)

pub optional_bool_iff :
    (p : Fields) (field : String) → (optional_bool p field ≡ ok) ↔ IfThere IsBool (get field p)
unfolding optional_bool
optional_bool_iff p field =
    optional_iff IsBool (λ v. validate_bool v field) (λ v. validate_bool_iff v field) (get field p)

pub optional_system_iff :
    (p : Fields) → (optional_system p ≡ ok) ↔ IfThere IsTextContent (get "system" p)
unfolding optional_system
optional_system_iff p =
    optional_iff IsTextContent _
      (λ v.
        let (text, text') = content_is_text_iff v in
        (λ h. text (ground arith), λ h. ground (arith, text' h)))
      (get "system" p)

-- ===== src/Requests/Validation/Parts.antt =====
-- What each check of validation.py accepts, said without the code.
use gemma_4_31b_mtp_v_llm_se.Prelude.{
  ℕ, suc, ◌*◌, ◌≤◌, ◌<◌, ◌≡◌, ◌↔◌, refl, ap, String, Bool, true, false, Option, none, some, all,
  arith, eq_iff,
}
use gemma_4_31b_mtp_v_llm_se.Prelude.Text.{codes, strip-empty, is_space}
use gemma_4_31b_mtp_v_llm_se.Json.{
  ℤ, pos, negsuc, fraction, Value, null, bool, int, float, str, list, dict, Items, no_items, item,
  get, get_or_null, is_str, all_items, AllItems,
}
use gemma_4_31b_mtp_v_llm_se.Requests.Validation.{
  is_non_empty_str, is_text, is_prompt, is_text_block, content_is_text, float_limit, magnitude,
}

-- A text with a character that is no white space
abbrev pub IsName : Value → Type 0
IsName v = (s : String) × (v ≡ str s) × (all is_space (codes s) ≡ false)

abbrev pub IsPositiveInt : Value → Type 0
IsPositiveInt v = (n : ℕ) × (v ≡ int (pos (suc n)))

-- `bound ≤ n / (d + 1)`
abbrev pub IsAtLeast : Option ℕ → ℤ → ℕ → Type 0
IsAtLeast none n d = Unit
IsAtLeast (some bound) (pos n) d = bound * suc d ≤ n
IsAtLeast (some bound) (negsuc n) d = ⊥

-- `n / (d + 1) ≤ bound`
abbrev pub IsAtMost : Option ℕ → ℤ → ℕ → Type 0
IsAtMost none n d = Unit
IsAtMost (some bound) (pos n) d = n ≤ bound * suc d
IsAtMost (some bound) (negsuc n) d = Unit

-- An int that a float can hold, or a finite float, within the bounds; a bool is no number
abbrev pub IsNumber : Option ℕ → Option ℕ → Value → Type 0
IsNumber low high (int n) = (magnitude n < float_limit) × IsAtLeast low n 0 × IsAtMost high n 0
IsNumber low high (float (fraction n d)) = IsAtLeast low n d × IsAtMost high n d
IsNumber low high v = ⊥

abbrev pub IsBool : Value → Type 0
IsBool v = (b : Bool) × (v ≡ bool b)

abbrev pub IsString : Value → Type 0
IsString v = (s : String) × (v ≡ str s)

-- The key is there, and its value has the property.
abbrev pub IsThere : (Value → Type 0) → Option Value → Type 0
IsThere P none = ⊥
IsThere P (some v) = P v

abbrev pub IsTextBlock : Value → Type 0
IsTextBlock (dict fs) = (get "type" fs ≡ some (str "text")) × IsThere IsString (get "text" fs)
IsTextBlock v = ⊥

abbrev pub IsTextContent : Value → Type 0
IsTextContent (str s) = Unit
IsTextContent (list blocks) = AllItems IsTextBlock blocks
IsTextContent v = ⊥

abbrev pub IsMessage : Value → Type 0
IsMessage (dict fs) = IsThere IsName (get "role" fs) × IsThere IsTextContent (get "content" fs)
IsMessage v = ⊥

abbrev pub IsMessageList : Value → Type 0
IsMessageList (list (item v vs)) = AllItems IsMessage (item v vs)
IsMessageList v = ⊥

abbrev pub IsPrompt : Value → Type 0
IsPrompt (str s) = Unit
IsPrompt (list (item v vs)) = AllItems IsString (item v vs)
IsPrompt v = ⊥

pub is_non_empty_str_iff : (v : Value) → (is_non_empty_str v ≡ true) ↔ IsName v
unfolding is_non_empty_str
is_non_empty_str_iff (str s) = (
  λ h. (s, refl, ground (arith, strip-empty (codes s))),
  λ (t, e, h). ground (arith, strip-empty (codes s)),
)
is_non_empty_str_iff v = (λ h. cc, λ (t, e, h). cc)

pub is_text_iff : (v : Value) → (is_text v ≡ true) ↔ IsString v
unfolding is_text
is_text_iff (str s) = (λ h. (s, refl), λ h. refl)
is_text_iff v = (λ h. cc, λ (t, e). cc)

pub all_items_iff :
    (p : Value → Bool) (P : Value → Type 0)
    → ((v : Value) → (p v ≡ true) ↔ P v)
    → (vs : Items) → (all_items p vs ≡ true) ↔ AllItems P vs
all_items_iff p P each no_items = (λ h. tt, λ h. refl)
all_items_iff p P each (item v vs) =
    let (here, there) = each v in
    let (first, last) = all_items_iff p P each vs in
    (λ h. (here (ground arith), first (ground arith)), λ (h, k). ground (arith, there h, last k))

pub is_prompt_iff : (v : Value) → (is_prompt v ≡ true) ↔ IsPrompt v
unfolding is_prompt
is_prompt_iff (str s) = (λ h. tt, λ h. refl)
is_prompt_iff (list (item v vs)) = all_items_iff is_text IsString is_text_iff (item v vs)
is_prompt_iff v = (λ h. cc, λ h. absurd h)

is_str-text : (v : Value) → (is_str "text" v ≡ true) ↔ (v ≡ str "text")
unfolding is_str
is_str-text (str s) = (λ h. ground (arith, eq_iff s "text"), λ h. ground (arith, eq_iff s "text"))
is_str-text v = (λ h. cc, λ h. cc)

module _ (f : Value → Bool) (P : Value → Type 0) (each : (v : Value) → (f v ≡ true) ↔ P v) where
  -- A check of `payload.get(key)` that refuses `None`
  pub given_iff :
      (o : Option Value)
      → f null ≡ false
      → (f (elim o [ none ↦ null | some v ↦ v ]) ≡ true) ↔ IsThere P o
  given_iff none h = (λ k. cc, λ k. absurd k)
  given_iff (some v) h = each v

is_str-null : is_str "text" null ≡ true → ⊥
unfolding is_str
is_str-null h = cc

is_text-null : is_text null ≡ false
unfolding is_text
is_text-null = refl

is_str-there :
    (o : Option Value)
    → (is_str "text" (elim o [ none ↦ null | some v ↦ v ]) ≡ true) ↔ (o ≡ some (str "text"))
is_str-there none = (λ h. absurd (is_str-null h), λ h. cc)
is_str-there (some v) = (λ h. ap some ((is_str-text v).0 h), λ h. (is_str-text v).1 (ground arith))

pub is_text_block_iff : (v : Value) → (is_text_block v ≡ true) ↔ IsTextBlock v
unfolding is_text_block get_or_null
is_text_block_iff (dict fs) =
    let (kind, kind') = is_str-there (get "type" fs) in
    let (text, text') = given_iff is_text IsString is_text_iff (get "text" fs) is_text-null in
    (λ h. (kind (ground arith), text (ground arith)), λ (h, k). ground (arith, kind' h, text' k))
is_text_block_iff v = (λ h. cc, λ h. absurd h)

pub content_is_text_iff : (v : Value) → (content_is_text v ≡ true) ↔ IsTextContent v
unfolding content_is_text
content_is_text_iff (str s) = (λ h. tt, λ h. refl)
content_is_text_iff (list vs) = all_items_iff is_text_block IsTextBlock is_text_block_iff vs
content_is_text_iff v = (λ h. cc, λ h. absurd h)

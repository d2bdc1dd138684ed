-- ===== src/Json.antt =====
-- The values that `json.loads` returns, and the operations on them that the program uses.
-- An `int` is of any size. A `float` is exact: NaN, an infinity, or a fraction.
use gemma_4_31b_mtp_v_llm_se.Prelude.{
  ◌≡◌, ◌↔◌, arith, eq_iff, ℕ, zero, String, Bool, true, false, not, ◌&&◌, Option, none, some,
  if◌then◌else◌, is_empty,
}
use gemma_4_31b_mtp_v_llm_se.Prelude.Text.{codes}
use text.Mathlib.Text.{◌==◌ as str_eq}

-- `negsuc n` is -(n + 1).
pub data ℤ : Type 0 where
  pos : ℕ → ℤ
  negsuc : ℕ → ℤ

-- `fraction n d` is n / (d + 1).
pub data Float : Type 0 where
  nan : Float
  infinity : (negative : Bool) → Float
  fraction : ℤ → ℕ → Float

mutual
  -- A dictionary, in the order of its keys
  pub data Fields : Type 0 where
    no_entries : Fields
    entry : String → Value → Fields → Fields

  pub data Value : Type 0 where
    dict : Fields → Value
    list : Items → Value
    str : String → Value
    float : Float → Value
    int : ℤ → Value
    bool : Bool → Value
    null : Value

  pub data Items : Type 0 where
    no_items : Items
    item : (first : Value) (rest : Items) → Items

-- `payload.get(key)`, with `none` where the key is not in the dictionary
unfoldable pub get : String → Fields → Option Value
get key no_entries = none
get key (entry k v fs) = if str_eq k key then some v else get key fs

-- `payload.get(key)`, with `None` where the key is not in the dictionary
unfoldable pub get_or_null : String → Fields → Value
unfolding get
get_or_null key fs = elim (get key fs) [ none ↦ null | some v ↦ v ]

-- Every item of the list has the property.
abbrev pub AllItems : (Value → Type 0) → Items → Type 0
AllItems P no_items = Unit
AllItems P (item v vs) = P v × AllItems P vs

abbrev pub all_items : (Value → Bool) → Items → Bool
all_items p no_items = true
all_items p (item v vs) = p v && all_items p vs

-- `isinstance(value, str) and value == text`
unfoldable pub is_str : String → Value → Bool
is_str text (str s) = str_eq s text
is_str text v = false

abbrev pub is_null : Value → Bool
is_null null = true
is_null v = false

-- `bool(value)`
unfoldable pub truthy : Value → Bool
truthy null = false
truthy (bool b) = b
truthy (int (pos zero)) = false
truthy (float (fraction (pos zero) d)) = false
truthy (str s) = not (is_empty (codes s))
truthy (list no_items) = false
truthy (dict no_entries) = false
truthy v = true

-- Where the key is there, its value has the property.
abbrev pub IfThere : (Value → Type 0) → Option Value → Type 0
IfThere P none = Unit
IfThere P (some v) = P v

pub is_str_iff : (text : String) (v : Value) → (is_str text v ≡ true) ↔ (v ≡ str text)
unfolding is_str
is_str_iff text (str s) = (λ h. ground (arith, eq_iff s text), λ h. ground (arith, eq_iff s text))
is_str_iff text v = (λ h. cc, λ h. cc)

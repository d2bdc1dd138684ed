-- ===== src/Redaction/Values.antt =====
-- `redact_public_value` of src/gemma4_mtp_vllm/runtime_config.py and the private paths.
use gemma_4_31b_mtp_v_llm_se.Prelude.{
  ◌≡◌, refl, arith, Bool, true, false, not, ◌||◌, Option, none, some, All, ◌⊎◌, Bool-cases, inl,
  inr, String,
}
use gemma_4_31b_mtp_v_llm_se.Prelude.Text.{Text, codes}
use gemma_4_31b_mtp_v_llm_se.Prelude.Chars.{text_of, codes-IsScalar, codes-text_of}
use gemma_4_31b_mtp_v_llm_se.Json.{
  Value, str, list, dict, Items, no_items, item, Fields, no_entries, entry,
}
use gemma_4_31b_mtp_v_llm_se.Redaction.{
  Codec, contains_private_path, parsed_of, redact_path, redact_value, redact_items, redact_fields,
  redact_public_value, redacted_str, redacted_list, redacted_dict, redacted_item, redacted_entry,
}
use gemma_4_31b_mtp_v_llm_se.Redaction.Paths.{redact_path-hides}
use gemma_4_31b_mtp_v_llm_se.Redaction.Total.{strings_pass, items_pass, fields_pass}
use Prim.Native.Char.{IsScalar}

abbrev is_none : Option Value → Bool
is_none none = true
is_none (some v) = false

-- A text with a private path, or one that is not read as JSON
abbrev pub is_plain : Codec → Text → Bool
is_plain codec text = contains_private_path text || is_none (parsed_of codec text)

abbrev pub is_public : Text → Bool
is_public text = not (contains_private_path text)

none_read : (o : Option Value) → is_none o ≡ true → o ≡ none
none_read none e = refl
none_read (some v) e = ground (arith, e)

is_plain-either :
    (codec : Codec) (text : Text)
    → is_plain codec text ≡ true
    → (contains_private_path text ≡ true) ⊎ (parsed_of codec text ≡ none)
is_plain-either codec text e = elim (Bool-cases (contains_private_path text)) [
  | inl found ↦ inl found
  | inr clean ↦ inr (none_read (parsed_of codec text) (ground (arith, e, clean)))
]

-- What is returned passes the test.
abbrev Passing {ℓ} : {A : Type ℓ} → (A → Bool) → Option A → Type ℓ
Passing {A = A} test o = (out : A) × (o ≡ some out) × (test out ≡ true)

redacted_str-Passing :
    (o : Option Text) (out : Text)
    → o ≡ some out
    → All IsScalar out
    → contains_private_path out ≡ false
    → Passing (strings_pass is_public) (redacted_str o)
unfolding strings_pass
redacted_str-Passing o out e scalar clean =
    rw e (str (text_of out), refl, rw (codes-text_of out scalar, clean) refl)

redacted_list-Passing :
    (o : Option Items)
    → Passing (items_pass is_public) o
    → Passing (strings_pass is_public) (redacted_list o)
unfolding strings_pass
redacted_list-Passing o (out, e, p) = rw e (list out, refl, p)

redacted_dict-Passing :
    (o : Option Fields)
    → Passing (fields_pass is_public) o
    → Passing (strings_pass is_public) (redacted_dict o)
unfolding strings_pass
redacted_dict-Passing o (out, e, p) = rw e (dict out, refl, p)

redacted_item-Passing :
    (o : Option Value) (vs : Option Items)
    → Passing (strings_pass is_public) o
    → Passing (items_pass is_public) vs
    → Passing (items_pass is_public) (redacted_item o vs)
unfolding strings_pass
redacted_item-Passing o vs (v, e, p) (rest, f, q) =
    rw (e, f) (item v rest, refl, ground (arith, p, q))

redacted_entry-Passing :
    (key : String) (o : Option Value) (fields : Option Fields)
    → Passing (strings_pass is_public) o
    → Passing (fields_pass is_public) fields
    → Passing (fields_pass is_public) (redacted_entry key o fields)
unfolding strings_pass
redacted_entry-Passing key o fields (v, e, p) (rest, f, q) =
    rw (e, f) (entry key v rest, refl, ground (arith, p, q))

redact_path-Passing :
    (codec : Codec) (s : String)
    → is_plain codec (codes s) ≡ true
    → Passing (strings_pass is_public) (redacted_str (redact_path codec (codes s)))
redact_path-Passing codec s e =
    let (out, f, clean, scalar) =
      redact_path-hides codec (codes s) (is_plain-either codec (codes s) e) in
    redacted_str-Passing (redact_path codec (codes s)) out f (scalar (codes-IsScalar s)) clean

module _ (codec : Codec) where
  mutual
    unfolding redact_value strings_pass

    redact_value-Passing :
        (v : Value)
        → strings_pass (is_plain codec) v ≡ true
        → Passing (strings_pass is_public) (redact_value (redact_path codec) v)
    redact_value-Passing (str s) e = redact_path-Passing codec s e
    redact_value-Passing (list vs) e =
        redacted_list-Passing (redact_items (redact_path codec) vs) (redact_items-Passing vs e)
    redact_value-Passing (dict fields) e =
        redacted_dict-Passing (redact_fields (redact_path codec) fields)
          (redact_fields-Passing fields e)
    redact_value-Passing v e = (v, refl, refl)

    redact_items-Passing :
        (vs : Items)
        → items_pass (is_plain codec) vs ≡ true
        → Passing (items_pass is_public) (redact_items (redact_path codec) vs)
    redact_items-Passing no_items e = (no_items, refl, refl)
    redact_items-Passing (item v vs) e =
        redacted_item-Passing (redact_value (redact_path codec) v)
          (redact_items (redact_path codec) vs) (redact_value-Passing v (ground (arith, e)))
          (redact_items-Passing vs (ground (arith, e)))

    redact_fields-Passing :
        (fields : Fields)
        → fields_pass (is_plain codec) fields ≡ true
        → Passing (fields_pass is_public) (redact_fields (redact_path codec) fields)
    redact_fields-Passing no_entries e = (no_entries, refl, refl)
    redact_fields-Passing (entry key v fields) e =
        redacted_entry-Passing key (redact_value (redact_path codec) v)
          (redact_fields (redact_path codec) fields) (redact_value-Passing v (ground (arith, e)))
          (redact_fields-Passing fields (ground (arith, e)))

-- Where each text of a value holds a private path or is not read as JSON, `redact_public_value`
-- returns a value without a private path in any of its texts; the keys are left aside.
pub redact_public_value-hides :
    (codec : Codec) (v : Value)
    → strings_pass (is_plain codec) v ≡ true
    → (out : Value) × (redact_public_value codec v ≡ some out) × (strings_pass is_public out ≡ true)
redact_public_value-hides codec v e = unfold redact_public_value in redact_value-Passing codec v e

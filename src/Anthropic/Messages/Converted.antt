-- ===== src/Anthropic/Messages/Converted.antt =====
-- What the body for the backend holds.
use gemma_4_31b_mtp_v_llm_se.Prelude.{
  String, Bool, true, false, ◌≡◌, refl, ◌∙◌, subst, Option, none, some, List, [], ◌∷◌, any, arith,
  eq_iff, eq_refl, if◌then◌else◌, Bool-cases, inl, inr, ◌⊎◌,
}
use gemma_4_31b_mtp_v_llm_se.Prelude.Text.{Text}
use gemma_4_31b_mtp_v_llm_se.Json.{Value, Fields, get, str, list}
use gemma_4_31b_mtp_v_llm_se.Anthropic.Messages.{
  Message, body_of, build_messages, message_items, copied_fields, unless_null, put, copy_fields,
  anthropic_request_to_openai,
}
use text.Mathlib.Text.{◌==◌ as str_eq}
use gemma_4_31b_mtp_v_llm_se.Anthropic.Messages.History.{AreConverted, build_messages-AreConverted}
use gemma_4_31b_mtp_v_llm_se.Anthropic.Messages.Cleaned.{Gives}

get-put_other :
    (key k : String) (o : Option Value) (fields : Fields)
    → str_eq k key ≡ false
    → get key (put k o fields) ≡ get key fields
unfolding get
get-put_other key k none fields e = refl
get-put_other key k (some v) fields e = rw e refl

get-put_same :
    (key k : String) (o : Option Value) (fields : Fields)
    → str_eq k key ≡ true
    → (get key fields ≡ o) ⊎ (get key fields ≡ none)
    → get key (put k o fields) ≡ o
unfolding get
get-put_same key k none fields e (inl f) = f
get-put_same key k none fields e (inr f) = f
get-put_same key k (some v) fields e f = rw e refl

copied_or_none :
    (b : Bool) (o : Option Value) → ((if b then o else none) ≡ o) ⊎ ((if b then o else none) ≡ none)
copied_or_none true o = inl refl
copied_or_none false o = inr refl

-- What the copied fields show of a key
abbrev Copies : List String → Fields → String → Type 0
Copies keys payload key =
    get key (copy_fields keys payload)
    ≡ (if any (str_eq key) keys then unless_null (get key payload) else none)

copy_same :
    (k : String) (keys : List String) (payload : Fields)
    → Copies keys payload k
    → Copies (k ∷ keys) payload k
unfolding copy_fields
copy_same k keys payload ih = rw (eq_refl k) (
    get-put_same k k (unless_null (get k payload)) (copy_fields keys payload) (eq_refl k)
      (rw ih (copied_or_none (any (str_eq k) keys) (unless_null (get k payload)))))

not-str_eq : (k key : String) → str_eq k key ≡ false → str_eq key k ≡ false
not-str_eq k key e = ground (arith, eq_iff k key, eq_iff key k)

copy_other :
    (k key : String) (keys : List String) (payload : Fields)
    → str_eq k key ≡ false
    → Copies keys payload key
    → Copies (k ∷ keys) payload key
unfolding copy_fields
copy_other k key keys payload e ih =
    rw (not-str_eq k key e)
      (get-put_other key k (unless_null (get k payload)) (copy_fields keys payload) e ∙ ih)

get-copy_fields : (key : String) (keys : List String) (payload : Fields) → Copies keys payload key
get-copy_fields key [] payload = unfold copy_fields in unfold get in refl
get-copy_fields key (k ∷ keys) payload = elim (Bool-cases (str_eq k key)) [
  | inl e ↦
      subst (Copies (k ∷ keys) payload) ((eq_iff k key).0 e)
        (copy_same k keys payload (get-copy_fields k keys payload))
  | inr e ↦ copy_other k key keys payload e (get-copy_fields key keys payload)
]

-- What stands in the body under each key
abbrev pub entry_of : Fields → String → List Message → String → Option Value
entry_of payload openai_model messages key =
    if str_eq "model" key
    then some (str openai_model)
    else if str_eq "messages" key
    then some (list (message_items messages))
    else if any (str_eq key) copied_fields
    then unless_null (get key payload)
    else none

body_step :
    (str_of : Value → Text) (payload : Fields) (openai_model : String) (o : Option (List Message))
    → Gives (AreConverted str_of payload) o
    → (messages : List Message) × (AreConverted str_of payload messages
        × ((body : Fields) × ((body_of payload openai_model o ≡ some body)
              × ((key : String) → get key body ≡ entry_of payload openai_model messages key))))
unfolding body_of
body_step str_of payload openai_model o (messages, e, c) = rw e (
  messages,
  (c, (_, (refl, λ key. unfold get in ground (arith, get-copy_fields key copied_fields payload)))),
)

pub anthropic_request_to_openai-IsCleaned :
    (str_of : Value → Text) (payload : Fields) (openai_model : String)
    → (messages : List Message) × (AreConverted str_of payload messages
        × ((body : Fields) × ((anthropic_request_to_openai str_of payload openai_model ≡ some body)
              × ((key : String) → get key body ≡ entry_of payload openai_model messages key))))
unfolding anthropic_request_to_openai
anthropic_request_to_openai-IsCleaned str_of payload openai_model =
    body_step str_of payload openai_model (build_messages str_of payload)
      (build_messages-AreConverted str_of payload)

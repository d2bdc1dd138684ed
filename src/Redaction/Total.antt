-- ===== src/Redaction/Total.antt =====
-- The redaction of src/gemma4_mtp_vllm/runtime_config.py returns: a text that stands within a JSON
-- text is shorter than that one.
use gemma_4_31b_mtp_v_llm_se.Prelude.{
  ◌≡◌, ◌<◌, refl, ap, arith, ℕ, zero, suc, String, ltb, ltb→lt, Bool, true, false, ◌&&◌, Option,
  none, some, List, [], ◌∷◌, length, Option-cases, inl, inr, if-either,
}
use gemma_4_31b_mtp_v_llm_se.Prelude.Text.{Text, codes}
use gemma_4_31b_mtp_v_llm_se.Metrics.Lines.{cut_equals}
use gemma_4_31b_mtp_v_llm_se.Json.{
  Value, str, list, dict, Items, no_items, item, Fields, no_entries, entry,
}
use gemma_4_31b_mtp_v_llm_se.Redaction.{
  Codec, redact_value, redact_items, redact_fields, redact_string_with, redact_path_at, redact_path,
  redact_string, redact_public_value, redacted_str, redacted_list, redacted_dict, redacted_item,
  redacted_entry, json_or_none, parsed_of, contains_private_path, looks_private_path,
}
use gemma_4_31b_mtp_v_llm_se.Redaction.Arguments.{
  is_secret, redact_plain, redact_parts, redact_argument, and_argument, redact_arguments,
  redact_argv,
}

abbrev pub Returns {ℓ} : {A : Type ℓ} → Option A → Type ℓ
Returns {A = A} o = (out : A) × (o ≡ some out)

-- Whether every text in the value passes the test, the keys left aside
unfoldable mutual
  pub strings_pass : (Text → Bool) → Value → Bool
  strings_pass test (str s) = test (codes s)
  strings_pass test (list vs) = items_pass test vs
  strings_pass test (dict fields) = fields_pass test fields
  strings_pass test v = true

  pub items_pass : (Text → Bool) → Items → Bool
  items_pass test no_items = true
  items_pass test (item v vs) = strings_pass test v && items_pass test vs

  pub fields_pass : (Text → Bool) → Fields → Bool
  fields_pass test no_entries = true
  fields_pass test (entry key v fields) = strings_pass test v && fields_pass test fields

mutual
  unfolding strings_pass

  strings_pass-true : (v : Value) → strings_pass (λ text. true) v ≡ true
  strings_pass-true (str s) = refl
  strings_pass-true (list vs) = items_pass-true vs
  strings_pass-true (dict fields) = fields_pass-true fields
  strings_pass-true v = refl

  items_pass-true : (vs : Items) → items_pass (λ text. true) vs ≡ true
  items_pass-true no_items = refl
  items_pass-true (item v vs) = ground (arith, strings_pass-true v, items_pass-true vs)

  fields_pass-true : (fields : Fields) → fields_pass (λ text. true) fields ≡ true
  fields_pass-true no_entries = refl
  fields_pass-true (entry key v fields) =
      ground (arith, strings_pass-true v, fields_pass-true fields)

abbrev pub is_shorter : ℕ → Text → Bool
is_shorter n text = ltb (length text) n

redacted_str-Returns : (o : Option Text) → Returns o → Returns (redacted_str o)
redacted_str-Returns o (out, e) = rw e (_, refl)

redacted_list-Returns : (o : Option Items) → Returns o → Returns (redacted_list o)
redacted_list-Returns o (out, e) = rw e (_, refl)

redacted_dict-Returns : (o : Option Fields) → Returns o → Returns (redacted_dict o)
redacted_dict-Returns o (out, e) = rw e (_, refl)

redacted_item-Returns :
    (o : Option Value) (vs : Option Items) → Returns o → Returns vs → Returns (redacted_item o vs)
redacted_item-Returns o vs (out, e) (rest, r) = rw (e, r) (_, refl)

redacted_entry-Returns :
    (key : String) (o : Option Value) (fields : Option Fields)
    → Returns o
    → Returns fields
    → Returns (redacted_entry key o fields)
redacted_entry-Returns key o fields (out, e) (rest, r) = rw (e, r) (_, refl)

module _ (f : Text → Option Text) (test : Text → Bool)
    (h : (text : Text) → test text ≡ true → Returns (f text)) where
  mutual
    unfolding redact_value strings_pass

    redact_value-Returns : (v : Value) → strings_pass test v ≡ true → Returns (redact_value f v)
    redact_value-Returns (str s) e = redacted_str-Returns (f (codes s)) (h (codes s) e)
    redact_value-Returns (list vs) e =
        redacted_list-Returns (redact_items f vs) (redact_items-Returns vs e)
    redact_value-Returns (dict fields) e =
        redacted_dict-Returns (redact_fields f fields) (redact_fields-Returns fields e)
    redact_value-Returns v e = (v, refl)

    redact_items-Returns : (vs : Items) → items_pass test vs ≡ true → Returns (redact_items f vs)
    redact_items-Returns no_items e = (no_items, refl)
    redact_items-Returns (item v vs) e =
        redacted_item-Returns (redact_value f v) (redact_items f vs)
          (redact_value-Returns v (ground (arith, e))) (redact_items-Returns vs (ground (arith, e)))

    redact_fields-Returns :
        (fields : Fields) → fields_pass test fields ≡ true → Returns (redact_fields f fields)
    redact_fields-Returns no_entries e = (no_entries, refl)
    redact_fields-Returns (entry key v fields) e =
        redacted_entry-Returns key (redact_value f v) (redact_fields f fields)
          (redact_value-Returns v (ground (arith, e)))
          (redact_fields-Returns fields (ground (arith, e)))

json_or_none-Returns :
    (codec : Codec) (o : Option Value) → Returns o → Returns (json_or_none codec o)
json_or_none-Returns codec o (v, e) = rw e (codec.json_dumps v, refl)

and_argument-Returns :
    (o : Option Text) (values : Option (List Text)) (n : ℕ)
    → Returns o
    → (out : List Text) × (values ≡ some out) × length out ≡ n
    → (out : List Text) × (and_argument o values ≡ some out) × length out ≡ suc n
and_argument-Returns o values n (value, e) (out, r, l) = rw (e, r) (value ∷ out, refl, ap suc l)

module _ (codec : Codec)
    (shorter : (text : Text) (v : Value)
      → codec.json_loads text ≡ some v
      → strings_pass (is_shorter (length text)) v ≡ true) where
  parsed_of-loads :
      (text : Text) (v : Value) → parsed_of codec text ≡ some v → codec.json_loads text ≡ some v
  parsed_of-loads text v e = unfold parsed_of in ground (arith, e)

  redact_string_with-Returns :
      (f : Text → Option Text) (text : Text)
      → ((s : Text) → length s < length text → Returns (f s))
      → Returns (redact_string_with codec f text (parsed_of codec text))
  redact_string_with-Returns f text h = elim (Option-cases (parsed_of codec text)) [
    | inl e ↦ rw e unfold redact_string_with in (_, refl)
    | inr (v, e) ↦
        rw e
          unfold redact_string_with in
            json_or_none-Returns codec (redact_value f v) (
              redact_value-Returns f (is_shorter (length text))
                (λ s q. h s (ltb→lt (length s) (length text) q)) v
                (shorter text v (parsed_of-loads text v e)))
  ]

  -- Fuel above the length of the text is enough.
  redact_path_at-Returns :
      (n : ℕ) (text : Text) → length text < n → Returns (redact_path_at codec n text)
  unfolding redact_path_at
  redact_path_at-Returns zero text p = absurd (omega (arith, p))
  redact_path_at-Returns (suc n) text p =
      if-either Returns (contains_private_path text) _ _ (_, refl)
        (redact_string_with-Returns (redact_path_at codec n) text
          (λ s q. redact_path_at-Returns n s (omega (arith, p, q))))

  redact_path-Returns : (text : Text) → Returns (redact_path codec text)
  redact_path-Returns text =
      unfold redact_path in redact_path_at-Returns (suc (length text)) text (omega arith)

  redact_string-Returns : (text : Text) → Returns (redact_string codec text)
  redact_string-Returns text =
      unfold redact_string in
      redact_string_with-Returns (redact_path_at codec (length text)) text
        (redact_path_at-Returns (length text))

  redact_plain-Returns : (value : Text) → Returns (redact_plain codec value)
  redact_plain-Returns value =
      unfold redact_plain in
      if-either Returns (looks_private_path value) _ _ (_, refl) (redact_string-Returns value)

  redact_parts-Returns :
      (value : Text) (parts : Option (Text × Text)) → Returns (redact_parts codec value parts)
  redact_parts-Returns value none = unfold redact_parts in redact_plain-Returns value
  redact_parts-Returns value (some (option, option_value)) =
      unfold redact_parts in
      if-either Returns (is_secret option) _ _ (_, refl)
        (if-either Returns (contains_private_path option_value) _ _ (_, refl)
          (redact_plain-Returns value))

  redact_argument-Returns : (value : Text) → Returns (redact_argument codec value)
  redact_argument-Returns value =
      unfold redact_argument in
      if-either Returns (is_secret value) _ _ (_, refl)
        (redact_parts-Returns value (cut_equals value))

  redact_arguments-Returns :
      (next : Bool) (argv : List Text)
      → (out : List Text) × (redact_arguments codec next argv ≡ some out) × length out ≡ length argv
  unfolding redact_arguments
  redact_arguments-Returns next [] = ([], refl, refl)
  redact_arguments-Returns true (value ∷ argv) =
      and_argument-Returns (some (codes "REDACTED")) (redact_arguments codec false argv)
        (length argv) (codes "REDACTED", refl) (redact_arguments-Returns false argv)
  redact_arguments-Returns false (value ∷ argv) =
      and_argument-Returns (redact_argument codec value)
        (redact_arguments codec (is_secret value) argv) (length argv)
        (redact_argument-Returns value) (redact_arguments-Returns (is_secret value) argv)

  -- Where a text within a parsed value is shorter than the text it is parsed from, `redact_argv`
  -- returns one argument for each, and `redact_path` and `redact_public_value` return, the latter for
  -- a value of any depth: the nesting of JSON texts in JSON texts comes to an end.
  pub redact_argv-Returns :
      (argv : List Text) (text : Text) (v : Value)
      → ((out : List Text) × (redact_argv codec argv ≡ some out) × length out ≡ length argv)
        × Returns (redact_path codec text)
        × Returns (redact_public_value codec v)
  redact_argv-Returns argv text v = (
    unfold redact_argv in redact_arguments-Returns false argv,
    redact_path-Returns text,
    unfold redact_public_value in
        redact_value-Returns (redact_path codec) (λ s. true) (λ s q. redact_path-Returns s) v
          (strings_pass-true v),
  )

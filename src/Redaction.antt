-- ===== src/Redaction.antt =====
-- The redaction of src/gemma4_mtp_vllm/runtime_config.py. A text is the list of its code points. `json_loads`
-- and `json_dumps` are those of json, `none` stands for a JSONDecodeError.
pub mod Scalars
pub mod Paths
pub mod Arguments
pub mod Secrets
pub mod Total
pub mod Values
mod Tests
use gemma_4_31b_mtp_v_llm_se.Prelude.{
  ℕ, zero, suc, ◌+◌, String, Bool, true, false, not, ◌&&◌, ◌||◌, Option, none, some, List, [], ◌∷◌,
  ◌++◌, any, drop, length, leb, ◌==◌, if◌then◌else◌,
}
use gemma_4_31b_mtp_v_llm_se.Prelude.Text.{Text, codes, starts_with, is_space, lstrip}
use gemma_4_31b_mtp_v_llm_se.Prelude.Chars.{text_of}
use gemma_4_31b_mtp_v_llm_se.Json.{
  Value, null, str, list, dict, Items, no_items, item, Fields, no_entries, entry,
}
use gemma_4_31b_mtp_v_llm_se.Metrics.Lines.{text_eq}

-- `[^\s"',}\]]`
unfoldable pub is_path_char : ℕ → Bool
unfolding is_space
is_path_char c =
    not (is_space c) && not (c == b'"' || c == b'\'' || c == b',' || c == b'}' || c == b']')

abbrev pub starts_path_char : Text → Bool
starts_path_char [] = false
starts_path_char (c ∷ cs) = is_path_char c

abbrev pub users : Text
users = codes "/Users/"

abbrev pub home : Text
home = codes "/home/"

unfoldable pub starts_under : Text → Text → Bool
unfolding starts_with is_path_char
starts_under prefix text = starts_with text prefix && starts_path_char (drop (length prefix) text)

-- Whether `PRIVATE_PATH_RE` matches at the start
unfoldable pub starts_path : Text → Bool
unfolding starts_under
starts_path text = starts_under users text || starts_under home text

-- `_contains_private_path`
unfoldable pub contains_private_path : Text → Bool
unfolding starts_path
contains_private_path [] = false
contains_private_path (c ∷ cs) = starts_path (c ∷ cs) || contains_private_path cs

-- `_looks_private_path`
unfoldable pub looks_private_path : Text → Bool
unfolding starts_with
looks_private_path text = starts_with text users || starts_with text home

-- What a character of the text becomes: nothing within a match, the replacement where a match starts
abbrev pub sub_turn : Bool → Bool → ℕ → Text → Text
sub_turn true starts c rest = rest
sub_turn false true c rest = codes "REDACTED_PATH" ++ rest
sub_turn false false c rest = c ∷ rest

-- `PRIVATE_PATH_RE.sub("REDACTED_PATH", text)`; the flag tells that the text goes on inside a match
unfoldable pub sub_paths : Bool → Text → Text
unfolding starts_path
sub_paths inside [] = []
sub_paths inside (c ∷ cs) =
    let matched = inside && is_path_char c in
    let starts = starts_path (c ∷ cs) in
    sub_turn matched starts c (sub_paths (matched || starts) cs)

unfoldable pub is_word : ℕ → Bool
is_word c =
    (leb b'A' c && leb c b'Z')
    || (leb b'a' c && leb c b'z')
    || (leb b'0' c && leb c b'9')
    || c == b'_'

unfoldable pub is_dashed : ℕ → Bool
unfolding is_word
is_dashed c = is_word c || c == b'-'

unfoldable pub is_key : ℕ → Bool
is_key c = (leb b'0' c && leb c b'9') || (leb b'A' c && leb c b'Z')

unfoldable pub run_length : (ℕ → Bool) → Text → ℕ
run_length test [] = 0
run_length test (c ∷ cs) = let rest = run_length test cs in if test c then suc rest else 0

-- How long a secret with the prefix is, at the start of the text: at least twenty characters follow it
unfoldable pub secret_after : Text → (ℕ → Bool) → Text → Option ℕ
unfolding starts_with run_length
secret_after prefix test text =
    let n = run_length test (drop (length prefix) text) in
    if starts_with text prefix && leb 20 n then some (length prefix + n) else none

-- `AKIA[0-9A-Z]{16}`
unfoldable pub access_key : Text → Option ℕ
unfolding starts_with run_length is_key
access_key text =
    if starts_with text (codes "AKIA") && leb 16 (run_length is_key (drop 4 text))
    then some 20
    else none

abbrev pub or_next : Option ℕ → Option ℕ → Option ℕ
or_next (some n) next = some n
or_next none next = next

-- The length of what `SECRET_VALUE_RE` matches at the start, the alternatives in their order
unfoldable pub secret_length : Text → Option ℕ
unfolding secret_after access_key is_word is_dashed
secret_length text = or_next (secret_after (codes "hf_") is_word text) (
    or_next (secret_after (codes "sk-proj-") is_dashed text)
      (or_next (secret_after (codes "sk-") is_dashed text) (access_key text)))

abbrev pub left_after : Option ℕ → ℕ
left_after none = 0
left_after (some zero) = 0
left_after (some (suc n)) = n

abbrev pub secret_turn : Option ℕ → ℕ → Text → Text
secret_turn none c rest = c ∷ rest
secret_turn (some zero) c rest = c ∷ rest
secret_turn (some (suc n)) c rest = codes "REDACTED" ++ rest

-- `SECRET_VALUE_RE.sub("REDACTED", text)`; the number tells how much of a match is left
unfoldable pub sub_secrets : ℕ → Text → Text
unfolding secret_length
sub_secrets left [] = []
sub_secrets (suc left) (c ∷ cs) = sub_secrets left cs
sub_secrets zero (c ∷ cs) =
    let secret = secret_length (c ∷ cs) in secret_turn secret c (sub_secrets (left_after secret) cs)

unfoldable pub sub_both : Text → Text
unfolding sub_paths sub_secrets
sub_both text = sub_paths false (sub_secrets zero text)

-- `json.loads` and `json.dumps` with compact separators
pub record Codec : Type 0 where
  pub json_loads : Text → Option Value
  pub json_dumps : Value → Text

abbrev pub redacted_str : Option Text → Option Value
redacted_str none = none
redacted_str (some text) = some (str (text_of text))

abbrev pub redacted_list : Option Items → Option Value
redacted_list none = none
redacted_list (some vs) = some (list vs)

abbrev pub redacted_dict : Option Fields → Option Value
redacted_dict none = none
redacted_dict (some fields) = some (dict fields)

abbrev pub redacted_item : Option Value → Option Items → Option Items
redacted_item none vs = none
redacted_item (some v) none = none
redacted_item (some v) (some vs) = some (item v vs)

abbrev pub redacted_entry : String → Option Value → Option Fields → Option Fields
redacted_entry key none fields = none
redacted_entry key (some v) none = none
redacted_entry key (some v) (some fields) = some (entry key v fields)

-- `redact_public_value`, with what it does to a text; keys stay as they are
unfoldable mutual
  pub redact_value : (Text → Option Text) → Value → Option Value
  redact_value f (str s) = redacted_str (f (codes s))
  redact_value f (list vs) = redacted_list (redact_items f vs)
  redact_value f (dict fields) = redacted_dict (redact_fields f fields)
  redact_value f v = some v

  pub redact_items : (Text → Option Text) → Items → Option Items
  redact_items f no_items = some no_items
  redact_items f (item v vs) = redacted_item (redact_value f v) (redact_items f vs)

  pub redact_fields : (Text → Option Text) → Fields → Option Fields
  redact_fields f no_entries = some no_entries
  redact_fields f (entry key v fields) =
      redacted_entry key (redact_value f v) (redact_fields f fields)

abbrev pub starts_json : Text → Bool
starts_json [] = false
starts_json (c ∷ cs) = c == b'{' || c == b'['

-- What `_redact_json_string` parses, or `none` where it returns None
unfoldable pub parsed_of : Codec → Text → Option Value
unfolding lstrip
parsed_of codec text = if starts_json (lstrip text) then codec.json_loads text else none

abbrev pub json_or_none : Codec → Option Value → Option Text
json_or_none codec none = none
json_or_none codec (some v) = some (codec.json_dumps v)

-- `_redact_string`, with what is done to the texts of a parsed value
unfoldable pub redact_string_with : Codec → (Text → Option Text) → Text → Option Value → Option Text
unfolding sub_both redact_value
redact_string_with codec f text none = some (sub_both text)
redact_string_with codec f text (some v) = json_or_none codec (redact_value f v)

unfoldable pub redact_path_with : Codec → (Text → Option Text) → Text → Option Text
unfolding redact_string_with contains_private_path parsed_of
redact_path_with codec f text =
    if contains_private_path text
    then some (codes "REDACTED_PATH")
    else redact_string_with codec f text (parsed_of codec text)

-- `redact_path`, for a text that is parsed at most so many times, one inside the other
unfoldable pub redact_path_at : Codec → ℕ → Text → Option Text
unfolding redact_path_with
redact_path_at codec zero text = none
redact_path_at codec (suc n) text = redact_path_with codec (redact_path_at codec n) text

unfoldable pub redact_path : Codec → Text → Option Text
unfolding redact_path_at
redact_path codec text = redact_path_at codec (suc (length text)) text

unfoldable pub redact_string : Codec → Text → Option Text
unfolding redact_string_with redact_path_at parsed_of
redact_string codec text =
    redact_string_with codec (redact_path_at codec (length text)) text (parsed_of codec text)

unfoldable pub redact_public_value : Codec → Value → Option Value
unfolding redact_value redact_path
redact_public_value codec v = redact_value (redact_path codec) v

-- ===== src/Redaction/Tests.antt =====
-- Runs of the redaction on concrete arguments and texts.
use gemma_4_31b_mtp_v_llm_se.Prelude.{
  ◌≡◌, refl, ap, subst, arith, ℕ, suc, lt→ltb, true, Option, none, some, List, [], ◌∷◌, ◌++◌,
  length,
}
use gemma_4_31b_mtp_v_llm_se.Prelude.Text.{Text, codes}
use gemma_4_31b_mtp_v_llm_se.Prelude.Chars.{text_of}
use gemma_4_31b_mtp_v_llm_se.Json.{Value, str, list, dict, no_items, item, no_entries, entry}
use gemma_4_31b_mtp_v_llm_se.Redaction.{
  Codec, contains_private_path, parsed_of, redact_path, redact_public_value,
}
use gemma_4_31b_mtp_v_llm_se.Redaction.Arguments.{is_secret, redact_argv}
use gemma_4_31b_mtp_v_llm_se.Redaction.Values.{is_plain, is_public, redact_public_value-hides}
use gemma_4_31b_mtp_v_llm_se.Redaction.Secrets.{is_value_next, redact_argv-hides}
use gemma_4_31b_mtp_v_llm_se.Redaction.Total.{strings_pass, is_shorter, redact_argv-Returns}

-- A decoder that takes what follows the first character for the only item of a list
abbrev read_item : Text → Option Value
read_item [] = none
read_item (c ∷ cs) = some (list (item (str (text_of cs)) no_items))

abbrev first_text : Value → Text
first_text (list (item (str s) vs)) = codes s
first_text v = []

abbrev items_codec : Codec
items_codec = record { json_loads = read_item; json_dumps = first_text }

-- A decoder that refuses every text
abbrev refuse : Text → Option Value
refuse text = none

abbrev refusing : Codec
refusing = record { json_loads = refuse; json_dumps = first_text }

abbrev launch_argv : List Text
launch_argv =
    codes "vllm"
    ∷ codes "--token"
    ∷ codes "abc"
    ∷ codes "--api-key=abc"
    ∷ codes "--download-dir=/home/ann"
    ∷ codes "hf_aaaaaaaaaaaaaaaaaaaaaa:/Users/ann/x"
    ∷ []

redacted_launch :
    redact_argv refusing launch_argv
    ≡ some (
        codes "vllm"
        ∷ codes "--token"
        ∷ codes "REDACTED"
        ∷ codes "--api-key=REDACTED"
        ∷ codes "--download-dir=REDACTED_PATH"
        ∷ codes "REDACTED:REDACTED_PATH"
        ∷ [])
unfolding redact_argv
redacted_launch = refl

-- A path before the equals sign stays.
kept_option :
    redact_argv refusing (codes "/home/ann/x=/home/bob" ∷ [])
    ≡ some (codes "/home/ann/x=REDACTED_PATH" ∷ [])
unfolding redact_argv
kept_option = refl

-- A key stays, also with a path in it.
kept_key :
    redact_public_value refusing (dict (entry "/home/ann" (str "/home/bob") no_entries))
    ≡ some (dict (entry "/home/ann" (str "REDACTED_PATH") no_entries))
unfolding redact_public_value text_of
kept_key = refl

nested_text :
    redact_path items_codec (codes "[[see hf_aaaaaaaaaaaaaaaaaaaaaa") ≡ some (codes "see REDACTED")
unfolding redact_path text_of
nested_text = refl

redact_argv-hides_example :
    redact_argv refusing (codes "vllm" ∷ (codes "--token" ++ b'=' ∷ codes "abc") ∷ [])
      ≡ redact_argv refusing (codes "vllm" ∷ (codes "--token" ++ b'=' ∷ codes "x") ∷ [])
    × redact_argv refusing (codes "vllm" ∷ codes "--token" ∷ codes "abc" ∷ [])
      ≡ redact_argv refusing (codes "vllm" ∷ codes "--token" ∷ codes "x" ∷ [])
unfolding is_secret
redact_argv-hides_example =
    redact_argv-hides refusing (codes "--token") (codes "abc") (codes "x") (codes "vllm" ∷ []) []
      refl (unfold is_value_next in refl)

abbrev published : Value
published = dict (
    entry "drafter" (str "/home/ann/m")
      (entry "log" (list (item (str "hf_aaaaaaaaaaaaaaaaaaaaaa read") no_items)) no_entries))

published_pass : strings_pass (is_plain refusing) published ≡ true
unfolding strings_pass contains_private_path parsed_of
published_pass = refl

redact_public_value-hides_example :
    (out : Value) × (redact_public_value refusing published ≡ some out)
    × (strings_pass is_public out ≡ true)
redact_public_value-hides_example = redact_public_value-hides refusing published published_pass

length-text_of : (text : Text) → length (codes (text_of text)) ≡ length text
unfolding text_of
length-text_of [] = refl
length-text_of (c ∷ cs) = ap suc (length-text_of cs)

-- The text of the one item has the character before it less.
item_passes :
    (c : ℕ) (cs : Text)
    → strings_pass (is_shorter (length (c ∷ cs))) (list (item (str (text_of cs)) no_items)) ≡ true
unfolding strings_pass
item_passes c cs = ground (
  arith,
  lt→ltb (length (codes (text_of cs))) (suc (length cs)) (omega (arith, length-text_of cs)),
)

abbrev Passes : ℕ → Option Value → Type 0
Passes n none = Unit
Passes n (some v) = strings_pass (is_shorter n) v ≡ true

read_item-Passes : (text : Text) → Passes (length text) (read_item text)
read_item-Passes [] = tt
read_item-Passes (c ∷ cs) = item_passes c cs

read_item-shorter :
    (text : Text) (v : Value)
    → read_item text ≡ some v
    → strings_pass (is_shorter (length text)) v ≡ true
read_item-shorter text v e = subst (Passes (length text)) e (read_item-Passes text)

redact_argv-Returns_example :
    ((out : List Text) × (redact_argv items_codec (codes "[[x" ∷ launch_argv) ≡ some out)
      × length out ≡ 7)
    × ((out : Text) × (redact_path items_codec (codes "[[x") ≡ some out))
    × ((out : Value) × (redact_public_value items_codec (str "[[x") ≡ some out))
redact_argv-Returns_example =
    redact_argv-Returns items_codec read_item-shorter (codes "[[x" ∷ launch_argv) (codes "[[x")
      (str "[[x")

-- ===== src/Redaction/Arguments.antt =====
-- `redact_argv` of src/gemma4_mtp_vllm/runtime_config.py.
use gemma_4_31b_mtp_v_llm_se.Prelude.{
  Bool, true, false, Option, none, some, List, [], ◌∷◌, ◌++◌, any, if◌then◌else◌,
}
use gemma_4_31b_mtp_v_llm_se.Prelude.Text.{Text, codes}
use gemma_4_31b_mtp_v_llm_se.Metrics.Lines.{text_eq, cut_equals}
use gemma_4_31b_mtp_v_llm_se.Redaction.{
  Codec, contains_private_path, looks_private_path, redact_string,
}

abbrev pub secret_options : List Text
secret_options =
    codes "--api-key"
    ∷ codes "--token"
    ∷ codes "--hf-token"
    ∷ codes "--hugging-face-token"
    ∷ codes "--password"
    ∷ []

unfoldable pub is_secret : Text → Bool
unfolding text_eq
is_secret value = any (text_eq value) secret_options

-- An argument without an equals sign, or with one whose parts tell nothing
unfoldable pub redact_plain : Codec → Text → Option Text
unfolding looks_private_path redact_string
redact_plain codec value =
    if looks_private_path value then some (codes "REDACTED_PATH") else redact_string codec value

unfoldable pub redact_parts : Codec → Text → Option (Text × Text) → Option Text
unfolding redact_plain is_secret contains_private_path
redact_parts codec value none = redact_plain codec value
redact_parts codec value (some (option, option_value)) =
    if is_secret option
    then some (option ++ codes "=REDACTED")
    else if contains_private_path option_value
    then some (option ++ codes "=REDACTED_PATH")
    else redact_plain codec value

abbrev pub and_argument : Option Text → Option (List Text) → Option (List Text)
and_argument none values = none
and_argument (some value) none = none
and_argument (some value) (some values) = some (value ∷ values)

-- What is appended for an argument that is not the value of an option before it
unfoldable pub redact_argument : Codec → Text → Option Text
unfolding redact_parts cut_equals is_secret
redact_argument codec value =
    if is_secret value then some value else redact_parts codec value (cut_equals value)

-- The loop; the flag is `redact_next`
unfoldable pub redact_arguments : Codec → Bool → List Text → Option (List Text)
unfolding redact_argument is_secret
redact_arguments codec redact_next [] = some []
redact_arguments codec true (value ∷ argv) =
    and_argument (some (codes "REDACTED")) (redact_arguments codec false argv)
redact_arguments codec false (value ∷ argv) =
    and_argument (redact_argument codec value) (redact_arguments codec (is_secret value) argv)

unfoldable pub redact_argv : Codec → List Text → Option (List Text)
unfolding redact_arguments
redact_argv codec argv = redact_arguments codec false argv

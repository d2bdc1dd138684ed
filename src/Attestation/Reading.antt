-- ===== src/Attestation/Reading.antt =====
-- The observation of a command line returns where its numbers are read.

use gemma_4_31b_mtp_v_llm_se.Prelude.{◌∷◌, any, none, String, if-either, Option, true}
use gemma_4_31b_mtp_v_llm_se.Prelude.Chars.{text_of}
use gemma_4_31b_mtp_v_llm_se.Json.{IfThere, list, dict, no_entries}
use gemma_4_31b_mtp_v_llm_se.Attestation.Argv.{
  int_value, int_fields, float_fields, coerce_argv_value,
}
use gemma_4_31b_mtp_v_llm_se.Attestation.Observed.{
  int_if, coerced, observe, observe_if, observe_options, observe_flags, option_map, texts,
}
use gemma_4_31b_mtp_v_llm_se.Attestation.Matching.{
  Reads, ReadsText, ReadsSpec, ReadsSpecText, ReadsOptions, ReadsArgv,
}
use gemma_4_31b_mtp_v_llm_se.Prelude.{
  ◌≡◌, refl, String, true, Option, none, some, List, [], length, is_empty, if-either,
}
use gemma_4_31b_mtp_v_llm_se.Prelude.Text.{Text, codes}
use gemma_4_31b_mtp_v_llm_se.Json.{ℤ, Value, str, list, dict, no_entries, get}
use gemma_4_31b_mtp_v_llm_se.Redaction.{redact_public_value}
use gemma_4_31b_mtp_v_llm_se.Redaction.Arguments.{redact_argv}
use gemma_4_31b_mtp_v_llm_se.Redaction.Total.{
  Returns, strings_pass, is_shorter, redact_argv-Returns,
}
use gemma_4_31b_mtp_v_llm_se.Attestation.{int_or_none}
use gemma_4_31b_mtp_v_llm_se.Attestation.Argv.{option_value}
use gemma_4_31b_mtp_v_llm_se.Attestation.Observed.{
  Runtime, Observed, served_model, observe_argv, redacted_if, redacted_model, observe_spec, spec_of,
  observe_speculative, observed_config_from_process_argv, with_sources,
}
use text.Mathlib.Text.{◌==◌ as str_eq}
use gemma_4_31b_mtp_v_llm_se.Attestation.Matching.{bind-Returns}

module _ (r : Runtime)
    (shorter : (text : Text) (v : Value)
      → r.codec.json_loads text ≡ some v
      → strings_pass (is_shorter (length text)) v ≡ true) where
  pub argv-Returns : (argv : List Text) → Returns (redact_argv r.codec argv)
  argv-Returns argv =
      let ((out, e, l), path, value) = redact_argv-Returns r.codec shorter argv [] (str "") in
      (out, e)

  value-Returns : (v : Value) → Returns (redact_public_value r.codec v)
  value-Returns v = (redact_argv-Returns r.codec shorter [] [] v).2

  redacted_if-Returns : (v : Option Value) → Returns (redacted_if r.codec v)
  redacted_if-Returns none = (none, refl)
  redacted_if-Returns (some v) = bind-Returns _ _ (value-Returns v) (λ w. (some w, refl))

  redacted_model-Returns : (v : Option Value) → Returns (redacted_model r.codec v)
  redacted_model-Returns (some (str s)) = redacted_if-Returns (some (str s))
  redacted_model-Returns v = (v, refl)

  int_value-Returns : (o : Option (Option ℤ)) → Returns o → Returns (int_value o)
  int_value-Returns o (none, e) = rw e (_, refl)
  int_value-Returns o (some n, e) = rw e (_, refl)

  int_if-Returns : (o : Option Value) → IfThere (Reads r) o → Returns (int_if r.python o)
  int_if-Returns none h = (none, refl)
  int_if-Returns (some v) h =
      bind-Returns _ _ (int_value-Returns (int_or_none r.python v) h) (λ w. (some w, refl))

  coerce_argv_value-Returns :
      (field : String) (text : Text)
      → Reads r (str (text_of text))
      → Returns (coerce_argv_value r.python field text)
  unfolding coerce_argv_value
  coerce_argv_value-Returns field text h =
      if-either Returns (any (str_eq field) int_fields) _ _
        (int_value-Returns (int_or_none r.python (str (text_of text))) h)
        (if-either Returns (any (str_eq field) float_fields) _ _ (_, refl) (_, refl))

  coerced-Returns :
      (field : String) (o : Option Text) → ReadsText r o → Returns (coerced r.python field o)
  coerced-Returns field none h = (none, refl)
  coerced-Returns field (some text) h =
      bind-Returns _ _ (coerce_argv_value-Returns field text h) (λ v. (some v, refl))

  observe_options-Returns :
      (argv : List Text) (options : List (String × Text)) (o : Observed)
      → ReadsOptions r argv options
      → Returns (observe_options r.python argv options o)
  unfolding observe_options
  observe_options-Returns argv [] o h = (o, refl)
  observe_options-Returns argv ((field, option) ∷ options) o (h, k) =
      bind-Returns _ _ (coerced-Returns field (option_value option argv) h)
        (λ v. observe_options-Returns argv options (observe_if field v o) k)

  observe_argv-Returns :
      (argv redacted : List Text) (target : Option Value)
      → ReadsOptions r argv option_map
      → Returns (observe_argv r argv redacted target)
  unfolding observe_argv
  observe_argv-Returns argv redacted target h =
      bind-Returns _ _
        (observe_options-Returns argv option_map
          (observe_if "target_model" target (
            observe "process_cmdline" "runtime_argv" (list (texts redacted))
              (no_entries, no_entries)))
          h)
        (λ observed. (observe_flags argv observed, refl))

  observe_spec-Returns : (v : Value) (o : Observed) → ReadsSpec r v → Returns (observe_spec r v o)
  unfolding observe_spec
  observe_spec-Returns (dict spec) o h =
      bind-Returns _ _ (redacted_model-Returns (get "model" spec)) (λ model.
        bind-Returns _ _ (int_if-Returns (get "num_speculative_tokens" spec) h)
          (λ tokens. (_, refl)))
  observe_spec-Returns v o h = (o, refl)

  observe_speculative-Returns :
      (text : Option Text) (o : Observed)
      → ReadsSpecText r text
      → Returns (observe_speculative r text o)
  unfolding observe_speculative
  observe_speculative-Returns none o h = (o, refl)
  observe_speculative-Returns (some text) o h =
      if-either Returns (is_empty text) _ _ (o, refl)
        (observe_spec-Returns (spec_of (r.codec.json_loads text)) o h)

  pub observed_config-Returns :
      (argv : List Text)
      → ReadsArgv r (some argv)
      → Returns (observed_config_from_process_argv r argv)
  unfolding observed_config_from_process_argv
  observed_config-Returns argv (options, spec) = bind-Returns _ _ (argv-Returns argv) (λ redacted.
      bind-Returns _ _ (redacted_if-Returns (served_model argv)) (λ target.
        bind-Returns _ _ (observe_argv-Returns argv redacted target options) (λ before.
          bind-Returns _ _
            (observe_speculative-Returns (option_value (codes "--speculative-config") argv) before
              spec)
            (λ observed. (with_sources observed, refl)))))

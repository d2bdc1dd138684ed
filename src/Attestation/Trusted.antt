-- ===== src/Attestation/Trusted.antt =====
-- The manifest of a launch, in src/gemma4_mtp_vllm/runtime_config.py, speaks for the running server only.
mod Tests
use gemma_4_31b_mtp_v_llm_se.Prelude.{sym}
use gemma_4_31b_mtp_v_llm_se.Json.{Items}
use gemma_4_31b_mtp_v_llm_se.Attestation.Matching.{
  Answers, to_Answers, map_Answers, same_pid_same, is_same_tail_same, IsTail,
  IsTail-argv_tail_from_serve,
}
use gemma_4_31b_mtp_v_llm_se.Prelude.{
  ◌∷◌, any, none, subst, String, ◌∙◌, ap, if-either, Option, Bool, true, false,
}
use gemma_4_31b_mtp_v_llm_se.Prelude.Chars.{text_of}
use gemma_4_31b_mtp_v_llm_se.Json.{IfThere, list, dict, no_entries}
use gemma_4_31b_mtp_v_llm_se.Attestation.Argv.{
  int_value, int_fields, float_fields, coerce_argv_value,
}
use gemma_4_31b_mtp_v_llm_se.Attestation.Observed.{
  int_if, coerced, observe, observe_if, observe_options, observe_flags, option_map, texts,
}
use gemma_4_31b_mtp_v_llm_se.Attestation.Manifest.{matches_if}
use gemma_4_31b_mtp_v_llm_se.Attestation.Matching.{
  argv_tail_from_serve-IsTail, Reads, ReadsText, ReadsSpec, ReadsSpecText, ReadsOptions, ReadsArgv,
}
use gemma_4_31b_mtp_v_llm_se.Prelude.{
  ◌≡◌, ◌⊎◌, inl, inr, refl, ap, eq_iff, String, Bool, true, false, Option, none, some, List, [],
  length, is_empty, Bool-cases, if-either,
}
use gemma_4_31b_mtp_v_llm_se.Prelude.Text.{Text, codes}
use gemma_4_31b_mtp_v_llm_se.Json.{ℤ, Value, str, list, dict, Fields, no_entries, get, get_or_null}
use gemma_4_31b_mtp_v_llm_se.Redaction.{redact_public_value}
use gemma_4_31b_mtp_v_llm_se.Redaction.Arguments.{redact_argv}
use gemma_4_31b_mtp_v_llm_se.Redaction.Total.{
  Returns, strings_pass, is_shorter, redact_argv-Returns,
}
use gemma_4_31b_mtp_v_llm_se.Attestation.{int_or_none}
use gemma_4_31b_mtp_v_llm_se.Attestation.Argv.{argv_tail_from_serve, option_value}
use gemma_4_31b_mtp_v_llm_se.Attestation.Observed.{
  Runtime, Observed, served_model, observe_argv, redacted_if, redacted_model, observe_spec, spec_of,
  observe_speculative, observed_config_from_process_argv, with_sources,
}
use gemma_4_31b_mtp_v_llm_se.Attestation.Manifest.{
  argv_fingerprint, as_texts, is_same_tail, argv_matches_manifest, fingerprint_of, same_pid,
  is_current, own_fields, observe_versions, with_argv, current_config, config_if,
  observed_config_from_active_manifest,
}
use text.Mathlib.Text.{◌==◌ as str_eq}
use gemma_4_31b_mtp_v_llm_se.Attestation.Matching.{
  same_pid-AreBoth, is_same_tail-AreBoth, bind-Returns, HasSameTail, IsOf,
}
use gemma_4_31b_mtp_v_llm_se.Attestation.Written.{is_written, get-written}
use gemma_4_31b_mtp_v_llm_se.Attestation.Reading.{argv-Returns, observed_config-Returns}
use gemma_4_31b_mtp_v_llm_se.Attestation.Current.{IsOfRunning, is_current-Answers}

module _ (r : Runtime)
    (shorter : (text : Text) (v : Value)
      → r.codec.json_loads text ≡ some v
      → strings_pass (is_shorter (length text)) v ≡ true) where
  current_config-Returns :
      (manifest : Fields) (argv : List Text) (key : String)
      → is_written key ≡ false
      → ReadsArgv r (some argv)
      → (out : Fields) × (current_config r manifest argv ≡ some out)
        × (observed : Fields) × (observed_config_from_process_argv r argv ≡ some observed)
        × (get key out ≡ get key observed)
  current_config-Returns manifest argv key e reads =
      let (observed, seen) = observed_config-Returns r shorter argv reads in
      let (redacted, shown) = argv-Returns r shorter argv in
      (
        with_sources (
            with_argv redacted (
              observe_versions (get_or_null "package_versions" manifest)
                (observed, own_fields (get_or_null "_sources" observed)))),
        unfold current_config in rw (seen, shown) refl,
        observed,
        seen,
        get-written key redacted (get_or_null "package_versions" manifest)
            (observed, own_fields (get_or_null "_sources" observed)) e,
      )

  -- What holds of the configuration: nothing is observed, and the manifest is not of the running
  -- process; or it is, and the field is that of the command line.
  abbrev pub IsTrusted : Fields → Option ℤ → Option (List Text) → String → Fields → Type 0
  IsTrusted manifest active_pid argv key out =
      ((out ≡ no_entries) × (¬ IsOfRunning r manifest active_pid argv))
      ⊎ ((process_argv : List Text) × (argv ≡ some process_argv)
          × IsOf r manifest active_pid process_argv
          × (observed : Fields) × (observed_config_from_process_argv r process_argv ≡ some observed)
          × (get key out ≡ get key observed))

  config_if-IsTrusted :
      (manifest : Fields) (active_pid : Option ℤ) (argv : Option (List Text)) (key : String)
      (b : Bool)
      → is_written key ≡ false
      → ReadsArgv r argv
      → Answers b (IsOfRunning r manifest active_pid argv)
      → (out : Fields) × (config_if r manifest b argv ≡ some out)
        × IsTrusted manifest active_pid argv key out
  config_if-IsTrusted manifest active_pid argv key true e reads (process_argv, given, of_process) =
      let (out, f, observed, seen, same) =
        current_config-Returns manifest process_argv key e (subst (ReadsArgv r) given reads) in
      (out, rw given f, inr (process_argv, given, of_process, observed, seen, same))
  config_if-IsTrusted manifest active_pid argv key false e reads h =
      (no_entries, refl, inl (refl, h))

  -- Where a text within a parsed value is shorter than the text it is parsed from, and the manifest's
  -- pid, the values of the options and the number of speculative tokens are no digits that `int`
  -- refuses, the observation of a manifest returns. It returns a configuration exactly where the process with
  -- the manifest's pid is the active one, the manifest lists a command line, and that of the process has
  -- the manifest's fingerprint or, without one, is the listed one, both redacted, from the first `serve`
  -- on; else it returns nothing. Of the configuration every field but the two
  -- versions, runtime_argv and _sources is that of the command line of the process, whatever else the
  -- manifest says.
  pub active_manifest-IsTrusted :
      (manifest : Fields) (active_pid : Option ℤ) (argv : Option (List Text)) (key : String)
      → is_written key ≡ false
      → Reads r (get_or_null "pid" manifest)
      → ReadsArgv r argv
      → (out : Fields) × (observed_config_from_active_manifest r manifest active_pid argv
          ≡ some out)
        × IsTrusted manifest active_pid argv key out
  active_manifest-IsTrusted manifest active_pid argv key e pid reads =
      let (b, current, h) =
        is_current-Answers r shorter manifest active_pid (get_or_null "argv" manifest) argv refl
          pid in
      let (out, f, trusted) = config_if-IsTrusted manifest active_pid argv key b e reads h in
      (out, unfold observed_config_from_active_manifest in rw current f, trusted)

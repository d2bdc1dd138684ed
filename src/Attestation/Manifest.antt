-- ===== src/Attestation/Manifest.antt =====
-- When src/gemma4_mtp_vllm/runtime_config.py takes the manifest of a launch for that of the running
-- server. `none` stands for a redaction that does not return and for a ValueError.
use gemma_4_31b_mtp_v_llm_se.Prelude.{
  String, Bool, true, false, ◌&&◌, Option, none, some, List, [], ◌∷◌, ◌++◌, is_empty, if◌then◌else◌,
}
use gemma_4_31b_mtp_v_llm_se.Prelude.Text.{Text, codes}
use gemma_4_31b_mtp_v_llm_se.Json.{
  ℤ, Value, str, list, dict, Items, no_items, item, Fields, no_entries, get_or_null,
}
use gemma_4_31b_mtp_v_llm_se.Metrics.Lines.{text_eq}
use gemma_4_31b_mtp_v_llm_se.Gateway.Completions.{set_field}
use gemma_4_31b_mtp_v_llm_se.Gateway.Visible.Stream.{int_eq}
use gemma_4_31b_mtp_v_llm_se.Redaction.Arguments.{redact_argv}
use gemma_4_31b_mtp_v_llm_se.Attestation.{int_or_none}
use gemma_4_31b_mtp_v_llm_se.Attestation.Argv.{argv_tail_from_serve}
use gemma_4_31b_mtp_v_llm_se.Attestation.Observed.{
  Runtime, Observed, ◌>>=◌, texts, observed_config_from_process_argv, with_sources,
}
use text.Mathlib.Text.{◌==◌ as str_eq}

abbrev pub joined_by_nul : List Text → Text
joined_by_nul [] = []
joined_by_nul (value ∷ []) = value
joined_by_nul (value ∷ argv) = value ++ 0 ∷ joined_by_nul argv

-- `argv_fingerprint`, over the hash of the joined text's bytes
unfoldable pub argv_fingerprint : Runtime → List Text → String
argv_fingerprint r argv = r.sha256 (joined_by_nul argv)

abbrev pub as_texts : Runtime → Items → List Text
as_texts r no_items = []
as_texts r (item v vs) = r.str_of v ∷ as_texts r vs

unfoldable pub argv_eq : List Text → List Text → Bool
unfolding text_eq
argv_eq [] [] = true
argv_eq (value ∷ argv) (other ∷ others) = text_eq value other && argv_eq argv others
argv_eq argv others = false

-- `manifest_tail is not None and manifest_tail == process_tail`
abbrev pub is_same_tail : Option (List Text) → Option (List Text) → Bool
is_same_tail (some tail) (some other) = argv_eq tail other
is_same_tail tail other = false

-- `_argv_matches_manifest`
unfoldable pub argv_matches_manifest : Runtime → List Text → List Text → Option String → Option Bool
unfolding argv_fingerprint redact_argv argv_tail_from_serve argv_eq
argv_matches_manifest r manifest_argv process_argv (some fingerprint) =
    some (str_eq fingerprint (argv_fingerprint r process_argv))
argv_matches_manifest r manifest_argv process_argv none = do
  of_manifest ← redact_argv r.codec manifest_argv
  of_process ← redact_argv r.codec process_argv
  some (is_same_tail (argv_tail_from_serve of_manifest) (argv_tail_from_serve of_process))

abbrev pub fingerprint_of : Value → Option String
fingerprint_of (str s) = some s
fingerprint_of v = none

abbrev pub same_pid : Option ℤ → Option ℤ → Bool
same_pid (some active) (some pid) = int_eq active pid
same_pid active pid = false

abbrev pub matches_if : Runtime → Fields → Value → Option (List Text) → Bool → Option Bool
matches_if r manifest (list vs) (some process_argv) true =
    argv_matches_manifest r (as_texts r vs) process_argv
      (fingerprint_of (get_or_null "argv_fingerprint" manifest))
matches_if r manifest v argv same = some false

-- Whether the observation goes on past the first test
unfoldable pub is_current : Runtime → Fields → Option ℤ → Value → Option (List Text) → Option Bool
unfolding argv_matches_manifest get_or_null int_or_none int_eq
is_current r manifest active_pid v argv = do
  pid ← int_or_none r.python (get_or_null "pid" manifest)
  matches_if r manifest v argv (same_pid active_pid pid)

abbrev pub own_fields : Value → Fields
own_fields (dict fields) = fields
own_fields v = no_entries

-- A version that is a text and not empty
abbrev pub observe_version : String → Value → Observed → Observed
observe_version field (str version) (observed, sources) =
    if is_empty (codes version)
    then (observed, sources)
    else (set_field field (str version) observed, set_field field (str "runtime_manifest") sources)
observe_version field v o = o

unfoldable pub observe_versions : Value → Observed → Observed
unfolding set_field get_or_null
observe_versions (dict versions) o =
    observe_version "vllm_version" (get_or_null "vllm" versions)
      (observe_version "torch_version" (get_or_null "torch" versions) o)
observe_versions v o = o

abbrev pub with_argv : List Text → Observed → Observed
with_argv redacted (observed, sources) = (
  set_field "runtime_argv" (list (texts redacted)) observed,
  set_field "runtime_argv" (str "process_cmdline") sources,
)

unfoldable pub current_config : Runtime → Fields → List Text → Option Fields
unfolding observe_versions observed_config_from_process_argv redact_argv with_sources set_field
    get_or_null
current_config r manifest process_argv = do
  observed ← observed_config_from_process_argv r process_argv
  redacted ← redact_argv r.codec process_argv
  some (
      with_sources (
        with_argv redacted (
          observe_versions (get_or_null "package_versions" manifest)
            (observed, own_fields (get_or_null "_sources" observed)))))

abbrev pub config_if : Runtime → Fields → Bool → Option (List Text) → Option Fields
config_if r manifest true (some process_argv) = current_config r manifest process_argv
config_if r manifest true none = some no_entries
config_if r manifest false argv = some no_entries

-- `observed_config_from_active_manifest`
unfoldable pub observed_config_from_active_manifest :
    Runtime → Fields → Option ℤ → Option (List Text) → Option Fields
unfolding is_current current_config get_or_null
observed_config_from_active_manifest r manifest active_pid process_argv =
    is_current r manifest active_pid (get_or_null "argv" manifest) process_argv >>= λ current.
    config_if r manifest current process_argv

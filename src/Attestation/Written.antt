-- ===== src/Attestation/Written.antt =====
-- What src/gemma4_mtp_vllm/runtime_config.py writes into the configuration that a command line shows.
use gemma_4_31b_mtp_v_llm_se.Prelude.{
  ◌≡◌, refl, ◌∙◌, arith, String, Bool, false, List, [], ◌∷◌, any, is_empty, if-either,
}
use gemma_4_31b_mtp_v_llm_se.Prelude.Text.{Text, codes}
use gemma_4_31b_mtp_v_llm_se.Json.{Value, str, list, dict, get, get_or_null}
use gemma_4_31b_mtp_v_llm_se.Gateway.Completions.Bodies.{get-set_field_other}
use gemma_4_31b_mtp_v_llm_se.Attestation.Observed.{Observed, texts, with_sources}
use gemma_4_31b_mtp_v_llm_se.Attestation.Manifest.{observe_version, observe_versions, with_argv}
use text.Mathlib.Text.{◌==◌ as str_eq}

-- The fields that may come from the manifest, and those that are written again
abbrev pub written_keys : List String
written_keys = "torch_version" ∷ "vllm_version" ∷ "runtime_argv" ∷ "_sources" ∷ []

abbrev pub is_written : String → Bool
is_written key = any (λ k. str_eq k key) written_keys

get-with_sources :
    (key : String) (o : Observed)
    → str_eq "_sources" key ≡ false
    → get key (with_sources o) ≡ get key o.0
get-with_sources key (observed, sources) e =
    unfold with_sources in get-set_field_other key "_sources" (dict sources) observed e

get-observe_version :
    (field key : String) (v : Value) (o : Observed)
    → str_eq field key ≡ false
    → get key (observe_version field v o).0 ≡ get key o.0
get-observe_version field key (str version) (observed, sources) e =
    if-either {A = Observed} (λ o. get key o.0 ≡ get key observed) (is_empty (codes version)) _ _
      refl (get-set_field_other key field (str version) observed e)
get-observe_version field key v o e = refl

get-observe_versions :
    (key : String) (v : Value) (o : Observed)
    → str_eq "torch_version" key ≡ false
    → str_eq "vllm_version" key ≡ false
    → get key (observe_versions v o).0 ≡ get key o.0
unfolding observe_versions
get-observe_versions key (dict versions) o e f =
    get-observe_version "vllm_version" key (get_or_null "vllm" versions) _ f
    ∙ get-observe_version "torch_version" key (get_or_null "torch" versions) o e
get-observe_versions key v o e f = refl

get-with_argv :
    (key : String) (redacted : List Text) (o : Observed)
    → str_eq "runtime_argv" key ≡ false
    → get key (with_argv redacted o).0 ≡ get key o.0
get-with_argv key redacted (observed, sources) e =
    get-set_field_other key "runtime_argv" (list (texts redacted)) observed e

pub get-written :
    (key : String) (redacted : List Text) (versions : Value) (o : Observed)
    → is_written key ≡ false
    → get key (with_sources (with_argv redacted (observe_versions versions o))) ≡ get key o.0
get-written key redacted versions o e =
    get-with_sources key _ (ground (arith, e))
    ∙ get-with_argv key redacted (observe_versions versions o) (ground (arith, e))
    ∙ get-observe_versions key versions o (ground (arith, e)) (ground (arith, e))

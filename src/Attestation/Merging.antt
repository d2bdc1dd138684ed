-- ===== src/Attestation/Merging.antt =====
-- `merge_observed_config` of src/gemma4_mtp_vllm/runtime_config.py.
use gemma_4_31b_mtp_v_llm_se.Prelude.{String, not, ◌&&◌, List, [], ◌∷◌, if◌then◌else◌}
use gemma_4_31b_mtp_v_llm_se.Json.{Value, dict, Fields, no_entries, entry, get_or_null, is_null}
use gemma_4_31b_mtp_v_llm_se.Gateway.Completions.{set_field}
use text.Mathlib.Text.{◌==◌ as str_eq}

-- `fields.update(other)`
unfoldable pub update : Fields → Fields → Fields
unfolding set_field
update fields no_entries = fields
update fields (entry key v rest) = update (set_field key v fields) rest

-- What is merged so far, and the sources
abbrev pub Merge : Type 0
Merge = Fields × Fields

unfoldable pub set_unless_known : String → Value → Merge → Merge
unfolding set_field get_or_null
set_unless_known key v (merged, sources) =
    if is_null v && not (is_null (get_or_null key merged))
    then (merged, sources)
    else (set_field key v merged, sources)

-- One item of a configuration
unfoldable pub merge_item : String → Value → Merge → Merge
unfolding set_unless_known update
merge_item key (dict fields) (merged, sources) =
    if str_eq key "_sources"
    then (merged, update sources fields)
    else set_unless_known key (dict fields) (merged, sources)
merge_item key v m = set_unless_known key v m

unfoldable pub merge_items : Fields → Merge → Merge
unfolding merge_item
merge_items no_entries m = m
merge_items (entry key v rest) m = merge_items rest (merge_item key v m)

unfoldable pub merge_configs : List Fields → Merge → Merge
unfolding merge_items
merge_configs [] m = m
merge_configs (config ∷ configs) m = merge_configs configs (merge_items config m)

-- The sources are put in if there are any.
unfoldable pub put_sources : Merge → Fields
unfolding set_field
put_sources (merged, no_entries) = merged
put_sources (merged, entry key v rest) = set_field "_sources" (dict (entry key v rest)) merged

unfoldable pub merge_observed_config : List Fields → Fields
unfolding put_sources merge_configs
merge_observed_config configs = put_sources (merge_configs configs (no_entries, no_entries))

-- ===== src/Attestation/Merged.antt =====
-- What stands in a merged configuration.
use gemma_4_31b_mtp_v_llm_se.Prelude.{
  ◌≡◌, refl, ap, ◌∙◌, String, true, false, not, ◌&&◌, List, [], ◌∷◌, eq_iff, Bool-cases, inl, inr,
  if◌then◌else◌, if-cases, eq_refl, subst,
}
use gemma_4_31b_mtp_v_llm_se.Json.{
  Value, null, dict, Fields, no_entries, entry, get, get_or_null, is_null,
}
use gemma_4_31b_mtp_v_llm_se.Gateway.Visible.Hides.{
  get_or_null-set_field, get_or_null-set_field_other,
}
use gemma_4_31b_mtp_v_llm_se.Attestation.Merging.{
  Merge, set_unless_known, merge_item, merge_items, merge_configs, put_sources,
  merge_observed_config,
}
use text.Mathlib.Text.{◌==◌ as str_eq}

-- What an item leaves under a key: its value, unless that is null or the item has another key
abbrev pub later : String → String → Value → Value → Value
later key k v known = if str_eq k key && not (is_null v) then v else known

abbrev pub last_of : String → Value → Fields → Value
last_of key known no_entries = known
last_of key known (entry k v rest) = last_of key (later key k v known) rest

abbrev pub last_known : String → Value → List Fields → Value
last_known key known [] = known
last_known key known (config ∷ configs) = last_known key (last_of key known config) configs

known_null : (v : Value) → not (is_null v) ≡ false → null ≡ v
known_null null e = refl
known_null v e = cc

set_same :
    (key : String) (v : Value) (merged sources : Fields)
    → get_or_null key (set_unless_known key v (merged, sources)).0
      ≡ later key key v (get_or_null key merged)
unfolding set_unless_known
set_same key null merged sources = rw (eq_refl key) (
    if-cases {A = Merge} (λ m. get_or_null key m.0 ≡ get_or_null key merged)
      (not (is_null (get_or_null key merged))) _ _ (λ e. refl)
      (λ e. get_or_null-set_field key null merged ∙ known_null (get_or_null key merged) e))
set_same key v merged sources = rw (eq_refl key) (get_or_null-set_field key v merged)

set_other :
    (key k : String) (v : Value) (merged sources : Fields)
    → str_eq k key ≡ false
    → get_or_null key (set_unless_known k v (merged, sources)).0
      ≡ later key k v (get_or_null key merged)
unfolding set_unless_known
set_other key k v merged sources e = rw e (
    if-cases {A = Merge} (λ m. get_or_null key m.0 ≡ get_or_null key merged)
      (is_null v && not (is_null (get_or_null k merged))) _ _ (λ f. refl)
      (λ f. get_or_null-set_field_other key k v merged e))

get-set_unless_known :
    (key k : String) (v : Value) (m : Merge)
    → get_or_null key (set_unless_known k v m).0 ≡ later key k v (get_or_null key m.0)
get-set_unless_known key k v (merged, sources) = elim (Bool-cases (str_eq k key)) [
  | inl e ↦
      subst
        (λ other.
          get_or_null other (set_unless_known k v (merged, sources)).0
          ≡ later other k v (get_or_null other merged))
        ((eq_iff k key).0 e) (set_same k v merged sources)
  | inr e ↦ set_other key k v merged sources e
]

not_sources :
    (key k : String)
    → str_eq "_sources" key ≡ false
    → str_eq k "_sources" ≡ true
    → str_eq k key ≡ false
not_sources key k h e = rw ((eq_iff k "_sources").0 e) h

-- An item of another key than the one of the sources
get-merge_item :
    (key k : String) (v : Value) (m : Merge)
    → str_eq "_sources" key ≡ false
    → get_or_null key (merge_item k v m).0 ≡ later key k v (get_or_null key m.0)
unfolding merge_item
get-merge_item key k (dict fields) (merged, sources) h =
    if-cases {A = Merge}
      (λ m. get_or_null key m.0 ≡ later key k (dict fields) (get_or_null key merged))
      (str_eq k "_sources") _ _ (λ e. rw (not_sources key k h e) refl)
      (λ e. get-set_unless_known key k (dict fields) (merged, sources))
get-merge_item key k v m h = get-set_unless_known key k v m

get-merge_items :
    (key : String) (config : Fields) (m : Merge)
    → str_eq "_sources" key ≡ false
    → get_or_null key (merge_items config m).0 ≡ last_of key (get_or_null key m.0) config
unfolding merge_items
get-merge_items key no_entries m h = refl
get-merge_items key (entry k v rest) m h =
    get-merge_items key rest (merge_item k v m) h
    ∙ ap (λ known. last_of key known rest) (get-merge_item key k v m h)

get-merge_configs :
    (key : String) (configs : List Fields) (m : Merge)
    → str_eq "_sources" key ≡ false
    → get_or_null key (merge_configs configs m).0 ≡ last_known key (get_or_null key m.0) configs
unfolding merge_configs
get-merge_configs key [] m h = refl
get-merge_configs key (config ∷ configs) m h =
    get-merge_configs key configs (merge_items config m) h
    ∙ ap (λ known. last_known key known configs) (get-merge_items key config m h)

get-put_sources :
    (key : String) (m : Merge)
    → str_eq "_sources" key ≡ false
    → get_or_null key (put_sources m) ≡ get_or_null key m.0
unfolding put_sources
get-put_sources key (merged, no_entries) h = refl
get-put_sources key (merged, entry k v rest) h =
    get_or_null-set_field_other key "_sources" (dict (entry k v rest)) merged h

-- Under every key but `_sources`, what is merged of a list of configurations holds the last value that
-- one of them gives the key and that is not null; so a null never takes away what was observed before.
pub merge_observed_config-last_known :
    (configs : List Fields) (key : String) (h : str_eq "_sources" key ≡ false)
    → get_or_null key (merge_observed_config configs) ≡ last_known key null configs
unfolding merge_observed_config
merge_observed_config-last_known configs key h =
    get-put_sources key (merge_configs configs (no_entries, no_entries)) h
    ∙ (get-merge_configs key configs (no_entries, no_entries) h
        ∙ ap (λ known. last_known key known configs) (unfold get_or_null in unfold get in refl))

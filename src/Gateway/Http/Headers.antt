-- ===== src/Gateway/Http/Headers.antt =====
-- What a header reads after another is set.
use gemma_4_31b_mtp_v_llm_se.Prelude.{
  ◌≡◌, refl, String, false, some, [], ◌∷◌, arith, eq_iff, eq_refl,
}
use gemma_4_31b_mtp_v_llm_se.Gateway.Http.{Headers, get_header, set_header, remove_header}
use text.Mathlib.Text.{◌==◌ as str_eq}

pub get_header-set_header :
    (name value : String) (headers : Headers)
    → get_header name (set_header name value headers) ≡ some value
unfolding get_header set_header
get_header-set_header name value [] = ground (arith, eq_refl name)
get_header-set_header name value ((key, old) ∷ rest) =
    ground (arith, eq_refl name, get_header-set_header name value rest)

get_header-remove_header :
    (other name : String) (headers : Headers)
    → str_eq name other ≡ false
    → get_header other (remove_header name headers) ≡ get_header other headers
unfolding get_header remove_header
get_header-remove_header other name [] h = refl
get_header-remove_header other name ((key, old) ∷ rest) h = ground (
  arith,
  eq_iff key name,
  eq_iff name other,
  eq_iff key other,
  get_header-remove_header other name rest h,
)

pub get_header-set_header_other :
    (other name value : String) (headers : Headers)
    → str_eq name other ≡ false
    → get_header other (set_header name value headers) ≡ get_header other headers
unfolding get_header set_header
get_header-set_header_other other name value [] h = ground arith
get_header-set_header_other other name value ((key, old) ∷ rest) h = ground (
  arith,
  eq_iff key name,
  eq_iff key other,
  get_header-remove_header other name rest h,
  get_header-set_header_other other name value rest h,
)

-- ===== src/Attestation/Verified.antt =====
-- When a configuration is verified.
use gemma_4_31b_mtp_v_llm_se.Prelude.{
  ◌≡◌, ◌⊎◌, ◌↔◌, refl, String, Bool, true, false, ◌&&◌, ◌||◌, Option, none, some, List, [], ◌∷◌,
  any, all, All, arith, inl, inr, if◌then◌else◌, if-cases,
}
use gemma_4_31b_mtp_v_llm_se.Json.{Value, null, str, Fields, get_or_null, is_null, is_str}
use gemma_4_31b_mtp_v_llm_se.Attestation.{
  Python, values_equal, Status, not_applicable, verified, mismatch, not_requested, not_observed,
  source_unknown, path_redacted, Field, equal_status, version_status, is_optional, is_redacted,
  compared_status, without_reason, not_known, verification_field, attestation_fields, source_of,
  and_field, field_named, fields_of, is_mismatch, is_verified, is_good, status_of, with_status,
  is_verified_status, build_config_verification, config_matches,
}
use text.Mathlib.Text.{◌==◌ as str_eq}

-- The two values agree: as versions, or as values, where one is asked for.
abbrev pub Agrees : Python → String → Value → Value → Type 0
Agrees p field desired seen =
    if str_eq field "vllm_version"
    then version_status p desired seen ≡ some verified
    else (is_null desired ≡ true)
    ⊎ (values_equal p desired seen ≡ some true)

-- A field is not asked for and not there, and may be so; or it was observed, its source is known, no
-- private path stands in its place, and it agrees with what is asked for.
abbrev pub Attested : Python → String → Value → Value → Value → Type 0
Attested p field desired seen source =
    ((is_null desired && (is_null seen && is_optional field)) ≡ true)
    ⊎ ((is_null seen ≡ false)
        × ((is_str "unknown" source ≡ false)
            × (((is_redacted desired || is_redacted seen) ≡ false) × Agrees p field desired seen)))

abbrev pub IsAttested : Python → Fields → Fields → String → Type 0
IsAttested p desired seen field =
    Attested p field (get_or_null field desired) (get_or_null field seen)
      (source_of (get_or_null "_sources" seen) field)

abbrev GoodField : Option Field → Type 0
GoodField none = ⊥
GoodField (some field) = is_good field ≡ true

clash : (b : Bool) → b ≡ true → b ≡ false → ⊥
clash b e f = cc

version_good :
    (p : Python) (desired seen source : Value)
    → (GoodField (without_reason source (version_status p desired seen))
        ↔ (version_status p desired seen ≡ some verified))
unfolding version_status
version_good p (str desired) (str seen) source =
    if-cases (λ s. GoodField (without_reason source (some s)) ↔ (some s ≡ some verified)) _ verified
      mismatch (λ e. (λ g. refl, λ h. refl)) (λ e. (λ g. absurd (cc g), λ h. absurd (cc h)))
version_good p null (str seen) source = (λ g. absurd (cc g), λ h. absurd (cc h))
version_good p desired seen source = (λ g. absurd g, λ h. absurd (cc h))

equal_status_good :
    (source : Value) (o : Option Bool)
    → (GoodField (without_reason source (equal_status o)) ↔ (o ≡ some true))
equal_status_good source none = (λ g. absurd g, λ e. absurd (cc e))
equal_status_good source (some true) = (λ g. refl, λ e. refl)
equal_status_good source (some false) = (λ g. absurd (cc g), λ e. absurd (cc e))

or_right : (X : Type 0) → ((false ≡ true) ⊎ X) → X
or_right X (inl e) = absurd (cc e)
or_right X (inr x) = x

other_good :
    (p : Python) (desired seen source : Value)
    → (GoodField (
          without_reason source
            (if is_null desired then some verified else equal_status (values_equal p desired seen)))
        ↔ ((is_null desired ≡ true) ⊎ (values_equal p desired seen ≡ some true)))
other_good p null seen source = (λ g. inl refl, λ h. refl)
other_good p desired seen source =
    let good = equal_status_good source (values_equal p desired seen) in
    (λ g. inr (good.0 g), λ h. good.1 (or_right _ h))

branch_good :
    (source : Value) (b : Bool) (x y : Option Status) (X Y : Type 0)
    → (GoodField (without_reason source x) ↔ X)
    → (GoodField (without_reason source y) ↔ Y)
    → (GoodField (without_reason source (if b then x else y)) ↔ (if b then X else Y))
branch_good source true x y X Y f g = f
branch_good source false x y X Y f g = g

compared_good :
    (p : Python) (field : String) (desired seen source : Value)
    → (GoodField (without_reason source (compared_status p field desired seen))
        ↔ Agrees p field desired seen)
unfolding compared_status
compared_good p field desired seen source =
    branch_good source (str_eq field "vllm_version") (version_status p desired seen)
      (if is_null desired then some verified else equal_status (values_equal p desired seen))
      (version_status p desired seen ≡ some verified)
      ((is_null desired ≡ true) ⊎ (values_equal p desired seen ≡ some true))
      (version_good p desired seen source) (other_good p desired seen source)

-- The chain of the tests, over their answers
chain_good :
    (absent unseen unsourced redacted : Bool) (field : Option Field) (source : Value) (X : Type 0)
    → (GoodField field ↔ X)
    → (GoodField (
          if absent
          then some (record {
            status = not_applicable;
            source = str "profile";
            reason = some not_requested;
          })
          else if unseen
          then some (not_known source not_observed)
          else if unsourced
          then some (not_known source source_unknown)
          else if redacted
          then some (not_known source path_redacted)
          else field)
        ↔ ((absent ≡ true) ⊎ ((unseen ≡ false) × ((unsourced ≡ false) × ((redacted ≡ false) × X)))))
chain_good true unseen unsourced redacted field source X f = (λ g. inl refl, λ h. refl)
chain_good false true unsourced redacted field source X f =
    (λ g. absurd (cc g), λ h. absurd (nothing h))
  where
    nothing :
        ((false ≡ true) ⊎ ((true ≡ false) × ((unsourced ≡ false) × ((redacted ≡ false) × X)))) → ⊥
    nothing (inl e) = cc e
    nothing (inr (e, rest)) = cc e
chain_good false false true redacted field source X f =
    (λ g. absurd (cc g), λ h. absurd (nothing h))
  where
    nothing : ((false ≡ true) ⊎ ((false ≡ false) × ((true ≡ false) × ((redacted ≡ false) × X)))) → ⊥
    nothing (inl e) = cc e
    nothing (inr (d, (e, rest))) = cc e
chain_good false false false true field source X f = (λ g. absurd (cc g), λ h. absurd (nothing h))
  where
    nothing : ((false ≡ true) ⊎ ((false ≡ false) × ((false ≡ false) × ((true ≡ false) × X)))) → ⊥
    nothing (inl e) = cc e
    nothing (inr (c, (d, (e, rest)))) = cc e
chain_good false false false false field source X f =
    (λ g. inr (refl, (refl, (refl, f.0 g))), λ h. f.1 (last_part h))
  where
    last_part : ((false ≡ true) ⊎ ((false ≡ false) × ((false ≡ false) × ((false ≡ false) × X)))) → X
    last_part (inl e) = absurd (cc e)
    last_part (inr (b, (c, (d, x)))) = x

field_good :
    (p : Python) (field : String) (desired seen source : Value)
    → (GoodField (verification_field p field desired seen source)
        ↔ Attested p field desired seen source)
unfolding verification_field
field_good p field desired seen source =
    chain_good (is_null desired && (is_null seen && is_optional field)) (is_null seen)
      (is_str "unknown" source) (is_redacted desired || is_redacted seen)
      (without_reason source (compared_status p field desired seen)) source
      (Agrees p field desired seen) (compared_good p field desired seen source)

abbrev GoodFields : Option (List Field) → Type 0
GoodFields none = ⊥
GoodFields (some fields) = all is_good fields ≡ true

and_both : (a b : Bool) → a ≡ true → b ≡ true → (a && b) ≡ true
and_both a b h k = ground arith

and_left : (a b : Bool) → (a && b) ≡ true → a ≡ true
and_left a b h = ground arith

and_right : (a b : Bool) → (a && b) ≡ true → b ≡ true
and_right a b h = ground arith

and_field_good :
    (field : Option Field) (fields : Option (List Field))
    → (GoodFields (and_field field fields) ↔ (GoodField field × GoodFields fields))
and_field_good none fields = (λ g. absurd g, λ h. absurd (h.0))
and_field_good (some field) none = (λ g. absurd g, λ h. absurd (h.1))
and_field_good (some field) (some fields) = (
  λ g. (
    and_left (is_good field) (all is_good fields) g,
    and_right (is_good field) (all is_good fields) g,
  ),
  λ h. and_both (is_good field) (all is_good fields) h.0 h.1,
)

fields_good :
    (p : Python) (desired seen : Fields) (names : List String)
    → (GoodFields (fields_of p desired seen names) ↔ All (IsAttested p desired seen) names)
unfolding fields_of field_named
fields_good p desired seen [] = (λ g. tt, λ h. refl)
fields_good p desired seen (field ∷ names) =
    let one =
      field_good p field (get_or_null field desired) (get_or_null field seen)
        (source_of (get_or_null "_sources" seen) field) in
    let more = fields_good p desired seen names in
    let both = and_field_good (field_named p desired seen field) (fields_of p desired seen names) in
    (λ g. (one.0 (both.0 g).0, more.0 (both.0 g).1), λ h. both.1 (one.1 h.0, more.1 h.1))

good_no_mismatch : (field : Field) → is_good field ≡ true → is_mismatch field ≡ false
good_no_mismatch field g = good_status field.status g
  where
    good_status :
        (s : Status)
        → (elim s [ verified ↦ true | not_applicable ↦ true | _ ↦ false ]) ≡ true
        → (elim s [ mismatch ↦ true | _ ↦ false ]) ≡ false
    good_status mismatch h = cc
    good_status s h = refl

no_mismatch : (fields : List Field) → all is_good fields ≡ true → any is_mismatch fields ≡ false
no_mismatch [] g = refl
no_mismatch (field ∷ fields) g =
    rw
      (
        good_no_mismatch field (and_left (is_good field) (all is_good fields) g),
        no_mismatch fields (and_right (is_good field) (all is_good fields) g),
      )
      refl

abbrev IsVerified : List Field → Status → Type 0
IsVerified fields s =
    (is_verified_status (some (s, fields)) ≡ some true) ↔ (all is_good fields ≡ true)

status_good : (fields : List Field) → IsVerified fields (status_of fields)
unfolding status_of
status_good fields =
    if-cases (IsVerified fields) (any is_mismatch fields) _ _
      (λ e.
        (λ g. absurd (cc g), λ h. absurd (clash (any is_mismatch fields) e (no_mismatch fields h))))
      (λ e.
        if-cases (IsVerified fields) (all is_good fields) _ _ (λ f. (λ g. f, λ h. refl))
          (λ f.
            if-cases (IsVerified fields) (any is_verified fields) _ _
              (λ d. (λ g. absurd (cc g), λ h. absurd (clash (all is_good fields) h f)))
              (λ d. (λ g. absurd (cc g), λ h. absurd (clash (all is_good fields) h f)))))

verified_fields :
    (o : Option (List Field)) → ((is_verified_status (with_status o) ≡ some true) ↔ GoodFields o)
verified_fields none = (λ g. absurd (cc g), λ h. absurd h)
verified_fields (some fields) = status_good fields

-- A configuration matches what is asked for exactly when each field of the attestation either is
-- optional, not asked for and not there; or was observed, from a source that is known, with no private
-- path in place of a value, and, as the version of vLLM, is not below the one that is asked for, or, as
-- any other field, equals what is asked for, if anything is.
pub config_matches_iff :
    (p : Python) (desired seen : Fields)
    → ((config_matches p desired seen ≡ some true)
        ↔ All (IsAttested p desired seen) attestation_fields)
unfolding config_matches build_config_verification
config_matches_iff p desired seen =
    let overall = verified_fields (fields_of p desired seen attestation_fields) in
    let each = fields_good p desired seen attestation_fields in
    (λ g. each.0 (overall.0 g), λ h. overall.1 (each.1 h))

-- ===== src/Requests/Policy/Parts.antt =====
-- What each field may hold for policy.py to accept it, and when each check of the code lets it through.
use gemma_4_31b_mtp_v_llm_se.Prelude.{
  ◌≡◌, ◌↔◌, ◌⊎◌, refl, ap, String, Bool, true, false, not, ◌&&◌, Option, none, some, List, [], ◌∷◌,
  All, arith, Bool-cases, inl, inr, if◌then◌else◌,
}
use gemma_4_31b_mtp_v_llm_se.Json.{
  IfThere, is_str_iff, truthy, Value, null, str, list, dict, no_items, Fields, get, get_or_null,
  is_str, is_null,
}
use gemma_4_31b_mtp_v_llm_se.Requests.Policy.{
  Reason, Verdict, accepted, unsupported, is_empty_list, has_type, reject_loop, reject_format,
}

abbrev pub IsEmptyList : Value → Type 0
IsEmptyList v = v ≡ list no_items

abbrev pub IsUnset : Value → Type 0
IsUnset v = v ≡ null

abbrev pub IsNone : Value → Type 0
IsNone v = (v ≡ null) ⊎ (v ≡ str "none")

-- An object whose type is the given text
abbrev pub HasType : String → Value → Type 0
HasType kind (dict fs) = get "type" fs ≡ some (str kind)
HasType kind v = ⊥

-- No type, one that counts as false, or "text"; what is no object is let through.
abbrev pub IsTextFormat : Value → Type 0
IsTextFormat (dict fs) = IfThere (λ t. (truthy t ≡ false) ⊎ (t ≡ str "text")) (get "type" fs)
IsTextFormat v = Unit

pub record IsOpenaiPlain (p : Fields) (mtp_enabled : Bool) : Type 0 where
  pub tools : IfThere IsEmptyList (get "tools" p)
  pub tool_choice : IfThere IsNone (get "tool_choice" p)
  pub function_call : IfThere IsNone (get "function_call" p)
  pub functions : IfThere IsEmptyList (get "functions" p)
  pub stop : IfThere IsUnset (get "stop" p)
  pub response_format : (mtp_enabled ≡ false) ⊎ IfThere IsTextFormat (get "response_format" p)

pub record IsAnthropicPlain (p : Fields) : Type 0 where
  pub tools : IfThere IsEmptyList (get "tools" p)
  pub tool_choice : IfThere (HasType "none") (get "tool_choice" p)
  pub thinking : IfThere (HasType "disabled") (get "thinking" p)
  pub mcp : IfThere IsEmptyList (get "mcp" p)
  pub files : IfThere IsEmptyList (get "files" p)
  pub stop_sequences : IfThere IsEmptyList (get "stop_sequences" p)

pub is_empty_list_iff : (v : Value) → (is_empty_list v ≡ true) ↔ IsEmptyList v
unfolding is_empty_list
is_empty_list_iff (list no_items) = (λ h. refl, λ h. refl)
is_empty_list_iff v = (λ h. cc, λ h. cc)

pub is_null_iff : (v : Value) → (is_null v ≡ true) ↔ IsUnset v
is_null_iff null = (λ h. refl, λ h. refl)
is_null_iff v = (λ h. cc, λ h. cc)

null-is_str : (text : String) → is_str text null ≡ false
unfolding is_str
null-is_str text = refl

is_str-there :
    (text : String) (o : Option Value)
    → (is_str text (elim o [ none ↦ null | some v ↦ v ]) ≡ true) ↔ (o ≡ some (str text))
is_str-there text none = (λ h. absurd (ground (arith, null-is_str text)), λ h. cc)
is_str-there text (some v) =
    (λ h. ap some ((is_str_iff text v).0 h), λ h. (is_str_iff text v).1 (ground arith))

pub has_type_iff : (kind : String) (v : Value) → (has_type kind v ≡ true) ↔ HasType kind v
unfolding has_type get_or_null
has_type_iff kind (dict fs) = is_str-there kind (get "type" fs)
has_type_iff kind v = (λ h. cc, λ h. absurd h)

-- A field that is not there, or asks for nothing
abbrev pub IsIdle : (String → Value → Bool) → Fields → String → Type 0
IsIdle is_noop p name = IfThere (λ v. is_noop name v ≡ true) (get name p)

module _ (f : Value → Bool) where
  -- One turn of the loop accepts when the field is not there or does nothing, and the rest accepts.
  turn_iff :
      (o : Option Value) (rest : Verdict) (reason : Reason)
      → (elim o as (λ _. Verdict) [
        | none ↦ rest
        | some v ↦ if f v then rest else unsupported reason
      ]
          ≡ accepted)
        ↔ (IfThere (λ v. f v ≡ true) o × (rest ≡ accepted))
  turn_iff none rest reason = (λ h. (tt, h), λ (_, h). h)
  turn_iff (some v) rest reason = elim (Bool-cases (f v)) [
    | inl y ↦ (λ h. (y, ground arith), λ (_, h). ground arith)
    | inr n ↦ (λ h. absurd (ground arith), λ (h, _). absurd (ground arith))
  ]

pub reject_loop_iff :
    (is_noop : String → Value → Bool) (reason : String → Reason) (names : List String) (p : Fields)
    (next : Verdict)
    → (reject_loop is_noop reason names p next ≡ accepted)
      ↔ (All (IsIdle is_noop p) names × (next ≡ accepted))
unfolding reject_loop
reject_loop_iff is_noop reason [] p next = (λ h. (tt, h), λ (_, h). h)
reject_loop_iff is_noop reason (name ∷ names) p next =
    let (split, join) =
      turn_iff (is_noop name) (get name p) (reject_loop is_noop reason names p next)
        (reason name) in
    let (later, later') = reject_loop_iff is_noop reason names p next in
    (
      λ h. let (here, rest) = split h in let (idle, done) = later rest in ((here, idle), done),
      λ ((here, idle), done). join (here, later' (idle, done)),
    )

module _ (f : Value → Bool) (P : Value → Type 0) (each : (v : Value) → (f v ≡ true) ↔ P v) where
  pub where_there_iff : (o : Option Value) → IfThere (λ v. f v ≡ true) o ↔ IfThere P o
  where_there_iff none = (λ h. h, λ h. h)
  where_there_iff (some v) = each v

truthy-null : truthy null ≡ false
unfolding truthy
truthy-null = refl

text_type_iff :
    (o : Option Value)
    → ((truthy (elim o [ none ↦ null | some v ↦ v ])
          && not (is_str "text" (elim o [ none ↦ null | some v ↦ v ])))
        ≡ false)
      ↔ IfThere (λ t. (truthy t ≡ false) ⊎ (t ≡ str "text")) o
text_type_iff none = (λ h. tt, λ h. ground (arith, truthy-null))
text_type_iff (some v) = ground (arith, is_str_iff "text" v)

reject_format_iff :
    (v : Value) (mtp_enabled : Bool)
    → (reject_format v mtp_enabled ≡ accepted) ↔ ((mtp_enabled ≡ false) ⊎ IsTextFormat v)
unfolding reject_format get_or_null
reject_format_iff (dict fs) false = (λ h. inl refl, λ h. ground arith)
reject_format_iff (dict fs) true =
    let (there, back) = text_type_iff (get "type" fs) in
    (λ h. inr (there (ground arith)), λ h. elim h [ inl e ↦ cc | inr k ↦ ground (arith, back k) ])
reject_format_iff v mtp_enabled = (λ h. inr tt, λ h. refl)

pub missing_format_iff :
    (o : Option Value) (mtp_enabled : Bool)
    → (reject_format (elim o [ none ↦ null | some v ↦ v ]) mtp_enabled ≡ accepted)
      ↔ ((mtp_enabled ≡ false) ⊎ IfThere IsTextFormat o)
missing_format_iff none mtp_enabled = reject_format_iff null mtp_enabled
missing_format_iff (some v) mtp_enabled = reject_format_iff v mtp_enabled

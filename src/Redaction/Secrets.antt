-- ===== src/Redaction/Secrets.antt =====
-- What `redact_argv` of src/gemma4_mtp_vllm/runtime_config.py tells of a secret: nothing.
use gemma_4_31b_mtp_v_llm_se.Prelude.{
  ◌≡◌, refl, ap, subst, sym, arith, Bool, true, false, some, List, [], ◌∷◌, ◌++◌, any, All,
  Bool-cases, inl, inr, ==_iff, if◌then◌else◌,
}
use gemma_4_31b_mtp_v_llm_se.Prelude.Text.{Text, codes}
use gemma_4_31b_mtp_v_llm_se.Metrics.Lines.{text_eq, cut_equals}
use gemma_4_31b_mtp_v_llm_se.Redaction.{Codec}
use gemma_4_31b_mtp_v_llm_se.Redaction.Arguments.{
  secret_options, is_secret, redact_parts, redact_argument, and_argument, redact_arguments,
  redact_argv,
}

-- `redact_next` after one argument
abbrev value_next : Bool → Text → Bool
value_next true value = false
value_next false value = is_secret value

-- Whether the argument after these is the value of an option
unfoldable pub is_value_next : Bool → List Text → Bool
is_value_next next [] = next
is_value_next next (value ∷ argv) = is_value_next (value_next next value) argv

pub text_eq-eq : (a b : Text) → text_eq a b ≡ true → a ≡ b
unfolding text_eq
text_eq-eq [] [] e = refl
text_eq-eq [] (d ∷ ds) e = ground (arith, e)
text_eq-eq (c ∷ cs) [] e = ground (arith, e)
text_eq-eq (c ∷ cs) (d ∷ ds) e =
    let p : c ≡ d = (==_iff c d).0 (ground (arith, e)) in
    let q : cs ≡ ds = text_eq-eq cs ds (ground (arith, e)) in rw (p, q) refl

any-holds :
    (P : Text → Type 0) (value : Text) (values : List Text)
    → any (text_eq value) values ≡ true
    → All P values
    → P value
any-holds P value [] e h = ground (arith, e)
any-holds P value (other ∷ values) e (p, h) = elim (Bool-cases (text_eq value other)) [
  | inl same ↦ subst P (sym (text_eq-eq value other same)) p
  | inr differs ↦ any-holds P value values (ground (arith, e, differs)) h
]

-- The option is cut off a joined argument, which is no option itself.
abbrev Joined : Text → Type 0
Joined option =
    (value : Text)
    → cut_equals (option ++ b'=' ∷ value) ≡ some (option, value)
      × is_secret (option ++ b'=' ∷ value) ≡ false

secret_options-Joined : All Joined secret_options
unfolding cut_equals is_secret
secret_options-Joined = (
  λ v. (refl, refl),
  (λ v. (refl, refl), (λ v. (refl, refl), (λ v. (refl, refl), (λ v. (refl, refl), tt)))),
)

secret-Joined : (option : Text) → is_secret option ≡ true → Joined option
unfolding is_secret
secret-Joined option e = any-holds Joined option secret_options e secret_options-Joined

module _ (codec : Codec) where
  -- What is redacted of an argument does not depend on those after it.
  redact_arguments-tail :
      (next : Bool) (value : Text) (argv others : List Text)
      → redact_arguments codec (value_next next value) argv
        ≡ redact_arguments codec (value_next next value) others
      → redact_arguments codec next (value ∷ argv) ≡ redact_arguments codec next (value ∷ others)
  unfolding redact_arguments
  redact_arguments-tail true value argv others h = ap (and_argument (some (codes "REDACTED"))) h
  redact_arguments-tail false value argv others h =
      ap (and_argument (redact_argument codec value)) h

  redact_arguments-append :
      (next : Bool) (before argv others : List Text)
      → redact_arguments codec (is_value_next next before) argv
        ≡ redact_arguments codec (is_value_next next before) others
      → redact_arguments codec next (before ++ argv)
        ≡ redact_arguments codec next (before ++ others)
  unfolding is_value_next
  redact_arguments-append next [] argv others h = h
  redact_arguments-append next (value ∷ before) argv others h =
      redact_arguments-tail next value (before ++ argv) (before ++ others)
        (redact_arguments-append (value_next next value) before argv others h)

  redact_argument-step :
      (value : Text)
      → redact_argument codec value
        ≡ (if is_secret value then some value else redact_parts codec value (cut_equals value))
  redact_argument-step value = unfold redact_argument in refl

  redact_parts-secret :
      (value option option_value : Text)
      → is_secret option ≡ true
      → redact_parts codec value (some (option, option_value)) ≡ some (option ++ codes "=REDACTED")
  redact_parts-secret value option option_value e = unfold redact_parts in ground (arith, e)

  redact_arguments-step :
      (value : Text) (argv : List Text)
      → redact_arguments codec false (value ∷ argv)
        ≡ and_argument (redact_argument codec value) (redact_arguments codec (is_secret value) argv)
  redact_arguments-step value argv = unfold redact_arguments in refl

  -- An option joined with its value keeps the option alone.
  redact_argument-joined :
      (option value : Text)
      → is_secret option ≡ true
      → redact_argument codec (option ++ b'=' ∷ value) ≡ some (option ++ codes "=REDACTED")
  redact_argument-joined option value e =
      let (cut, plain) = secret-Joined option e value in
      rw (redact_argument-step (option ++ b'=' ∷ value), plain, cut)
        (redact_parts-secret (option ++ b'=' ∷ value) option value e)

  redact_arguments-joined :
      (next : Bool) (option secret other : Text) (argv : List Text)
      → is_secret option ≡ true
      → redact_arguments codec next ((option ++ b'=' ∷ secret) ∷ argv)
        ≡ redact_arguments codec next ((option ++ b'=' ∷ other) ∷ argv)
  redact_arguments-joined true option secret other argv e = unfold redact_arguments in refl
  redact_arguments-joined false option secret other argv e =
      rw
        (
          redact_arguments-step (option ++ b'=' ∷ secret) argv,
          redact_arguments-step (option ++ b'=' ∷ other) argv,
          redact_argument-joined option secret e,
          redact_argument-joined option other e,
          (secret-Joined option e secret).1,
          (secret-Joined option e other).1,
        )
        refl

  redact_arguments-value :
      (option secret other : Text) (argv : List Text)
      → is_secret option ≡ true
      → redact_arguments codec false (option ∷ secret ∷ argv)
        ≡ redact_arguments codec false (option ∷ other ∷ argv)
  redact_arguments-value option secret other argv e =
      rw
        (
          redact_arguments-step option (secret ∷ argv),
          redact_arguments-step option (other ∷ argv),
          e,
        )
        unfold redact_arguments in refl

-- For an option that holds a secret, which is not itself the value of such an option before it, what
-- `redact_argv` returns is the same for every value that is joined to the option by an equals sign,
-- and for every value that is the argument after it.
pub redact_argv-hides :
    (codec : Codec) (option secret other : Text) (before after : List Text)
    → is_secret option ≡ true
    → is_value_next false before ≡ false
    → redact_argv codec (before ++ (option ++ b'=' ∷ secret) ∷ after)
        ≡ redact_argv codec (before ++ (option ++ b'=' ∷ other) ∷ after)
      × redact_argv codec (before ++ option ∷ secret ∷ after)
        ≡ redact_argv codec (before ++ option ∷ other ∷ after)
redact_argv-hides codec option secret other before after e here =
    unfold redact_argv in
    (
      redact_arguments-append codec false before ((option ++ b'=' ∷ secret) ∷ after)
          ((option ++ b'=' ∷ other) ∷ after)
          (redact_arguments-joined codec (is_value_next false before) option secret other after e),
      redact_arguments-append codec false before (option ∷ secret ∷ after) (option ∷ other ∷ after)
          (rw here (redact_arguments-value codec option secret other after e)),
    )

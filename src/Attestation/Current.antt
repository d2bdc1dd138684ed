-- ===== src/Attestation/Current.antt =====
-- When src/gemma4_mtp_vllm/runtime_config.py takes a manifest for that of the running process.
use gemma_4_31b_mtp_v_llm_se.Prelude.{sym}
use gemma_4_31b_mtp_v_llm_se.Json.{Items}
use gemma_4_31b_mtp_v_llm_se.Attestation.Matching.{
  Answers, to_Answers, map_Answers, same_pid_same, is_same_tail_same, IsTail,
  IsTail-argv_tail_from_serve,
}
use gemma_4_31b_mtp_v_llm_se.Prelude.{none, subst, String, ◌∙◌, ap, Option, Bool, true, false}
use gemma_4_31b_mtp_v_llm_se.Json.{list}
use gemma_4_31b_mtp_v_llm_se.Attestation.Manifest.{matches_if}
use gemma_4_31b_mtp_v_llm_se.Attestation.Matching.{argv_tail_from_serve-IsTail, Reads}
use gemma_4_31b_mtp_v_llm_se.Prelude.{
  ◌≡◌, ◌⊎◌, inl, inr, refl, ap, eq_iff, String, Bool, true, false, Option, none, some, List, length,
}
use gemma_4_31b_mtp_v_llm_se.Prelude.Text.{Text}
use gemma_4_31b_mtp_v_llm_se.Json.{ℤ, Value, str, list, Fields, get_or_null}
use gemma_4_31b_mtp_v_llm_se.Redaction.Arguments.{redact_argv}
use gemma_4_31b_mtp_v_llm_se.Redaction.Total.{strings_pass, is_shorter}
use gemma_4_31b_mtp_v_llm_se.Attestation.{int_or_none}
use gemma_4_31b_mtp_v_llm_se.Attestation.Argv.{argv_tail_from_serve}
use gemma_4_31b_mtp_v_llm_se.Attestation.Observed.{Runtime}
use gemma_4_31b_mtp_v_llm_se.Attestation.Manifest.{
  argv_fingerprint, as_texts, is_same_tail, argv_matches_manifest, fingerprint_of, same_pid,
  is_current,
}
use text.Mathlib.Text.{◌==◌ as str_eq}
use gemma_4_31b_mtp_v_llm_se.Attestation.Matching.{
  same_pid-AreBoth, is_same_tail-AreBoth, HasSameTail, IsOf,
}
use gemma_4_31b_mtp_v_llm_se.Attestation.Reading.{argv-Returns}

some_inj {ℓ} : {A : Type ℓ} {a b : A} → some a ≡ some b → a ≡ b
some_inj e = cc e

list_inj : {vs ws : Items} → list vs ≡ list ws → vs ≡ ws
list_inj e = cc e

str_answer :
    (s t : String) {X : Type 0}
    → (str s ≡ str t) ⊎ ((fingerprint_of (str s) ≡ none) × X)
    → str_eq s t ≡ true
str_answer s t (inl e) = (eq_iff s t).1 (cc e)
str_answer s t (inr (e, x)) = absurd (cc e)

module _ (r : Runtime) where
  -- The manifest is of the process that runs.
  abbrev pub IsOfRunning : Fields → Option ℤ → Option (List Text) → Type 0
  IsOfRunning manifest active_pid argv =
      (process_argv : List Text) × (argv ≡ some process_argv)
      × IsOf r manifest active_pid process_argv

module _ (r : Runtime)
    (shorter : (text : Text) (v : Value)
      → r.codec.json_loads text ≡ some v
      → strings_pass (is_shorter (length text)) v ≡ true) where
  same_tail_complete :
      (argv others redacted other : List Text)
      → redact_argv r.codec argv ≡ some redacted
      → redact_argv r.codec others ≡ some other
      → HasSameTail r argv others
      → is_same_tail (argv_tail_from_serve redacted) (argv_tail_from_serve other) ≡ true
  same_tail_complete argv others redacted other e f (x, y, tail, g, h, is_x, is_y) =
      let same_x : x ≡ redacted = some_inj (sym g ∙ e) in
      let same_y : y ≡ other = some_inj (sym h ∙ f) in
      is_same_tail_same _ _ (
        tail,
        IsTail-argv_tail_from_serve redacted tail (subst (λ z. IsTail z tail) same_x is_x),
        IsTail-argv_tail_from_serve other tail (subst (λ z. IsTail z tail) same_y is_y),
      )

  argv_matches_manifest-Answers :
      (argv others : List Text) (fingerprint : Value)
      → (b : Bool) × (argv_matches_manifest r argv others (fingerprint_of fingerprint) ≡ some b)
        × Answers b (
            (fingerprint ≡ str (argv_fingerprint r others))
            ⊎ ((fingerprint_of fingerprint ≡ none) × HasSameTail r argv others))
  argv_matches_manifest-Answers argv others (str s) = (
    str_eq s (argv_fingerprint r others),
    unfold argv_matches_manifest in refl,
    to_Answers (str_eq s (argv_fingerprint r others))
        (λ e. inl (ap str ((eq_iff s (argv_fingerprint r others)).0 e)))
        (str_answer s (argv_fingerprint r others)),
  )
  argv_matches_manifest-Answers argv others v =
      let (redacted, e) = argv-Returns r shorter argv in
      let (other, f) = argv-Returns r shorter others in
      (
        is_same_tail (argv_tail_from_serve redacted) (argv_tail_from_serve other),
        unfold argv_matches_manifest in rw (e, f) refl,
        to_Answers (is_same_tail (argv_tail_from_serve redacted) (argv_tail_from_serve other))
            (λ same.
              let (tail, g, h) = is_same_tail-AreBoth _ _ same in
              inr (
                refl,
                (
                  redacted,
                  other,
                  tail,
                  e,
                  f,
                  argv_tail_from_serve-IsTail redacted tail g,
                  argv_tail_from_serve-IsTail other tail h,
                ),
              ))
            (λ m. elim m [
              | inl is_str ↦ absurd (cc is_str)
              | inr (no_str, tails) ↦ same_tail_complete argv others redacted other e f tails
            ]),
      )

  running-Matches :
      (manifest : Fields) (active_pid : Option ℤ) (vs : Items) (process_argv : List Text)
      → get_or_null "argv" manifest ≡ list vs
      → IsOfRunning r manifest active_pid (some process_argv)
      → (get_or_null "argv_fingerprint" manifest ≡ str (argv_fingerprint r process_argv))
        ⊎ ((fingerprint_of (get_or_null "argv_fingerprint" manifest) ≡ none)
            × HasSameTail r (as_texts r vs) process_argv)
  running-Matches manifest active_pid vs process_argv listed (given, e, (n, f, g, ws, l, m)) =
      let same_argv : given ≡ process_argv = some_inj (sym e) in
      let same_items : ws ≡ vs = list_inj (sym l ∙ listed) in
      elim m [
        | inl x ↦ inl (x ∙ ap (λ a. str (argv_fingerprint r a)) same_argv)
        | inr (x, tails) ↦ inr (
          x,
          subst (λ a. HasSameTail r (as_texts r vs) a) same_argv
              (subst (λ a. HasSameTail r (as_texts r a) given) same_items tails),
        )
      ]

  matches_if-Answers :
      (manifest : Fields) (active_pid : Option ℤ) (pid : Option ℤ) (v : Value)
      (argv : Option (List Text)) (same : Bool)
      → get_or_null "argv" manifest ≡ v
      → int_or_none r.python (get_or_null "pid" manifest) ≡ some pid
      → same_pid active_pid pid ≡ same
      → (b : Bool) × (matches_if r manifest v argv same ≡ some b)
        × Answers b (IsOfRunning r manifest active_pid argv)
  matches_if-Answers manifest active_pid pid (list vs) (some process_argv) true listed reads same =
      let (b, e, h) =
        argv_matches_manifest-Answers (as_texts r vs) process_argv
          (get_or_null "argv_fingerprint" manifest) in
      let (n, f, g) = same_pid-AreBoth active_pid pid same in
      (
        b,
        e,
        map_Answers b h (λ m. (process_argv, refl, (n, f, reads ∙ ap some g, vs, listed, m)))
            (running-Matches manifest active_pid vs process_argv listed),
      )
  matches_if-Answers manifest active_pid pid (list vs) (some process_argv) false listed reads same =
      (
        false,
        refl,
        λ (given, e, (n, f, g, vs', l, m)).
            cc (sym same ∙ same_pid_same active_pid pid (n, f, some_inj (sym reads ∙ g))),
      )
  matches_if-Answers manifest active_pid pid (list vs) none same listed reads e =
      (false, refl, λ (given, f, rest). cc f)
  matches_if-Answers manifest active_pid pid v argv same listed reads e =
      (false, refl, λ (given, f, (n, g, h, vs, l, m)). cc (sym listed ∙ l))

  pub is_current-Answers :
      (manifest : Fields) (active_pid : Option ℤ) (v : Value) (argv : Option (List Text))
      → get_or_null "argv" manifest ≡ v
      → Reads r (get_or_null "pid" manifest)
      → (b : Bool) × (is_current r manifest active_pid v argv ≡ some b)
        × Answers b (IsOfRunning r manifest active_pid argv)
  is_current-Answers manifest active_pid v argv listed (pid, reads) =
      let (b, e, h) =
        matches_if-Answers manifest active_pid pid v argv (same_pid active_pid pid) listed reads
          refl in
      (b, unfold is_current in rw reads e, h)

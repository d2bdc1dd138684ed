-- ===== src/Redaction/Paths.antt =====
-- `redact_path` of src/gemma4_mtp_vllm/runtime_config.py and the private paths.
use gemma_4_31b_mtp_v_llm_se.Prelude.{
  ◌≡◌, ◌↔◌, ◌⊎◌, refl, subst, arith, ℕ, Bool, true, false, not, ◌&&◌, ◌||◌, Option, none, some, [],
  ◌∷◌, ◌++◌, all, drop, length, Bool-cases, inl, inr, ◌==◌, if◌then◌else◌,
}
use gemma_4_31b_mtp_v_llm_se.Prelude.Text.{Text, codes, starts_with}
use Prim.Native.Char.{IsScalar}
use gemma_4_31b_mtp_v_llm_se.Prelude.{All}
use gemma_4_31b_mtp_v_llm_se.Prelude.Chars.{codes-IsScalar}
use gemma_4_31b_mtp_v_llm_se.Redaction.Scalars.{sub_paths-IsScalar, sub_secrets-IsScalar}
use gemma_4_31b_mtp_v_llm_se.Redaction.{
  Codec, is_path_char, starts_path_char, starts_under, users, home, starts_path,
  contains_private_path, sub_turn, sub_paths, sub_secrets, parsed_of, redact_path, redact_path_at,
  redact_string_with,
}

-- The replacement's first character is not in the text.
abbrev without_r : Text → Bool
without_r text = all (λ c. not (c == b'R')) text

sub_paths-step :
    (inside : Bool) (c : ℕ) (cs : Text)
    → sub_paths inside (c ∷ cs)
      ≡ sub_turn
          (inside && is_path_char c)
          (starts_path (c ∷ cs))
          c
          (sub_paths (inside && is_path_char c || starts_path (c ∷ cs)) cs)
sub_paths-step inside c cs = unfold sub_paths in refl

sub_paths-plain :
    (c : ℕ) (cs : Text)
    → starts_path (c ∷ cs) ≡ false
    → sub_paths false (c ∷ cs) ≡ c ∷ sub_paths false cs
sub_paths-plain c cs e = rw (sub_paths-step false c cs, e) refl

sub_paths-starts :
    (c : ℕ) (cs : Text)
    → starts_path (c ∷ cs) ≡ true
    → sub_paths false (c ∷ cs) ≡ codes "REDACTED_PATH" ++ sub_paths true cs
sub_paths-starts c cs e = rw (sub_paths-step false c cs, e) refl

starts_with-cons :
    (c p : ℕ) (cs ps : Text)
    → starts_with (c ∷ cs) (p ∷ ps) ≡ true
    → (c == p) ≡ true × starts_with cs ps ≡ true
starts_with-cons c p cs ps h = unfold starts_with in ground (arith, h)

cons-starts_with :
    (c p : ℕ) (cs ps : Text)
    → (c == p) ≡ true
    → starts_with cs ps ≡ true
    → starts_with (c ∷ cs) (p ∷ ps) ≡ true
cons-starts_with c p cs ps same h = unfold starts_with in ground (arith, same, h)

starts_with-replaced :
    (p : ℕ) (ps rest : Text)
    → without_r (p ∷ ps) ≡ true
    → starts_with (codes "REDACTED_PATH" ++ rest) (p ∷ ps) ≡ false
starts_with-replaced p ps rest w = unfold starts_with in ground (arith, w)

starts_with-substituted :
    (p : ℕ) (ps : Text) (c : ℕ) (cs : Text)
    → without_r (p ∷ ps) ≡ true
    → starts_with (sub_paths false (c ∷ cs)) (p ∷ ps) ≡ true
    → starts_path (c ∷ cs) ≡ false
starts_with-substituted p ps c cs w h = elim (Bool-cases (starts_path (c ∷ cs))) [
  | inr plain ↦ plain
  | inl starts ↦
      let replaced : starts_with (codes "REDACTED_PATH" ++ sub_paths true cs) (p ∷ ps) ≡ true =
        subst (λ t. starts_with t (p ∷ ps) ≡ true) (sub_paths-starts c cs starts) h in
      ground (arith, replaced, starts_with-replaced p ps (sub_paths true cs) w)
]

-- What the substituted text starts with, the text itself starts with.
sub_paths-starts_with :
    (prefix text : Text)
    → without_r prefix ≡ true
    → starts_with (sub_paths false text) prefix ≡ true
    → starts_with text prefix ≡ true
      × drop (length prefix) (sub_paths false text) ≡ sub_paths false (drop (length prefix) text)
sub_paths-starts_with [] text w h = (unfold starts_with in refl, refl)
sub_paths-starts_with (p ∷ ps) [] w h = absurd (unfold sub_paths in ground (arith, h))
sub_paths-starts_with (p ∷ ps) (c ∷ cs) w h =
    let plain = sub_paths-plain c cs (starts_with-substituted p ps c cs w h) in
    let (same, next) =
      starts_with-cons c p (sub_paths false cs) ps
        (subst (λ t. starts_with t (p ∷ ps) ≡ true) plain h) in
    let (starts, rest) = sub_paths-starts_with ps cs (ground (arith, w)) next in
    (cons-starts_with c p cs ps same starts, rw plain rest)

starts_path_char-plain : (c : ℕ) (cs : Text) → is_path_char c ≡ false → starts_path (c ∷ cs) ≡ false
starts_path_char-plain c cs e = unfold starts_path in ground (arith, e)

starts_path_char-sub_paths :
    (text : Text) → starts_path_char (sub_paths false text) ≡ true → starts_path_char text ≡ true
starts_path_char-sub_paths [] h = unfold sub_paths in h
starts_path_char-sub_paths (c ∷ cs) h = elim (Bool-cases (is_path_char c)) [
  | inl e ↦ e
  | inr e ↦
      subst (λ t. starts_path_char t ≡ true) (sub_paths-plain c cs (starts_path_char-plain c cs e))
        h
]

starts_under_iff :
    (prefix text : Text)
    → (starts_under prefix text ≡ true)
      ↔ (starts_with text prefix ≡ true × starts_path_char (drop (length prefix) text) ≡ true)
starts_under_iff prefix text = unfold starts_under in ground arith

starts_under-sub_paths :
    (prefix : Text) (c p : ℕ) (cs : Text)
    → without_r prefix ≡ true
    → starts_under (p ∷ prefix) (c ∷ sub_paths false cs) ≡ true
    → starts_under (p ∷ prefix) (c ∷ cs) ≡ true
starts_under-sub_paths prefix c p cs w h =
    let (starts, next) = (starts_under_iff (p ∷ prefix) (c ∷ sub_paths false cs)).0 h in
    let (same, under) = starts_with-cons c p (sub_paths false cs) prefix starts in
    let (under, rest) = sub_paths-starts_with prefix cs w under in
    (starts_under_iff (p ∷ prefix) (c ∷ cs)).1 (
      cons-starts_with c p cs prefix same under,
      starts_path_char-sub_paths (drop (length prefix) cs)
          (subst (λ t. starts_path_char t ≡ true) rest next),
    )

starts_path-or :
    (text : Text) → starts_path text ≡ (starts_under users text || starts_under home text)
starts_path-or text = unfold starts_path in refl

starts_path-sub_paths :
    (c : ℕ) (cs : Text)
    → starts_path (c ∷ cs) ≡ false
    → starts_path (c ∷ sub_paths false cs) ≡ false
starts_path-sub_paths c cs e =
    let users_kept : starts_under users (c ∷ sub_paths false cs) ≡ true
        → starts_under users (c ∷ cs) ≡ true =
      starts_under-sub_paths (codes "Users/") c b'/' cs refl in
    let home_kept : starts_under home (c ∷ sub_paths false cs) ≡ true
        → starts_under home (c ∷ cs) ≡ true =
      starts_under-sub_paths (codes "home/") c b'/' cs refl in
    ground (
      arith,
      e,
      users_kept,
      home_kept,
      starts_path-or (c ∷ cs),
      starts_path-or (c ∷ sub_paths false cs),
    )

contains_private_path-cons :
    (c : ℕ) (cs : Text)
    → contains_private_path (c ∷ cs) ≡ (starts_path (c ∷ cs) || contains_private_path cs)
contains_private_path-cons c cs = unfold contains_private_path in refl

turn-hides :
    (matched starts : Bool) (c : ℕ) (cs : Text)
    → starts_path (c ∷ cs) ≡ starts
    → contains_private_path (sub_paths (matched || starts) cs) ≡ false
    → contains_private_path (sub_turn matched starts c (sub_paths (matched || starts) cs)) ≡ false
turn-hides true starts c cs e h = h
turn-hides false true c cs e h = unfold contains_private_path in h
turn-hides false false c cs e h =
    rw (contains_private_path-cons c (sub_paths false cs), starts_path-sub_paths c cs e) h

unparsed :
    (codec : Codec) (text : Text)
    → contains_private_path text ≡ false
    → (contains_private_path text ≡ true) ⊎ (parsed_of codec text ≡ none)
    → parsed_of codec text ≡ none
unparsed codec text clean (inl found) = ground (arith, clean, found)
unparsed codec text clean (inr none_read) = none_read

-- No private path is left in what the substitution returns.
sub_paths-hides :
    (inside : Bool) (text : Text) → contains_private_path (sub_paths inside text) ≡ false
sub_paths-hides inside [] = unfold contains_private_path sub_paths in refl
sub_paths-hides inside (c ∷ cs) = rw (sub_paths-step inside c cs) (
    turn-hides (inside && is_path_char c) (starts_path (c ∷ cs)) c cs refl
      (sub_paths-hides (inside && is_path_char c || starts_path (c ∷ cs)) cs))

redact_path-step :
    (codec : Codec) (text : Text)
    → redact_path codec text ≡ (
        if contains_private_path text
        then some (codes "REDACTED_PATH")
        else redact_string_with codec
            (redact_path_at codec (length text))
            text
            (parsed_of codec text))
redact_path-step codec text = unfold redact_path in refl

redact_string_with-none :
    (codec : Codec) (f : Text → Option Text) (text : Text)
    → redact_string_with codec f text none ≡ some (sub_paths false (sub_secrets 0 text))
redact_string_with-none codec f text = unfold redact_string_with in refl

-- For a text with a private path, and for one that is not read as JSON, `redact_path` returns a text
-- without a private path, and of scalar values if the text is.
pub redact_path-hides :
    (codec : Codec) (text : Text)
    → (contains_private_path text ≡ true) ⊎ (parsed_of codec text ≡ none)
    → (out : Text) × (redact_path codec text ≡ some out)
      × (contains_private_path out ≡ false)
      × (All IsScalar text → All IsScalar out)
redact_path-hides codec text h = elim (Bool-cases (contains_private_path text)) [
  | inl found ↦ (
    codes "REDACTED_PATH",
    rw (redact_path-step codec text, found) refl,
    unfold contains_private_path in refl,
    λ h. codes-IsScalar "REDACTED_PATH",
  )
  | inr clean ↦ (
    sub_paths false (sub_secrets 0 text),
    rw (redact_path-step codec text, clean, unparsed codec text clean h)
        (redact_string_with-none codec (redact_path_at codec (length text)) text),
    sub_paths-hides false (sub_secrets 0 text),
    λ h. sub_paths-IsScalar false (sub_secrets 0 text) (sub_secrets-IsScalar 0 text h),
  )
]

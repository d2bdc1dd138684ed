-- ===== src/Attestation/Matching.antt =====
-- What it means that a manifest is of a process, in src/gemma4_mtp_vllm/runtime_config.py.
use gemma_4_31b_mtp_v_llm_se.Prelude.{
  ℕ, String, inl, inr, if◌then◌else◌, ◌++◌, All, Bool-cases, subst, Option, none, some,
}
use gemma_4_31b_mtp_v_llm_se.Prelude.Text.{codes}
use gemma_4_31b_mtp_v_llm_se.Prelude.Chars.{text_of}
use gemma_4_31b_mtp_v_llm_se.Json.{Value, dict, IfThere, get}
use gemma_4_31b_mtp_v_llm_se.Metrics.Lines.{text_eq}
use gemma_4_31b_mtp_v_llm_se.Attestation.Argv.{next_index, tail_at, find_serve_index, option_value}
use gemma_4_31b_mtp_v_llm_se.Attestation.Observed.{option_map, spec_of}
use gemma_4_31b_mtp_v_llm_se.Attestation.Manifest.{fingerprint_of}
use gemma_4_31b_mtp_v_llm_se.Prelude.{
  ◌≡◌, ◌⊎◌, refl, ap, arith, Bool, true, false, Option, some, List, [], ◌∷◌, ==_iff,
}
use gemma_4_31b_mtp_v_llm_se.Prelude.Text.{Text}
use gemma_4_31b_mtp_v_llm_se.Json.{ℤ, pos, negsuc, str, list, Items, Fields, get_or_null}
use gemma_4_31b_mtp_v_llm_se.Gateway.Visible.Stream.{int_eq}
use gemma_4_31b_mtp_v_llm_se.Redaction.Arguments.{redact_argv}
use gemma_4_31b_mtp_v_llm_se.Redaction.Secrets.{text_eq-eq}
use gemma_4_31b_mtp_v_llm_se.Redaction.Total.{Returns}
use gemma_4_31b_mtp_v_llm_se.Attestation.{int_or_none}
use gemma_4_31b_mtp_v_llm_se.Attestation.Argv.{argv_tail_from_serve}
use gemma_4_31b_mtp_v_llm_se.Attestation.Observed.{Runtime, ◌>>=◌}
use gemma_4_31b_mtp_v_llm_se.Attestation.Manifest.{
  argv_fingerprint, as_texts, argv_eq, is_same_tail, same_pid,
}

int_eq-eq : (m n : ℤ) → int_eq m n ≡ true → m ≡ n
unfolding int_eq
int_eq-eq (pos m) (pos n) e = ap pos ((==_iff m n).0 e)
int_eq-eq (negsuc m) (negsuc n) e = ap negsuc ((==_iff m n).0 e)
int_eq-eq m n e = ground (arith, e)

argv_eq-eq : (argv others : List Text) → argv_eq argv others ≡ true → argv ≡ others
unfolding argv_eq
argv_eq-eq [] [] e = refl
argv_eq-eq [] (other ∷ others) e = ground (arith, e)
argv_eq-eq (value ∷ argv) [] e = ground (arith, e)
argv_eq-eq (value ∷ argv) (other ∷ others) e =
    let same : value ≡ other = text_eq-eq value other (ground (arith, e)) in
    let rest : argv ≡ others = argv_eq-eq argv others (ground (arith, e)) in rw (same, rest) refl

-- Both are there and are the same.
abbrev pub AreBoth {ℓ} : {A : Type ℓ} → Option A → Option A → Type ℓ
AreBoth {A = A} a b = (x : A) × (a ≡ some x) × (b ≡ some x)

pub same_pid-AreBoth : (a b : Option ℤ) → same_pid a b ≡ true → AreBoth a b
same_pid-AreBoth (some m) (some n) e = (n, ap some (int_eq-eq m n e), refl)
same_pid-AreBoth a b e = ground (arith, e)

pub is_same_tail-AreBoth : (a b : Option (List Text)) → is_same_tail a b ≡ true → AreBoth a b
is_same_tail-AreBoth (some xs) (some ys) e = (ys, ap some (argv_eq-eq xs ys e), refl)
is_same_tail-AreBoth a b e = ground (arith, e)

-- What is the case exactly if the answer is true
abbrev pub Answers : Bool → Type 0 → Type 0
Answers true X = X
Answers false X = ¬ X

pub to_Answers : (b : Bool) {X : Type 0} → (b ≡ true → X) → (X → b ≡ true) → Answers b X
to_Answers true f g = f refl
to_Answers false f g = λ x. cc (g x)

pub map_Answers : (b : Bool) {X Y : Type 0} → Answers b X → (X → Y) → (Y → X) → Answers b Y
map_Answers true x f g = f x
map_Answers false x f g = λ y. x (g y)

int_eq_same : (n : ℤ) → int_eq n n ≡ true
unfolding int_eq
int_eq_same (pos n) = (==_iff n n).1 refl
int_eq_same (negsuc n) = (==_iff n n).1 refl

pub same_pid_same : (a b : Option ℤ) → AreBoth a b → same_pid a b ≡ true
same_pid_same a b (n, e, f) = rw (e, f) (int_eq_same n)

text_eq_same : (text : Text) → text_eq text text ≡ true
unfolding text_eq
text_eq_same [] = refl
text_eq_same (c ∷ cs) = ground (arith, text_eq_same cs)

argv_eq_same : (argv : List Text) → argv_eq argv argv ≡ true
unfolding argv_eq
argv_eq_same [] = refl
argv_eq_same (value ∷ argv) = rw (text_eq_same value) (argv_eq_same argv)

pub is_same_tail_same : (a b : Option (List Text)) → AreBoth a b → is_same_tail a b ≡ true
is_same_tail_same a b (tail, e, f) = rw (e, f) (argv_eq_same tail)

pub bind-Returns {ℓ κ} :
    {A : Type ℓ} {B : Type κ} (o : Option A) (f : A → Option B)
    → Returns o
    → ((a : A) → Returns (f a))
    → Returns (o >>= f)
bind-Returns o f (a, e) h = rw e (h a)

-- The command line from the first `serve` on
abbrev pub IsTail : List Text → List Text → Type 0
IsTail argv tail =
    (before : List Text) × (after : List Text) × (argv ≡ before ++ tail)
    × (tail ≡ codes "serve" ∷ after)
    × All (λ value. text_eq value (codes "serve") ≡ false) before

tail_at-next :
    (value : Text) (argv : List Text) (n : Option ℕ)
    → tail_at (value ∷ argv) (next_index n) ≡ tail_at argv n
tail_at-next value argv none = refl
tail_at-next value argv (some n) = refl

abbrev AreTails : List Text → Option (List Text) → Type 0
AreTails argv none = Unit
AreTails argv (some tail) = IsTail argv tail

AreTails-behind :
    (value : Text) (argv : List Text) (o : Option (List Text))
    → text_eq value (codes "serve") ≡ false
    → AreTails argv o
    → AreTails (value ∷ argv) o
AreTails-behind value argv none e h = tt
AreTails-behind value argv (some tail) e (before, after, f, g, h) =
    (value ∷ before, after, ap (λ r. value ∷ r) f, g, (e, h))

find_serve_index-step :
    (value : Text) (argv : List Text)
    → find_serve_index (value ∷ argv)
      ≡ (if text_eq value (codes "serve") then some 0 else next_index (find_serve_index argv))
find_serve_index-step value argv = unfold find_serve_index in refl

find_serve_index-AreTails :
    (argv : List Text) → AreTails argv (tail_at argv (find_serve_index argv))
find_serve_index-AreTails [] = unfold find_serve_index in tt
find_serve_index-AreTails (value ∷ argv) = elim (Bool-cases (text_eq value (codes "serve"))) [
  | inl same ↦
      rw (find_serve_index-step value argv, same)
        ([], argv, refl, ap (λ v. v ∷ argv) (text_eq-eq value (codes "serve") same), tt)
  | inr differs ↦
      rw
        (find_serve_index-step value argv, differs, tail_at-next value argv (find_serve_index argv))
        (AreTails-behind value argv (tail_at argv (find_serve_index argv)) differs
          (find_serve_index-AreTails argv))
]

pub argv_tail_from_serve-IsTail :
    (argv tail : List Text) → argv_tail_from_serve argv ≡ some tail → IsTail argv tail
argv_tail_from_serve-IsTail argv tail e =
    unfold argv_tail_from_serve in subst (AreTails argv) e (find_serve_index-AreTails argv)

tail_after :
    (before after : List Text)
    → All (λ value. text_eq value (codes "serve") ≡ false) before
    → tail_at (before ++ codes "serve" ∷ after) (find_serve_index (before ++ codes "serve" ∷ after))
      ≡ some (codes "serve" ∷ after)
tail_after [] after h =
    rw (find_serve_index-step (codes "serve") after, text_eq_same (codes "serve")) refl
tail_after (value ∷ before) after (e, h) =
    rw
      (
        find_serve_index-step value (before ++ codes "serve" ∷ after),
        e,
        tail_at-next value (before ++ codes "serve" ∷ after)
            (find_serve_index (before ++ codes "serve" ∷ after)),
      )
      (tail_after before after h)

pub IsTail-argv_tail_from_serve :
    (argv tail : List Text) → IsTail argv tail → argv_tail_from_serve argv ≡ some tail
IsTail-argv_tail_from_serve argv tail (before, after, e, f, h) =
    unfold argv_tail_from_serve in rw (e, f) (tail_after before after h)

module _ (r : Runtime) where
  -- The redacted command lines are the same from `serve` on.
  abbrev pub HasSameTail : List Text → List Text → Type 0
  HasSameTail argv others =
      (redacted : List Text) × (other : List Text) × (tail : List Text) × (redact_argv r.codec argv
        ≡ some redacted)
      × (redact_argv r.codec others ≡ some other)
      × IsTail redacted tail
      × IsTail other tail

  -- The manifest is of the process with the pid and the command line: by its fingerprint, or, without
  -- one, by what stands from `serve` on.
  abbrev pub IsOf : Fields → Option ℤ → List Text → Type 0
  IsOf manifest active_pid process_argv =
      (pid : ℤ) × (active_pid ≡ some pid)
      × (int_or_none r.python (get_or_null "pid" manifest) ≡ some (some pid))
      × (vs : Items) × (get_or_null "argv" manifest ≡ list vs)
      × ((get_or_null "argv_fingerprint" manifest ≡ str (argv_fingerprint r process_argv))
          ⊎ ((fingerprint_of (get_or_null "argv_fingerprint" manifest) ≡ none)
              × HasSameTail (as_texts r vs) process_argv))

  -- The value is no text of digits that `int` refuses.
  abbrev pub Reads : Value → Type 0
  Reads v = Returns (int_or_none r.python v)

  abbrev pub ReadsText : Option Text → Type 0
  ReadsText none = Unit
  ReadsText (some text) = Reads (str (text_of text))

  abbrev pub ReadsSpec : Value → Type 0
  ReadsSpec (dict spec) = IfThere Reads (get "num_speculative_tokens" spec)
  ReadsSpec v = Unit

  abbrev pub ReadsSpecText : Option Text → Type 0
  ReadsSpecText none = Unit
  ReadsSpecText (some text) = ReadsSpec (spec_of (r.codec.json_loads text))

  abbrev pub ReadsOptions : List Text → List (String × Text) → Type 0
  ReadsOptions argv [] = Unit
  ReadsOptions argv ((field, option) ∷ options) =
      ReadsText (option_value option argv) × ReadsOptions argv options

  -- The numbers of a command line are read.
  abbrev pub ReadsArgv : Option (List Text) → Type 0
  ReadsArgv none = Unit
  ReadsArgv (some argv) =
      ReadsOptions argv option_map
      × ReadsSpecText (option_value (codes "--speculative-config") argv)

-- ===== src/Redaction/Scalars.antt =====
-- The substitutions of src/gemma4_mtp_vllm/runtime_config.py keep a text a sequence of scalar values.
use gemma_4_31b_mtp_v_llm_se.Prelude.{
  ℕ, zero, suc, Bool, true, false, ◌&&◌, ◌||◌, Option, none, some, [], ◌∷◌, All, All-append,
}
use gemma_4_31b_mtp_v_llm_se.Prelude.Text.{Text, codes}
use gemma_4_31b_mtp_v_llm_se.Prelude.Chars.{codes-IsScalar}
use gemma_4_31b_mtp_v_llm_se.Redaction.{
  starts_path, is_path_char, sub_turn, sub_paths, secret_length, left_after, secret_turn,
  sub_secrets,
}
use Prim.Native.Char.{IsScalar}

sub_turn-IsScalar :
    (matched starts : Bool) (c : ℕ) (rest : Text)
    → IsScalar c
    → All IsScalar rest
    → All IsScalar (sub_turn matched starts c rest)
sub_turn-IsScalar true starts c rest p h = h
sub_turn-IsScalar false true c rest p h =
    All-append IsScalar (codes "REDACTED_PATH") rest (codes-IsScalar "REDACTED_PATH") h
sub_turn-IsScalar false false c rest p h = (p, h)

pub sub_paths-IsScalar :
    (inside : Bool) (text : Text) → All IsScalar text → All IsScalar (sub_paths inside text)
unfolding sub_paths
sub_paths-IsScalar inside [] h = tt
sub_paths-IsScalar inside (c ∷ cs) (p, h) =
    sub_turn-IsScalar (inside && is_path_char c) (starts_path (c ∷ cs)) c _ p
      (sub_paths-IsScalar (inside && is_path_char c || starts_path (c ∷ cs)) cs h)

secret_turn-IsScalar :
    (secret : Option ℕ) (c : ℕ) (rest : Text)
    → IsScalar c
    → All IsScalar rest
    → All IsScalar (secret_turn secret c rest)
secret_turn-IsScalar none c rest p h = (p, h)
secret_turn-IsScalar (some zero) c rest p h = (p, h)
secret_turn-IsScalar (some (suc n)) c rest p h =
    All-append IsScalar (codes "REDACTED") rest (codes-IsScalar "REDACTED") h

pub sub_secrets-IsScalar :
    (left : ℕ) (text : Text) → All IsScalar text → All IsScalar (sub_secrets left text)
unfolding sub_secrets
sub_secrets-IsScalar left [] h = tt
sub_secrets-IsScalar (suc left) (c ∷ cs) (p, h) = sub_secrets-IsScalar left cs h
sub_secrets-IsScalar zero (c ∷ cs) (p, h) =
    secret_turn-IsScalar (secret_length (c ∷ cs)) c _ p
      (sub_secrets-IsScalar (left_after (secret_length (c ∷ cs))) cs h)

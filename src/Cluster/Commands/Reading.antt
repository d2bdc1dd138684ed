-- ===== src/Cluster/Commands/Reading.antt =====
-- How a shell reads the parts of the commands that carry texts of the operator.
use gemma_4_31b_mtp_v_llm_se.Prelude.{
  String, ◌≡◌, refl, sym, ap, ◌∙◌, Option, none, some, List, [], ◌∷◌, ◌++◌, map, append_assoc,
  append-nil,
}
use gemma_4_31b_mtp_v_llm_se.Prelude.Text.{Text, codes}
use gemma_4_31b_mtp_v_llm_se.Cluster.Shell.{shlex_quote, shlex_join}
use gemma_4_31b_mtp_v_llm_se.Cluster.Shell.Words.{between, read, shell_words}
use gemma_4_31b_mtp_v_llm_se.Cluster.Shell.RoundTrip.{
  codes-append, with_words, read-quote_space, read-join_space, read-join, shell_words-join,
}
use gemma_4_31b_mtp_v_llm_se.Cluster.Environment.{env_prefix}
use Prim.Native.String.{◌++◌ as ◌<>◌}

read-env :
    (rest : Text)
    → read between (codes "env " ++ rest) ≡ with_words (codes "env" ∷ []) (read between rest)
read-env rest = unfold shlex_quote in read-quote_space "env" rest

codes-env_prefix :
    (item : String) (items : List String) (command : String)
    → codes (env_prefix (item ∷ items) <> command)
      ≡ codes "env " ++ (codes (shlex_join (item ∷ items)) ++ (32 ∷ codes command))
unfolding env_prefix
codes-env_prefix item items command =
    rw
      (
        codes-append ("env " <> (shlex_join (item ∷ items) <> " ")) command,
        codes-append "env " (shlex_join (item ∷ items) <> " "),
        codes-append (shlex_join (item ∷ items)) " ",
      )
      (ap (λ text. codes "env " ++ text)
        (append_assoc (codes (shlex_join (item ∷ items))) (32 ∷ []) (codes command)))

-- The environment's items reach `env` as they are, and so do the words of the command behind it.
pub env_prefix-words :
    (item : String) (items : List String) (arg : String) (args : List String)
    → shell_words (env_prefix (item ∷ items) <> shlex_join (arg ∷ args))
      ≡ some (codes "env" ∷ map codes (item ∷ items) ++ map codes (arg ∷ args))
unfolding shell_words
env_prefix-words item items arg args =
    rw
      (
        codes-env_prefix item items (shlex_join (arg ∷ args)),
        read-env (codes (shlex_join (item ∷ items)) ++ (32 ∷ codes (shlex_join (arg ∷ args)))),
        read-join_space item items (codes (shlex_join (arg ∷ args))),
        shell_words-join (arg ∷ args),
      )
      refl

read-one : (word : String) → read between (codes (shlex_quote word)) ≡ some (codes word ∷ [])
unfolding shlex_join
read-one word = rw (sym (append-nil (codes (shlex_quote word)))) (read-join word [])

with_words-two :
    (word next : Text) (more : Option (List Text))
    → with_words (word ∷ []) (with_words (next ∷ []) more) ≡ with_words (word ∷ next ∷ []) more
with_words-two word next none = refl
with_words-two word next (some more) = refl

read-login :
    (rest : Text)
    → read between (codes "bash -lc " ++ rest)
      ≡ with_words (codes "bash" ∷ codes "-lc" ∷ []) (read between rest)
read-login rest =
    unfold shlex_quote in
    read-quote_space "bash" (codes "-lc " ++ rest)
    ∙ ap (with_words (codes "bash" ∷ [])) (read-quote_space "-lc" rest)
    ∙ with_words-two (codes "bash") (codes "-lc") (read between rest)

-- A shell reads a quoted text as that one word.
pub quote-words : (word : String) → shell_words (shlex_quote word) ≡ some (codes word ∷ [])
quote-words word = unfold shell_words in read-one word

-- The shell of the host reads the line for `ssh` as the words bash, -lc and the remote command,
-- whatever that command holds.
pub bash_line-words :
    (remote_command : String)
    → shell_words ("bash -lc " <> shlex_quote remote_command)
      ≡ some (codes "bash" ∷ codes "-lc" ∷ codes remote_command ∷ [])
unfolding shell_words
bash_line-words remote_command =
    rw
      (
        codes-append "bash -lc " (shlex_quote remote_command),
        read-login (codes (shlex_quote remote_command)),
        read-one remote_command,
      )
      refl

-- ===== src/Cluster/Shell/Words.antt =====
-- How a POSIX shell cuts a command into words, for commands without expansions, operators or
-- comments: it reads back what `shlex` quotes. An unquoted character that is neither safe, a space
-- nor a quotation mark is refused, and so is what a shell expands between double marks.
use gemma_4_31b_mtp_v_llm_se.Prelude.{
  ℕ, String, ◌||◌, Option, none, some, List, [], ◌∷◌, ◌==◌, if◌then◌else◌,
}
use gemma_4_31b_mtp_v_llm_se.Prelude.Text.{Text, codes}
use gemma_4_31b_mtp_v_llm_se.Cluster.Shell.{is_safe}

pub data Mark : Type 0 where
  safe blank apostrophe quotation expanding special : Mark

unfoldable pub mark : ℕ → Mark
unfolding is_safe
mark c =
    if is_safe c
    then safe
    else if c == b' '
    then blank
    else if c == 39
    then apostrophe
    else if c == 34
    then quotation
    else if c == b'$' || c == 96 || c == 92
    then expanding
    else special

pub data Mode : Type 0 where
  between in_word in_single in_double : Mode

-- A character in front of the first word
unfoldable pub onto : ℕ → Option (List Text) → Option (List Text)
onto c (some (word ∷ words)) = some ((c ∷ word) ∷ words)
onto c words = none

unfoldable pub end_word : Option (List Text) → Option (List Text)
end_word (some words) = some ([] ∷ words)
end_word none = none

-- The words of the text. Inside a word the first of them is what is left of that word.
unfoldable pub read : Mode → Text → Option (List Text)
unfolding onto end_word mark
read between [] = some []
read in_word [] = some ([] ∷ [])
read mode [] = none
read between (c ∷ cs) = elim (mark c) [
  | safe ↦ onto c (read in_word cs)
  | blank ↦ read between cs
  | apostrophe ↦ read in_single cs
  | quotation ↦ read in_double cs
  | _ ↦ none
]
read in_word (c ∷ cs) = elim (mark c) [
  | safe ↦ onto c (read in_word cs)
  | blank ↦ end_word (read between cs)
  | apostrophe ↦ read in_single cs
  | quotation ↦ read in_double cs
  | _ ↦ none
]
read in_single (c ∷ cs) = elim (mark c) [
  | apostrophe ↦ read in_word cs
  | _ ↦ onto c (read in_single cs)
]
read in_double (c ∷ cs) = elim (mark c) [
  | quotation ↦ read in_word cs
  | expanding ↦ none
  | _ ↦ onto c (read in_double cs)
]

-- The words that a shell hands on
unfoldable pub shell_words : String → Option (List Text)
unfolding read
shell_words command = read between (codes command)

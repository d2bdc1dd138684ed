-- ===== src/Cluster/Shell/RoundTrip.antt =====
-- A shell reads back the words that `shlex.join` puts together.
use gemma_4_31b_mtp_v_llm_se.Prelude.{
  ℕ, String, Bool, true, false, ◌&&◌, ◌≡◌, refl, sym, inl, inr, Option, none, some, List, [], ◌∷◌,
  ◌++◌, map, arith, ◌==◌, all, Bool-cases, append_assoc, append-nil,
}
use gemma_4_31b_mtp_v_llm_se.Prelude.Text.{Text, codes}
use gemma_4_31b_mtp_v_llm_se.Cluster.Shell.{is_safe, quote_rest, shlex_quote, shlex_join}
use gemma_4_31b_mtp_v_llm_se.Cluster.Shell.Words.{
  between, in_word, in_single, mark, onto, end_word, read, shell_words,
}
use Prim.Native.Char.{Char, code}
use Prim.Native.String.{◌++◌ as ◌<>◌}
use text.Mathlib.TextLemmas.{cons-append, nil-append}

pub codes-append : (s t : String) → codes (s <> t) ≡ codes s ++ codes t
codes-append String.[] t = rw (nil-append t) refl
codes-append (String.◌∷◌ c s) t = rw (cons-append c s t, codes-append s t) refl

-- A text in front of the first word
abbrev pub prepend : Text → Option (List Text) → Option (List Text)
prepend [] words = words
prepend (c ∷ cs) words = onto c (prepend cs words)

prepend-some :
    (cs : Text) (word : Text) (words : List Text)
    → prepend cs (some (word ∷ words)) ≡ some ((cs ++ word) ∷ words)
unfolding onto
prepend-some [] word words = refl
prepend-some (c ∷ cs) word words = rw (prepend-some cs word words) refl

quote_apostrophe :
    (c : Char) (s : String)
    → (code c == 39) ≡ true
    → quote_rest (String.◌∷◌ c s) ≡ "'\"'\"'" <> quote_rest s
unfolding quote_rest
quote_apostrophe c s h = ground arith

quote_other :
    (c : Char) (s : String)
    → (code c == 39) ≡ false
    → quote_rest (String.◌∷◌ c s) ≡ String.◌∷◌ c (quote_rest s)
unfolding quote_rest
quote_other c s h = ground arith

single-other :
    (c : ℕ) (cs : Text) → (c == 39) ≡ false → read in_single (c ∷ cs) ≡ onto c (read in_single cs)
unfolding read mark is_safe
single-other c cs h = ground arith

single_apostrophe :
    (c : ℕ) (cs : Text)
    → (c == 39) ≡ true
    → read in_single (39 ∷ 34 ∷ 39 ∷ 34 ∷ 39 ∷ cs) ≡ onto c (read in_single cs)
unfolding read mark is_safe
single_apostrophe c cs h = ground arith

word-safe :
    (c : ℕ) (cs : Text) → is_safe c ≡ true → read in_word (c ∷ cs) ≡ onto c (read in_word cs)
unfolding read mark
word-safe c cs h = ground arith

-- What stands between apostrophes is read as it was.
read-quote_rest :
    (s : String) (rest : Text)
    → read in_single (codes (quote_rest s) ++ rest) ≡ prepend (codes s) (read in_word rest)
read-quote_rest String.[] rest =
    unfold quote_rest in unfold read in unfold mark in unfold is_safe in refl
read-quote_rest (String.◌∷◌ c s) rest = elim (Bool-cases (code c == 39)) [
  | inl h ↦
      rw
        (
          quote_apostrophe c s h,
          codes-append "'\"'\"'" (quote_rest s),
          single_apostrophe (code c) (codes (quote_rest s) ++ rest) h,
          read-quote_rest s rest,
        )
        refl
  | inr h ↦
      rw
        (
          quote_other c s h,
          single-other (code c) (codes (quote_rest s) ++ rest) h,
          read-quote_rest s rest,
        )
        refl
]

split_and : (a b : Bool) → (a && b) ≡ true → (a ≡ true) × (b ≡ true)
split_and a b h = ground arith

-- Safe characters are read as they are.
read-bare :
    (text rest : Text)
    → all is_safe text ≡ true
    → read in_word (text ++ rest) ≡ prepend text (read in_word rest)
read-bare [] rest h = refl
read-bare (c ∷ cs) rest h =
    let (p, q) = split_and (is_safe c) (all is_safe cs) h in
    rw (word-safe c (cs ++ rest) p, read-bare cs rest q) refl

between-safe :
    (c : ℕ) (cs : Text) → is_safe c ≡ true → read between (c ∷ cs) ≡ onto c (read in_word cs)
unfolding read mark
between-safe c cs h = ground arith

between-apostrophe : (cs : Text) → read between (39 ∷ cs) ≡ read in_single cs
unfolding read mark is_safe
between-apostrophe cs = refl

quote-bare :
    (c : Char) (s : String)
    → all is_safe (codes (String.◌∷◌ c s)) ≡ true
    → shlex_quote (String.◌∷◌ c s) ≡ String.◌∷◌ c s
unfolding shlex_quote
quote-bare c s h = rw h refl

quote-unsafe :
    (c : Char) (s : String)
    → all is_safe (codes (String.◌∷◌ c s)) ≡ false
    → shlex_quote (String.◌∷◌ c s) ≡ "'" <> quote_rest (String.◌∷◌ c s)
unfolding shlex_quote
quote-unsafe c s h = rw h refl

-- What `shlex.quote` prints is read as the word.
pub read-quote :
    (s : String) (rest : Text)
    → read between (codes (shlex_quote s) ++ rest) ≡ prepend (codes s) (read in_word rest)
read-quote String.[] rest =
    unfold shlex_quote in rw (between-apostrophe (39 ∷ rest)) (read-quote_rest "" rest)
read-quote (String.◌∷◌ c s) rest = elim (Bool-cases (all is_safe (codes (String.◌∷◌ c s)))) [
  | inl h ↦
      let (p, q) = split_and (is_safe (code c)) (all is_safe (codes s)) h in
      rw (quote-bare c s h, between-safe (code c) (codes s ++ rest) p, read-bare (codes s) rest q)
        refl
  | inr h ↦
      rw
        (
          quote-unsafe c s h,
          codes-append "'" (quote_rest (String.◌∷◌ c s)),
          between-apostrophe (codes (quote_rest (String.◌∷◌ c s)) ++ rest),
        )
        (read-quote_rest (String.◌∷◌ c s) rest)
]

-- Words in front of the others
abbrev pub with_words : List Text → Option (List Text) → Option (List Text)
with_words words (some more) = some (words ++ more)
with_words words none = none

prepend-none : (word : Text) → prepend word none ≡ none
unfolding onto
prepend-none [] = refl
prepend-none (c ∷ cs) = rw (prepend-none cs) refl

prepend_end :
    (word : Text) (words : Option (List Text))
    → prepend word (end_word words) ≡ with_words (word ∷ []) words
unfolding end_word
prepend_end word none = prepend-none word
prepend_end word (some words) = rw (prepend-some word [] words, append-nil word) refl

word-blank : (rest : Text) → read in_word (32 ∷ rest) ≡ end_word (read between rest)
unfolding read mark is_safe
word-blank rest = refl

word_end : read in_word [] ≡ some ([] ∷ [])
unfolding read
word_end = refl

with_words-cons :
    (word : Text) (words : List Text) (more : Option (List Text))
    → with_words (word ∷ []) (with_words words more) ≡ with_words (word ∷ words) more
with_words-cons word words none = refl
with_words-cons word words (some more) = refl

codes-join :
    (word next : String) (words : List String) (rest : Text)
    → codes (shlex_join (word ∷ next ∷ words)) ++ rest
      ≡ codes (shlex_quote word) ++ (32 ∷ (codes (shlex_join (next ∷ words)) ++ rest))
unfolding shlex_join
codes-join word next words rest =
    rw
      (
        codes-append (shlex_quote word) (" " <> shlex_join (next ∷ words)),
        codes-append " " (shlex_join (next ∷ words)),
      )
      (append_assoc (codes (shlex_quote word)) (32 ∷ codes (shlex_join (next ∷ words))) rest)

-- A quoted word, then a space: what follows is read from the start.
pub read-quote_space :
    (word : String) (rest : Text)
    → read between (codes (shlex_quote word) ++ (32 ∷ rest))
      ≡ with_words (codes word ∷ []) (read between rest)
read-quote_space word rest =
    rw (read-quote word (32 ∷ rest), word-blank rest) (prepend_end (codes word) (read between rest))

-- The same after several words.
pub read-join_space :
    (word : String) (words : List String) (rest : Text)
    → read between (codes (shlex_join (word ∷ words)) ++ (32 ∷ rest))
      ≡ with_words (map codes (word ∷ words)) (read between rest)
read-join_space word [] rest = unfold shlex_join in read-quote_space word rest
read-join_space word (next ∷ words) rest =
    rw
      (
        codes-join word next words (32 ∷ rest),
        read-quote_space word (codes (shlex_join (next ∷ words)) ++ (32 ∷ rest)),
        read-join_space next words rest,
      )
      (with_words-cons (codes word) (map codes (next ∷ words)) (read between rest))

pub read-join :
    (word : String) (words : List String)
    → read between (codes (shlex_join (word ∷ words)) ++ []) ≡ some (map codes (word ∷ words))
read-join word [] =
    unfold shlex_join in
    rw (read-quote word [], word_end, prepend-some (codes word) [] [], append-nil (codes word)) refl
read-join word (next ∷ words) =
    rw
      (
        codes-join word next words [],
        read-quote_space word (codes (shlex_join (next ∷ words)) ++ []),
        read-join next words,
      )
      refl

-- A shell reads what `shlex.join` prints as the words that it was given, whatever they hold.
pub shell_words-join :
    (words : List String) → shell_words (shlex_join words) ≡ some (map codes words)
shell_words-join [] = unfold shell_words in unfold shlex_join in unfold read in refl
shell_words-join (word ∷ words) =
    unfold shell_words in
    rw (sym (append-nil (codes (shlex_join (word ∷ words))))) (read-join word words)

-- ===== src/Sanitizer/History.antt =====
-- `visible_text_for_history` of backend/response_parser.py: what a whole text shows, with its white
-- space tidied.
use gemma_4_31b_mtp_v_llm_se.Prelude.{
  ℕ, Bool, true, false, ◌&&◌, ◌||◌, ◌≡◌, refl, Option, none, some, [], ◌∷◌, ◌++◌, ◌==◌, arith,
  is_empty, if◌then◌else◌, if-cases,
}
use gemma_4_31b_mtp_v_llm_se.Prelude.Text.{Text, strip, lstrip, rstrip, is_space}
use gemma_4_31b_mtp_v_llm_se.Sanitizer.{Sanitizer, init, feed, finish, sanitize_stream}
use gemma_4_31b_mtp_v_llm_se.Sanitizer.Whole.{
  feed_total, finish_total, sanitize_stream-feed, sanitize_stream-finish,
}

unfoldable pub starts_line : Text → Bool
starts_line [] = false
starts_line (c ∷ cs) = c == 10

unfoldable pub is_blank : ℕ → Bool
is_blank c = c == 32 || c == 9

-- `re.sub(r"[ \t]+\n", "\n", text)`
unfoldable pub trim_lines : Text → Text
unfolding starts_line is_blank
trim_lines [] = []
trim_lines (c ∷ cs) =
    let rest = trim_lines cs in if is_blank c && starts_line rest then rest else c ∷ rest

unfoldable pub starts_two : Text → Bool
unfolding starts_line
starts_two [] = false
starts_two (c ∷ cs) = c == 10 && starts_line cs

-- `re.sub(r"\n{3,}", "\n\n", text)`
unfoldable pub join_lines : Text → Text
unfolding starts_two
join_lines [] = []
join_lines (c ∷ cs) =
    let rest = join_lines cs in if c == 10 && starts_two rest then rest else c ∷ rest

unfoldable pub tidy : Text → Text
unfolding trim_lines join_lines strip
tidy text = strip (join_lines (trim_lines text))

-- `sanitizer.feed(text) + sanitizer.finish()`; `none` stands for a sanitizer out of fuel
unfoldable pub then_finish : Option (Text × Sanitizer) → Option Text
then_finish none = none
then_finish (some (shown, s)) = elim (finish s) [
  | none ↦ none
  | some (tail, s') ↦ some (shown ++ tail)
]

unfoldable pub visible_text_for_history : Text → Option Text
unfolding then_finish tidy
visible_text_for_history text = elim (then_finish (feed text init)) [
  | none ↦ none
  | some cleaned ↦ some (tidy cleaned)
]

-- No blank stands before the end of a line, no three ends of lines follow each other.
abbrev pub LinesTidy : Text → Type 0
LinesTidy [] = Unit
LinesTidy (c ∷ cs) =
    ((is_blank c && starts_line cs) ≡ false) × (((c == 10 && starts_two cs) ≡ false) × LinesTidy cs)

abbrev NoBlankEnds : Text → Type 0
NoBlankEnds [] = Unit
NoBlankEnds (c ∷ cs) = ((is_blank c && starts_line cs) ≡ false) × NoBlankEnds cs

trim_lines-NoBlankEnds : (text : Text) → NoBlankEnds (trim_lines text)
unfolding trim_lines
trim_lines-NoBlankEnds [] = tt
trim_lines-NoBlankEnds (c ∷ cs) =
    let ih = trim_lines-NoBlankEnds cs in
    if-cases NoBlankEnds (is_blank c && starts_line (trim_lines cs)) _ _ (λ e. ih) (λ e. (e, ih))

line_of_two : (text : Text) → starts_two text ≡ true → starts_line text ≡ true
unfolding starts_two starts_line
line_of_two [] h = h
line_of_two (c ∷ cs) h = ground arith

starts_line-join_lines : (text : Text) → starts_line (join_lines text) ≡ starts_line text
unfolding join_lines starts_line
starts_line-join_lines [] = refl
starts_line-join_lines (c ∷ cs) =
    if-cases (λ t. starts_line t ≡ (c == 10)) (c == 10 && starts_two (join_lines cs)) _ _
      (λ e. ground (arith, line_of_two (join_lines cs))) (λ e. refl)

join_lines-LinesTidy : (text : Text) → NoBlankEnds text → LinesTidy (join_lines text)
unfolding join_lines
join_lines-LinesTidy [] h = tt
join_lines-LinesTidy (c ∷ cs) (p, h) =
    let ih = join_lines-LinesTidy cs h in
    if-cases LinesTidy (c == 10 && starts_two (join_lines cs)) _ _ (λ e. ih)
      (λ e. (rw (starts_line-join_lines cs) p, (e, ih)))

lstrip-LinesTidy : (text : Text) → LinesTidy text → LinesTidy (lstrip text)
unfolding lstrip
lstrip-LinesTidy [] h = tt
lstrip-LinesTidy (c ∷ cs) (p, (q, h)) =
    if-cases LinesTidy (is_space c) _ _ (λ e. lstrip-LinesTidy cs h) (λ e. (p, (q, h)))

line_of_rstrip : (text : Text) → starts_line (rstrip text) ≡ true → starts_line text ≡ true
unfolding rstrip starts_line
line_of_rstrip [] h = h
line_of_rstrip (c ∷ cs) h = ground arith

two_of_rstrip : (text : Text) → starts_two (rstrip text) ≡ true → starts_two text ≡ true
unfolding rstrip starts_two
two_of_rstrip [] h = h
two_of_rstrip (c ∷ cs) h = ground (arith, line_of_rstrip cs)

lower_and : (a b b' : Bool) → (b' ≡ true → b ≡ true) → (a && b) ≡ false → (a && b') ≡ false
lower_and a b b' f h = ground (arith, f)

rstrip-LinesTidy : (text : Text) → LinesTidy text → LinesTidy (rstrip text)
unfolding rstrip
rstrip-LinesTidy [] h = tt
rstrip-LinesTidy (c ∷ cs) (p, (q, h)) =
    if-cases LinesTidy (is_space c && is_empty (rstrip cs)) _ _ (λ e. tt)
      (λ e. (
        lower_and (is_blank c) _ _ (line_of_rstrip cs) p,
        (lower_and (c == 10) _ _ (two_of_rstrip cs) q, rstrip-LinesTidy cs h),
      ))

abbrev pub starts_space : Text → Bool
starts_space [] = false
starts_space (c ∷ cs) = is_space c

abbrev pub ends_space : Text → Bool
ends_space [] = false
ends_space (c ∷ cs) = if is_empty cs then is_space c else ends_space cs

starts_space-lstrip : (text : Text) → starts_space (lstrip text) ≡ false
unfolding lstrip
starts_space-lstrip [] = refl
starts_space-lstrip (c ∷ cs) =
    if-cases (λ t. starts_space t ≡ false) (is_space c) _ _ (λ e. starts_space-lstrip cs) (λ e. e)

starts_space-rstrip : (text : Text) → starts_space text ≡ false → starts_space (rstrip text) ≡ false
unfolding rstrip
starts_space-rstrip [] h = refl
starts_space-rstrip (c ∷ cs) h =
    if-cases (λ t. starts_space t ≡ false) (is_space c && is_empty (rstrip cs)) _ _ (λ e. refl)
      (λ e. h)

ends_space-rstrip : (text : Text) → ends_space (rstrip text) ≡ false
unfolding rstrip
ends_space-rstrip [] = refl
ends_space-rstrip (c ∷ cs) =
    let ih = ends_space-rstrip cs in
    if-cases (λ t. ends_space t ≡ false) (is_space c && is_empty (rstrip cs)) _ _ (λ e. refl)
      (λ e. ground (arith, ih))

-- A text that is tidy
abbrev pub IsTidy : Text → Type 0
IsTidy text = LinesTidy text × ((starts_space text ≡ false) × (ends_space text ≡ false))

tidy-IsTidy : (text : Text) → IsTidy (tidy text)
unfolding tidy strip
tidy-IsTidy text =
    let lines = join_lines-LinesTidy (trim_lines text) (trim_lines-NoBlankEnds text) in
    let left = lstrip-LinesTidy _ lines in
    (
      rstrip-LinesTidy _ left,
      (
        starts_space-rstrip (lstrip (join_lines (trim_lines text)))
            (starts_space-lstrip (join_lines (trim_lines text))),
        ends_space-rstrip (lstrip (join_lines (trim_lines text))),
      ),
    )

history_step :
    (text shown tail : Text) (s s' : Sanitizer)
    → feed text init ≡ some (shown, s)
    → finish s ≡ some (tail, s')
    → visible_text_for_history text ≡ some (tidy (shown ++ tail))
unfolding visible_text_for_history
history_step text shown tail s s' e f = ground (arith, e, f)

-- Of every text something is shown, it is what the sanitizer shows of the text with its white space
-- tidied, and so no blank stands before the end of a line, no three ends of lines follow each other,
-- and there is no white space at the start or at the end.
pub visible_text_for_history-IsTidy :
    (text : Text)
    → (cleaned : Text) × ((sanitize_stream (text ∷ []) init ≡ some cleaned)
        × ((visible_text_for_history text ≡ some (tidy cleaned)) × IsTidy (tidy cleaned)))
visible_text_for_history-IsTidy text =
    let ((shown, s), e) = feed_total text init in
    let ((tail, s'), f) = finish_total s in
    (
      shown ++ tail,
      (
        sanitize_stream-feed text [] init s shown tail e (sanitize_stream-finish s s' tail f),
        (history_step text shown tail s s' e f, tidy-IsTidy (shown ++ tail)),
      ),
    )

-- ===== src/Sanitizer/Tags.antt =====
-- An opening tag that is closed within the buffer stays one when more text comes.

use gemma_4_31b_mtp_v_llm_se.Prelude.{
  ℕ, ◌≤◌, ◌≡◌, ◌≢◌, refl, ap, subst, true, false, ◌&&◌, some, none, List, [], ◌∷◌, ◌++◌, arith,
  length, length-drop, drop, All, inl, inr, Bool-cases, Option-cases,
}
use gemma_4_31b_mtp_v_llm_se.Prelude.Text.{Text, starts_with, lower, find, codes}
use gemma_4_31b_mtp_v_llm_se.Sanitizer.{
  channel_thought, channel_final, channel_close, visible_markers, html_starts, html_start,
  html_start_among, html_tag_boundary,
}
use gemma_4_31b_mtp_v_llm_se.Sanitizer.Search.{IsAligned, lower-cons, lower_one, lower_one-gt}
use gemma_4_31b_mtp_v_llm_se.Sanitizer.Starts.{
  IsNoStart, drop-append_le, starts_with-lower-append, length-lower, starts_with-le,
}

abbrev NoGt : Text → Type 0
NoGt m = All (λ c. c ≢ b'>') m

pub find_gt-append :
    (b more : Text) (i : ℕ) → find b (codes ">") ≡ some i → find (b ++ more) (codes ">") ≡ some i
unfolding find starts_with
find_gt-append [] more i e = cc
find_gt-append (c ∷ cs) more i e = elim (Option-cases (find cs (codes ">"))) [
  | inl n ↦ ground arith
  | inr (j, k) ↦ ground (arith, find_gt-append cs more j k)
]

-- A buffer that is no longer than the tag's name holds no `>`.
tag-find_gt :
    (b m : Text)
    → IsAligned b
    → NoGt m
    → starts_with (lower b) m ≡ true
    → length b ≤ length m
    → find b (codes ">") ≡ none
unfolding find starts_with lower
tag-find_gt [] m a g h k = refl
tag-find_gt (c ∷ cs) [] a g h k = absurd (omega arith)
tag-find_gt (c ∷ cs) (x ∷ m) (a, aligned) (g, gs) h k =
    let here : starts_with (lower_one c ∷ lower cs) (x ∷ m) ≡ true =
      subst (λ t. starts_with t (x ∷ m) ≡ true) (lower-cons c cs a) h in
    ground (arith, tag-find_gt cs m aligned gs, lower_one-gt c, here)

html_tag_boundary-append_true :
    (t more : Text) → t ≢ [] → html_tag_boundary t ≡ true → html_tag_boundary (t ++ more) ≡ true
unfolding html_tag_boundary
html_tag_boundary-append_true [] more h e = absurd (h refl)
html_tag_boundary-append_true (c ∷ t) more h e = e

html_start_among-append :
    (b more : Text) (i : ℕ) (ms : List Text)
    → IsAligned b
    → All NoGt ms
    → find b (codes ">") ≡ some i
    → html_start_among b ms ≡ true
    → html_start_among (b ++ more) ms ≡ true
unfolding html_start_among
html_start_among-append b more i [] a g f e = cc
html_start_among-append b more i (m ∷ ms) a (g, gs) f e =
    elim (Bool-cases (starts_with (lower b) m && html_tag_boundary (drop (length m) b))) [
      | inr other ↦ ground (arith, html_start_among-append b more i ms a gs f)
      | inl tag ↦
          let starts : starts_with (lower b) m ≡ true = ground arith in
          let fits : length m ≤ length b =
            omega (arith, starts_with-le (lower b) m starts, length-lower b a) in
          let behind : drop (length m) b ≢ [] = λ empty.
            ground (arith, tag-find_gt b m a g starts, length-drop (length m) b, ap length empty) in
          let boundary =
            html_tag_boundary-append_true (drop (length m) b) more behind (ground arith) in
          rw (
            starts_with-lower-append b m more starts,
            drop-append_le (length m) b more fits,
            boundary,
          )
    ]

html_starts-NoGt : All NoGt html_starts
unfolding html_starts
html_starts-NoGt = omega arith

pub html_start-append :
    (b more : Text) (i : ℕ)
    → IsAligned b
    → find b (codes ">") ≡ some i
    → html_start b ≡ true
    → html_start (b ++ more) ≡ true
unfolding html_start
html_start-append b more i a f e =
    html_start_among-append b more i html_starts a html_starts-NoGt f e

starts_with_trans :
    (t u v : Text) → starts_with t u ≡ true → starts_with u v ≡ true → starts_with t v ≡ true
unfolding starts_with
starts_with_trans t u [] h k = refl
starts_with_trans t [] (z ∷ v) h k = cc
starts_with_trans [] (y ∷ u) (z ∷ v) h k = cc
starts_with_trans (x ∷ t) (y ∷ u) (z ∷ v) h k = ground (arith, starts_with_trans t u v)

abbrev NoTag : Text → List Text → Type 0
NoTag m tags = All (λ tag. starts_with (lower m) tag ≡ false) tags

tag-IsNoStart :
    (b m : Text) (tags : List Text) → NoTag m tags → html_start_among b tags ≡ true → IsNoStart b m
unfolding html_start_among
tag-IsNoStart b m [] h e = cc
tag-IsNoStart b m (tag ∷ tags) (h, hs) e = elim (Bool-cases (starts_with (lower b) tag)) [
  | inr other ↦ tag-IsNoStart b m tags hs (ground arith)
  | inl starts ↦ elim (Bool-cases (starts_with (lower m) (lower b))) [
    | inr fresh ↦ inl fresh
    | inl begun ↦ absurd (ground (arith, starts_with_trans (lower m) (lower b) tag begun starts))
  ]
]

channel_tags : All (λ m. NoTag m html_starts) visible_markers
unfolding visible_markers html_starts lower starts_with
channel_tags = ground arith

-- A buffer that starts with an opening tag begins no channel marker.
pub tag-no_channel : (b : Text) → html_start b ≡ true → All (IsNoStart b) visible_markers
unfolding html_start visible_markers
tag-no_channel b e =
    let (p, (q, (r, _))) = channel_tags in
    (
      tag-IsNoStart b channel_thought html_starts p e,
      (
        tag-IsNoStart b channel_final html_starts q e,
        (tag-IsNoStart b channel_close html_starts r e, tt),
      ),
    )

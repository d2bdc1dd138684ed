-- ===== src/Sanitizer/Stream.antt =====
-- A stream of chunks is sanitized like the whole text: how the chunks are cut makes no difference.

use gemma_4_31b_mtp_v_llm_se.Prelude.{
  ℕ, zero, suc, ◌+◌, ◌-◌, ◌≤◌, ◌≡◌, ◌≢◌, refl, sym, ap, subst, ◌∙◌, Bool, true, false, some, none,
  [], ◌∷◌, ◌++◌, arith, length, drop, take, All-of_append, All-drop, inl, inr, Bool-cases,
  Option-cases, append_assoc,
}
use gemma_4_31b_mtp_v_llm_se.Prelude.Text.{Text, find, codes, take_last}
use gemma_4_31b_mtp_v_llm_se.Sanitizer.{
  Sanitizer, html_starts, visible_markers, hidden_markers, consume_visible, consume_hidden,
  html_start, find_next_visible, find_next_hidden, safe_suffix_len, Round, stop, continue,
  hidden_round, tag_round, plain_round, visible_round, drain_round, drain_loop,
}
use gemma_4_31b_mtp_v_llm_se.Sanitizer.Search.{IsAligned, find-lt-length}
use gemma_4_31b_mtp_v_llm_se.Sanitizer.Scan.{
  scan, scan-hidden, scan-shown, scan-marker, scan-tag, scan-visible,
}
use gemma_4_31b_mtp_v_llm_se.Sanitizer.Positions.{consume_hidden-drop, consume_visible-drop}
use gemma_4_31b_mtp_v_llm_se.Sanitizer.Starts.{IsNoStart, drop-append_le}
use gemma_4_31b_mtp_v_llm_se.Sanitizer.Extend.{
  consume_hidden-append, consume_visible-append, consume_hidden-none_append,
  consume_visible-none_append, html_start-append_no,
}
use gemma_4_31b_mtp_v_llm_se.Sanitizer.Tags.{find_gt-append, html_start-append, tag-no_channel}
use gemma_4_31b_mtp_v_llm_se.Sanitizer.Pass.{Pass, Pass-found, Pass-none, safe_suffix_len-IsNoStart}
use gemma_4_31b_mtp_v_llm_se.Sanitizer.Finds.{
  IsVisible, IsHidden, IsVisible-FindsNone, IsHidden-FindsNone, IsVisible-FindsLater,
  IsHidden-FindsLater, visible-IsMarker_shapes, hidden-IsMarker_shapes,
}
use gemma_4_31b_mtp_v_llm_se.Sanitizer.Termination.{drain_loop_induction}

scan-Pass_visible :
    (b : Text) (n : ℕ) (more : Text)
    → IsAligned b
    → Pass IsVisible (visible_markers ++ html_starts) b n
    → scan false (b ++ more) ≡ take n b ++ scan false (drop n b ++ more)
scan-Pass_visible b zero more a h = refl
scan-Pass_visible [] (suc n) more a h = refl
scan-Pass_visible (c ∷ cs) (suc n) more a ((clear, no_tag), no_start, h) =
    let (channels, tags) =
      All-of_append (IsNoStart (c ∷ cs)) visible_markers html_starts no_start in
    scan-visible c (cs ++ more) (consume_visible-none_append (c ∷ cs) more channels clear)
      (html_start-append_no (c ∷ cs) more a tags no_tag)
    ∙ ap (λ t. c ∷ t) (scan-Pass_visible cs n more a.1 h)

scan-Pass_hidden :
    (b : Text) (n : ℕ) (more : Text)
    → IsAligned b
    → Pass IsHidden hidden_markers b n
    → scan true (b ++ more) ≡ scan true (drop n b ++ more)
scan-Pass_hidden b zero more a h = refl
scan-Pass_hidden [] (suc n) more a h = refl
scan-Pass_hidden (c ∷ cs) (suc n) more a (clear, no_start, h) =
    scan-hidden c (cs ++ more) (consume_hidden-none_append (c ∷ cs) more a no_start clear)
    ∙ scan-Pass_hidden cs n more a.1 h

-- What a round shows and keeps is right whatever text comes later.
abbrev Streams : Text → Bool → Text → Round → Type 0
Streams more hidden b (stop out s) =
    IsAligned s.buffer × (scan hidden (b ++ more) ≡ out ++ scan s.hidden (s.buffer ++ more))
Streams more hidden b (continue out s) =
    IsAligned s.buffer × (scan hidden (b ++ more) ≡ out ++ scan s.hidden (s.buffer ++ more))

cut-IsAligned : (b rest : Text) → (n : ℕ) × (drop n b ≡ rest) → IsAligned b → IsAligned rest
cut-IsAligned b rest (n, e) a = subst IsAligned e (All-drop (λ c. c ≢ 0x130) n b a)

drop-IsAligned : (n : ℕ) (b : Text) → IsAligned b → IsAligned (drop n b)
drop-IsAligned n b a = All-drop (λ c. c ≢ 0x130) n b a

keep-Pass-IsHidden :
    (b : Text)
    → IsAligned b
    → find_next_hidden b ≡ none
    → Pass IsHidden hidden_markers b (length b - safe_suffix_len b hidden_markers)
keep-Pass-IsHidden b a e =
    Pass-none IsHidden hidden_markers find_next_hidden IsHidden-FindsNone b _ a e
      (λ p q. safe_suffix_len-IsNoStart b hidden_markers p a q)

keep-Pass-IsVisible :
    (b : Text)
    → IsAligned b
    → find_next_visible b ≡ none
    → Pass IsVisible
        (visible_markers ++ html_starts)
        b
        (length b - safe_suffix_len b (visible_markers ++ html_starts))
keep-Pass-IsVisible b a e =
    Pass-none IsVisible (visible_markers ++ html_starts) find_next_visible IsVisible-FindsNone b _ a
      e (λ p q. safe_suffix_len-IsNoStart b (visible_markers ++ html_starts) p a q)

module _ (more : Text) (c : ℕ) (cs : Text) (a : IsAligned (c ∷ cs)) where
  hidden_round-Streams : Streams more true (c ∷ cs) (hidden_round false (c ∷ cs))
  unfolding hidden_round take_last
  hidden_round-Streams = elim (Option-cases (consume_hidden (c ∷ cs))) [
    | inr (rest, e) ↦ ground (
      arith,
      cut-IsAligned (c ∷ cs) rest (consume_hidden-drop (c ∷ cs) rest e) a,
      scan-shown c (cs ++ more) (rest ++ more) (consume_hidden-append (c ∷ cs) rest more a e),
    )
    | inl e ↦ elim (Option-cases (find_next_hidden (c ∷ cs))) [
      | inr (i, k) ↦ ground (
        arith,
        drop-IsAligned i (c ∷ cs) a,
        scan-Pass_hidden (c ∷ cs) i more a (
            Pass-found IsHidden hidden_markers find_next_hidden IsHidden-FindsLater
              hidden-IsMarker_shapes (c ∷ cs) i a k),
      )
      | inl n ↦
          let cut = length (c ∷ cs) - safe_suffix_len (c ∷ cs) hidden_markers in
          ground (
            arith,
            drop-IsAligned cut (c ∷ cs) a,
            scan-Pass_hidden (c ∷ cs) cut more a (keep-Pass-IsHidden (c ∷ cs) a n),
          )
    ]
  ]

  plain_round-Streams :
      consume_visible (c ∷ cs) ≡ none
      → html_start (c ∷ cs) ≡ false
      → Streams more false (c ∷ cs) (plain_round false (c ∷ cs))
  unfolding plain_round take_last
  plain_round-Streams e h = elim (Option-cases (find_next_visible (c ∷ cs))) [
    | inr (i, k) ↦ ground (
      arith,
      drop-IsAligned i (c ∷ cs) a,
      scan-Pass_visible (c ∷ cs) i more a (
          Pass-found IsVisible (visible_markers ++ html_starts) find_next_visible
            IsVisible-FindsLater visible-IsMarker_shapes (c ∷ cs) i a k),
    )
    | inl n ↦
        let cut = length (c ∷ cs) - safe_suffix_len (c ∷ cs) (visible_markers ++ html_starts) in
        ground (
          arith,
          drop-IsAligned cut (c ∷ cs) a,
          scan-Pass_visible (c ∷ cs) cut more a (keep-Pass-IsVisible (c ∷ cs) a n),
        )
  ]

  visible_round-Streams : Streams more false (c ∷ cs) (visible_round false (c ∷ cs))
  unfolding visible_round tag_round
  visible_round-Streams = elim (Option-cases (consume_visible (c ∷ cs))) [
    | inr ((rest, hidden), e) ↦ ground (
      arith,
      cut-IsAligned (c ∷ cs) rest (consume_visible-drop (c ∷ cs) rest hidden e) a,
      scan-marker c (cs ++ more) (rest ++ more) hidden
          (consume_visible-append (c ∷ cs) rest more hidden e),
    )
    | inl e ↦ elim (Bool-cases (html_start (c ∷ cs))) [
      | inr plain ↦
          let same : visible_round false (c ∷ cs) ≡ plain_round false (c ∷ cs) = ground arith in
          subst (Streams more false (c ∷ cs)) (sym same) (plain_round-Streams e plain)
      | inl tag ↦ elim (Option-cases (find (c ∷ cs) (codes ">"))) [
        | inl n ↦ ground arith
        | inr (i, k) ↦
            let fits : i + 1 ≤ length (c ∷ cs) =
              omega (arith, find-lt-length (c ∷ cs) (codes ">") i (omega arith) k) in
            ground (
              arith,
              drop-IsAligned (i + 1) (c ∷ cs) a,
              drop-append_le (i + 1) (c ∷ cs) more fits,
              scan-tag c (cs ++ more)
                  (consume_visible-none_append (c ∷ cs) more (tag-no_channel (c ∷ cs) tag) e) i
                  (html_start-append (c ∷ cs) more i a k tag) (find_gt-append (c ∷ cs) more i k),
            )
      ]
    ]
  ]

drain_round-Streams :
    (more : Text) (s : Sanitizer)
    → IsAligned s.buffer
    → Streams more s.hidden s.buffer (drain_round false s)
unfolding drain_round
drain_round-Streams more s a = buffered s.buffer s.hidden a
  where
    buffered :
        (b : Text) (hidden : Bool)
        → IsAligned b
        → Streams more hidden b (drain_round false (record { buffer = b; hidden = hidden }))
    buffered [] hidden a = (tt, refl)
    buffered (c ∷ cs) true a = hidden_round-Streams more c cs a
    buffered (c ∷ cs) false a = visible_round-Streams more c cs a

pub drain_loop-Streams :
    (more : Text) (fuel : ℕ) (s : Sanitizer) (out : Text) (s' : Sanitizer)
    → drain_loop fuel false s ≡ some (out, s')
    → IsAligned s.buffer
    → IsAligned s'.buffer
      × (scan s.hidden (s.buffer ++ more) ≡ out ++ scan s'.hidden (s'.buffer ++ more))
drain_loop-Streams more =
    drain_loop_induction false
      (λ s out s'.
        IsAligned s.buffer
        → IsAligned s'.buffer
          × (scan s.hidden (s.buffer ++ more) ≡ out ++ scan s'.hidden (s'.buffer ++ more)))
      (λ s out s' e a. subst (Streams more s.hidden s.buffer) e (drain_round-Streams more s a))
      (λ s out s' rest s'' e ih a.
        let (aligned, same) =
          subst (Streams more s.hidden s.buffer) e (drain_round-Streams more s a) in
        let (aligned', same') = ih aligned in
        (
          aligned',
          same
              ∙ ap (λ t. out ++ t) same'
              ∙ sym (append_assoc out rest (scan s''.hidden (s''.buffer ++ more))),
        ))

-- ===== src/Sanitizer/Refine.antt =====
-- The sanitizer shows what the reference scan shows, when a whole text is drained at its end.
use gemma_4_31b_mtp_v_llm_se.Prelude.{
  ℕ, suc, ◌+◌, ◌≡◌, ◌≢◌, sym, ap, subst, ◌∙◌, Bool, true, false, some, [], ◌∷◌, ◌++◌, arith, length,
  drop, All-drop, Bool-cases, Option-cases, inl, inr,
}
use gemma_4_31b_mtp_v_llm_se.Prelude.Text.{Text, find, codes}
use gemma_4_31b_mtp_v_llm_se.Sanitizer.{
  Sanitizer, consume_visible, consume_hidden, html_start, find_next_visible, find_next_hidden,
  Round, stop, continue, hidden_round, tag_round, plain_round, visible_round, drain_round,
  drain_loop, drain, finish,
}
use gemma_4_31b_mtp_v_llm_se.Sanitizer.Search.{IsAligned}
use gemma_4_31b_mtp_v_llm_se.Sanitizer.Scan.{
  scan, scan-nil, scan-shown, scan-marker, scan-tag, scan-open_tag,
}
use gemma_4_31b_mtp_v_llm_se.Sanitizer.Positions.{
  scan-hidden_none, scan-hidden_some, scan-visible_none, scan-visible_some, consume_hidden-drop,
  consume_visible-drop,
}
use gemma_4_31b_mtp_v_llm_se.Sanitizer.Termination.{drain_total, drain_loop_induction}

-- What a round shows and leaves in the buffer is what the scan shows of the buffer before it.
abbrev Agrees : Bool → Text → Round → Type 0
Agrees hidden b (stop out s) = scan hidden b ≡ out
Agrees hidden b (continue out s) =
    IsAligned s.buffer × (scan hidden b ≡ out ++ scan s.hidden s.buffer)

IsAligned-drop : (b rest : Text) (n : ℕ) → drop n b ≡ rest → IsAligned b → IsAligned rest
IsAligned-drop b rest n e h = subst IsAligned e (All-drop _ n b h)

hidden_round-Agrees :
    (c : ℕ) (cs : Text) → IsAligned (c ∷ cs) → Agrees true (c ∷ cs) (hidden_round true (c ∷ cs))
unfolding hidden_round
hidden_round-Agrees c cs h = elim (Option-cases (consume_hidden (c ∷ cs))) [
  | inr (rest, e) ↦
      let (n, cut) = consume_hidden-drop (c ∷ cs) rest e in
      ground (arith, IsAligned-drop (c ∷ cs) rest n cut h, scan-shown c cs rest e)
  | inl e ↦ elim (Option-cases (find_next_hidden (c ∷ cs))) [
    | inl n ↦ ground (arith, scan-hidden_none (c ∷ cs) h n)
    | inr (i, k) ↦
        ground
          (arith, All-drop (λ (x : ℕ). x ≢ 0x130) i (c ∷ cs) h, scan-hidden_some (c ∷ cs) i h k)
  ]
]

visible_round-Agrees :
    (c : ℕ) (cs : Text) → IsAligned (c ∷ cs) → Agrees false (c ∷ cs) (visible_round true (c ∷ cs))
unfolding visible_round tag_round plain_round
visible_round-Agrees c cs h = elim (Option-cases (consume_visible (c ∷ cs))) [
  | inr ((rest, hidden), e) ↦
      let (n, cut) = consume_visible-drop (c ∷ cs) rest hidden e in
      ground (arith, IsAligned-drop (c ∷ cs) rest n cut h, scan-marker c cs rest hidden e)
  | inl e ↦ elim (Bool-cases (html_start (c ∷ cs))) [
    | inl tag ↦ elim (Option-cases (find (c ∷ cs) (codes ">"))) [
      | inl n ↦ ground (arith, scan-open_tag c cs e tag n)
      | inr (i, k) ↦
          ground
            (arith, All-drop (λ (x : ℕ). x ≢ 0x130) (i + 1) (c ∷ cs) h, scan-tag c cs e i tag k)
    ]
    | inr plain ↦ elim (Option-cases (find_next_visible (c ∷ cs))) [
      | inl n ↦ ground (arith, scan-visible_none (c ∷ cs) h n)
      | inr (i, k) ↦
          ground
            (arith, All-drop (λ (x : ℕ). x ≢ 0x130) i (c ∷ cs) h, scan-visible_some (c ∷ cs) i h k)
    ]
  ]
]

drain_round-Agrees :
    (s : Sanitizer) → IsAligned s.buffer → Agrees s.hidden s.buffer (drain_round true s)
unfolding drain_round
drain_round-Agrees s h = buffered s.buffer s.hidden h
  where
    buffered :
        (b : Text) (hidden : Bool)
        → IsAligned b
        → Agrees hidden b (drain_round true (record { buffer = b; hidden = hidden }))
    buffered [] hidden h = scan-nil hidden
    buffered (c ∷ cs) true h = hidden_round-Agrees c cs h
    buffered (c ∷ cs) false h = visible_round-Agrees c cs h

drain_loop-eq-scan :
    (fuel : ℕ) (s : Sanitizer) (out : Text) (s' : Sanitizer)
    → drain_loop fuel true s ≡ some (out, s')
    → IsAligned s.buffer
    → scan s.hidden s.buffer ≡ out
drain_loop-eq-scan =
    drain_loop_induction true (λ s out s'. IsAligned s.buffer → scan s.hidden s.buffer ≡ out)
      (λ s out s' e h. subst (Agrees s.hidden s.buffer) e (drain_round-Agrees s h))
      (λ s out s' more s'' e ih h.
        let (aligned, same) = subst (Agrees s.hidden s.buffer) e (drain_round-Agrees s h) in
        same ∙ ap (λ t. out ++ t) (ih aligned))

-- A round at the end of the text that stops leaves nothing behind.
abbrev Empties : Round → Type 0
Empties (stop out s) = s.buffer ≡ []
Empties (continue out s) = Unit

drain_round-Empties : (s : Sanitizer) → Empties (drain_round true s)
unfolding drain_round hidden_round visible_round tag_round plain_round
drain_round-Empties s = ground arith

drain_loop-Empties :
    (fuel : ℕ) (s : Sanitizer) (out : Text) (s' : Sanitizer)
    → drain_loop fuel true s ≡ some (out, s')
    → s'.buffer ≡ []
drain_loop-Empties =
    drain_loop_induction true (λ s out s'. s'.buffer ≡ [])
      (λ s out s' e. subst Empties e (drain_round-Empties s)) (λ s out s' more s'' e ih. ih)

-- When the buffer holds no U+0130, `finish` returns, shows what the reference scan shows of the
-- buffer, and leaves the buffer empty.
pub finish-eq-scan :
    (s : Sanitizer)
    → IsAligned s.buffer
    → (s' : Sanitizer) × (finish s ≡ some (scan s.hidden s.buffer, s')) × (s'.buffer ≡ [])
unfolding finish drain
finish-eq-scan s h =
    let ((out, s'), e) = drain_total true s in
    let fuel = suc (length s.buffer) in
    (
      s',
      e ∙ ap (λ t. some (t, s')) (sym (drain_loop-eq-scan fuel s out s' e h)),
      drain_loop-Empties fuel s out s' e,
    )

-- ===== src/Sanitizer/Termination.antt =====
-- The loop of `_drain` ends: each round that goes on takes something off the buffer.
use gemma_4_31b_mtp_v_llm_se.Prelude.{
  ℕ, zero, suc, ◌+◌, ◌≤◌, ◌<◌, ◌≡◌, refl, subst, ◌⊎◌, Bool, true, false, none, some, List, [], ◌∷◌,
  ◌++◌, arith, length, drop-lt, All, Bool-cases, Option-cases, inl, inr,
}
use gemma_4_31b_mtp_v_llm_se.Prelude.Text.{Text, lower, find, codes}
use gemma_4_31b_mtp_v_llm_se.Sanitizer.{
  channel_thought, channel_final, channel_close, html_starts, html_closes, visible_markers,
  Sanitizer, consume_visible, consume_close, consume_hidden, find_next_visible, find_next_hidden,
  html_start, Round, stop, continue, hidden_round, tag_round, plain_round, visible_round,
  drain_round, drain_loop, drain,
}
use gemma_4_31b_mtp_v_llm_se.Sanitizer.Indexes.{
  IsAtLeast, IsAtLeast-least, NoneStarts, least_find-IsAtLeast, least_tag-IsAtLeast,
}

abbrev Shrinks : ℕ → Round → Type 0
Shrinks n (stop out s) = Unit
Shrinks n (continue out s) = length s.buffer < n

marker_lengths :
    (0 < length channel_thought) × (0 < length channel_final) × (0 < length channel_close)
unfolding channel_thought channel_final channel_close
marker_lengths = omega arith

html_close_lengths : All (λ m. 0 < length m) html_closes
unfolding html_closes
html_close_lengths = omega arith

consume_close-lt :
    (b rest : Text) (ms : List Text)
    → 0 < length b
    → All (λ m. 0 < length m) ms
    → consume_close b ms ≡ some rest
    → length rest < length b
unfolding consume_close
consume_close-lt b rest [] p q e = cc
consume_close-lt b rest (m ∷ ms) p (q, qs) e =
    ground (arith, drop-lt (length m) b, consume_close-lt b rest ms p qs)

consume_close-none :
    (b : Text) (ms : List Text) → consume_close b ms ≡ none → NoneStarts (lower b) ms
unfolding consume_close
consume_close-none b [] e = tt
consume_close-none b (m ∷ ms) e = ground (arith, consume_close-none b ms)

pub consume_hidden-lt :
    (b rest : Text) → 0 < length b → consume_hidden b ≡ some rest → length rest < length b
unfolding consume_hidden
consume_hidden-lt b rest p e = ground (
  arith,
  marker_lengths,
  drop-lt (length channel_final) b,
  drop-lt (length channel_close) b,
  consume_close-lt b rest html_closes p html_close_lengths,
)

consume_hidden-none :
    (b : Text)
    → consume_hidden b ≡ none
    → NoneStarts b (channel_final ∷ channel_close ∷ []) × NoneStarts (lower b) html_closes
unfolding consume_hidden
consume_hidden-none b e = ground (arith, consume_close-none b html_closes)

find_next_hidden-pos : (b : Text) → consume_hidden b ≡ none → IsAtLeast 1 (find_next_hidden b)
unfolding find_next_hidden
find_next_hidden-pos b e =
    let (p, q) = consume_hidden-none b e in
    IsAtLeast-least 1 _ _ (least_find-IsAtLeast b (channel_final ∷ channel_close ∷ []) p)
      (least_find-IsAtLeast (lower b) html_closes q)

pub consume_visible-lt :
    (b rest : Text) (hidden : Bool)
    → 0 < length b
    → consume_visible b ≡ some (rest, hidden)
    → length rest < length b
unfolding consume_visible
consume_visible-lt b rest hidden p e = ground (
  arith,
  marker_lengths,
  drop-lt (length channel_thought) b,
  drop-lt (length channel_final) b,
  drop-lt (length channel_close) b,
)

pub consume_visible-none : (b : Text) → consume_visible b ≡ none → NoneStarts b visible_markers
unfolding consume_visible visible_markers
consume_visible-none b e = ground arith

find_next_visible-pos :
    (b : Text) → consume_visible b ≡ none → html_start b ≡ false → IsAtLeast 1 (find_next_visible b)
unfolding find_next_visible html_start
find_next_visible-pos b e h =
    IsAtLeast-least 1 _ _ (least_find-IsAtLeast b visible_markers (consume_visible-none b e))
      (least_tag-IsAtLeast b html_starts h)

hidden_round-Shrinks :
    (final : Bool) (b : Text) → 0 < length b → Shrinks (length b) (hidden_round final b)
unfolding hidden_round
hidden_round-Shrinks final b p = elim (Option-cases (consume_hidden b)) [
  | inr (rest, e) ↦ ground (arith, consume_hidden-lt b rest p e)
  | inl e ↦ elim (Option-cases (find_next_hidden b)) [
    | inl n ↦ ground arith
    | inr (i, k) ↦
        let pos : 1 ≤ i = subst (IsAtLeast 1) k (find_next_hidden-pos b e) in
        ground (arith, drop-lt i b pos p)
  ]
]

visible_round-Shrinks :
    (final : Bool) (b : Text) → 0 < length b → Shrinks (length b) (visible_round final b)
unfolding visible_round tag_round plain_round
visible_round-Shrinks final b p = elim (Option-cases (consume_visible b)) [
  | inr ((rest, hidden), e) ↦ ground (arith, consume_visible-lt b rest hidden p e)
  | inl e ↦ elim (Bool-cases (html_start b)) [
    | inl tag ↦ elim (Option-cases (find b (codes ">"))) [
      | inl n ↦ ground arith
      | inr (i, k) ↦ ground (arith, drop-lt (i + 1) b)
    ]
    | inr plain ↦ elim (Option-cases (find_next_visible b)) [
      | inl n ↦ ground arith
      | inr (i, k) ↦
          let pos : 1 ≤ i = subst (IsAtLeast 1) k (find_next_visible-pos b e plain) in
          ground (arith, drop-lt i b pos p)
    ]
  ]
]

drain_round-Shrinks :
    (final : Bool) (s : Sanitizer) → Shrinks (length s.buffer) (drain_round final s)
unfolding drain_round
drain_round-Shrinks final s = buffered final s.buffer s.hidden
  where
    buffered :
        (final : Bool) (b : Text) (hidden : Bool)
        → Shrinks (length b) (drain_round final (record { buffer = b; hidden = hidden }))
    buffered final [] hidden = tt
    buffered final (c ∷ cs) true = hidden_round-Shrinks final (c ∷ cs) (omega arith)
    buffered final (c ∷ cs) false = visible_round-Shrinks final (c ∷ cs) (omega arith)

Round-cases :
    (r : Round)
    → ((out : Text) × (s : Sanitizer) × (r ≡ stop out s))
      ⊎ ((out : Text) × (s : Sanitizer) × (r ≡ continue out s))
Round-cases (stop out s) = inl (out, s, refl)
Round-cases (continue out s) = inr (out, s, refl)

-- More fuel than the buffer has characters is enough for the loop of `_drain`: it ends by itself.
pub drain_loop_total :
    (fuel : ℕ) (final : Bool) (s : Sanitizer)
    → length s.buffer < fuel
    → (r : Text × Sanitizer) × (drain_loop fuel final s ≡ some r)
unfolding drain_loop
drain_loop_total zero final s h = elim h [ ]
drain_loop_total (suc fuel) final s h = elim (Round-cases (drain_round final s)) [
  | inl (out, s', e) ↦ ((out, s'), ground arith)
  | inr (out, s', e) ↦
      let less = subst (Shrinks (length s.buffer)) e (drain_round-Shrinks final s) in
      let (r, ih) = drain_loop_total fuel final s' (omega arith) in
      ((out ++ r.0, r.1), ground arith)
]

pub drain_total : (final : Bool) (s : Sanitizer) → (r : Text × Sanitizer) × (drain final s ≡ some r)
unfolding drain
drain_total final s = drain_loop_total (suc (length s.buffer)) final s (omega arith)

-- What holds of a round that stops, and is kept by a round that goes on, holds of the loop.
pub drain_loop_induction {ℓ} :
    (final : Bool) (P : Sanitizer → Text → Sanitizer → Type ℓ)
    → ((s : Sanitizer) (out : Text) (s' : Sanitizer)
        → drain_round final s ≡ stop out s'
        → P s out s')
    → ((s : Sanitizer) (out : Text) (s' : Sanitizer) (more : Text) (s'' : Sanitizer)
        → drain_round final s ≡ continue out s'
        → P s' more s''
        → P s (out ++ more) s'')
    → (fuel : ℕ) (s : Sanitizer) (out : Text) (s' : Sanitizer)
    → drain_loop fuel final s ≡ some (out, s')
    → P s out s'
unfolding drain_loop
drain_loop_induction final P stopped continued zero s out s' e = cc
drain_loop_induction final P stopped continued (suc fuel) s out s' e =
    elim (Round-cases (drain_round final s)) [
      | inl (o, t, r) ↦ stopped s out s' (ground arith)
      | inr (o, t, r) ↦ elim (Option-cases (drain_loop fuel final t)) [
        | inl n ↦ ground arith
        | inr ((more, u), k) ↦
            let same : ◌≡◌ {A = Text × Sanitizer} (o ++ more, u) (out, s') = ground arith in
            subst (λ x. P s x.0 x.1) same
              (continued s o t more u r
                (drain_loop_induction final P stopped continued fuel t more u k))
      ]
    ]

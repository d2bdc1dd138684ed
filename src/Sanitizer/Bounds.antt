-- ===== src/Sanitizer/Bounds.antt =====
-- How much text the sanitizer holds back between two chunks.
use gemma_4_31b_mtp_v_llm_se.Prelude.{
  ℕ, zero, suc, refl, ◌-◌, ◌≤◌, min, ◌≡◌, subst, Bool, true, false, none, some, List, [], ◌∷◌, ◌++◌,
  ◌⊎◌, inl, inr, arith, length, length-drop, Bool-cases, Option-cases, map,
}
use gemma_4_31b_mtp_v_llm_se.Prelude.Text.{Text, codes, find, lower, take_last}
use gemma_4_31b_mtp_v_llm_se.Sanitizer.{
  html_starts, visible_markers, hidden_markers, longest, suffix_len, safe_suffix_len, Sanitizer,
  Round, stop, continue, consume_hidden, html_start, find_next_hidden, find_next_visible,
  hidden_round, tag_round, plain_round, visible_round, drain_round, drain_loop, drain, feed,
}
use gemma_4_31b_mtp_v_llm_se.Sanitizer.Termination.{drain_total, drain_loop_induction}

suffix_len-le : (low : Text) (ms : List Text) (n : ℕ) → suffix_len low ms n ≤ n
unfolding suffix_len
suffix_len-le low ms zero = omega arith
suffix_len-le low ms (suc n) = ground (arith, suffix_len-le low ms n)

kept-le : (b : Text) (ms : List Text) → length (take_last (safe_suffix_len b ms) b) ≤ longest ms - 1
unfolding safe_suffix_len take_last
kept-le b ms =
    let n = min (length b) (longest ms - 1) in
    let k = suffix_len (lower b) (map lower ms) n in
    omega (arith, suffix_len-le (lower b) (map lower ms) n, length-drop (length b - k) b)

longest_markers : (longest (visible_markers ++ html_starts) ≡ 17) × (longest hidden_markers ≡ 15)
unfolding longest visible_markers hidden_markers html_starts
longest_markers = omega arith

-- At most 16 characters are held back, except from an opening tag on in which no `>` has come yet.
abbrev pub IsBounded : Sanitizer → Type 0
IsBounded s =
    (length s.buffer ≤ 16)
    ⊎ ((s.hidden ≡ false) × (html_start s.buffer ≡ true) × (find s.buffer (codes ">") ≡ none))

abbrev StopsBounded : Round → Type 0
StopsBounded (stop out s) = IsBounded s
StopsBounded (continue out s) = Unit

hidden_round-StopsBounded : (final : Bool) (b : Text) → StopsBounded (hidden_round final b)
unfolding hidden_round
hidden_round-StopsBounded final b = elim (Option-cases (consume_hidden b)) [
  | inr (rest, e) ↦ ground arith
  | inl e ↦ elim (Option-cases (find_next_hidden b)) [
    | inr (i, k) ↦ ground arith
    | inl n ↦ ground (arith, kept-le b hidden_markers, longest_markers)
  ]
]

plain_round-StopsBounded : (final : Bool) (b : Text) → StopsBounded (plain_round final b)
unfolding plain_round
plain_round-StopsBounded final b = elim (Option-cases (find_next_visible b)) [
  | inr (i, k) ↦ ground arith
  | inl n ↦ ground (arith, kept-le b (visible_markers ++ html_starts), longest_markers)
]

visible_round-StopsBounded : (final : Bool) (b : Text) → StopsBounded (visible_round final b)
unfolding visible_round tag_round
visible_round-StopsBounded final b = elim (Bool-cases (html_start b)) [
  | inl tag ↦ elim (Option-cases (find b (codes ">"))) [
    | inl unclosed ↦ ground arith
    | inr (i, closed) ↦ ground arith
  ]
  | inr plain ↦ ground (arith, plain_round-StopsBounded final b)
]

drain_round-StopsBounded : (final : Bool) (s : Sanitizer) → StopsBounded (drain_round final s)
unfolding drain_round
drain_round-StopsBounded final s = buffered s.buffer s.hidden
  where
    buffered :
        (b : Text) (hidden : Bool)
        → StopsBounded (drain_round final (record { buffer = b; hidden = hidden }))
    buffered [] hidden = inl (omega arith)
    buffered (c ∷ cs) true = hidden_round-StopsBounded final (c ∷ cs)
    buffered (c ∷ cs) false = visible_round-StopsBounded final (c ∷ cs)

drain_loop-IsBounded :
    (final : Bool) (fuel : ℕ) (s : Sanitizer) (out : Text) (s' : Sanitizer)
    → drain_loop fuel final s ≡ some (out, s')
    → IsBounded s'
drain_loop-IsBounded final =
    drain_loop_induction final (λ s out s'. IsBounded s')
      (λ s out s' e. subst StopsBounded e (drain_round-StopsBounded final s))
      (λ s out s' more s'' e ih. ih)

-- From a state that holds back at most 16 characters, or an opening tag in which no `>` has come yet,
-- `feed` returns, and leaves such a state, however long the chunk is.
pub feed-IsBounded :
    (text : Text) (s : Sanitizer)
    → IsBounded s
    → (out : Text) × (s' : Sanitizer) × (feed text s ≡ some (out, s')) × IsBounded s'
unfolding feed drain
feed-IsBounded [] s h = ([], s, refl, h)
feed-IsBounded (c ∷ cs) s h =
    let t : Sanitizer = record s { buffer = s.buffer ++ c ∷ cs } in
    let ((out, s'), e) = drain_total false t in
    (out, s', e, drain_loop-IsBounded false (suc (length t.buffer)) t out s' e)

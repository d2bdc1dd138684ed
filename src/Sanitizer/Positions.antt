-- ===== src/Sanitizer/Positions.antt =====
-- What the searches find is the first position where a marker stands, and the reference scan
-- passes over the characters before it.
use gemma_4_31b_mtp_v_llm_se.Prelude.{
  ℕ, zero, suc, ◌<◌, ◌≡◌, ◌≢◌, refl, ap, ◌∙◌, Bool, true, false, ◌||◌, Option, none, some, List, [],
  ◌∷◌, ◌++◌, arith, length, drop, take, any, All, Bool-cases, Option-cases, inl, inr,
}
use gemma_4_31b_mtp_v_llm_se.Prelude.Text.{Text, lower, starts_with}
use gemma_4_31b_mtp_v_llm_se.Sanitizer.{
  channel_thought, channel_final, channel_close, html_starts, html_closes, visible_markers,
  consume_visible, consume_close, consume_hidden, html_start, find_next_visible, find_next_hidden,
  least_find,
}
use gemma_4_31b_mtp_v_llm_se.Sanitizer.Search.{
  IsAligned, here_or, least-here_or, least_find-cons, least_tag-cons, lower-cons, lower_one,
}
use gemma_4_31b_mtp_v_llm_se.Sanitizer.Scan.{scan, scan-nil, scan-hidden, scan-visible}

abbrev pub is_some {ℓ} : {A : Type ℓ} → Option A → Bool
is_some none = false
is_some (some a) = true

consume_close-here :
    (b : Text) (ms : List Text) → any (starts_with (lower b)) ms ≡ is_some (consume_close b ms)
unfolding consume_close
consume_close-here b [] = refl
consume_close-here b (m ∷ ms) = ground (arith, consume_close-here b ms)

consume_hidden-here :
    (b : Text)
    → (any (starts_with b) (channel_final ∷ channel_close ∷ [])
        || any (starts_with (lower b)) html_closes)
      ≡ is_some (consume_hidden b)
unfolding consume_hidden
consume_hidden-here b = ground (arith, consume_close-here b html_closes)

pub find_next_hidden-cons :
    (c : ℕ) (cs : Text)
    → c ≢ 0x130
    → find_next_hidden (c ∷ cs) ≡ here_or (is_some (consume_hidden (c ∷ cs))) (find_next_hidden cs)
unfolding find_next_hidden
find_next_hidden-cons c cs h =
    rw
      (
        least_find-cons c cs (channel_final ∷ channel_close ∷ []),
        lower-cons c cs h,
        least_find-cons (lower_one c) (lower cs) html_closes,
      )
      (rw (least-here_or _ _ _ (least_find (lower cs) html_closes)) (
        ap (λ here. here_or here (find_next_hidden cs))
          (rw (← lower-cons c cs h) (consume_hidden-here (c ∷ cs)))))

consume_visible-here :
    (b : Text) → any (starts_with b) visible_markers ≡ is_some (consume_visible b)
unfolding consume_visible visible_markers
consume_visible-here b = ground arith

html_start_lengths : All (λ m. 0 < length m) html_starts
unfolding html_starts
html_start_lengths = omega arith

pub find_next_visible-cons :
    (c : ℕ) (cs : Text)
    → c ≢ 0x130
    → find_next_visible (c ∷ cs)
      ≡ here_or (is_some (consume_visible (c ∷ cs)) || html_start (c ∷ cs)) (find_next_visible cs)
unfolding find_next_visible html_start
find_next_visible-cons c cs h =
    rw
      (
        least_find-cons c cs visible_markers,
        least_tag-cons c cs html_starts h html_start_lengths,
        consume_visible-here (c ∷ cs),
      )
      (least-here_or _ _ (least_find cs visible_markers) _)

-- Hidden text without a marker is dropped whole,
pub scan-hidden_none : (b : Text) → IsAligned b → find_next_hidden b ≡ none → scan true b ≡ []
scan-hidden_none [] h e = scan-nil true
scan-hidden_none (c ∷ cs) (h, hs) e = elim (Option-cases (consume_hidden (c ∷ cs))) [
  | inl n ↦
      scan-hidden c cs n ∙ scan-hidden_none cs hs (ground (arith, find_next_hidden-cons c cs h))
  | inr (rest, k) ↦ absurd (ground (arith, find_next_hidden-cons c cs h))
]

-- and otherwise up to the first one.
pub scan-hidden_some :
    (b : Text) (i : ℕ)
    → IsAligned b
    → find_next_hidden b ≡ some i
    → scan true b ≡ scan true (drop i b)
scan-hidden_some b zero h e = refl
scan-hidden_some [] (suc i) h e = refl
scan-hidden_some (c ∷ cs) (suc i) (h, hs) e = elim (Option-cases (consume_hidden (c ∷ cs))) [
  | inl n ↦
      scan-hidden c cs n ∙ scan-hidden_some cs i hs (ground (arith, find_next_hidden-cons c cs h))
  | inr (rest, k) ↦ absurd (ground (arith, find_next_hidden-cons c cs h))
]

-- Visible text without a marker or tag is shown whole,
pub scan-visible_none : (b : Text) → IsAligned b → find_next_visible b ≡ none → scan false b ≡ b
scan-visible_none [] h e = scan-nil false
scan-visible_none (c ∷ cs) (h, hs) e = elim (Option-cases (consume_visible (c ∷ cs))) [
  | inl n ↦
      scan-visible c cs n (ground (arith, find_next_visible-cons c cs h))
      ∙ ap (λ r. c ∷ r) (scan-visible_none cs hs (ground (arith, find_next_visible-cons c cs h)))
  | inr (rest, k) ↦ absurd (ground (arith, find_next_visible-cons c cs h))
]

-- and otherwise up to the first one.
pub scan-visible_some :
    (b : Text) (i : ℕ)
    → IsAligned b
    → find_next_visible b ≡ some i
    → scan false b ≡ take i b ++ scan false (drop i b)
scan-visible_some b zero h e = refl
scan-visible_some [] (suc i) h e = refl
scan-visible_some (c ∷ cs) (suc i) (h, hs) e = elim (Option-cases (consume_visible (c ∷ cs))) [
  | inl n ↦
      scan-visible c cs n (ground (arith, find_next_visible-cons c cs h))
      ∙ ap (λ r. c ∷ r) (scan-visible_some cs i hs (ground (arith, find_next_visible-cons c cs h)))
  | inr (rest, k) ↦ absurd (ground (arith, find_next_visible-cons c cs h))
]

-- What is consumed is cut off at the front.
consume_close-drop :
    (b rest : Text) (ms : List Text) → consume_close b ms ≡ some rest → (n : ℕ) × (drop n b ≡ rest)
unfolding consume_close
consume_close-drop b rest [] e = cc
consume_close-drop b rest (m ∷ ms) e = elim (Bool-cases (starts_with (lower b) m)) [
  | inl here ↦ (length m, ground arith)
  | inr other ↦ consume_close-drop b rest ms (ground arith)
]

pub consume_hidden-drop :
    (b rest : Text) → consume_hidden b ≡ some rest → (n : ℕ) × (drop n b ≡ rest)
unfolding consume_hidden
consume_hidden-drop b rest e = elim (Bool-cases (starts_with b channel_final)) [
  | inl here ↦ (length channel_final, ground arith)
  | inr other ↦ elim (Bool-cases (starts_with b channel_close)) [
    | inl here ↦ (length channel_close, ground arith)
    | inr none_here ↦ consume_close-drop b rest html_closes (ground arith)
  ]
]

pub consume_visible-drop :
    (b rest : Text) (hidden : Bool)
    → consume_visible b ≡ some (rest, hidden)
    → (n : ℕ) × (drop n b ≡ rest)
unfolding consume_visible
consume_visible-drop b rest hidden e = elim (Bool-cases (starts_with b channel_thought)) [
  | inl here ↦ (length channel_thought, ground arith)
  | inr other ↦ elim (Bool-cases (starts_with b channel_final)) [
    | inl here ↦ (length channel_final, ground arith)
    | inr none_here ↦ (length channel_close, ground arith)
  ]
]

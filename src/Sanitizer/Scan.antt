-- ===== src/Sanitizer/Scan.antt =====
-- A reference for `ThoughtSanitizer` on a whole text: it reads the text once from the left, and
-- decides at each position what stands there. It makes no search, and keeps no buffer.
use gemma_4_31b_mtp_v_llm_se.Prelude.{
  ℕ, zero, suc, ◌+◌, ◌≤◌, ◌≡◌, refl, Bool, true, false, none, some, [], ◌∷◌, arith, length, drop,
  drop-lt, Option-cases, inl, inr, if◌then◌else◌,
}
use gemma_4_31b_mtp_v_llm_se.Prelude.Text.{Text, find, codes}
use gemma_4_31b_mtp_v_llm_se.Sanitizer.{consume_visible, consume_hidden, html_start}
use gemma_4_31b_mtp_v_llm_se.Sanitizer.Termination.{consume_hidden-lt, consume_visible-lt}

scan_loop : ℕ → Bool → Text → Text
scan_loop zero hidden b = []
scan_loop (suc fuel) hidden [] = []
scan_loop (suc fuel) true (c ∷ cs) = elim (consume_hidden (c ∷ cs)) [
  | some rest ↦ scan_loop fuel false rest
  | none ↦ scan_loop fuel true cs
]
scan_loop (suc fuel) false (c ∷ cs) =
    let within : Text = elim (find (c ∷ cs) (codes ">")) [
      | some i ↦ scan_loop fuel true (drop (i + 1) (c ∷ cs))
      | none ↦ c ∷ cs
    ] in
    let shown : Text = c ∷ scan_loop fuel false cs in
    elim (consume_visible (c ∷ cs)) [
      | some (rest, hidden) ↦ scan_loop fuel hidden rest
      | none ↦ if html_start (c ∷ cs) then within else shown
    ]

pub scan : Bool → Text → Text
unfolding scan_loop
scan hidden b = scan_loop (length b) hidden b

scan_loop-fuel :
    (f g : ℕ) (hidden : Bool) (b : Text)
    → length b ≤ f
    → length b ≤ g
    → scan_loop f hidden b ≡ scan_loop g hidden b
unfolding scan_loop
scan_loop-fuel zero zero hidden b p q = refl
scan_loop-fuel zero (suc g) hidden [] p q = refl
scan_loop-fuel (suc f) zero hidden [] p q = refl
scan_loop-fuel (suc f) (suc g) hidden [] p q = refl
scan_loop-fuel zero g hidden (c ∷ cs) p q = absurd (omega arith)
scan_loop-fuel (suc f) zero hidden (c ∷ cs) p q = absurd (omega arith)
scan_loop-fuel (suc f) (suc g) true (c ∷ cs) p q = elim (Option-cases (consume_hidden (c ∷ cs))) [
  | inl n ↦ ground (arith, scan_loop-fuel f g true cs)
  | inr (rest, k) ↦ ground (arith, consume_hidden-lt (c ∷ cs) rest, scan_loop-fuel f g false rest)
]
scan_loop-fuel (suc f) (suc g) false (c ∷ cs) p q = elim (Option-cases (consume_visible (c ∷ cs))) [
  | inr ((rest, hidden), k) ↦
      ground (arith, consume_visible-lt (c ∷ cs) rest hidden, scan_loop-fuel f g hidden rest)
  | inl n ↦ elim (Option-cases (find (c ∷ cs) (codes ">"))) [
    | inl e ↦ ground (arith, scan_loop-fuel f g false cs)
    | inr (i, e) ↦ ground (
      arith,
      scan_loop-fuel f g false cs,
      drop-lt (i + 1) (c ∷ cs),
      scan_loop-fuel f g true (drop (i + 1) (c ∷ cs)),
    )
  ]
]

pub scan-nil : (hidden : Bool) → scan hidden [] ≡ []
unfolding scan
scan-nil hidden = refl

module _ (c : ℕ) (cs : Text) where
  -- Hidden text is dropped one character at a time,
  pub scan-hidden : consume_hidden (c ∷ cs) ≡ none → scan true (c ∷ cs) ≡ scan true cs
  unfolding scan
  scan-hidden n = ground arith

  -- until a marker ends it.
  pub scan-shown :
      (rest : Text) → consume_hidden (c ∷ cs) ≡ some rest → scan true (c ∷ cs) ≡ scan false rest
  unfolding scan
  scan-shown rest e =
      ground (
        arith,
        consume_hidden-lt (c ∷ cs) rest,
        scan_loop-fuel (length cs) (length rest) false rest,
      )

  pub scan-marker :
      (rest : Text) (hidden : Bool)
      → consume_visible (c ∷ cs) ≡ some (rest, hidden)
      → scan false (c ∷ cs) ≡ scan hidden rest
  unfolding scan
  scan-marker rest hidden e = ground (
    arith,
    consume_visible-lt (c ∷ cs) rest hidden,
    scan_loop-fuel (length cs) (length rest) hidden rest,
  )

  module _ (n : consume_visible (c ∷ cs) ≡ none) where
    pub scan-visible : html_start (c ∷ cs) ≡ false → scan false (c ∷ cs) ≡ c ∷ scan false cs
    unfolding scan
    scan-visible h = ground arith

    pub scan-tag :
        (i : ℕ)
        → html_start (c ∷ cs) ≡ true
        → find (c ∷ cs) (codes ">") ≡ some i
        → scan false (c ∷ cs) ≡ scan true (drop (i + 1) (c ∷ cs))
    unfolding scan
    scan-tag i h e =
        let rest = drop (i + 1) (c ∷ cs) in
        ground (arith, drop-lt (i + 1) (c ∷ cs), scan_loop-fuel (length cs) (length rest) true rest)

    pub scan-open_tag :
        html_start (c ∷ cs) ≡ true → find (c ∷ cs) (codes ">") ≡ none → scan false (c ∷ cs) ≡ c ∷ cs
    unfolding scan
    scan-open_tag h e = ground arith

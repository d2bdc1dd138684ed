-- ===== src/Sanitizer/Search.antt =====
-- The searches of `ThoughtSanitizer` look at one position after the other: each is found at the
-- head of the buffer, or it is the search of the tail, moved by one.
use mathlib.Core.Option
use gemma_4_31b_mtp_v_llm_se.Prelude.{
  ℕ, zero, suc, ◌+◌, ◌≤◌, ◌<◌, ◌≡◌, ◌≢◌, refl, ap, Bool, true, false, ◌&&◌, ◌||◌, Option, none,
  some, List, [], ◌∷◌, arith, length, length-drop, drop, leb, ◌==◌, All, any, Bool-cases,
  Option-cases, inl, inr, if◌then◌else◌,
}
use gemma_4_31b_mtp_v_llm_se.Prelude.Text.{Text, starts_with, find, find_from, lower, lower_char}
use gemma_4_31b_mtp_v_llm_se.Sanitizer.{
  least, least_find, html_tag_boundary, tag_index, least_tag, html_start_among,
}
use gemma_4_31b_mtp_v_llm_se.Sanitizer.Indexes.{IsAtLeast, find_from-IsAtLeast}

-- No character whose lower case is longer than itself (U+0130).
abbrev pub IsAligned : Text → Type 0
IsAligned text = All (λ c. c ≢ 0x130) text

pub lower_one : ℕ → ℕ
lower_one c = if leb b'A' c && leb c b'Z' then c + 32 else if c == 0x212a then b'k' else c

lower_char-one : (c : ℕ) → c ≢ 0x130 → lower_char c ≡ lower_one c ∷ []
unfolding lower_char lower_one
lower_char-one c h = ground arith

pub lower-cons : (c : ℕ) (cs : Text) → c ≢ 0x130 → lower (c ∷ cs) ≡ lower_one c ∷ lower cs
unfolding lower
lower-cons c cs h = rw (lower_char-one c h)

pub lower_one-gt : (c : ℕ) → lower_one c ≢ b'>' → c ≢ b'>'
unfolding lower_one
lower_one-gt c h = ground arith

pub lower_one-lt : (c : ℕ) → (lower_one c == b'<') ≡ (c == b'<')
unfolding lower_one
lower_one-lt c = ground arith

abbrev pub here_or : Bool → Option ℕ → Option ℕ
here_or here later = if here then some 0 else Option.map suc later

pub least-here_or :
    (p q : Bool) (i j : Option ℕ) → least (here_or p i) (here_or q j) ≡ here_or (p || q) (least i j)
least-here_or true true i j = ground arith
least-here_or true false i j = ground arith
least-here_or false true i j = ground arith
least-here_or false false i j = ground arith

pub find-cons :
    (c : ℕ) (cs part : Text)
    → find (c ∷ cs) part ≡ here_or (starts_with (c ∷ cs) part) (find cs part)
unfolding find
find-cons c cs part = refl

pub least_find-cons :
    (c : ℕ) (cs : Text) (ms : List Text)
    → least_find (c ∷ cs) ms ≡ here_or (any (starts_with (c ∷ cs)) ms) (least_find cs ms)
unfolding least_find
least_find-cons c cs [] = refl
least_find-cons c cs (m ∷ ms) =
    rw (find-cons, least_find-cons c cs ms) (least-here_or (starts_with (c ∷ cs) m) _ _ _)

pub find-lt-length :
    (text part : Text) (i : ℕ) → 0 < length part → find text part ≡ some i → i < length text
unfolding find starts_with
find-lt-length [] [] i p e = elim p [ ]
find-lt-length [] (x ∷ xs) i p e = cc
find-lt-length (c ∷ cs) part i p e = elim (Option-cases (find cs part)) [
  | inl n ↦ ground arith
  | inr (j, k) ↦ ground (arith, find-lt-length cs part j p k)
]

-- The start of the loop in `_find_next_visible_marker`, while it lies inside of the text.
abbrev Inside : ℕ → Option ℕ → Type 0
Inside n none = Unit
Inside n (some start) = start < n

find_from-Inside :
    (low m : Text) (start : ℕ) → 0 < length m → Inside (length low) (find_from low m start)
unfolding find_from
find_from-Inside low m start p = elim (Option-cases (find (drop start low) m)) [
  | inl n ↦ ground arith
  | inr (j, k) ↦ ground (arith, find-lt-length (drop start low) m j p k, length-drop start low)
]

find-Inside : (low m : Text) → 0 < length m → Inside (length low) (find low m)
find-Inside low m p = elim (Option-cases (find low m)) [
  | inl n ↦ ground arith
  | inr (j, k) ↦ ground (arith, find-lt-length low m j p k)
]

find_from-cons :
    (l : ℕ) (low m : Text) (k : ℕ)
    → find_from (l ∷ low) m (suc k) ≡ Option.map suc (find_from low m k)
unfolding find_from
find_from-cons l low m k = ground arith

find_from-zero : (low m : Text) → find_from low m 0 ≡ find low m
unfolding find_from
find_from-zero low m = ground arith

abbrev Fueled : ℕ → ℕ → Option ℕ → Type 0
Fueled n fuel none = Unit
Fueled n fuel (some start) = n ≤ start + fuel

Fueled-of_IsAtLeast : (n fuel k : ℕ) (o : Option ℕ) → n ≤ k + fuel → IsAtLeast k o → Fueled n fuel o
Fueled-of_IsAtLeast n fuel k none h p = tt
Fueled-of_IsAtLeast n fuel k (some i) h p = omega arith

-- More fuel than positions left changes nothing.
tag_index-suc :
    (fuel : ℕ) (b low m : Text) (start : Option ℕ)
    → 0 < length m
    → Inside (length low) start
    → Fueled (length low) fuel start
    → tag_index (suc fuel) b low m start ≡ tag_index fuel b low m start
unfolding tag_index
tag_index-suc zero b low m none p i h = refl
tag_index-suc (suc fuel) b low m none p i h = refl
tag_index-suc zero b low m (some start) p i h = absurd (omega arith)
tag_index-suc (suc fuel) b low m (some start) p i h =
    let next = find_from low m (start + 1) in
    let ih = tag_index-suc fuel b low m next p (find_from-Inside low m (start + 1) p) (
      Fueled-of_IsAtLeast (length low) fuel (start + 1) next (omega arith)
        (find_from-IsAtLeast low m (start + 1))) in
    ap (λ later. if html_tag_boundary (drop (start + length m) b) then some start else later) ih

tag_index-map-suc :
    (fuel : ℕ) (c : ℕ) (b : Text) (l : ℕ) (low m : Text) (start : Option ℕ)
    → tag_index fuel (c ∷ b) (l ∷ low) m (Option.map suc start)
      ≡ Option.map suc (tag_index fuel b low m start)
unfolding tag_index
tag_index-map-suc zero c b l low m none = refl
tag_index-map-suc (suc fuel) c b l low m none = refl
tag_index-map-suc zero c b l low m (some start) = refl
tag_index-map-suc (suc fuel) c b l low m (some start) =
    let place : suc start + length m ≡ suc (start + length m) = omega arith in
    let after : suc start + 1 ≡ suc (start + 1) = omega arith in
    let ih = tag_index-map-suc fuel c b l low m (find_from low m (start + 1)) in
    rw (place, after, find_from-cons, ih)
      (elim (Bool-cases (html_tag_boundary (drop (start + length m) b))) [
        | inl tag ↦ rw tag
        | inr other ↦ rw other
      ])

Fueled-all : (n : ℕ) (o : Option ℕ) → Fueled n (suc n) o
Fueled-all n none = tt
Fueled-all n (some i) = omega arith

tag_index-zero :
    (fuel : ℕ) (c : ℕ) (b : Text) (l : ℕ) (low m : Text)
    → tag_index (suc fuel) (c ∷ b) (l ∷ low) m (some 0)
      ≡ here_or (html_tag_boundary (drop (length m) (c ∷ b))) (tag_index fuel b low m (find low m))
unfolding tag_index
tag_index-zero fuel c b l low m =
    let first : 0 + length m ≡ length m = omega arith in
    rw (
      first,
      find_from-cons l low m 0,
      find_from-zero,
      tag_index-map-suc fuel c b l low m (find low m),
    )

-- The whole loop, at the head of the text and then in its tail.
tag_index-cons :
    (c : ℕ) (b : Text) (l : ℕ) (low m : Text)
    → 0 < length m
    → tag_index (suc (length (l ∷ low))) (c ∷ b) (l ∷ low) m (find (l ∷ low) m)
      ≡ here_or
          (starts_with (l ∷ low) m && html_tag_boundary (drop (length m) (c ∷ b)))
          (tag_index (suc (length low)) b low m (find low m))
tag_index-cons c b l low m p = elim (Bool-cases (starts_with (l ∷ low) m)) [
  | inl here ↦ rw (find-cons, here) (tag_index-zero (suc (length low)) c b l low m)
  | inr other ↦
      rw (find-cons, other, tag_index-map-suc)
        (ap (Option.map suc) (
          tag_index-suc (suc (length low)) b low m (find low m) p (find-Inside low m p)
            (Fueled-all (length low) (find low m))))
]

-- `_find_next_visible_marker`, `_find_next_hidden_marker` at the head of the buffer.
pub least_tag-cons :
    (c : ℕ) (b : Text) (ms : List Text)
    → c ≢ 0x130
    → All (λ m. 0 < length m) ms
    → least_tag (c ∷ b) ms ≡ here_or (html_start_among (c ∷ b) ms) (least_tag b ms)
unfolding least_tag html_start_among
least_tag-cons c b [] h p = refl
least_tag-cons c b (m ∷ ms) h (p, ps) =
    rw (least_tag-cons c b ms h ps, lower-cons c b h, tag_index-cons c b _ (lower b) m p)
      (least-here_or _ (html_start_among (c ∷ b) ms) _ (least_tag b ms))

-- ===== src/Sanitizer/Indexes.antt =====
-- Where the searches of `ThoughtSanitizer` can point.

use gemma_4_31b_mtp_v_llm_se.Prelude.{
  ℕ, zero, suc, ◌+◌, ◌≤◌, ◌≡◌, refl, sym, subst, false, ◌&&◌, Option, none, some, List, [], ◌∷◌,
  arith, length, drop, Bool-cases, inl, inr,
}
use gemma_4_31b_mtp_v_llm_se.Prelude.Text.{Text, starts_with, find, find_from, lower}
use gemma_4_31b_mtp_v_llm_se.Sanitizer.{
  least, least_find, html_tag_boundary, tag_index, least_tag, html_start_among,
}

abbrev pub IsAtLeast : ℕ → Option ℕ → Type 0
IsAtLeast k none = Unit
IsAtLeast k (some i) = k ≤ i

pub IsAtLeast-least :
    (k : ℕ) (i j : Option ℕ) → IsAtLeast k i → IsAtLeast k j → IsAtLeast k (least i j)
IsAtLeast-least k none j p q = q
IsAtLeast-least k (some i) none p q = p
IsAtLeast-least k (some i) (some j) p q = omega arith

-- A text that does not start with the part holds it, if at all, further on.
pub find-IsAtLeast :
    (text part : Text) → starts_with text part ≡ false → IsAtLeast 1 (find text part)
unfolding find
find-IsAtLeast [] part h = ground arith
find-IsAtLeast (c ∷ cs) part h = ground arith

pub find_from-IsAtLeast :
    (text part : Text) (start : ℕ) → IsAtLeast start (find_from text part start)
unfolding find_from
find_from-IsAtLeast text part start = ground arith

abbrev pub NoneStarts : Text → List Text → Type 0
NoneStarts text [] = Unit
NoneStarts text (m ∷ ms) = (starts_with text m ≡ false) × NoneStarts text ms

pub least_find-IsAtLeast :
    (text : Text) (ms : List Text) → NoneStarts text ms → IsAtLeast 1 (least_find text ms)
unfolding least_find
least_find-IsAtLeast text [] h = tt
least_find-IsAtLeast text (m ∷ ms) (h, hs) =
    IsAtLeast-least 1 (find text m) (least_find text ms) (find-IsAtLeast text m h)
      (least_find-IsAtLeast text ms hs)

IsAtLeast-le : (j k : ℕ) (o : Option ℕ) → j ≤ k → IsAtLeast k o → IsAtLeast j o
IsAtLeast-le j k none h p = tt
IsAtLeast-le j k (some i) h p = omega arith

tag_index-IsAtLeast :
    (fuel : ℕ) (b low m : Text) (k : ℕ) (start : Option ℕ)
    → IsAtLeast k start
    → IsAtLeast k (tag_index fuel b low m start)
unfolding tag_index
tag_index-IsAtLeast zero b low m k none h = tt
tag_index-IsAtLeast (suc fuel) b low m k none h = tt
tag_index-IsAtLeast zero b low m k (some start) h = tt
tag_index-IsAtLeast (suc fuel) b low m k (some start) h =
    let later =
      IsAtLeast-le k (start + 1) (find_from low m (start + 1)) (omega arith)
        (find_from-IsAtLeast low m (start + 1)) in
    let ih = tag_index-IsAtLeast fuel b low m k (find_from low m (start + 1)) later in
    elim (Bool-cases (html_tag_boundary (drop (start + length m) b))) [
      | inl tag ↦ rw tag h
      | inr other ↦ rw other ih
    ]

-- A tag that does not start the buffer is found, if at all, further on.
tag_index-pos :
    (fuel : ℕ) (b low m : Text) (start : Option ℕ)
    → start ≡ find low m
    → (starts_with low m && html_tag_boundary (drop (length m) b)) ≡ false
    → IsAtLeast 1 (tag_index fuel b low m start)
unfolding tag_index
tag_index-pos fuel b low m (some (suc i)) e h =
    tag_index-IsAtLeast fuel b low m 1 (some (suc i)) (omega arith)
tag_index-pos zero b low m none e h = tt
tag_index-pos zero b low m (some zero) e h = tt
tag_index-pos (suc fuel) b low m none e h = tt
tag_index-pos (suc fuel) b low m (some zero) e h =
    let ih = tag_index-IsAtLeast fuel b low m 1 (find_from low m 1) (find_from-IsAtLeast low m 1) in
    elim (Bool-cases (starts_with low m)) [
      | inl here ↦
          let boundary : html_tag_boundary (drop (length m) b) ≡ false = rw here at h in
          let first : 0 + length m ≡ length m = omega arith in rw (first, boundary) ih
      | inr elsewhere ↦
          let later : 1 ≤ 0 = subst (IsAtLeast 1) (sym e) (find-IsAtLeast low m elsewhere) in
          absurd (omega arith)
    ]

pub least_tag-IsAtLeast :
    (b : Text) (ms : List Text) → html_start_among b ms ≡ false → IsAtLeast 1 (least_tag b ms)
unfolding least_tag html_start_among
least_tag-IsAtLeast b [] h = tt
least_tag-IsAtLeast b (m ∷ ms) h =
    IsAtLeast-least 1 _ _
      (tag_index-pos (suc (length (lower b))) b (lower b) m (find (lower b) m) refl (ground arith))
      (least_tag-IsAtLeast b ms (ground arith))

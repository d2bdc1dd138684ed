-- ===== src/Sanitizer/Finds.antt =====
-- The searches of `_drain` find a place with a `<`, and nothing before it.

use gemma_4_31b_mtp_v_llm_se.Prelude.{
  ℕ, zero, suc, ◌≡◌, subst, Bool, true, false, Option, some, none, List, [], ◌∷◌, ◌++◌, arith, All,
  inl, inr, Option-cases, length,
}
use gemma_4_31b_mtp_v_llm_se.Prelude.Text.{Text, starts_with, lower, find}
use gemma_4_31b_mtp_v_llm_se.Sanitizer.{
  channel_thought, channel_final, channel_close, html_starts, html_closes, visible_markers,
  hidden_markers, consume_visible, consume_hidden, html_start, least, least_find, least_tag,
  tag_index, find_next_visible, find_next_hidden,
}
use gemma_4_31b_mtp_v_llm_se.Sanitizer.Search.{IsAligned}
use gemma_4_31b_mtp_v_llm_se.Sanitizer.Positions.{find_next_hidden-cons, find_next_visible-cons}
use gemma_4_31b_mtp_v_llm_se.Sanitizer.Pass.{
  has_lt, has_lt-lower, HasOneLt, IsMarker, FindsNone, FindsLater,
}

abbrev IfFound : Option ℕ → Bool → Type 0
IfFound none b = Unit
IfFound (some i) b = b ≡ true

IfFound-least : (i j : Option ℕ) (b : Bool) → IfFound i b → IfFound j b → IfFound (least i j) b
IfFound-least none j b p q = q
IfFound-least (some i) none b p q = p
IfFound-least (some i) (some j) b p q = p

find-has_lt : (t m : Text) → HasOneLt m → IfFound (find t m) (has_lt t)
unfolding find starts_with
find-has_lt t [] h = absurd h
find-has_lt [] (x ∷ m) h = ground arith
find-has_lt (c ∷ t) (x ∷ m) h = ground (arith, find-has_lt t (x ∷ m) h)

least_find-has_lt :
    (t : Text) (ms : List Text) → All HasOneLt ms → IfFound (least_find t ms) (has_lt t)
unfolding least_find
least_find-has_lt t [] h = tt
least_find-has_lt t (m ∷ ms) (h, hs) =
    IfFound-least (find t m) (least_find t ms) (has_lt t) (find-has_lt t m h)
      (least_find-has_lt t ms hs)

IfFound-tag_index :
    (fuel : ℕ) (b low m : Text) (start : Option ℕ) (p : Bool)
    → IfFound start p
    → IfFound (tag_index fuel b low m start) p
unfolding tag_index
IfFound-tag_index zero b low m none p h = tt
IfFound-tag_index (suc fuel) b low m none p h = tt
IfFound-tag_index zero b low m (some i) p h = tt
IfFound-tag_index (suc fuel) b low m (some i) p h =
    elim (Option-cases (tag_index (suc fuel) b low m (some i))) [
      | inl e ↦ ground arith
      | inr (j, e) ↦ ground arith
    ]

least_tag-has_lt :
    (b : Text) (ms : List Text)
    → IsAligned b
    → All HasOneLt ms
    → IfFound (least_tag b ms) (has_lt b)
unfolding least_tag
least_tag-has_lt b [] a h = tt
least_tag-has_lt b (m ∷ ms) a (h, hs) =
    IfFound-least _ (least_tag b ms) (has_lt b)
      (IfFound-tag_index (suc (length (lower b))) b (lower b) m (find (lower b) m) (has_lt b)
        (subst (IfFound (find (lower b) m)) (has_lt-lower b a) (find-has_lt (lower b) m h)))
      (least_tag-has_lt b ms a hs)

pub visible-IsMarker_shapes : All IsMarker (visible_markers ++ html_starts)
unfolding visible_markers html_starts lower
visible-IsMarker_shapes = ground arith

pub hidden-IsMarker_shapes : All IsMarker hidden_markers
unfolding hidden_markers lower
hidden-IsMarker_shapes = ground arith

abbrev pub IsVisible : Text → Type 0
IsVisible t = (consume_visible t ≡ none) × (html_start t ≡ false)

abbrev pub IsHidden : Text → Type 0
IsHidden t = consume_hidden t ≡ none

find_next_visible-has_lt : (b : Text) → IsAligned b → IfFound (find_next_visible b) (has_lt b)
unfolding find_next_visible visible_markers channel_thought channel_final channel_close html_starts
find_next_visible-has_lt b a =
    IfFound-least (least_find b visible_markers) (least_tag b html_starts) (has_lt b)
      (least_find-has_lt b visible_markers (ground arith))
      (least_tag-has_lt b html_starts a (ground arith))

find_next_hidden-has_lt : (b : Text) → IsAligned b → IfFound (find_next_hidden b) (has_lt b)
unfolding find_next_hidden channel_final channel_close html_closes
find_next_hidden-has_lt b a =
    IfFound-least (least_find b (channel_final ∷ channel_close ∷ []))
      (least_find (lower b) html_closes) (has_lt b)
      (least_find-has_lt b (channel_final ∷ channel_close ∷ []) (ground arith))
      (subst (IfFound (least_find (lower b) html_closes)) (has_lt-lower b a)
        (least_find-has_lt (lower b) html_closes (ground arith)))

pub IsVisible-FindsNone : FindsNone IsVisible (visible_markers ++ html_starts) find_next_visible
IsVisible-FindsNone c cs h e = ground (arith, find_next_visible-cons c cs h)

pub IsHidden-FindsNone : FindsNone IsHidden hidden_markers find_next_hidden
IsHidden-FindsNone c cs h e = ground (arith, find_next_hidden-cons c cs h)

pub IsVisible-FindsLater : FindsLater IsVisible (visible_markers ++ html_starts) find_next_visible
IsVisible-FindsLater c cs i (a, aligned) e =
    ground (arith, find_next_visible-cons c cs a, find_next_visible-has_lt cs aligned)

pub IsHidden-FindsLater : FindsLater IsHidden hidden_markers find_next_hidden
IsHidden-FindsLater c cs i (a, aligned) e =
    ground (arith, find_next_hidden-cons c cs a, find_next_hidden-has_lt cs aligned)

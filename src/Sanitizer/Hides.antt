-- ===== src/Sanitizer/Hides.antt =====
-- What a reader of the stream sees of plain text and of a thought.

use gemma_4_31b_mtp_v_llm_se.Prelude.{
  ℕ, ◌≡◌, ◌≢◌, refl, sym, ap, subst, ◌∙◌, true, false, some, none, List, [], ◌∷◌, ◌++◌, arith,
  All-append, append-nil, ◌==◌,
}
use gemma_4_31b_mtp_v_llm_se.Prelude.Text.{Text, codes, starts_with, lower, lower_char, find}
use gemma_4_31b_mtp_v_llm_se.Sanitizer.{
  channel_thought, channel_final, channel_close, html_starts, html_closes, html_start_among,
  html_tag_boundary, consume_visible, consume_hidden, consume_close, html_start, init,
  sanitize_stream,
}
use gemma_4_31b_mtp_v_llm_se.Sanitizer.Search.{IsAligned, lower-cons, lower_one-lt}
use gemma_4_31b_mtp_v_llm_se.Sanitizer.Scan.{
  scan, scan-nil, scan-visible, scan-hidden, scan-tag, scan-marker, scan-shown,
}
use gemma_4_31b_mtp_v_llm_se.Sanitizer.Pass.{has_lt}
use gemma_4_31b_mtp_v_llm_se.Sanitizer.Whole.{join, sanitize_stream-eq-scan}

-- Text without a `<` and without U+0130.
abbrev pub IsPlain : Text → Type 0
IsPlain t = (has_lt t ≡ false) × IsAligned t

-- The ways in which the model opens and closes a thought.
pub data Opening : Type 0 where
  think thinking thought channel : Opening

pub data Closing : Type 0 where
  end_think end_thinking end_thought final close : Closing

abbrev pub opening : Opening → Text
opening think = codes "<think>"
opening thinking = codes "<thinking>"
opening thought = codes "<thought>"
opening channel = codes "<|channel>thought"

abbrev pub closing : Closing → Text
closing end_think = codes "</think>"
closing end_thinking = codes "</thinking>"
closing end_thought = codes "</thought>"
closing final = codes "<|channel>final"
closing close = codes "<channel|>"

plain-visible :
    (c : ℕ) (cs : Text)
    → (c == b'<') ≡ false
    → c ≢ 0x130
    → (consume_visible (c ∷ cs) ≡ none) × (html_start (c ∷ cs) ≡ false)
unfolding consume_visible html_start html_start_among html_starts channel_thought channel_final
    channel_close starts_with
plain-visible c cs h a = rw (lower-cons c cs a) (ground (arith, lower_one-lt c))

plain-hidden :
    (c : ℕ) (cs : Text) → (c == b'<') ≡ false → c ≢ 0x130 → consume_hidden (c ∷ cs) ≡ none
unfolding consume_hidden consume_close html_closes channel_final channel_close starts_with
plain-hidden c cs h a = rw (lower-cons c cs a) (ground (arith, lower_one-lt c))

scan-plain : (t more : Text) → IsPlain t → scan false (t ++ more) ≡ t ++ scan false more
scan-plain [] more h = refl
scan-plain (c ∷ t) more (h, (a, aligned)) =
    let (clear, no_tag) = plain-visible c (t ++ more) (ground arith) a in
    scan-visible c (t ++ more) clear no_tag
    ∙ ap (λ r. c ∷ r) (scan-plain t more (ground arith, aligned))

scan-secret : (t more : Text) → IsPlain t → scan true (t ++ more) ≡ scan true more
scan-secret [] more h = refl
scan-secret (c ∷ t) more (h, (a, aligned)) =
    scan-hidden c (t ++ more) (plain-hidden c (t ++ more) (ground arith) a)
    ∙ scan-secret t more (ground arith, aligned)

scan-opening : (o : Opening) (more : Text) → scan false (opening o ++ more) ≡ scan true more
unfolding consume_visible html_start html_start_among html_starts html_tag_boundary channel_thought
    channel_final channel_close starts_with lower lower_char find
scan-opening think more = scan-tag _ _ refl 6 refl refl
scan-opening thinking more = scan-tag _ _ refl 9 refl refl
scan-opening thought more = scan-tag _ _ refl 8 refl refl
scan-opening channel more = scan-marker _ _ more true refl

scan-closing : (c : Closing) (more : Text) → scan true (closing c ++ more) ≡ scan false more
unfolding consume_hidden consume_close html_closes channel_final channel_close starts_with lower
    lower_char
scan-closing end_think more = scan-shown _ _ more refl
scan-closing end_thinking more = scan-shown _ _ more refl
scan-closing end_thought more = scan-shown _ _ more refl
scan-closing final more = scan-shown _ _ more refl
scan-closing close more = scan-shown _ _ more refl

abbrev pub with_thought : Text → Opening → Text → Closing → Text → Text
with_thought before o secret c after = before ++ (opening o ++ (secret ++ (closing c ++ after)))

scan-thought :
    (before secret after : Text) (o : Opening) (c : Closing)
    → IsPlain before
    → IsPlain secret
    → IsPlain after
    → scan false (with_thought before o secret c after) ≡ before ++ after
scan-thought before secret after o c p q r =
    scan-plain before _ p
    ∙ ap (λ t. before ++ t)
        (scan-opening o _
          ∙ scan-secret secret _ q
          ∙ scan-closing c after
          ∙ ap (scan false) (sym (append-nil after))
          ∙ scan-plain after [] r
          ∙ rw (scan-nil, append-nil))

opening-IsAligned : (o : Opening) → IsAligned (opening o)
opening-IsAligned think = omega arith
opening-IsAligned thinking = omega arith
opening-IsAligned thought = omega arith
opening-IsAligned channel = omega arith

closing-IsAligned : (c : Closing) → IsAligned (closing c)
closing-IsAligned end_think = omega arith
closing-IsAligned end_thinking = omega arith
closing-IsAligned end_thought = omega arith
closing-IsAligned final = omega arith
closing-IsAligned close = omega arith

with_thought-IsAligned :
    (before secret after : Text) (o : Opening) (c : Closing)
    → IsPlain before
    → IsPlain secret
    → IsPlain after
    → IsAligned (with_thought before o secret c after)
with_thought-IsAligned before secret after o c p q r =
    let plus = All-append (λ (x : ℕ). x ≢ 0x130) in
    plus before _ p.1 (
      plus (opening o) _ (opening-IsAligned o)
        (plus secret _ q.1 (plus (closing c) after (closing-IsAligned c) r.1)))

-- Whatever chunks it comes in, an answer of plain text around one thought, opened and closed by any
-- pair of the known markers, is shown without the thought and without the markers, and is
-- otherwise unchanged.
pub sanitize_stream-hides_thought :
    (before secret after : Text) (o : Opening) (c : Closing) (chunks : List Text)
    → IsPlain before
    → IsPlain secret
    → IsPlain after
    → join chunks ≡ with_thought before o secret c after
    → sanitize_stream chunks init ≡ some (before ++ after)
sanitize_stream-hides_thought before secret after o c chunks p q r e =
    sanitize_stream-eq-scan chunks
      (subst IsAligned (sym e) (with_thought-IsAligned before secret after o c p q r))
    ∙ ap (λ t. some (scan false t)) e
    ∙ ap some (scan-thought before secret after o c p q r)

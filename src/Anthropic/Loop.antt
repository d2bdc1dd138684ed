-- ===== src/Anthropic/Loop.antt =====
-- The loop over the chunks: what it yields, and what its sanitizer has still to show.
use gemma_4_31b_mtp_v_llm_se.Prelude.{
  ◌≡◌, refl, ap, sym, ◌∙◌, Bool-cases, inl, inr, some, List, [], ◌∷◌, ◌++◌, arith, if◌then◌else◌,
}
use gemma_4_31b_mtp_v_llm_se.Prelude.Text.{Text}
use gemma_4_31b_mtp_v_llm_se.Json.{Value, truthy}
use gemma_4_31b_mtp_v_llm_se.Sanitizer.{feed, finish, sanitize_stream}
use gemma_4_31b_mtp_v_llm_se.Sanitizer.Whole.{join, feed_total, sanitize_stream-feed}
use gemma_4_31b_mtp_v_llm_se.Anthropic.{
  Event, Reading, done, skip, raised, choice, stop_reason, Progress, emit, take_choice, prepend,
  stream_loop,
}
use gemma_4_31b_mtp_v_llm_se.Anthropic.Readings.{IsReadable, contents, last_reason}
use gemma_4_31b_mtp_v_llm_se.Anthropic.Blocks.{
  shown, Emits, emit-Emits, emit-same, append-Emits, join-shown,
}

-- A choice is always taken: the sanitizer never runs out of fuel.
pub record Takes (content : Text) (finish : Value) (p : Progress) (text : Text)
    (events : List Event) (q : Progress) : Type 0 where
  taken : take_choice content finish p ≡ some (events, q)
  fed : feed content p.sanitizer ≡ some (text, q.sanitizer)
  pub emits : Emits p (shown text) events q
  pub reason_is : q.reason ≡ (if truthy finish then stop_reason finish else p.reason)

pub take_choice_total :
    (content : Text) (finish : Value) (p : Progress)
    → (text : Text) × (events : List Event) × (q : Progress) × Takes content finish p text events q
unfolding take_choice
take_choice_total content finish p =
    let ((text, s), e) = feed_total content p.sanitizer in
    let fed = record p { sanitizer = s } in
    let (events, q) = emit text fed in
    let m = emit-Emits text fed in
    let (same, kept) = emit-same text fed in
    let held = e ∙ ap (λ t. some (text, t)) (sym same) in
    elim (Bool-cases (truthy finish)) [
      | inl y ↦ (
        text,
        events,
        record q { reason = stop_reason finish },
        record {
          taken = ground (arith, e, y);
          fed = held;
          emits = record {
            events_are = m.events_are;
            opened = m.opened;
            counted = m.counted;
            all_shown = m.all_shown;
          };
          reason_is = rw y;
        },
      )
      | inr n ↦ (
        text,
        events,
        q,
        record {
          taken = ground (arith, e, n);
          fed = held;
          emits = record {
            events_are = m.events_are;
            opened = m.opened;
            counted = m.counted;
            all_shown = m.all_shown;
          };
          reason_is = rw n kept;
        },
      )
    ]

-- What the loop does over chunks that can be read
pub record Loops (readings : List Reading) (p : Progress) (texts : List Text) (events : List Event)
    (q : Progress) : Type 0 where
  pub ran : stream_loop readings p ≡ some (record { events = events; end = some q })
  pub emits : Emits p texts events q
  pub reason_is : q.reason ≡ last_reason p.reason readings
  pub sanitized :
      (out : Text)
      → sanitize_stream [] q.sanitizer ≡ some out
      → sanitize_stream (contents readings) p.sanitizer ≡ some (join texts ++ out)

nothing-Emits : (p : Progress) → Emits p [] [] p
nothing-Emits p = record {
  events_are = refl;
  opened = ground arith;
  counted = omega arith;
  all_shown = tt;
}

pub stream_loop_total :
    (readings : List Reading) (p : Progress)
    → IsReadable readings
    → (texts : List Text) × (events : List Event) × (q : Progress) × Loops readings p texts events q
unfolding stream_loop prepend
stream_loop_total [] p h = (
  [],
  [],
  p,
  record { ran = refl; emits = nothing-Emits p; reason_is = refl; sanitized = λ out e. e },
)
stream_loop_total (done ∷ readings) p h = (
  [],
  [],
  p,
  record { ran = refl; emits = nothing-Emits p; reason_is = refl; sanitized = λ out e. e },
)
stream_loop_total (skip ∷ readings) p h =
    let (texts, events, q, l) = stream_loop_total readings p h in
    (
      texts,
      events,
      q,
      record { ran = l.ran; emits = l.emits; reason_is = l.reason_is; sanitized = l.sanitized },
    )
stream_loop_total (raised ∷ readings) p h = absurd h
stream_loop_total (choice content finish ∷ readings) p h =
    let (text, before, r, t) = take_choice_total content finish p in
    let (texts, events, q, l) = stream_loop_total readings r h in
    (
      shown text ++ texts,
      before ++ events,
      q,
      record {
        ran = ground (arith, t.taken, l.ran);
        emits = append-Emits p r q (shown text) texts before events t.emits l.emits;
        reason_is = l.reason_is ∙ ap (λ reason. last_reason reason readings) t.reason_is;
        sanitized = λ out e.
            sanitize_stream-feed content (contents readings) p.sanitizer r.sanitizer text
              (join texts ++ out) t.fed (l.sanitized out e)
            ∙ ap some (join-shown text texts out);
      },
    )

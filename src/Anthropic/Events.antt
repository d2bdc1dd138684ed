-- ===== src/Anthropic/Events.antt =====
-- The events of a stream: their order, their text, and the count of the output tokens.
use gemma_4_31b_mtp_v_llm_se.Prelude.{
  ℕ, ◌≡◌, refl, ap, sym, ◌∙◌, String, Bool, false, not, some, List, [], ◌∷◌, ◌++◌, map, is_empty,
  length, All, append_assoc, arith, if◌then◌else◌,
}
use gemma_4_31b_mtp_v_llm_se.Prelude.Text.{Text}
use gemma_4_31b_mtp_v_llm_se.Json.{Fields}
use gemma_4_31b_mtp_v_llm_se.Sanitizer.{Sanitizer, init, finish, sanitize_stream}
use gemma_4_31b_mtp_v_llm_se.Sanitizer.Whole.{join, finish_total, sanitize_stream-finish}
use gemma_4_31b_mtp_v_llm_se.Anthropic.{
  StopReason, end_turn, Event, content_block_stop, message_start, message_delta, message_stop,
  read_chunk, Progress, emit, stream_loop, finish_stream, first_progress, stream_events,
}
use gemma_4_31b_mtp_v_llm_se.Anthropic.Readings.{IsReadable, contents, last_reason}
use gemma_4_31b_mtp_v_llm_se.Anthropic.Blocks.{
  block, IsShown, shown, emit-Emits, emit-same, append-Emits, append-shown,
}
use gemma_4_31b_mtp_v_llm_se.Anthropic.Loop.{stream_loop_total}

abbrev pub closing : List Text → List Event
closing [] = []
closing (t ∷ ts) = content_block_stop ∷ []

closing-if :
    (texts : List Text)
    → (if not (is_empty texts) then content_block_stop ∷ [] else []) ≡ closing texts
closing-if [] = refl
closing-if (t ∷ ts) = refl

finish_stream_of :
    (q : Progress) (s : Sanitizer) (tail : Text)
    → finish q.sanitizer ≡ some (tail, s)
    → let p = emit tail (record q { sanitizer = s }) in
      finish_stream q
      ≡ some (
          p.0
          ++ ((if p.1.started then content_block_stop ∷ [] else [])
              ++ (message_delta p.1.reason p.1.output_tokens ∷ message_stop ∷ [])))
unfolding finish_stream
finish_stream_of q s tail e = ground (arith, e)

stream_events_of :
    (id model : String) (prompt_tokens : ℕ) (chunks : List Fields) (events more : List Event)
    (q : Progress)
    → stream_loop (map read_chunk chunks) first_progress
      ≡ some (record { events = events; end = some q })
    → finish_stream q ≡ some more
    → stream_events id model prompt_tokens chunks
      ≡ some (message_start id model prompt_tokens ∷ (events ++ more))
unfolding stream_events
stream_events_of id model prompt_tokens chunks events more q e h = ground (arith, e, h)

close_up :
    (events more : List Event) (texts : List Text) (started : Bool) (reason last : StopReason)
    (tokens : ℕ)
    → events ++ more ≡ block false texts
    → started ≡ not (is_empty texts)
    → reason ≡ last
    → tokens ≡ length texts
    → events
        ++ (more
            ++ ((if started then content_block_stop ∷ [] else [])
                ++ (message_delta reason tokens ∷ message_stop ∷ [])))
      ≡ block false texts
        ++ (closing texts ++ (message_delta last (length texts) ∷ message_stop ∷ []))
close_up events more texts started reason last tokens e o r t =
    sym (append_assoc events more _) ∙ rw (e, o, r, t, closing-if texts)

-- When no chunk up to the end raises, the events are: the start of the message; then, if any text
-- is shown, one block with a delta for each text, none of them empty; then the last finish reason
-- with as many output tokens as there are deltas; then the end. The texts of the deltas are together
-- what the sanitizer shows of the text that the chunks bring.
pub stream_events-well_formed :
    (id model : String) (prompt_tokens : ℕ) (chunks : List Fields)
    → IsReadable (map read_chunk chunks)
    → (texts : List Text) × (sanitize_stream (contents (map read_chunk chunks)) init
        ≡ some (join texts))
      × All IsShown texts
      × (stream_events id model prompt_tokens chunks
          ≡ some (
              message_start id model prompt_tokens
              ∷ (block false texts
                  ++ (closing texts
                      ++ (message_delta
                            (last_reason end_turn (map read_chunk chunks))
                            (length texts)
                          ∷ message_stop
                          ∷ [])))))
unfolding stream_events finish_stream
stream_events-well_formed id model prompt_tokens chunks h =
    let readings = map read_chunk chunks in
    let (texts, events, q, l) = stream_loop_total readings first_progress h in
    let ((tail, s), e) = finish_total q.sanitizer in
    let rest = record q { sanitizer = s } in
    let m = emit-Emits tail rest in
    let (_, kept) = emit-same tail rest in
    let all =
      append-Emits first_progress q (emit tail rest).1 texts (shown tail) events (emit tail rest).0
        l.emits
        (record {
          events_are = m.events_are;
          opened = m.opened;
          counted = m.counted;
          all_shown = m.all_shown;
        }) in
    (
      texts ++ shown tail,
      l.sanitized tail (sanitize_stream-finish q.sanitizer s tail e)
          ∙ ap some (sym (append-shown texts tail)),
      all.all_shown,
      stream_events_of id model prompt_tokens chunks events _ q l.ran (finish_stream_of q s tail e)
          ∙ ap (λ r. some (message_start id model prompt_tokens ∷ r))
              (close_up events (emit tail rest).0 (texts ++ shown tail) (emit tail rest).1.started
                (emit tail rest).1.reason (last_reason end_turn readings)
                (emit tail rest).1.output_tokens all.events_are all.opened (kept ∙ l.reason_is)
                (omega (arith, all.counted))),
    )

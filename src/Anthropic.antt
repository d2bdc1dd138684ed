-- ===== src/Anthropic.antt =====
-- anthropic_adapter.py: `openai_stream_to_anthropic_events`, which turns the chunks of an OpenAI
-- stream into the events of an Anthropic one. The generator is the list of the events that it yields.
pub mod Readings
pub mod Messages
pub mod Blocks
pub mod Loop
pub mod Events
mod Tests
use gemma_4_31b_mtp_v_llm_se.Prelude.{
  ℕ, suc, ◌+◌, String, Bool, true, false, not, Option, none, some, List, [], ◌∷◌, ◌++◌, map,
  if◌then◌else◌,
}
use gemma_4_31b_mtp_v_llm_se.Prelude.Text.{Text, codes}
use gemma_4_31b_mtp_v_llm_se.Json.{
  Value, null, str, list, dict, Items, item, Fields, no_entries, get_or_null, is_str, truthy,
}
use gemma_4_31b_mtp_v_llm_se.Sanitizer.{Sanitizer, init, feed, finish}

pub data StopReason : Type 0 where
  end_turn max_tokens : StopReason

pub data Event : Type 0 where
  message_start : (id model : String) (input_tokens : ℕ) → Event
  content_block_start : Event
  content_block_delta : (text : Text) → Event
  content_block_stop : Event
  message_delta : (reason : StopReason) (output_tokens : ℕ) → Event
  message_stop : Event

-- What a chunk tells: the end; nothing; an operation that raises on its shape; or a choice, with the
-- text of its delta, empty where there is none, and its finish reason.
pub data Reading : Type 0 where
  done skip raised : Reading
  choice : (content : Text) (finish_reason : Value) → Reading

-- `_stop_reason`
pub stop_reason : Value → StopReason
stop_reason finish = if is_str "length" finish then max_tokens else end_turn

-- `delta.get("content")` and what `sanitizer.feed` takes: text; a false value feeds nothing, and any
-- other value raises
pub read_content : Value → Value → Reading
read_content (str s) finish = choice (codes s) finish
read_content v finish = if truthy v then raised else choice [] finish

-- `primary.get("delta") or {}`
pub read_delta : Value → Value → Reading
unfolding read_content
read_delta (dict delta) finish = read_content (get_or_null "content" delta) finish
read_delta v finish = if truthy v then raised else choice [] finish

-- `chunk.get("choices") or []`, and the first of them
pub read_choices : Value → Reading
unfolding read_delta
read_choices (list (item (dict primary) rest)) =
    read_delta (get_or_null "delta" primary) (get_or_null "finish_reason" primary)
read_choices v = if truthy v then raised else skip

pub read_chunk : Fields → Reading
unfolding read_choices
read_chunk chunk =
    if truthy (get_or_null "_done" chunk) then done else read_choices (get_or_null "choices" chunk)

-- The local variables of the generator
pub record Progress : Type 0 where
  pub sanitizer : Sanitizer
  pub started : Bool
  pub output_tokens : ℕ
  pub reason : StopReason

-- Text that is to be shown: the events for it, and the variables behind them
pub emit : Text → Progress → List Event × Progress
emit [] p = ([], p)
emit (c ∷ cs) p =
    let opening = if p.started then [] else content_block_start ∷ [] in
    (
      opening ++ content_block_delta (c ∷ cs) ∷ [],
      record p { started = true; output_tokens = p.output_tokens + 1 },
    )

-- `none` stands for a sanitizer out of fuel.
pub take_choice : Text → Value → Progress → Option (List Event × Progress)
unfolding emit
take_choice content finish p = elim (feed content p.sanitizer) [
  | none ↦ none
  | some (text, sanitizer) ↦
      let (events, q) = emit text (record p { sanitizer = sanitizer }) in
      some (events, if truthy finish then record q { reason = stop_reason finish } else q)
]

-- What the loop over the chunks yields, and the variables behind it, or `none` where a chunk raises
pub record Run : Type 0 where
  pub events : List Event
  pub end : Option Progress

-- The events of one choice stand before those of the rest of the run.
pub prepend : List Event → Option Run → Option Run
prepend events none = none
prepend events (some run) = some (record run { events = events ++ run.events })

-- The loop, over what the chunks tell
pub stream_loop : List Reading → Progress → Option Run
stream_loop [] p = some (record { events = []; end = some p })
stream_loop (done ∷ readings) p = some (record { events = []; end = some p })
stream_loop (skip ∷ readings) p = stream_loop readings p
stream_loop (raised ∷ readings) p = some (record { events = []; end = none })
stream_loop (choice content finish ∷ readings) p = elim (take_choice content finish p) [
  | none ↦ none
  | some (events, q) ↦ prepend events (stream_loop readings q)
]

-- Behind the loop
pub finish_stream : Progress → Option (List Event)
finish_stream p = elim (finish p.sanitizer) [
  | none ↦ none
  | some (text, sanitizer) ↦
      let (events, q) = emit text (record p { sanitizer = sanitizer }) in
      let closing = if q.started then content_block_stop ∷ [] else [] in
      some (events ++ (closing ++ (message_delta q.reason q.output_tokens ∷ message_stop ∷ [])))
]

abbrev pub first_progress : Progress
first_progress = record { sanitizer = init; started = false; output_tokens = 0; reason = end_turn }

unfoldable pub stream_events : String → String → ℕ → List Fields → Option (List Event)
stream_events id model prompt_tokens chunks =
    elim (stream_loop (map read_chunk chunks) first_progress) [
      | none ↦ none
      | some run ↦ elim run.end [
        | none ↦ some (message_start id model prompt_tokens ∷ run.events)
        | some p ↦ elim (finish_stream p) [
          | none ↦ none
          | some events ↦ some (message_start id model prompt_tokens ∷ (run.events ++ events))
        ]
      ]
    ]

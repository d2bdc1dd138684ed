-- ===== src/Sanitizer.antt =====
-- backend/response_parser.py: `ThoughtSanitizer`, which removes the model's hidden reasoning from
-- a streamed answer. A text is the list of its code points.
mod Indexes
mod Search
pub mod Scan
mod Positions
pub mod Refine
mod Prefix
mod Starts
mod Extend
mod Tags
mod Pass
mod Finds
mod Stream
pub mod Whole
pub mod History
pub mod Hides
pub mod Bounds
mod Tests
pub mod Termination
use gemma_4_31b_mtp_v_llm_se.Prelude.{
  ℕ, zero, suc, ◌+◌, ◌-◌, min, max, Bool, true, false, ◌||◌, ◌&&◌, Option, none, some, List, [],
  ◌∷◌, ◌++◌, map, ◌==◌, if◌then◌else◌, length, drop, take, is_empty, any,
}
use gemma_4_31b_mtp_v_llm_se.Prelude.Text.{
  Text, codes, starts_with, find, find_from, lower, take_last,
}
use mathlib.Core.Option

-- _CHANNEL_THOUGHT, _CHANNEL_FINAL, _CHANNEL_CLOSE
pub channel_thought : Text
channel_thought = codes "<|channel>thought"

pub channel_final : Text
channel_final = codes "<|channel>final"

pub channel_close : Text
channel_close = codes "<channel|>"

-- f"<{name}" for the names of _HTML_START_NAMES
pub html_starts : List Text
html_starts = codes "<thinking" ∷ codes "<thought" ∷ codes "<think" ∷ []

pub html_closes : List Text
html_closes = codes "</thinking>" ∷ codes "</thought>" ∷ codes "</think>" ∷ []

pub visible_markers : List Text
unfolding channel_thought channel_final channel_close
visible_markers = channel_thought ∷ channel_final ∷ channel_close ∷ []

pub hidden_markers : List Text
unfolding channel_final channel_close html_closes
hidden_markers = channel_final ∷ channel_close ∷ html_closes

pub record Sanitizer : Type 0 where
  pub buffer : Text
  pub hidden : Bool

abbrev pub init : Sanitizer
init = record { buffer = []; hidden = false }

-- `_html_tag_boundary`
pub html_tag_boundary : Text → Bool
html_tag_boundary [] = true
html_tag_boundary (c ∷ cs) = c == b'>' || c == 0x20 || c == 0x09 || c == 0x0a || c == 0x0d

-- `_consume_visible_marker`: the rest of the buffer and the mode after it
pub consume_visible : Text → Option (Text × Bool)
consume_visible b =
    if starts_with b channel_thought
    then some (drop (length channel_thought) b, true)
    else if starts_with b channel_final
    then some (drop (length channel_final) b, false)
    else if starts_with b channel_close
    then some (drop (length channel_close) b, false)
    else none

pub consume_close : Text → List Text → Option Text
consume_close b [] = none
consume_close b (m ∷ ms) =
    let rest = consume_close b ms in
    if starts_with (lower b) m then some (drop (length m) b) else rest

-- `_consume_hidden_marker`: the rest of the buffer; the mode after it is visible
pub consume_hidden : Text → Option Text
consume_hidden b =
    if starts_with b channel_final
    then some (drop (length channel_final) b)
    else if starts_with b channel_close
    then some (drop (length channel_close) b)
    else consume_close b html_closes

-- `min(indexes) if indexes else None`, one index at a time
abbrev pub least : Option ℕ → Option ℕ → Option ℕ
least none j = j
least (some i) none = some i
least (some i) (some j) = some (min i j)

pub least_find : Text → List Text → Option ℕ
least_find text [] = none
least_find text (m ∷ ms) = least (find text m) (least_find text ms)

-- The `while start >= 0` loop of `_find_next_visible_marker`.
pub tag_index : ℕ → Text → Text → Text → Option ℕ → Option ℕ
tag_index fuel b low m none = none
tag_index zero b low m (some start) = none
tag_index (suc fuel) b low m (some start) =
    let next = tag_index fuel b low m (find_from low m (start + 1)) in
    if html_tag_boundary (drop (start + length m) b) then some start else next

pub least_tag : Text → List Text → Option ℕ
least_tag b [] = none
least_tag b (m ∷ ms) =
    least (tag_index (suc (length (lower b))) b (lower b) m (find (lower b) m)) (least_tag b ms)

-- `_find_next_visible_marker`
pub find_next_visible : Text → Option ℕ
find_next_visible b = least (least_find b visible_markers) (least_tag b html_starts)

-- `_find_next_hidden_marker`
pub find_next_hidden : Text → Option ℕ
find_next_hidden b =
    least (least_find b (channel_final ∷ channel_close ∷ [])) (least_find (lower b) html_closes)

pub html_start_among : Text → List Text → Bool
html_start_among b [] = false
html_start_among b (m ∷ ms) =
    (starts_with (lower b) m && html_tag_boundary (drop (length m) b)) || html_start_among b ms

-- `_html_start_at_buffer_start() is not None`
pub html_start : Text → Bool
html_start b = html_start_among b html_starts

pub longest : List Text → ℕ
longest [] = 0
longest (m ∷ ms) = max (length m) (longest ms)

-- The loop of `_safe_suffix_len`, from `n` down to 1.
pub suffix_len : Text → List Text → ℕ → ℕ
suffix_len low markers zero = 0
suffix_len low markers (suc n) =
    let shorter = suffix_len low markers n in
    if any (λ m. starts_with m (take_last (suc n) low)) markers then suc n else shorter

-- `_safe_suffix_len`
pub safe_suffix_len : Text → List Text → ℕ
safe_suffix_len text markers =
    suffix_len (lower text) (map lower markers) (min (length text) (longest markers - 1))

-- One round of the loop of `_drain`: what it appends to the output, the state after it, and
-- whether the loop goes on.
pub data Round : Type 0 where
  stop : Text → Sanitizer → Round
  continue : Text → Sanitizer → Round

pub hidden_round : Bool → Text → Round
hidden_round final b = elim (consume_hidden b) [
  | some rest ↦ continue [] (record { buffer = rest; hidden = false })
  | none ↦ elim (find_next_hidden b) [
    | some i ↦ continue [] (record { buffer = drop i b; hidden = true })
    | none ↦
        if final
        then stop [] (record { buffer = []; hidden = true })
        else stop []
            (record { buffer = take_last (safe_suffix_len b hidden_markers) b; hidden = true })
  ]
]

-- At an opening tag: hidden text follows its `>`.
pub tag_round : Bool → Text → Round
tag_round final b = elim (find b (codes ">")) [
  | some i ↦ continue [] (record { buffer = drop (i + 1) b; hidden = true })
  | none ↦
      if final
      then stop b (record { buffer = []; hidden = false })
      else stop [] (record { buffer = b; hidden = false })
]

pub plain_round : Bool → Text → Round
plain_round final b = elim (find_next_visible b) [
  | some i ↦ continue (take i b) (record { buffer = drop i b; hidden = false })
  | none ↦
      if final
      then stop b (record { buffer = []; hidden = false })
      else let keep = safe_suffix_len b (visible_markers ++ html_starts) in
        stop (take (length b - keep) b) (record { buffer = take_last keep b; hidden = false })
]

pub visible_round : Bool → Text → Round
visible_round final b = elim (consume_visible b) [
  | some (rest, hidden) ↦ continue [] (record { buffer = rest; hidden = hidden })
  | none ↦ if html_start b then tag_round final b else plain_round final b
]

pub drain_round : Bool → Sanitizer → Round
drain_round final s =
    if is_empty s.buffer
    then stop [] s
    else if s.hidden
    then hidden_round final s.buffer
    else visible_round final s.buffer

-- `_drain`, with fuel for the rounds; `none` means that the fuel ran out.
pub drain_loop : ℕ → Bool → Sanitizer → Option (Text × Sanitizer)
drain_loop zero final s = none
drain_loop (suc fuel) final s = elim (drain_round final s) [
  | stop out s' ↦ some (out, s')
  | continue out s' ↦ Option.map (λ r. (out ++ r.0, r.1)) (drain_loop fuel final s')
]

pub drain : Bool → Sanitizer → Option (Text × Sanitizer)
unfolding drain_loop
drain final s = drain_loop (suc (length s.buffer)) final s

pub feed : Text → Sanitizer → Option (Text × Sanitizer)
feed text s =
    if is_empty text then some ([], s) else drain false (record s { buffer = s.buffer ++ text })

pub finish : Sanitizer → Option (Text × Sanitizer)
finish s = drain true s

-- The loop of the callers (`openai_stream_to_anthropic_events`, `_sanitized_content_to_text`): every
-- chunk is fed, and the sanitizer finished; what is shown is joined.
pub sanitize_stream : List Text → Sanitizer → Option Text
sanitize_stream [] s = Option.map (λ r. r.0) (finish s)
sanitize_stream (chunk ∷ chunks) s = elim (feed chunk s) [
  | none ↦ none
  | some (out, s') ↦ Option.map (λ more. out ++ more) (sanitize_stream chunks s')
]

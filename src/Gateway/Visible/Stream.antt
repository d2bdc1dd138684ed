-- ===== src/Gateway/Visible/Stream.antt =====
-- `_sanitize_openai_stream_chunk` of server/app.py. `none` stands for a sanitizer out of fuel.
use gemma_4_31b_mtp_v_llm_se.Prelude.{
  Bool, true, false, Option, none, some, List, [], ◌∷◌, ◌++◌, ◌==◌, if◌then◌else◌,
}
use gemma_4_31b_mtp_v_llm_se.Prelude.Text.{Text, codes}
use gemma_4_31b_mtp_v_llm_se.Prelude.Chars.{text_of}
use gemma_4_31b_mtp_v_llm_se.Json.{
  ℤ, pos, negsuc, Value, null, bool, int, str, list, dict, Items, no_items, item, Fields,
  no_entries, get_or_null, is_null,
}
use gemma_4_31b_mtp_v_llm_se.Sanitizer.{Sanitizer, init, feed, finish}
use gemma_4_31b_mtp_v_llm_se.Gateway.Completions.{set_field}
use gemma_4_31b_mtp_v_llm_se.Gateway.Visible.{drop_field, drop_reasoning_fields}

-- The sanitizers of a stream, by the index of the choice, in the order in which they came
abbrev pub Sanitizers : Type 0
Sanitizers = List (ℤ × Sanitizer)

unfoldable pub int_eq : ℤ → ℤ → Bool
int_eq (pos m) (pos n) = m == n
int_eq (negsuc m) (negsuc n) = m == n
int_eq m n = false

-- `sanitizers.setdefault(index, ThoughtSanitizer())`
unfoldable pub sanitizer_of : ℤ → Sanitizers → Sanitizer
unfolding int_eq
sanitizer_of index [] = init
sanitizer_of index ((i, s) ∷ rest) = if int_eq i index then s else sanitizer_of index rest

unfoldable pub set_sanitizer : ℤ → Sanitizer → Sanitizers → Sanitizers
unfolding int_eq
set_sanitizer index s [] = (index, s) ∷ []
set_sanitizer index s ((i, old) ∷ rest) =
    let later = set_sanitizer index s rest in
    if int_eq i index then (i, s) ∷ rest else (i, old) ∷ later

-- `index if isinstance(index, int) else 0`
unfoldable pub index_of : Value → ℤ
index_of (int n) = n
index_of (bool true) = pos 1
index_of v = pos 0

abbrev pub Shown : Type 0
Shown = Option (Option Fields × Sanitizer)

abbrev pub shown_content : Text → Fields → Fields
shown_content [] delta = drop_field "content" delta
shown_content (c ∷ cs) delta = set_field "content" (str (text_of (c ∷ cs))) delta

unfoldable pub feed_content : Value → Fields → Sanitizer → Shown
unfolding drop_field set_field
feed_content (str text) delta s = elim (feed (codes text) s) [
  | none ↦ none
  | some (shown, s') ↦ some (some (shown_content shown delta), s')
]
feed_content v delta s = some (some delta, s)

-- The delta of a choice, fed
unfoldable pub feed_delta : Value → Value → Sanitizer → Shown
unfolding feed_content drop_reasoning_fields get_or_null
feed_delta (dict delta) finish_reason s =
    let copied = drop_reasoning_fields delta in feed_content (get_or_null "content" copied) copied s
feed_delta v finish_reason s = some (if is_null finish_reason then none else some no_entries, s)

unfoldable pub content_with : Value → Text → Value
unfolding text_of
content_with (str s) tail = str (text_of (codes s ++ tail))
content_with v tail = str (text_of tail)

abbrev pub append_content : Text → Option Fields → Option Fields
append_content [] delta = delta
append_content (c ∷ cs) none = some (set_field "content" (str (text_of (c ∷ cs))) no_entries)
append_content (c ∷ cs) (some delta) =
    some (set_field "content" (content_with (get_or_null "content" delta) (c ∷ cs)) delta)

-- The finish of the sanitizer, where the choice has a finish reason
unfoldable pub finish_delta : Value → Shown → Shown
unfolding content_with set_field get_or_null
finish_delta finish_reason none = none
finish_delta null (some (delta, s)) = some (delta, s)
finish_delta finish_reason (some (delta, s)) = elim (finish s) [
  | none ↦ none
  | some (tail, s') ↦ some (append_content tail delta, s')
]

abbrev pub with_delta : Option Fields → Fields → Fields
with_delta none choice = choice
with_delta (some delta) choice = set_field "delta" (dict delta) choice

-- The choices that are shown, and the sanitizers behind them
abbrev pub Choices : Type 0
Choices = Option (Items × Sanitizers)

abbrev pub and_choice : Value → Choices → Choices
and_choice v none = none
and_choice v (some (vs, ss)) = some (item v vs, ss)

-- The loop of `_sanitize_openai_stream_chunk`
unfoldable pub sanitize_choices : Items → Sanitizers → Choices
unfolding feed_delta finish_delta sanitizer_of set_sanitizer index_of drop_reasoning_fields
    set_field get_or_null
sanitize_choices no_items ss = some (no_items, ss)
sanitize_choices (item (dict choice) vs) ss =
    let copied = drop_reasoning_fields choice in
    let index = index_of (get_or_null "index" copied) in
    let finish_reason = get_or_null "finish_reason" copied in
    elim (finish_delta finish_reason
      (feed_delta (get_or_null "delta" copied) finish_reason (sanitizer_of index ss))) [
        | none ↦ none
        | some (delta, s) ↦
            and_choice (dict (with_delta delta copied))
              (sanitize_choices vs (set_sanitizer index s ss))
      ]
sanitize_choices (item v vs) ss = and_choice v (sanitize_choices vs ss)

abbrev pub with_choices : Fields → Choices → Option (Fields × Sanitizers)
with_choices chunk none = none
with_choices chunk (some (vs, ss)) = some (set_field "choices" (list vs) chunk, ss)

unfoldable pub sanitize_choices_of : Fields → Value → Sanitizers → Option (Fields × Sanitizers)
unfolding sanitize_choices set_field
sanitize_choices_of chunk (list vs) ss = with_choices chunk (sanitize_choices vs ss)
sanitize_choices_of chunk v ss = some (chunk, ss)

-- `_sanitize_openai_stream_chunk`
unfoldable pub sanitize_openai_stream_chunk : Fields → Sanitizers → Option (Fields × Sanitizers)
unfolding sanitize_choices_of get_or_null
sanitize_openai_stream_chunk chunk ss = sanitize_choices_of chunk (get_or_null "choices" chunk) ss

-- ===== src/Gateway/Visible/Hides/Chunks.antt =====
-- The chunks of a stream hold no field of hidden reasoning.
use gemma_4_31b_mtp_v_llm_se.Prelude.{
  ◌≡◌, refl, sym, subst, String, false, Option, none, some, [], ◌∷◌, arith,
}
use gemma_4_31b_mtp_v_llm_se.Prelude.Text.{Text, codes}
use gemma_4_31b_mtp_v_llm_se.Json.{
  Value, null, str, list, dict, Items, no_items, item, AllItems, Fields, no_entries, get,
  get_or_null, is_null,
}
use gemma_4_31b_mtp_v_llm_se.Sanitizer.{Sanitizer, feed, finish}
use gemma_4_31b_mtp_v_llm_se.Sanitizer.Whole.{feed_total, finish_total}
use gemma_4_31b_mtp_v_llm_se.Gateway.Visible.{drop_reasoning_fields}
use gemma_4_31b_mtp_v_llm_se.Gateway.Visible.Stream.{
  Sanitizers, sanitizer_of, set_sanitizer, index_of, Shown, shown_content, feed_content, feed_delta,
  append_content, finish_delta, with_delta, Choices, and_choice, sanitize_choices, with_choices,
  sanitize_choices_of, sanitize_openai_stream_chunk,
}
use gemma_4_31b_mtp_v_llm_se.Gateway.Visible.Hides.{
  HidesReasoning, drop_reasoning_fields-HidesReasoning, set_field-HidesReasoning,
  drop_field-HidesReasoning, get_or_null-set_field, IsClear, IsClearChoice, AreClear,
}

-- What the delta of a choice becomes, clear; where it stays as it is, it must be clear itself.
abbrev IsClearShown : Value → Shown → Type 0
IsClearShown v none = ⊥
IsClearShown v (some (none, s)) = IsClear v
IsClearShown v (some (some delta, s)) = HidesReasoning delta

shown_content-HidesReasoning :
    (shown : Text) (delta : Fields)
    → HidesReasoning delta
    → HidesReasoning (shown_content shown delta)
shown_content-HidesReasoning [] delta h = drop_field-HidesReasoning "content" delta refl refl h
shown_content-HidesReasoning (c ∷ cs) delta h =
    set_field-HidesReasoning "content" _ delta refl refl h

fed_step :
    (text : String) (delta : Fields) (s s' : Sanitizer) (shown : Text)
    → feed (codes text) s ≡ some (shown, s')
    → feed_content (str text) delta s ≡ some (some (shown_content shown delta), s')
unfolding feed_content
fed_step text delta s s' shown e = ground (arith, e)

feed_content-IsClearShown :
    (v content : Value) (delta : Fields) (s : Sanitizer)
    → HidesReasoning delta
    → IsClearShown v (feed_content content delta s)
feed_content-IsClearShown v (str text) delta s h =
    let ((shown, s'), e) = feed_total (codes text) s in
    subst (IsClearShown v) (sym (fed_step text delta s s' shown e))
      (shown_content-HidesReasoning shown delta h)
feed_content-IsClearShown v content delta s h = unfold feed_content in h

feed_delta-IsClearShown :
    (v finish_reason : Value) (s : Sanitizer) → IsClearShown v (feed_delta v finish_reason s)
unfolding feed_delta
feed_delta-IsClearShown (dict delta) finish_reason s =
    feed_content-IsClearShown (dict delta) _ (drop_reasoning_fields delta) s
      (drop_reasoning_fields-HidesReasoning delta)
feed_delta-IsClearShown v null s = tt
feed_delta-IsClearShown v finish_reason s = unfold get in (refl, refl)

append_content-IsClearShown :
    (v : Value) (tail : Text) (delta : Option Fields) (s s' : Sanitizer)
    → IsClearShown v (some (delta, s))
    → IsClearShown v (some (append_content tail delta, s'))
append_content-IsClearShown v [] none s s' h = h
append_content-IsClearShown v [] (some delta) s s' h = h
append_content-IsClearShown v (c ∷ cs) none s s' h =
    set_field-HidesReasoning "content" _ no_entries refl refl (unfold get in (refl, refl))
append_content-IsClearShown v (c ∷ cs) (some delta) s s' h =
    set_field-HidesReasoning "content" _ delta refl refl h

finish_step :
    (finish_reason : Value) (delta : Option Fields) (s s' : Sanitizer) (tail : Text)
    → is_null finish_reason ≡ false
    → finish s ≡ some (tail, s')
    → finish_delta finish_reason (some (delta, s)) ≡ some (append_content tail delta, s')
unfolding finish_delta
finish_step null delta s s' tail n e = cc
finish_step finish_reason delta s s' tail n e = ground (arith, e)

finish_delta-IsClearShown :
    (v finish_reason : Value) (o : Shown)
    → IsClearShown v o
    → IsClearShown v (finish_delta finish_reason o)
finish_delta-IsClearShown v finish_reason none h = unfold finish_delta in h
finish_delta-IsClearShown v null (some (delta, s)) h = unfold finish_delta in h
finish_delta-IsClearShown v finish_reason (some (delta, s)) h =
    let ((tail, s'), e) = finish_total s in
    subst (IsClearShown v) (sym (finish_step finish_reason delta s s' tail refl e))
      (append_content-IsClearShown v tail delta s s' h)

shown_cases :
    (v : Value) (o : Shown)
    → IsClearShown v o
    → (delta : Option Fields) × ((s : Sanitizer) × ((o ≡ some (delta, s))
          × IsClearShown v (some (delta, s))))
shown_cases v none h = absurd h
shown_cases v (some (delta, s)) h = (delta, (s, (refl, h)))

with_delta-IsClearChoice :
    (choice : Fields) (delta : Option Fields) (s : Sanitizer)
    → HidesReasoning choice
    → IsClearShown (get_or_null "delta" choice) (some (delta, s))
    → IsClearChoice "delta" (dict (with_delta delta choice))
with_delta-IsClearChoice choice none s h d = (h, d)
with_delta-IsClearChoice choice (some delta) s h d = (
  set_field-HidesReasoning "delta" (dict delta) choice refl refl h,
  subst IsClear (sym (get_or_null-set_field "delta" (dict delta) choice)) d,
)

abbrev AreClearChoices : Choices → Type 0
AreClearChoices none = ⊥
AreClearChoices (some (vs, ss)) = AllItems (IsClearChoice "delta") vs

and_choice-AreClearChoices :
    (v : Value) (o : Choices)
    → IsClearChoice "delta" v
    → AreClearChoices o
    → AreClearChoices (and_choice v o)
and_choice-AreClearChoices v none h k = k
and_choice-AreClearChoices v (some (vs, ss)) h k = (h, k)

-- What a choice becomes, before its delta is put back
abbrev shown_delta : Fields → Sanitizers → Shown
shown_delta copied ss = finish_delta (get_or_null "finish_reason" copied) (
    feed_delta (get_or_null "delta" copied) (get_or_null "finish_reason" copied)
      (sanitizer_of (index_of (get_or_null "index" copied)) ss))

choice_step :
    (choice : Fields) (vs : Items) (ss : Sanitizers) (delta : Option Fields) (s : Sanitizer)
    → shown_delta (drop_reasoning_fields choice) ss ≡ some (delta, s)
    → sanitize_choices (item (dict choice) vs) ss
      ≡ and_choice (dict (with_delta delta (drop_reasoning_fields choice))) (
          sanitize_choices vs
            (set_sanitizer (index_of (get_or_null "index" (drop_reasoning_fields choice))) s ss))
unfolding sanitize_choices
choice_step choice vs ss delta s e = ground (arith, e)

sanitize_choices-AreClearChoices :
    (vs : Items) (ss : Sanitizers) → AreClearChoices (sanitize_choices vs ss)
unfolding sanitize_choices
sanitize_choices-AreClearChoices no_items ss = tt
sanitize_choices-AreClearChoices (item (dict choice) vs) ss =
    let copied = drop_reasoning_fields choice in
    let d = get_or_null "delta" copied in
    let finish_reason = get_or_null "finish_reason" copied in
    let before = sanitizer_of (index_of (get_or_null "index" copied)) ss in
    let (delta, (s, (e, h))) = shown_cases d (shown_delta copied ss) (
      finish_delta-IsClearShown d finish_reason _
        (feed_delta-IsClearShown d finish_reason before)) in
    subst AreClearChoices (sym (choice_step choice vs ss delta s e)) (
      and_choice-AreClearChoices _ _
        (with_delta-IsClearChoice copied delta s (drop_reasoning_fields-HidesReasoning choice) h)
        (sanitize_choices-AreClearChoices vs _))
sanitize_choices-AreClearChoices (item v vs) ss =
    and_choice-AreClearChoices v (sanitize_choices vs ss) tt
      (sanitize_choices-AreClearChoices vs ss)

-- A chunk is there, and its choices and their deltas are clear.
abbrev pub IsClearChunk : Option (Fields × Sanitizers) → Type 0
IsClearChunk none = ⊥
IsClearChunk (some (chunk, ss)) = AreClear "delta" (get_or_null "choices" chunk)

with_choices-IsClearChunk :
    (chunk : Fields) (o : Choices) → AreClearChoices o → IsClearChunk (with_choices chunk o)
with_choices-IsClearChunk chunk none h = h
with_choices-IsClearChunk chunk (some (vs, ss)) h =
    subst (AreClear "delta") (sym (get_or_null-set_field "choices" (list vs) chunk)) h

choices_of-IsClearChunk :
    (chunk : Fields) (v : Value) (ss : Sanitizers)
    → v ≡ get_or_null "choices" chunk
    → IsClearChunk (sanitize_choices_of chunk v ss)
unfolding sanitize_choices_of
choices_of-IsClearChunk chunk (list vs) ss e =
    with_choices-IsClearChunk chunk (sanitize_choices vs ss)
      (sanitize_choices-AreClearChoices vs ss)
choices_of-IsClearChunk chunk v ss e = subst (AreClear "delta") e tt

pub sanitize_openai_stream_chunk-IsClearChunk :
    (chunk : Fields) (ss : Sanitizers) → IsClearChunk (sanitize_openai_stream_chunk chunk ss)
unfolding sanitize_openai_stream_chunk
sanitize_openai_stream_chunk-IsClearChunk chunk ss =
    choices_of-IsClearChunk chunk (get_or_null "choices" chunk) ss refl

-- ===== src/Sanitizer/Tests.antt =====
-- Runs of `ThoughtSanitizer`, and the theorems about it at concrete texts.
use gemma_4_31b_mtp_v_llm_se.Sanitizer.History.{
  visible_text_for_history, visible_text_for_history-IsTidy, tidy, IsTidy,
}
use gemma_4_31b_mtp_v_llm_se.Prelude.{◌≡◌, refl, false, true, some, List, [], ◌∷◌, ◌++◌, arith}
use gemma_4_31b_mtp_v_llm_se.Prelude.Text.{
  Text, codes, starts_with, find, find_from, lower, take_last,
}
use gemma_4_31b_mtp_v_llm_se.Sanitizer.{
  Sanitizer, init, feed, finish, drain, drain_loop, drain_round, hidden_round, visible_round,
  tag_round, plain_round, consume_visible, consume_hidden, consume_close, find_next_visible,
  find_next_hidden, least_find, least_tag, tag_index, html_tag_boundary, html_start,
  html_start_among, safe_suffix_len, suffix_len, longest, sanitize_stream, channel_thought,
  channel_final, channel_close, html_starts, html_closes, visible_markers, hidden_markers,
}
use gemma_4_31b_mtp_v_llm_se.Sanitizer.Scan.{scan}
use gemma_4_31b_mtp_v_llm_se.Sanitizer.Termination.{drain_loop_total}
use gemma_4_31b_mtp_v_llm_se.Sanitizer.Whole.{sanitize_stream-eq-scan}
use gemma_4_31b_mtp_v_llm_se.Sanitizer.Bounds.{IsBounded, feed-IsBounded}
use gemma_4_31b_mtp_v_llm_se.Sanitizer.Hides.{think, end_think, sanitize_stream-hides_thought}

-- Opens every function of the sanitizer.
machine : Unit {0}
unfolding feed finish drain drain_loop drain_round hidden_round visible_round tag_round plain_round
    consume_visible consume_hidden consume_close find_next_visible find_next_hidden least_find
    least_tag tag_index html_tag_boundary html_start html_start_among safe_suffix_len suffix_len
    longest sanitize_stream channel_thought channel_final channel_close html_starts html_closes
    visible_markers hidden_markers starts_with find find_from lower take_last
machine = tt

abbrev chunks : List Text
chunks = codes "Hi <thi" ∷ codes "nk>no" ∷ codes "t</thi" ∷ codes "nk>there" ∷ []

shown : sanitize_stream chunks init ≡ some (codes "Hi there")
unfolding machine
shown = refl

-- A tag's name must end where it does; an unclosed tag is shown at the end.
lookalike :
    sanitize_stream (codes "a <thinker> <thought x" ∷ []) init
    ≡ some (codes "a <thinker> <thought x")
unfolding machine
lookalike = refl

channel_test :
    sanitize_stream
      (codes "<|channel>thought plan <|channel" ∷ codes ">final answer<channel|>" ∷ [])
      init
    ≡ some (codes " answer")
unfolding machine
channel_test = refl

-- U+0130 before a tag moves the place where the tag is looked for, and the thought is shown.
dotted_capital :
    sanitize_stream ((0x130 ∷ codes "<think>secret</think>") ∷ []) init
    ≡ some (0x130 ∷ codes "<think>secret</think>")
unfolding machine
dotted_capital = refl

drain_loop_total_example :
    (r : Text × Sanitizer) × (drain_loop 8 true
        (record { buffer = codes "<think>"; hidden = false })
      ≡ some r)
drain_loop_total_example =
    drain_loop_total 8 true (record { buffer = codes "<think>"; hidden = false }) (omega arith)

sanitize_stream-eq-scan_example :
    sanitize_stream chunks init ≡ some (scan false (codes "Hi <think>not</think>there"))
sanitize_stream-eq-scan_example = sanitize_stream-eq-scan chunks (omega arith)

sanitize_stream-hides_thought_example :
    sanitize_stream chunks init ≡ some (codes "Hi " ++ codes "there")
sanitize_stream-hides_thought_example =
    sanitize_stream-hides_thought (codes "Hi ") (codes "not") (codes "there") think end_think chunks
      (refl, omega arith) (refl, omega arith) (refl, omega arith) refl

feed-IsBounded_example :
    (out : Text) × (s' : Sanitizer) × (feed (codes "Hi <thi") init ≡ some (out, s')) × IsBounded s'
feed-IsBounded_example = feed-IsBounded (codes "Hi <thi") init (omega arith)

abbrev loose_text : Text
loose_text = codes "a  \n\n\n<think>x</think>b "

visible_text_for_history-IsTidy_example :
    (cleaned : Text) × ((sanitize_stream (loose_text ∷ []) init ≡ some cleaned)
      × ((visible_text_for_history loose_text ≡ some (tidy cleaned)) × IsTidy (tidy cleaned)))
visible_text_for_history-IsTidy_example = visible_text_for_history-IsTidy loose_text

history_run : visible_text_for_history loose_text ≡ some (codes "a\n\nb")
unfolding machine visible_text_for_history
history_run = refl

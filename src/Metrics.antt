-- ===== src/Metrics.antt =====
-- src/gemma4_mtp_vllm/mtp_metrics.py: the change of the metrics of speculative decoding. The floats of
-- Python are any type with the operations of `Ops`; `last_observation`, a time, is left out.
pub mod Lines
pub mod Reference
pub mod Changes
mod Tests
use gemma_4_31b_mtp_v_llm_se.Prelude.{
  Bool, true, false, not, ◌&&◌, ◌||◌, Option, none, some, List, [], ◌∷◌, map, if◌then◌else◌,
}
use gemma_4_31b_mtp_v_llm_se.Prelude.Text.{Text}
use gemma_4_31b_mtp_v_llm_se.Metrics.Lines.{
  Kind, rounds, drafted, accepted, requests, MetricLine, read_metric, split_lines,
}

-- Python's floats: `float(text)`, `math.isfinite`, 0.0, `+`, `-`, `/` and `>`
pub record Ops (F : Type 0) : Type 0 where
  pub float_of : Text → Option F
  pub is_finite : F → Bool
  pub nought : F
  pub plus : F → F → F
  pub minus : F → F → F
  pub over : F → F → F
  pub gt : F → F → Bool

-- `max(x, 0.0)`
unfoldable pub at_least_nought : {F : Type 0} → Ops F → F → F
at_least_nought o x = if o.gt o.nought x then o.nought else x

-- What the two errors of a value name
pub data ParseError : Type 0 where
  could_not_parse non_finite : (value : Text) → ParseError

-- What a line adds: nothing, an error, or a value
pub data Sample (F : Type 0) : Type 0 where
  skipped : Sample F
  wrong : ParseError → Sample F
  sample : Kind → F → Sample F

unfoldable pub finite_sample : {F : Type 0} → Ops F → Kind → Text → Option F → Sample F
finite_sample o kind text none = wrong (could_not_parse text)
finite_sample o kind text (some x) =
    if o.is_finite x then sample kind x else wrong (non_finite text)

unfoldable pub sample_of : {F : Type 0} → Ops F → Option MetricLine → Sample F
unfolding finite_sample
sample_of o none = skipped
sample_of o (some line) = finite_sample o line.kind line.value (o.float_of line.value)

pub record Totals (F : Type 0) : Type 0 where
  pub draft_rounds : F
  pub drafted_tokens : F
  pub accepted_tokens : F
  pub request_count : F

abbrev pub no_totals : {F : Type 0} → Ops F → Totals F
no_totals o = record {
  draft_rounds = o.nought;
  drafted_tokens = o.nought;
  accepted_tokens = o.nought;
  request_count = o.nought;
}

-- `totals[kind] += value`
unfoldable pub add_to : {F : Type 0} → Ops F → Kind → F → Totals F → Totals F
add_to o rounds x t = record t { draft_rounds = o.plus t.draft_rounds x }
add_to o drafted x t = record t { drafted_tokens = o.plus t.drafted_tokens x }
add_to o accepted x t = record t { accepted_tokens = o.plus t.accepted_tokens x }
add_to o requests x t = record t { request_count = o.plus t.request_count x }

pub data StateName : Type 0 where
  parse_error unavailable registered_but_idle active : StateName

-- The dictionary of the state; in `_empty_mtp_state` the numbers are `None`.
pub record MtpState (F : Type 0) : Type 0 where
  pub state : StateName
  pub metrics_registered : Bool
  pub active_since_start : Bool
  pub totals : Option (Totals F)
  pub rejected_tokens : Option F
  pub acceptance_rate : Option F
  pub mean_acceptance_length : Option F
  pub error : Option ParseError

unfoldable pub empty_mtp_state : {F : Type 0} → StateName → Bool → Option ParseError → MtpState F
empty_mtp_state name registered error = record {
  state = name;
  metrics_registered = registered;
  active_since_start = false;
  totals = none;
  rejected_tokens = none;
  acceptance_rate = none;
  mean_acceptance_length = none;
  error = error;
}

-- `drafted > 0 or rounds > 0`
abbrev pub is_active : {F : Type 0} → Ops F → F → F → Bool
is_active o drafted_tokens draft_rounds = o.gt drafted_tokens o.nought || o.gt draft_rounds o.nought

abbrev pub name_of : Bool → StateName
name_of b = if b then active else registered_but_idle

-- `max(drafted - accepted, 0.0) if drafted > 0 else 0.0`
unfoldable pub rejected_of : {F : Type 0} → Ops F → F → F → F
unfolding at_least_nought
rejected_of o drafted_tokens accepted_tokens =
    if o.gt drafted_tokens o.nought
    then at_least_nought o (o.minus drafted_tokens accepted_tokens)
    else o.nought

-- `x / y if y > 0 else None`
unfoldable pub ratio_of : {F : Type 0} → Ops F → F → F → Option F
ratio_of o x y = if o.gt y o.nought then some (o.over x y) else none

unfoldable pub observed : {F : Type 0} → Ops F → Totals F → MtpState F
unfolding rejected_of ratio_of
observed o t = record {
  state = name_of (is_active o t.drafted_tokens t.draft_rounds);
  metrics_registered = true;
  active_since_start = is_active o t.drafted_tokens t.draft_rounds;
  totals = some t;
  rejected_tokens = some (rejected_of o t.drafted_tokens t.accepted_tokens);
  acceptance_rate = ratio_of o t.accepted_tokens t.drafted_tokens;
  mean_acceptance_length = ratio_of o t.accepted_tokens t.draft_rounds;
  error = none;
}

-- The loop over the lines, and what comes behind it
unfoldable pub sum_samples : {F : Type 0} → Ops F → List (Sample F) → Totals F → Bool → MtpState F
unfolding add_to observed empty_mtp_state
sum_samples o [] t registered =
    if registered then observed o t else empty_mtp_state unavailable false none
sum_samples o (skipped ∷ rest) t registered = sum_samples o rest t registered
sum_samples o (wrong error ∷ rest) t registered = empty_mtp_state parse_error true (some error)
sum_samples o (sample kind x ∷ rest) t registered = sum_samples o rest (add_to o kind x t) true

-- What each line of the text adds
unfoldable pub samples_of : {F : Type 0} → Ops F → Option Text → Text → List (Sample F)
unfolding sample_of read_metric split_lines
samples_of o model_name text =
    map (λ line. sample_of o (read_metric model_name line)) (split_lines text)

unfoldable pub parse_mtp_metrics : {F : Type 0} → Ops F → Text → Option Text → MtpState F
unfolding sum_samples samples_of
parse_mtp_metrics o text model_name =
    sum_samples o (samples_of o model_name text) (no_totals o) false

-- The dictionary of the change
pub record MtpDelta (F : Type 0) : Type 0 where
  pub state : StateName
  pub draft_rounds : Option F
  pub drafted_tokens : Option F
  pub accepted_tokens : Option F
  pub rejected_tokens : Option F
  pub acceptance_rate : Option F
  pub mean_acceptance_length : Option F

unfoldable pub empty_delta : {F : Type 0} → StateName → MtpDelta F
empty_delta name = record {
  state = name;
  draft_rounds = none;
  drafted_tokens = none;
  accepted_tokens = none;
  rejected_tokens = none;
  acceptance_rate = none;
  mean_acceptance_length = none;
}

-- `_delta`, over the totals of the two states
unfoldable pub change_of :
    {F : Type 0} → Ops F → (Totals F → F) → Option (Totals F) → Option (Totals F) → F
unfolding at_least_nought
change_of o field (some before) (some after) =
    at_least_nought o (o.minus (field after) (field before))
change_of o field before after = o.nought

unfoldable pub delta_with : {F : Type 0} → Ops F → F → F → F → MtpDelta F
unfolding rejected_of ratio_of
delta_with o draft_rounds drafted_tokens accepted_tokens = record {
  state = name_of (is_active o drafted_tokens draft_rounds);
  draft_rounds = some draft_rounds;
  drafted_tokens = some drafted_tokens;
  accepted_tokens = some accepted_tokens;
  rejected_tokens = some (rejected_of o drafted_tokens accepted_tokens);
  acceptance_rate = ratio_of o accepted_tokens drafted_tokens;
  mean_acceptance_length = ratio_of o accepted_tokens draft_rounds;
}

abbrev pub is_parse_error : StateName → Bool
is_parse_error parse_error = true
is_parse_error name = false

unfoldable pub mtp_metric_delta : {F : Type 0} → Ops F → MtpState F → MtpState F → MtpDelta F
unfolding delta_with change_of empty_delta
mtp_metric_delta o before after =
    if is_parse_error before.state || is_parse_error after.state
    then empty_delta parse_error
    else if not before.metrics_registered || not after.metrics_registered
    then empty_delta unavailable
    else delta_with o (change_of o (λ t. t.draft_rounds) before.totals after.totals)
        (change_of o (λ t. t.drafted_tokens) before.totals after.totals)
        (change_of o (λ t. t.accepted_tokens) before.totals after.totals)

-- ===== src/Metrics/Reference.antt =====
-- The loop over the metrics, against what the list of all samples says.
use gemma_4_31b_mtp_v_llm_se.Prelude.{
  Bool, true, false, ◌||◌, ◌≡◌, refl, Option, none, some, List, [], ◌∷◌, any, if◌then◌else◌,
}
use gemma_4_31b_mtp_v_llm_se.Prelude.Text.{Text}
use gemma_4_31b_mtp_v_llm_se.Metrics.Lines.{Kind, rounds, drafted, accepted, requests}
use gemma_4_31b_mtp_v_llm_se.Metrics.{
  Ops, ParseError, Sample, skipped, wrong, sample, Totals, no_totals, add_to, MtpState, parse_error,
  unavailable, empty_mtp_state, observed, sum_samples, samples_of, parse_mtp_metrics,
}

abbrev pub first_error : {F : Type 0} → List (Sample F) → Option ParseError
first_error [] = none
first_error (wrong error ∷ rest) = some error
first_error (skipped ∷ rest) = first_error rest
first_error (sample kind x ∷ rest) = first_error rest

abbrev pub is_sample : {F : Type 0} → Sample F → Bool
is_sample skipped = false
is_sample (wrong error) = true
is_sample (sample kind x) = true

abbrev pub same_kind : Kind → Kind → Bool
same_kind rounds rounds = true
same_kind drafted drafted = true
same_kind accepted accepted = true
same_kind requests requests = true
same_kind kind other = false

-- The sum of the values of one kind, on top of a number
abbrev pub sum_of : {F : Type 0} → Ops F → Kind → F → List (Sample F) → F
sum_of o kind total [] = total
sum_of o kind total (sample k x ∷ rest) =
    sum_of o kind (if same_kind k kind then o.plus total x else total) rest
sum_of o kind total (skipped ∷ rest) = sum_of o kind total rest
sum_of o kind total (wrong error ∷ rest) = sum_of o kind total rest

abbrev pub sums_of : {F : Type 0} → Ops F → Totals F → List (Sample F) → Totals F
sums_of o t samples = record {
  draft_rounds = sum_of o rounds t.draft_rounds samples;
  drafted_tokens = sum_of o drafted t.drafted_tokens samples;
  accepted_tokens = sum_of o accepted t.accepted_tokens samples;
  request_count = sum_of o requests t.request_count samples;
}

abbrev pub state_of : {F : Type 0} → Ops F → Option ParseError → Bool → Totals F → MtpState F
state_of o (some error) registered t = empty_mtp_state parse_error true (some error)
state_of o none true t = observed o t
state_of o none false t = empty_mtp_state unavailable false none

or_true : (b : Bool) → (b || true) ≡ true
or_true true = refl
or_true false = refl

sum_samples-eq-sums :
    {F : Type 0} (o : Ops F) (samples : List (Sample F)) (t : Totals F) (registered : Bool)
    → sum_samples o samples t registered
      ≡ state_of o (first_error samples) (registered || any is_sample samples) (sums_of o t samples)
unfolding sum_samples add_to
sum_samples-eq-sums o [] t true = refl
sum_samples-eq-sums o [] t false = refl
sum_samples-eq-sums o (skipped ∷ rest) t registered = sum_samples-eq-sums o rest t registered
sum_samples-eq-sums o (wrong error ∷ rest) t registered = refl
sum_samples-eq-sums o (sample rounds x ∷ rest) t registered =
    rw (or_true registered) (sum_samples-eq-sums o rest (add_to o rounds x t) true)
sum_samples-eq-sums o (sample drafted x ∷ rest) t registered =
    rw (or_true registered) (sum_samples-eq-sums o rest (add_to o drafted x t) true)
sum_samples-eq-sums o (sample accepted x ∷ rest) t registered =
    rw (or_true registered) (sum_samples-eq-sums o rest (add_to o accepted x t) true)
sum_samples-eq-sums o (sample requests x ∷ rest) t registered =
    rw (or_true registered) (sum_samples-eq-sums o rest (add_to o requests x t) true)

-- For any floats, the text of the metrics is read as the list of what its lines add says: where a line
-- that counts has no finite value, the state is that of an error, with the first such value; else, where
-- no line counts, it is that of no metrics; else it is the one observed with the sum of the values of
-- each kind, in the order of the lines.
pub parse_mtp_metrics-eq-sums :
    {F : Type 0} (o : Ops F) (text : Text) (model_name : Option Text)
    → parse_mtp_metrics o text model_name
      ≡ state_of o
          (first_error (samples_of o model_name text))
          (any is_sample (samples_of o model_name text))
          (sums_of o (no_totals o) (samples_of o model_name text))
unfolding parse_mtp_metrics
parse_mtp_metrics-eq-sums o text model_name =
    sum_samples-eq-sums o (samples_of o model_name text) (no_totals o) false

-- ===== src/Metrics/Changes.antt =====
-- The change of the metrics between two states.
use gemma_4_31b_mtp_v_llm_se.Prelude.{true, false, ◌&&◌, ◌||◌, ◌≡◌, ◌⊎◌, Option, none, some}
use gemma_4_31b_mtp_v_llm_se.Metrics.{
  Ops, parse_error, unavailable, active, registered_but_idle, MtpState, MtpDelta, empty_delta,
  is_parse_error,
}

-- A number that is there, and not below 0.0
abbrev pub IsCounted : {F : Type 0} → Ops F → Option F → Type 0
IsCounted o none = ⊥
IsCounted o (some x) = o.gt o.nought x ≡ false

-- What is divided by is above 0.0.
abbrev pub IsRatio : {F : Type 0} → Ops F → Option F → Option F → Option F → Type 0
IsRatio o (some x) (some y) ratio =
    ((ratio ≡ some (o.over x y)) × (o.gt y o.nought ≡ true))
    ⊎ ((ratio ≡ none) × (o.gt y o.nought ≡ false))
IsRatio o x y ratio = ⊥

abbrev IsAbove : {F : Type 0} → Ops F → Option F → Type 0
IsAbove o none = ⊥
IsAbove o (some x) = o.gt x o.nought ≡ true

abbrev IsStill : {F : Type 0} → Ops F → Option F → Type 0
IsStill o none = ⊥
IsStill o (some x) = o.gt x o.nought ≡ false

-- A change that was observed
abbrev pub IsObserved : {F : Type 0} → Ops F → MtpDelta F → Type 0
IsObserved o d =
    IsCounted o d.draft_rounds
    × IsCounted o d.drafted_tokens
    × IsCounted o d.accepted_tokens
    × IsCounted o d.rejected_tokens
    × IsRatio o d.accepted_tokens d.drafted_tokens d.acceptance_rate
    × IsRatio o d.accepted_tokens d.draft_rounds d.mean_acceptance_length
    × (((d.state ≡ active) × (IsAbove o d.drafted_tokens ⊎ IsAbove o d.draft_rounds))
        ⊎ ((d.state ≡ registered_but_idle)
            × (IsStill o d.drafted_tokens × IsStill o d.draft_rounds)))

-- Each case of the change
abbrev pub IsChange : {F : Type 0} → Ops F → MtpState F → MtpState F → MtpDelta F → Type 0
IsChange o before after d =
    ((d ≡ empty_delta parse_error)
      × ((is_parse_error before.state || is_parse_error after.state) ≡ true))
    ⊎ (((d ≡ empty_delta unavailable)
          × ((before.metrics_registered && after.metrics_registered) ≡ false))
        ⊎ (((before.metrics_registered && after.metrics_registered) ≡ true) × IsObserved o d))

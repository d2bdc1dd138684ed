-- ===== src/Anthropic/Readings.antt =====
-- What the chunks of a stream bring, up to the end.
use gemma_4_31b_mtp_v_llm_se.Prelude.{List, [], ◌∷◌, if◌then◌else◌}
use gemma_4_31b_mtp_v_llm_se.Prelude.Text.{Text}
use gemma_4_31b_mtp_v_llm_se.Json.{truthy}
use gemma_4_31b_mtp_v_llm_se.Sanitizer.{finish}
use gemma_4_31b_mtp_v_llm_se.Anthropic.{
  StopReason, Reading, done, skip, raised, choice, stop_reason,
}

-- No chunk up to the end raises.
abbrev pub IsReadable : List Reading → Type 0
IsReadable [] = Unit
IsReadable (done ∷ readings) = Unit
IsReadable (skip ∷ readings) = IsReadable readings
IsReadable (raised ∷ readings) = ⊥
IsReadable (choice content finish ∷ readings) = IsReadable readings

-- The text that the chunks bring, up to the end
abbrev pub contents : List Reading → List Text
contents [] = []
contents (done ∷ readings) = []
contents (skip ∷ readings) = contents readings
contents (raised ∷ readings) = []
contents (choice content finish ∷ readings) = content ∷ contents readings

-- The last finish reason that the chunks bring, up to the end, or the given one
abbrev pub last_reason : StopReason → List Reading → StopReason
last_reason reason [] = reason
last_reason reason (done ∷ readings) = reason
last_reason reason (skip ∷ readings) = last_reason reason readings
last_reason reason (raised ∷ readings) = reason
last_reason reason (choice content finish ∷ readings) =
    last_reason (if truthy finish then stop_reason finish else reason) readings

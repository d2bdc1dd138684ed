-- ===== src/Gateway/RuntimeState/Tests.antt =====
-- Runs of the slots, and the theorems about them at a concrete sequence of calls.
use gemma_4_31b_mtp_v_llm_se.Prelude.{◌≡◌, refl}
use gemma_4_31b_mtp_v_llm_se.Gateway.RuntimeState.{
  RuntimeState, fresh, init, acquire_generation_slot, release_slot,
}
use gemma_4_31b_mtp_v_llm_se.Gateway.RuntimeState.Slots.{
  Reach, started, given, refused, released, IsAccounted, slots-IsAccounted,
}

slots : Unit {0}
unfolding init acquire_generation_slot release_slot
slots = tt

abbrev acquire : RuntimeState → RuntimeState
acquire s = (acquire_generation_slot s).1

-- A queue of size 1: two slots given, one attempt refused, one slot back, one more given.
abbrev busy : RuntimeState
busy = acquire (release_slot (acquire (acquire (acquire (fresh 1)))))

busy_reached : Reach 1 busy 4 2 1
unfolding slots
busy_reached = given (released (refused (given (given (started refl) refl) refl) refl)) refl

busy_numbers : (busy.active ≡ 2) × (busy.total ≡ 3) × (busy.rejected ≡ 1)
unfolding slots
busy_numbers = (refl, refl, refl)

slots-IsAccounted_example : IsAccounted 1 busy 4 2 1
slots-IsAccounted_example = slots-IsAccounted 1 busy 4 2 1 busy_reached

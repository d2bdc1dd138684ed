-- ===== src/Gateway/RateLimit.antt =====
-- `_allow_rate` of server/middleware.py, and a client's requests one after the other.
-- Times are ticks of the monotonic clock.
pub mod Window
pub mod History
mod Tests
use gemma_4_31b_mtp_v_llm_se.Prelude.{
  ℕ, zero, suc, ◌+◌, ◌-◌, ◌*◌, ltb, leb, if◌then◌else◌, Bool, true, false, List, [], ◌∷◌, ◌++◌,
  length,
}

-- `_RATE_WINDOW_SECONDS`, in nanoseconds
pub rate_window : ℕ
rate_window = 60 * 1000000000

-- The loop that takes the old times from the front of the bucket
pub expire : ℕ → List ℕ → List ℕ
unfolding rate_window
expire now [] = []
expire now (t ∷ ts) = let rest = expire now ts in if ltb rate_window (now - t) then rest else t ∷ ts

pub allow_rate : ℕ → ℕ → List ℕ → Bool × List ℕ
allow_rate rpm_limit now bucket =
    let recent = expire now bucket in
    if leb rpm_limit (length recent) then (false, recent) else (true, recent ++ now ∷ [])

-- The requests of one client at the given times: the times of those that are let through.
unfoldable pub serve : ℕ → List ℕ → List ℕ → List ℕ
serve rpm_limit [] bucket = []
serve rpm_limit (now ∷ times) bucket =
    let (allowed, next) = allow_rate rpm_limit now bucket in
    let rest = serve rpm_limit times next in if allowed then now ∷ rest else rest

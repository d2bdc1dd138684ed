-- ===== src/Gateway/RateLimit/Tests.antt =====
-- Runs of the rate limiter, and the theorems about it at concrete times.
use gemma_4_31b_mtp_v_llm_se.Prelude.{ℕ, ◌≡◌, ◌≤◌, ◌*◌, refl, List, [], ◌∷◌, arith}
use gemma_4_31b_mtp_v_llm_se.Gateway.RateLimit.{rate_window, expire, allow_rate, serve}
use gemma_4_31b_mtp_v_llm_se.Gateway.RateLimit.Window.{IsOrdered, count_within, serve-bounded}
use gemma_4_31b_mtp_v_llm_se.Gateway.RateLimit.History.{history_serve, serve-eq-history_serve}

abbrev seconds : ℕ → ℕ
seconds n = n * 1000000000

-- Two requests a minute: the third is refused, and the first is forgotten after 60 seconds.
abbrev arrivals : List ℕ
arrivals = 0 ∷ seconds 10 ∷ seconds 20 ∷ seconds 60 ∷ seconds 61 ∷ []

let_through : serve 2 arrivals [] ≡ 0 ∷ seconds 10 ∷ seconds 61 ∷ []
unfolding serve allow_rate expire rate_window
let_through = refl

arrivals-IsOrdered : IsOrdered 0 arrivals
arrivals-IsOrdered = (omega arith, (omega arith, (omega arith, (omega arith, (omega arith, tt)))))

serve-bounded_example : count_within (seconds 5) (serve 2 arrivals []) ≤ 2
serve-bounded_example = serve-bounded 2 (seconds 5) arrivals arrivals-IsOrdered

serve-eq-history_serve_example : serve 2 arrivals [] ≡ history_serve 2 arrivals []
serve-eq-history_serve_example = serve-eq-history_serve 2 arrivals arrivals-IsOrdered

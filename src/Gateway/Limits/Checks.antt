-- ===== src/Gateway/Limits/Checks.antt =====
-- Which limits a server is started with.
use gemma_4_31b_mtp_v_llm_se.Prelude.{
  ℕ, suc, ◌≡◌, ◌↔◌, refl, ap, true, false, Option, none, some, arith,
}
use gemma_4_31b_mtp_v_llm_se.Json.{ℤ, pos, negsuc, Float, nan, infinity, fraction}
use gemma_4_31b_mtp_v_llm_se.Gateway.Limits.{
  ServerLimits, valid, is_positive, is_negative, is_at_most_zero, timeout_is_wrong, post_init,
}
use gemma_4_31b_mtp_v_llm_se.Gateway.RuntimeState.{fresh, init}

abbrev pub IsPositive : ℤ → Type 0
IsPositive n = (k : ℕ) × (n ≡ pos (suc k))

abbrev pub IsNatural : ℤ → Type 0
IsNatural n = (k : ℕ) × (n ≡ pos k)

-- No timeout, or one above 0; NaN is let through
abbrev pub IsTimeout : Option Float → Type 0
IsTimeout none = Unit
IsTimeout (some nan) = Unit
IsTimeout (some (infinity negative)) = negative ≡ false
IsTimeout (some (fraction n d)) = IsPositive n

pub record IsSound (l : ServerLimits) : Type 0 where
  pub body : IsPositive l.max_body_bytes
  pub output : IsPositive l.max_output_tokens
  pub queue : IsPositive l.max_queue_size
  pub rate : IsNatural l.rate_limit_rpm
  pub timeout : IsTimeout l.generation_timeout_seconds

is_positive_iff : (n : ℤ) → (is_positive n ≡ true) ↔ IsPositive n
unfolding is_positive
is_positive_iff (pos (suc n)) = (λ h. (n, refl), λ h. refl)
is_positive_iff n = (λ h. cc, λ (k, e). cc)

is_negative_iff : (n : ℤ) → (is_negative n ≡ false) ↔ IsNatural n
unfolding is_negative
is_negative_iff (pos n) = (λ h. (n, refl), λ h. refl)
is_negative_iff (negsuc n) = (λ h. cc, λ (k, e). cc)

timeout_is_wrong_iff : (o : Option Float) → (timeout_is_wrong o ≡ false) ↔ IsTimeout o
unfolding timeout_is_wrong is_at_most_zero
timeout_is_wrong_iff none = (λ h. tt, λ h. refl)
timeout_is_wrong_iff (some nan) = (λ h. tt, λ h. refl)
timeout_is_wrong_iff (some (infinity negative)) = (λ h. h, λ h. h)
timeout_is_wrong_iff (some (fraction (pos (suc n)) d)) = (λ h. (n, refl), λ h. refl)
timeout_is_wrong_iff (some (fraction n d)) = (λ h. cc, λ (k, e). cc)

-- Limits are accepted exactly when the sizes of the body, the output and the queue are positive, the
-- rate is not negative, and the timeout is missing, NaN or above 0.
pub post_init_iff : (l : ServerLimits) → (post_init l ≡ valid l) ↔ IsSound l
unfolding post_init
post_init_iff l =
    let (body, body') = is_positive_iff l.max_body_bytes in
    let (output, output') = is_positive_iff l.max_output_tokens in
    let (queue, queue') = is_positive_iff l.max_queue_size in
    let (rate, rate') = is_negative_iff l.rate_limit_rpm in
    let (timeout, timeout') = timeout_is_wrong_iff l.generation_timeout_seconds in
    (
      λ h. record {
        body = body (ground arith);
        output = output (ground arith);
        queue = queue (ground arith);
        rate = rate (ground arith);
        timeout = timeout (ground arith);
      },
      λ s. rw (body' s.body, output' s.output, queue' s.queue, rate' s.rate, timeout' s.timeout),
    )

-- Limits that are accepted give a queue that the gateway can start with.
pub post_init-starts :
    (l : ServerLimits)
    → post_init l ≡ valid l
    → (n : ℕ) × (l.max_queue_size ≡ pos (suc n)) × (init l.max_queue_size ≡ some (fresh (suc n)))
unfolding init
post_init-starts l h = let (n, e) = ((post_init_iff l).0 h).queue in (n, e, ap init e)

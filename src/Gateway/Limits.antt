-- ===== src/Gateway/Limits.antt =====
-- server/limits.py and server/bind_policy.py.
pub mod Checks
mod Tests
use gemma_4_31b_mtp_v_llm_se.Prelude.{
  ℕ, zero, suc, ◌*◌, String, Bool, true, false, not, ◌||◌, ◌&&◌, Option, none, some, List, [], ◌∷◌,
  ◌++◌, any, if◌then◌else◌, ◌==◌,
}
use gemma_4_31b_mtp_v_llm_se.Prelude.Text.{Text, codes, strip, lower_char}
use gemma_4_31b_mtp_v_llm_se.Json.{ℤ, pos, negsuc, Float, nan, infinity, fraction}

pub record ServerLimits : Type 0 where
  pub max_body_bytes : ℤ
  pub max_output_tokens : ℤ
  pub max_queue_size : ℤ
  pub rate_limit_rpm : ℤ
  pub metrics_enabled : Bool
  pub cors_origins : List String
  pub generation_timeout_seconds : Option Float

pub data LimitResult : Type 0 where
  valid : ServerLimits → LimitResult
  value_error : (field : String) → LimitResult

-- `n <= 0` and `n < 0`
pub is_positive : ℤ → Bool
is_positive (pos (suc n)) = true
is_positive v = false

pub is_negative : ℤ → Bool
is_negative (negsuc n) = true
is_negative v = false

-- `seconds <= 0`, which is false for NaN
pub is_at_most_zero : Float → Bool
is_at_most_zero nan = false
is_at_most_zero (infinity negative) = negative
is_at_most_zero (fraction (pos (suc n)) d) = false
is_at_most_zero (fraction v d) = true

pub timeout_is_wrong : Option Float → Bool
timeout_is_wrong none = false
timeout_is_wrong (some seconds) = is_at_most_zero seconds

-- `ServerLimits(...)` with its `__post_init__`
pub post_init : ServerLimits → LimitResult
post_init l =
    if not (is_positive l.max_body_bytes)
    then value_error "max_body_bytes"
    else if not (is_positive l.max_output_tokens)
    then value_error "max_output_tokens"
    else if not (is_positive l.max_queue_size)
    then value_error "max_queue_size"
    else if is_negative l.rate_limit_rpm
    then value_error "rate_limit_rpm"
    else if timeout_is_wrong l.generation_timeout_seconds
    then value_error "generation_timeout_seconds"
    else valid l

-- Equality of texts
pub text_eq : Text → Text → Bool
text_eq [] [] = true
text_eq (x ∷ xs) (y ∷ ys) = x == y && text_eq xs ys
text_eq xs ys = false

abbrev pub loopback_hosts : List Text
loopback_hosts = codes "127.0.0.1" ∷ codes "::1" ∷ codes "localhost" ∷ []

-- `text.casefold()`. As for `lower`, only what a loopback host can be told from is written out: the
-- long s and the two ligatures of s and t, which fold to letters of ASCII.
pub casefold : Text → Text
casefold [] = []
casefold (c ∷ cs) =
    let rest = casefold cs in
    if c == 0x17f
    then b's' ∷ rest
    else if c == 0xfb05 || c == 0xfb06
    then b's' ∷ b't' ∷ rest
    else lower_char c ++ rest

pub bind_host_requires_api_key : Text → Bool
bind_host_requires_api_key host =
    let normalized = casefold (strip host) in not (any (text_eq normalized) loopback_hosts)

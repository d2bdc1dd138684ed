-- ===== src/Gateway/Limits/Tests.antt =====
-- Runs of the checks of the limits and of the host, and the theorems about them at concrete limits.
use gemma_4_31b_mtp_v_llm_se.Prelude.{◌*◌, ◌≡◌, refl, true, false, some, []}
use gemma_4_31b_mtp_v_llm_se.Prelude.Text.{codes, strip, lower_char, is_space}
use gemma_4_31b_mtp_v_llm_se.Json.{pos, negsuc, nan, fraction}
use gemma_4_31b_mtp_v_llm_se.Gateway.Limits.{
  ServerLimits, valid, value_error, is_positive, is_negative, is_at_most_zero, timeout_is_wrong,
  post_init, text_eq, casefold, bind_host_requires_api_key,
}

limit_checks : Unit {0}
unfolding post_init is_positive is_negative is_at_most_zero timeout_is_wrong
    bind_host_requires_api_key casefold text_eq strip lower_char is_space
limit_checks = tt

abbrev defaults : ServerLimits
defaults = record {
  max_body_bytes = pos (2 * 1024 * 1024);
  max_output_tokens = pos 4096;
  max_queue_size = pos 8;
  rate_limit_rpm = pos 30;
  metrics_enabled = true;
  cors_origins = [];
  generation_timeout_seconds = some (fraction (pos 900) 0);
}

verdicts :
    (post_init defaults ≡ valid defaults)
    × (post_init (record defaults { max_queue_size = pos 0; rate_limit_rpm = negsuc 0 })
        ≡ value_error "max_queue_size")
    × (post_init (record defaults { generation_timeout_seconds = some (fraction (pos 0) 0) })
        ≡ value_error "generation_timeout_seconds")
    × (post_init (record defaults { generation_timeout_seconds = some nan })
        ≡ valid (record defaults { generation_timeout_seconds = some nan }))
unfolding limit_checks
verdicts = (refl, refl, refl, refl)

hosts :
    (bind_host_requires_api_key (codes " LocalHost ") ≡ false)
    × (bind_host_requires_api_key (codes "localhoſt") ≡ false)
    × (bind_host_requires_api_key (codes "0.0.0.0") ≡ true)
unfolding limit_checks
hosts = (refl, refl, refl)

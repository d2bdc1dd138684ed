-- ===== src/Gateway/Boundary/Tests.antt =====
-- Runs of the gateway, and the theorems about it at concrete requests.
use gemma_4_31b_mtp_v_llm_se.Prelude.{
  ◌≡◌, refl, String, true, Option, none, some, [], ◌∷◌, if◌then◌else◌,
}
use gemma_4_31b_mtp_v_llm_se.Prelude.Text.{starts_with, strip, is_space}
use gemma_4_31b_mtp_v_llm_se.Json.{pos}
use gemma_4_31b_mtp_v_llm_se.Gateway.RuntimeState.{fresh}
use gemma_4_31b_mtp_v_llm_se.Gateway.Http.{
  Request, Response, no_content, get_header, set_header, protocol_error_response, parse_int,
  body_at_most, anthropic_error,
}
use gemma_4_31b_mtp_v_llm_se.Gateway.Boundary.{
  Gate, Settings, or_else, is_there, is_preflight, is_allowed, apply_cors, cors_headers, stamp,
  preflight_response, check_size, check_declared, enforce_body_cap, header_is, gt, behind_cap,
  guarded, boundary, gateway, auth_error, authenticate, protocol_for_path,
}
use gemma_4_31b_mtp_v_llm_se.Gateway.Boundary.Responses.{boundary-allow_origin}
use gemma_4_31b_mtp_v_llm_se.Gateway.Boundary.Shields.{
  IsRefused, gateway-shields_unauthorized, boundary-shields_oversized,
}
use text.Mathlib.Text.{◌==◌ as str_eq}

gates : Unit {0}
unfolding boundary guarded behind_cap enforce_body_cap check_size check_declared parse_int gt stamp
    apply_cors cors_headers is_allowed preflight_response is_preflight is_there or_else header_is
    set_header get_header protocol_error_response protocol_for_path starts_with strip is_space
    gateway authenticate auth_error
gates = tt

abbrev settings : Settings
settings = record {
  limits = record {
    max_body_bytes = pos 100;
    max_output_tokens = pos 4096;
    max_queue_size = pos 8;
    rate_limit_rpm = pos 2;
    metrics_enabled = true;
    cors_origins = "https://a.example" ∷ [];
    generation_timeout_seconds = none;
  };
  api_key = some "secret";
  public_paths = "/livez" ∷ [];
}

abbrev gate : Gate
gate = record { runtime = fresh 8; buckets = λ key. [] }

abbrev headers : String → Option String
headers name =
    if str_eq name "origin"
    then some "https://a.example"
    else if str_eq name "x-api-key"
    then some "wrong"
    else none

abbrev request : Request
request = record {
  method = "POST";
  path = "/v1/messages";
  header = headers;
  client = some "10.0.0.1";
  body_size = 101;
}

abbrev routes : Request → Response
routes r = record { status_code = 200; headers = []; body = no_content }

abbrev other_routes : Request → Response
other_routes r = record { status_code = 500; headers = []; body = no_content }

refused_body :
    let response = (gateway settings routes 0 "id-1" request gate).0 in
    (response.status_code ≡ 413)
    × (response.body ≡ anthropic_error "request_too_large" (body_at_most (pos 100)))
unfolding gates
refused_body = (refl, refl)

boundary-allow_origin_example :
    (request.header "origin" ≡ some "https://a.example")
    × (is_allowed "https://a.example" settings.limits.cors_origins ≡ true)
unfolding gates
boundary-allow_origin_example =
    boundary-allow_origin settings routes 0 "id-1" request gate refl "https://a.example" refl

gateway-shields_unauthorized_example :
    gateway settings routes 0 "id-1" request gate
    ≡ gateway settings other_routes 0 "id-1" request gate
unfolding header_is
gateway-shields_unauthorized_example =
    gateway-shields_unauthorized settings routes other_routes 0 request "secret" "id-1" gate refl
      refl refl refl

boundary-shields_oversized_example :
    (boundary settings routes 0 "id-1" request gate
      ≡ boundary settings other_routes 0 "id-1" request gate)
    × ((boundary settings routes 0 "id-1" request gate).1.buckets ≡ gate.buckets)
    × IsRefused (some (boundary settings routes 0 "id-1" request gate).0)
unfolding is_preflight is_there gt
boundary-shields_oversized_example =
    boundary-shields_oversized settings routes other_routes 0 request "id-1" gate refl refl refl

-- ===== src/Gateway/Boundary.antt =====
-- server/middleware.py, and the authentication of server/app.py, which the boundary is put around.
-- `call_next`, the rest of the application, is an argument. `now` is the monotonic clock and `uuid`
-- the text of the identifier that the boundary makes.
pub mod Responses
pub mod Shields
pub mod Clients
mod Tests
use gemma_4_31b_mtp_v_llm_se.Prelude.{
  ℕ, zero, suc, String, Bool, true, false, not, ◌&&◌, ◌||◌, Option, none, some, List, [], ◌∷◌, any,
  ltb, if◌then◌else◌,
}
use gemma_4_31b_mtp_v_llm_se.Prelude.Text.{codes, starts_with}
use gemma_4_31b_mtp_v_llm_se.Json.{ℤ, pos, negsuc}
use gemma_4_31b_mtp_v_llm_se.Gateway.RuntimeState.{RuntimeState, note_request}
use gemma_4_31b_mtp_v_llm_se.Gateway.RateLimit.{allow_rate}
use gemma_4_31b_mtp_v_llm_se.Gateway.Limits.{ServerLimits}
use gemma_4_31b_mtp_v_llm_se.Gateway.Http.{
  Request, Response, Protocol, openai, anthropic, body_at_most, content_length_not_a_number,
  too_many_requests, missing_api_key, no_content, Headers, set_header, protocol_error_response,
  parse_int,
}
use Prim.Native.String.{◌++◌}
use text.Mathlib.Text.{◌==◌ as str_eq}

abbrev pub Buckets : Type 0
Buckets = String → List ℕ

-- What the boundary keeps between requests
pub record Gate : Type 0 where
  pub runtime : RuntimeState
  pub buckets : Buckets

pub protocol_for_path : String → Protocol
protocol_for_path path =
    if starts_with (codes path) (codes "/v1/messages") then anthropic else openai

-- `name or default`
pub or_else : Option String → String → String
or_else none default = default
or_else (some text) default = if str_eq text "" then default else text

pub is_there : Option String → Bool
is_there none = false
is_there (some text) = true

pub is_preflight : Request → Bool
is_preflight r =
    str_eq r.method "OPTIONS"
    && is_there (r.header "origin")
    && is_there (r.header "access-control-request-method")

pub is_allowed : String → List String → Bool
is_allowed origin allowed = not (str_eq origin "") && any (str_eq origin) allowed

pub cors_headers : String → Headers → Headers
cors_headers origin headers =
    set_header "access-control-allow-headers" "authorization, content-type, x-api-key, x-request-id"
      (set_header "access-control-allow-methods" "GET, POST, OPTIONS"
        (set_header "access-control-allow-origin" origin headers))

pub apply_cors : Option String → List String → Headers → Headers
apply_cors none allowed headers = headers
apply_cors (some origin) allowed headers =
    if is_allowed origin allowed then cors_headers origin headers else headers

-- `_stamp`, and what the boundary does with the response of `call_next`
pub stamp : String → Option String → List String → Response → Response
stamp request_id origin allowed response = record response {
  headers = set_header "x-request-id" request_id (apply_cors origin allowed response.headers);
}

pub preflight_response : Option String → List String → String → Response
preflight_response origin allowed request_id = record {
  status_code = 204;
  headers =
      set_header "x-request-id" request_id
        (set_header "access-control-max-age" "600" (apply_cors origin allowed []));
  body = no_content;
}

-- `a > b`
pub gt : ℤ → ℤ → Bool
gt (pos a) (pos b) = ltb b a
gt (pos a) (negsuc b) = true
gt (negsuc a) (pos b) = false
gt (negsuc a) (negsuc b) = ltb a b

abbrev pub too_large : ℤ → Protocol → Response
too_large max_bytes protocol =
    protocol_error_response 413 "request_too_large" (body_at_most max_bytes) protocol

pub check_size : ℕ → ℤ → Protocol → Option Response
check_size size max_bytes protocol =
    if gt (pos size) max_bytes then some (too_large max_bytes protocol) else none

pub check_declared : String → ℕ → ℤ → Protocol → Option Response
check_declared declared size max_bytes protocol = elim (parse_int (codes declared)) [
  | none ↦ some (protocol_error_response 400 "invalid_request" content_length_not_a_number protocol)
  | some n ↦
      if gt n max_bytes
      then some (too_large max_bytes protocol)
      else check_size size max_bytes protocol
]

pub enforce_body_cap : Request → ℤ → Protocol → Option Response
enforce_body_cap r max_bytes protocol = elim (r.header "content-length") [
  | none ↦ check_size r.body_size max_bytes protocol
  | some declared ↦ check_declared declared r.body_size max_bytes protocol
]

-- `headers.get(name) == text`
pub header_is : String → String → Request → Bool
header_is name text r = elim (r.header name) [ none ↦ false | some value ↦ str_eq value text ]

pub client_key : Request → String
client_key r = elim r.client [ none ↦ "client:unknown" | some host ↦ "client:" ++ host ]

pub rate_key : Request → Option String → String
rate_key r none = client_key r
rate_key r (some api_key) =
    if not (str_eq api_key "") && header_is "authorization" ("Bearer " ++ api_key) r
    then "credential:bearer"
    else if not (str_eq api_key "") && header_is "x-api-key" api_key r
    then "credential:x-api-key"
    else client_key r

pub set_bucket : String → List ℕ → Buckets → Buckets
set_bucket key bucket buckets other = if str_eq other key then bucket else buckets other

-- Whether the client's rate lets the request through, and the buckets behind it
pub check_rate : ℤ → String → ℕ → Buckets → Bool × Buckets
check_rate (pos (suc n)) key now buckets =
    let (allowed, bucket) = allow_rate (suc n) now (buckets key) in
    (allowed, set_bucket key bucket buckets)
check_rate rpm key now buckets = (true, buckets)

-- What the boundary is installed with
pub record Settings : Type 0 where
  pub limits : ServerLimits
  pub api_key : Option String
  pub public_paths : List String

-- The boundary behind the check of the body: its error, or the rate and the rest.
pub behind_cap :
    Option Response
    → Settings
    → (Request → Response)
    → ℕ
    → String
    → Request
    → Buckets
    → Response × Buckets
behind_cap (some error) settings call_next now request_id r buckets =
    (stamp request_id (r.header "origin") settings.limits.cors_origins error, buckets)
behind_cap none settings call_next now request_id r buckets =
    let finish = stamp request_id (r.header "origin") settings.limits.cors_origins in
    let limited =
      protocol_error_response 429 "rate_limited" too_many_requests (protocol_for_path r.path) in
    let (allowed, next) =
      check_rate settings.limits.rate_limit_rpm (rate_key r settings.api_key) now buckets in
    if allowed then (finish (call_next r), next) else (finish limited, next)

-- The boundary behind the checks of preflight and path
pub guarded : Settings → (Request → Response) → ℕ → String → Request → Buckets → Response × Buckets
guarded settings call_next now request_id r buckets =
    let cap = enforce_body_cap r settings.limits.max_body_bytes (protocol_for_path r.path) in
    behind_cap cap settings call_next now request_id r buckets

pub boundary : Settings → (Request → Response) → ℕ → String → Request → Gate → Response × Gate
boundary settings call_next now uuid r gate =
    let request_id = or_else (r.header "x-request-id") uuid in
    let runtime = note_request request_id gate.runtime in
    let origin = r.header "origin" in
    let allowed = settings.limits.cors_origins in
    let (response, buckets) = guarded settings call_next now request_id r gate.buckets in
    if is_preflight r
    then (preflight_response origin allowed request_id, record gate { runtime = runtime })
    else if any (str_eq r.path) settings.public_paths
    then (stamp request_id origin allowed (call_next r), record gate { runtime = runtime })
    else (response, record { runtime = runtime; buckets = buckets })

-- `_auth_error` of server/app.py
pub auth_error : Request → Option String → Option Response
auth_error r none = none
auth_error r (some api_key) =
    if header_is "authorization" ("Bearer " ++ api_key) r
    then none
    else if header_is "x-api-key" api_key r
    then none
    else if str_eq r.path "/v1/messages" || str_eq r.path "/v1/messages/count_tokens"
    then some (protocol_error_response 401 "unauthorized" missing_api_key anthropic)
    else some (protocol_error_response 401 "unauthorized" missing_api_key openai)

-- `auth_middleware` of server/app.py
pub authenticate : Settings → (Request → Response) → Request → Response
authenticate settings call_next r =
    if any (str_eq r.path) settings.public_paths
    then call_next r
    else elim (auth_error r settings.api_key) [ none ↦ call_next r | some error ↦ error ]

-- The application: the boundary, which is installed last, runs first; then the authentication;
-- then the routes.
pub gateway : Settings → (Request → Response) → ℕ → String → Request → Gate → Response × Gate
gateway settings routes = boundary settings (authenticate settings routes)

-- The requests of several clients, one after the other, as their keys and times: those that the
-- rate lets through.
pub check_rates : ℤ → List (String × ℕ) → Buckets → List (String × ℕ)
check_rates rpm [] buckets = []
check_rates rpm ((key, now) ∷ arrivals) buckets =
    let (allowed, next) = check_rate rpm key now buckets in
    let rest = check_rates rpm arrivals next in if allowed then (key, now) ∷ rest else rest

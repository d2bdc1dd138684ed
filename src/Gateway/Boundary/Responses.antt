-- ===== src/Gateway/Boundary/Responses.antt =====
-- What every response of the gateway carries, and which requests the routes never see.
use gemma_4_31b_mtp_v_llm_se.Prelude.{
  ℕ, ◌≡◌, ◌⊎◌, refl, ap, sym, ◌∙◌, String, true, Option, none, some, List, [], arith, Bool-cases,
  inl, inr, if◌then◌else◌, if-either,
}
use gemma_4_31b_mtp_v_llm_se.Json.{ℤ, pos}
use gemma_4_31b_mtp_v_llm_se.Gateway.Http.{
  Request, Response, Protocol, openai, anthropic, Headers, get_header, protocol_error_response,
  parse_int, ErrorText, content_length_not_a_number,
}
use gemma_4_31b_mtp_v_llm_se.Gateway.Http.Headers.{
  get_header-set_header, get_header-set_header_other,
}
use gemma_4_31b_mtp_v_llm_se.Gateway.Boundary.{
  Gate, Buckets, Settings, or_else, is_allowed, apply_cors, cors_headers, stamp, preflight_response,
  behind_cap, guarded, boundary, protocol_for_path, enforce_body_cap, check_size, check_declared,
  gt, too_large,
}
use gemma_4_31b_mtp_v_llm_se.Prelude.Text.{codes}

-- A response that the rest of the application made, or one of the boundary's own errors
abbrev pub IsRefusal : Response → Type 0
IsRefusal e =
    (e.headers ≡ []) × ((e.status_code ≡ 400) ⊎ ((e.status_code ≡ 413) ⊎ (e.status_code ≡ 429)))

abbrev pub Source : (Request → Response) → Request → Response → Type 0
Source call_next r response = (response ≡ call_next r) ⊎ IsRefusal response

error-IsRefusal :
    (status : ℕ) (code : String) (text : ErrorText) (protocol : Protocol)
    → (status ≡ 400) ⊎ ((status ≡ 413) ⊎ (status ≡ 429))
    → IsRefusal (protocol_error_response status code text protocol)
unfolding protocol_error_response
error-IsRefusal status code text openai h = (refl, h)
error-IsRefusal status code text anthropic h = (refl, h)

-- No error, or one that has no headers yet.
abbrev IsBare : Option Response → Type 0
IsBare none = Unit
IsBare (some error) = IsRefusal error

check_size-IsBare :
    (size : ℕ) (max_bytes : ℤ) (protocol : Protocol) → IsBare (check_size size max_bytes protocol)
unfolding check_size
check_size-IsBare size max_bytes protocol =
    if-either IsBare (gt (pos size) max_bytes) _ none
      (error-IsRefusal 413 _ _ protocol (inr (inl refl))) tt

check_declared-IsBare :
    (declared : String) (size : ℕ) (max_bytes : ℤ) (protocol : Protocol)
    → IsBare (check_declared declared size max_bytes protocol)
unfolding check_declared
check_declared-IsBare declared size max_bytes protocol =
    elim (parse_int (codes declared))
      as (λ o. IsBare (elim o [
        | none ↦
            some
              (protocol_error_response 400 "invalid_request" content_length_not_a_number protocol)
        | some n ↦
            if gt n max_bytes
            then some (too_large max_bytes protocol)
            else check_size size max_bytes protocol
      ])) [
        | none ↦ error-IsRefusal 400 _ _ protocol (inl refl)
        | some n ↦
            if-either IsBare (gt n max_bytes) _ _
              (error-IsRefusal 413 _ _ protocol (inr (inl refl)))
              (check_size-IsBare size max_bytes protocol)
      ]

enforce_body_cap-IsBare :
    (r : Request) (max_bytes : ℤ) (protocol : Protocol)
    → IsBare (enforce_body_cap r max_bytes protocol)
unfolding enforce_body_cap
enforce_body_cap-IsBare r max_bytes protocol =
    elim (r.header "content-length")
      as (λ o. IsBare (elim o [
        | none ↦ check_size r.body_size max_bytes protocol
        | some declared ↦ check_declared declared r.body_size max_bytes protocol
      ])) [
        | none ↦ check_size-IsBare r.body_size max_bytes protocol
        | some declared ↦ check_declared-IsBare declared r.body_size max_bytes protocol
      ]

-- What holds of the answer to a preflight and of every stamped response holds of whatever the
-- boundary answers.
module _ (P : Response → Type 0) (settings : Settings) (call_next : Request → Response)
    (request_id : String) (r : Request)
    (stamped : (response : Response)
      → Source call_next r response
      → P (stamp request_id (r.header "origin") settings.limits.cors_origins response)) where
  behind_cap-holds :
      (cap : Option Response) (now : ℕ) (buckets : Buckets)
      → IsBare cap
      → P (behind_cap cap settings call_next now request_id r buckets).0
  unfolding behind_cap
  behind_cap-holds (some error) now buckets h = stamped error (inr h)
  behind_cap-holds none now buckets h =
      if-either {A = Response × Buckets} (λ p. P p.0) _ _ _ (stamped (call_next r) (inl refl))
        (stamped _ (inr (error-IsRefusal 429 _ _ _ (inr (inr refl)))))

  guarded-holds :
      (now : ℕ) (buckets : Buckets) → P (guarded settings call_next now request_id r buckets).0
  unfolding guarded
  guarded-holds now buckets =
      behind_cap-holds _ now buckets
        (enforce_body_cap-IsBare r settings.limits.max_body_bytes (protocol_for_path r.path))

cors_headers-allow_origin :
    (origin : String) (headers : Headers)
    → get_header "access-control-allow-origin" (cors_headers origin headers) ≡ some origin
unfolding cors_headers
cors_headers-allow_origin origin headers =
    get_header-set_header_other "access-control-allow-origin" "access-control-allow-headers" _ _
      refl
    ∙ (get_header-set_header_other "access-control-allow-origin" "access-control-allow-methods" _ _
          refl
        ∙ get_header-set_header "access-control-allow-origin" origin headers)

apply_cors-allow_origin :
    (o : Option String) (allowed : List String) (headers : Headers) (origin : String)
    → get_header "access-control-allow-origin" headers ≡ none
    → get_header "access-control-allow-origin" (apply_cors o allowed headers) ≡ some origin
    → (o ≡ some origin) × (is_allowed origin allowed ≡ true)
unfolding apply_cors
apply_cors-allow_origin none allowed headers origin silent h = absurd (ground arith)
apply_cors-allow_origin (some o) allowed headers origin silent h =
    elim (Bool-cases (is_allowed o allowed)) [
      | inl y ↦ ground (arith, cors_headers-allow_origin o headers)
      | inr n ↦ absurd (ground arith)
    ]

Source-allow_origin :
    (call_next : Request → Response) (r : Request) (response : Response)
    → get_header "access-control-allow-origin" (call_next r).headers ≡ none
    → Source call_next r response
    → get_header "access-control-allow-origin" response.headers ≡ none
Source-allow_origin call_next r response silent (inl e) =
    ap (λ s. get_header "access-control-allow-origin" s.headers) e ∙ silent
Source-allow_origin call_next r response silent (inr (e, _)) =
    unfold get_header in ap (get_header "access-control-allow-origin") e

module _ (settings : Settings) (call_next : Request → Response) (now : ℕ) (uuid : String)
    (r : Request) (gate : Gate) where
  boundary-holds :
      (P : Response → Type 0)
      → ((response : Response)
          → Source call_next r response
          → P (
              stamp
                (or_else (r.header "x-request-id") uuid)
                (r.header "origin")
                settings.limits.cors_origins
                response))
      → P (
          preflight_response
            (r.header "origin")
            settings.limits.cors_origins
            (or_else (r.header "x-request-id") uuid))
      → P (boundary settings call_next now uuid r gate).0
  unfolding boundary
  boundary-holds P stamped preflight =
      if-either {A = Response × Gate} (λ p. P p.0) _ _ _ preflight
        (if-either {A = Response × Gate} (λ p. P p.0) _ _ _ (stamped (call_next r) (inl refl))
          (guarded-holds P settings call_next _ r stamped now gate.buckets))

  -- Every response, on every path, carries the identifier of its request: the one that the client
  -- sent, or else the one that the boundary made.
  boundary-request_id :
      get_header "x-request-id" (boundary settings call_next now uuid r gate).0.headers
      ≡ some (or_else (r.header "x-request-id") uuid)
  unfolding stamp preflight_response
  boundary-request_id =
      boundary-holds
        (λ response.
          get_header "x-request-id" response.headers
          ≡ some (or_else (r.header "x-request-id") uuid))
        (λ response source. get_header-set_header "x-request-id" _ _)
        (get_header-set_header "x-request-id" _ _)

  -- When the rest of the application sets no access-control-allow-origin, a response that carries
  -- one carries the origin of the request, which is one of the allowed ones and not empty.
  pub boundary-allow_origin :
      get_header "access-control-allow-origin" (call_next r).headers ≡ none
      → (origin : String)
      → get_header "access-control-allow-origin"
          (boundary settings call_next now uuid r gate).0.headers
        ≡ some origin
      → (r.header "origin" ≡ some origin) × (is_allowed origin settings.limits.cors_origins ≡ true)
  unfolding stamp preflight_response
  boundary-allow_origin silent origin =
      boundary-holds
        (λ response.
          get_header "access-control-allow-origin" response.headers ≡ some origin
          → (r.header "origin" ≡ some origin)
            × (is_allowed origin settings.limits.cors_origins ≡ true))
        (λ response source h.
          apply_cors-allow_origin (r.header "origin") settings.limits.cors_origins response.headers
            origin (Source-allow_origin call_next r response silent source)
            (sym (get_header-set_header_other "access-control-allow-origin" "x-request-id" _ _ refl)
              ∙ h))
        (λ h.
          apply_cors-allow_origin (r.header "origin") settings.limits.cors_origins [] origin
            (unfold get_header in refl)
            (sym (
                get_header-set_header_other "access-control-allow-origin" "access-control-max-age" _
                  _ refl)
              ∙ (sym (
                    get_header-set_header_other "access-control-allow-origin" "x-request-id" _ _
                      refl)
                  ∙ h)))

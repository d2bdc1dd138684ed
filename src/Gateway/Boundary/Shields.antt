-- ===== src/Gateway/Boundary/Shields.antt =====
-- Which requests the routes never see.
use gemma_4_31b_mtp_v_llm_se.Prelude.{
  ℕ, ◌≡◌, ◌⊎◌, refl, String, true, false, ◌||◌, Option, none, some, any, arith, Bool-cases, inl,
  inr, if◌then◌else◌, if-either,
}
use gemma_4_31b_mtp_v_llm_se.Json.{ℤ, pos}
use gemma_4_31b_mtp_v_llm_se.Gateway.Http.{
  Request, Response, Protocol, openai, anthropic, protocol_error_response, parse_int, body_at_most,
  missing_api_key, content_length_not_a_number, ErrorText,
}
use gemma_4_31b_mtp_v_llm_se.Gateway.Boundary.{
  Gate, Buckets, Settings, or_else, is_preflight, stamp, behind_cap, guarded, boundary, gateway,
  authenticate, auth_error, header_is, protocol_for_path, enforce_body_cap, check_size,
  check_declared, gt, too_large,
}
use gemma_4_31b_mtp_v_llm_se.Prelude.Text.{codes}
use Prim.Native.String.{◌++◌}
use text.Mathlib.Text.{◌==◌ as str_eq}

-- The check of the body's size refuses.
abbrev pub IsRefused : Option Response → Type 0
IsRefused none = ⊥
IsRefused (some error) = (error.status_code ≡ 413) ⊎ (error.status_code ≡ 400)

status-same :
    (status : ℕ) (code : String) (text : ErrorText) (protocol : Protocol)
    → (protocol_error_response status code text protocol).status_code ≡ status
unfolding protocol_error_response
status-same status code text openai = refl
status-same status code text anthropic = refl

check_size-IsRefused :
    (size : ℕ) (max_bytes : ℤ) (protocol : Protocol)
    → gt (pos size) max_bytes ≡ true
    → IsRefused (check_size size max_bytes protocol)
unfolding check_size
check_size-IsRefused size max_bytes protocol h =
    ground (arith, status-same 413 "request_too_large" (body_at_most max_bytes) protocol)

check_declared-IsRefused :
    (declared : String) (size : ℕ) (max_bytes : ℤ) (protocol : Protocol)
    → gt (pos size) max_bytes ≡ true
    → IsRefused (check_declared declared size max_bytes protocol)
unfolding check_declared
check_declared-IsRefused declared size max_bytes protocol h =
    elim (parse_int (codes declared))
      as (λ o. IsRefused (elim o [
        | none ↦
            some
              (protocol_error_response 400 "invalid_request" content_length_not_a_number protocol)
        | some n ↦
            if gt n max_bytes
            then some (too_large max_bytes protocol)
            else check_size size max_bytes protocol
      ])) [
        | none ↦ inr (status-same 400 _ _ protocol)
        | some n ↦
            if-either IsRefused (gt n max_bytes) _ _ (inl (status-same 413 _ _ protocol))
              (check_size-IsRefused size max_bytes protocol h)
      ]

enforce_body_cap-IsRefused :
    (r : Request) (max_bytes : ℤ) (protocol : Protocol)
    → gt (pos r.body_size) max_bytes ≡ true
    → IsRefused (enforce_body_cap r max_bytes protocol)
unfolding enforce_body_cap
enforce_body_cap-IsRefused r max_bytes protocol h =
    elim (r.header "content-length")
      as (λ o. IsRefused (elim o [
        | none ↦ check_size r.body_size max_bytes protocol
        | some declared ↦ check_declared declared r.body_size max_bytes protocol
      ])) [
        | none ↦ check_size-IsRefused r.body_size max_bytes protocol h
        | some declared ↦ check_declared-IsRefused declared r.body_size max_bytes protocol h
      ]

auth_error-refuses :
    (r : Request) (api_key : String)
    → header_is "authorization" ("Bearer " ++ api_key) r ≡ false
    → header_is "x-api-key" api_key r ≡ false
    → (error : Response) × (auth_error r (some api_key) ≡ some error)
unfolding auth_error
auth_error-refuses r api_key bearer key =
    elim (Bool-cases (str_eq r.path "/v1/messages" || str_eq r.path "/v1/messages/count_tokens")) [
      | inl y ↦ (
        protocol_error_response 401 "unauthorized" missing_api_key anthropic,
        rw (bearer, key, y),
      )
      | inr n ↦
          (protocol_error_response 401 "unauthorized" missing_api_key openai, rw (bearer, key, n))
    ]

module _ (settings : Settings) (f g : Request → Response) (now : ℕ) (r : Request) where
  behind_cap-same :
      (cap : Option Response) (request_id : String) (buckets : Buckets)
      → f r ≡ g r
      → behind_cap cap settings f now request_id r buckets
        ≡ behind_cap cap settings g now request_id r buckets
  unfolding behind_cap
  behind_cap-same (some error) request_id buckets e = refl
  behind_cap-same none request_id buckets e = rw e

  -- The boundary asks the rest of the application about this request only.
  boundary-same :
      (uuid : String) (gate : Gate)
      → f r ≡ g r
      → boundary settings f now uuid r gate ≡ boundary settings g now uuid r gate
  unfolding boundary guarded
  boundary-same uuid gate e = rw (
    e,
    behind_cap-same (enforce_body_cap r settings.limits.max_body_bytes (protocol_for_path r.path))
        (or_else (r.header "x-request-id") uuid) gate.buckets e,
  )

module _ (settings : Settings) (f g : Request → Response) (now : ℕ) (r : Request) where
  authenticate-same :
      (api_key : String)
      → settings.api_key ≡ some api_key
      → any (str_eq r.path) settings.public_paths ≡ false
      → header_is "authorization" ("Bearer " ++ api_key) r ≡ false
      → header_is "x-api-key" api_key r ≡ false
      → authenticate settings f r ≡ authenticate settings g r
  unfolding authenticate
  authenticate-same api_key k private bearer key =
      let (error, e) = auth_error-refuses r api_key bearer key in rw (private, k, e)

  -- Where a key is set, a request for a path that is not public, with neither header holding the
  -- key, is answered the same whatever the routes do with it, so that they never see it.
  pub gateway-shields_unauthorized :
      (api_key uuid : String) (gate : Gate)
      → settings.api_key ≡ some api_key
      → any (str_eq r.path) settings.public_paths ≡ false
      → header_is "authorization" ("Bearer " ++ api_key) r ≡ false
      → header_is "x-api-key" api_key r ≡ false
      → gateway settings f now uuid r gate ≡ gateway settings g now uuid r gate
  unfolding gateway
  gateway-shields_unauthorized api_key uuid gate k private bearer key =
      boundary-same settings (authenticate settings f) (authenticate settings g) now r uuid gate
        (authenticate-same api_key k private bearer key)

  behind_cap-refuses :
      (request_id : String) (buckets : Buckets) (cap : Option Response)
      → IsRefused cap
      → (behind_cap cap settings f now request_id r buckets
          ≡ behind_cap cap settings g now request_id r buckets)
        × ((behind_cap cap settings f now request_id r buckets).1 ≡ buckets)
        × IsRefused (some (behind_cap cap settings f now request_id r buckets).0)
  unfolding behind_cap stamp
  behind_cap-refuses request_id buckets none h = absurd h
  behind_cap-refuses request_id buckets (some error) h = (refl, refl, h)

  -- A body above the bound, on a path that is not public, and no preflight, is refused with status
  -- 413 or 400; the routes never see it, and it counts for no client's rate.
  pub boundary-shields_oversized :
      (uuid : String) (gate : Gate)
      → is_preflight r ≡ false
      → any (str_eq r.path) settings.public_paths ≡ false
      → gt (pos r.body_size) settings.limits.max_body_bytes ≡ true
      → (boundary settings f now uuid r gate ≡ boundary settings g now uuid r gate)
        × ((boundary settings f now uuid r gate).1.buckets ≡ gate.buckets)
        × IsRefused (some (boundary settings f now uuid r gate).0)
  unfolding boundary guarded
  boundary-shields_oversized uuid gate plain private large =
      let (same, kept, status) =
        behind_cap-refuses (or_else (r.header "x-request-id") uuid) gate.buckets _ (
          enforce_body_cap-IsRefused r settings.limits.max_body_bytes (protocol_for_path r.path)
            large) in
      (rw (plain, private, same), rw (plain, private) kept, rw (plain, private) status)

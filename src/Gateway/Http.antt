-- ===== src/Gateway/Http.antt =====
-- Requests and responses as the gateway sees them, and server/errors.py. The names of headers are in
-- lower case. The texts of the errors are constructors of `ErrorText`.
pub mod Headers
use gemma_4_31b_mtp_v_llm_se.Prelude.{
  ℕ, suc, ◌+◌, ◌-◌, ◌*◌, String, Bool, true, false, ◌&&◌, Option, none, some, List, [], ◌∷◌, leb,
  ◌==◌, if◌then◌else◌,
}
use gemma_4_31b_mtp_v_llm_se.Prelude.Text.{Text, strip}
use gemma_4_31b_mtp_v_llm_se.Json.{ℤ, pos, negsuc, Value}
use text.Mathlib.Text.{◌==◌ as str_eq}

-- `headers.get(name)` is a function of the name. `client` is `request.client.host`.
pub record Request : Type 0 where
  pub method : String
  pub path : String
  pub header : String → Option String
  pub client : Option String
  pub body_size : ℕ

pub data Protocol : Type 0 where
  openai anthropic : Protocol

pub data ErrorText : Type 0 where
  body_at_most : ℤ → ErrorText
  content_length_not_a_number too_many_requests missing_api_key : ErrorText

pub data Body : Type 0 where
  no_content : Body
  openai_error : (code : String) (message : ErrorText) (kind : String) → Body
  anthropic_error : (code : String) (message : ErrorText) → Body
  content : Value → Body

abbrev pub Headers : Type 0
Headers = List (String × String)

pub record Response : Type 0 where
  pub status_code : ℕ
  pub headers : Headers
  pub body : Body

unfoldable pub get_header : String → Headers → Option String
get_header name [] = none
get_header name ((key, value) ∷ rest) = if str_eq key name then some value else get_header name rest

unfoldable pub remove_header : String → Headers → Headers
remove_header name [] = []
remove_header name ((key, value) ∷ rest) =
    let kept = remove_header name rest in if str_eq key name then kept else (key, value) ∷ kept

-- `response.headers[name] = value`: the first of that name is replaced, the others go
unfoldable pub set_header : String → String → Headers → Headers
unfolding remove_header
set_header name value [] = (name, value) ∷ []
set_header name value ((key, old) ∷ rest) =
    let later = set_header name value rest in
    if str_eq key name then (name, value) ∷ remove_header name rest else (key, old) ∷ later

unfoldable pub protocol_error_response : ℕ → String → ErrorText → Protocol → Response
protocol_error_response status_code code message anthropic = record {
  status_code = status_code;
  headers = [];
  body = anthropic_error code message;
}
protocol_error_response status_code code message openai = record {
  status_code = status_code;
  headers = [];
  body = openai_error code message "invalid_request_error";
}

-- Digits with single underscores between them, as `int` reads them; `digit` tells whether the
-- character before is a digit.
unfoldable pub parse_digits : ℕ → Bool → Text → Option ℕ
parse_digits value digit [] = if digit then some value else none
parse_digits value digit (c ∷ cs) =
    let next = parse_digits (value * 10 + (c - b'0')) true cs in
    let after = parse_digits value false cs in
    if leb b'0' c && leb c b'9' then next else if c == b'_' && digit then after else none

unfoldable pub negate : ℕ → ℤ
negate n = if n == 0 then pos 0 else negsuc (n - 1)

unfoldable pub parse_signed : Text → Option ℤ
unfolding parse_digits negate
parse_signed [] = none
parse_signed (c ∷ cs) =
    if c == b'-'
    then elim (parse_digits 0 false cs) [ none ↦ none | some n ↦ some (negate n) ]
    else elim (parse_digits 0 false (if c == b'+' then cs else c ∷ cs)) [
      | none ↦ none
      | some n ↦ some (pos n)
    ]

-- `int(text)` for a text of ASCII, with `none` for the `ValueError`
unfoldable pub parse_int : Text → Option ℤ
unfolding parse_signed
parse_int text = parse_signed (strip text)

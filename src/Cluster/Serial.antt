-- ===== src/Cluster/Serial.antt =====
-- The texts of values in cluster.py: `json.dumps`, `repr` of a str, `_sha256_json`, `_format_float`.
use gemma_4_31b_mtp_v_llm_se.Prelude.{
  ℕ, zero, suc, ◌+◌, ◌-◌, ◌/◌, ◌%◌, String, Bool, true, false, not, ◌&&◌, ◌||◌, List, [], ◌∷◌, leb,
  ltb, ◌==◌, any, drop, if◌then◌else◌,
}
use gemma_4_31b_mtp_v_llm_se.Prelude.Text.{codes}
use gemma_4_31b_mtp_v_llm_se.Json.{
  pos, negsuc, Float, nan, infinity, fraction, Value, Items, Fields, null, bool, int, float, str,
  list, dict, no_items, item, no_entries, entry,
}
use gemma_4_31b_mtp_v_llm_se.Readiness.{text_le}
use gemma_4_31b_mtp_v_llm_se.Cluster.Shell.{decimal, int_text}
use Prim.Native.Char.{Char, code}
use Prim.Native.String.{◌++◌ as ◌<>◌}

-- The functions of the standard library that are not written out: `repr` of a float that is no
-- whole number, the hexadecimal SHA-256 of a text in UTF-8, and `str` of a value that is no text
pub record Host : Type 0 where
  pub float_repr : Float → String
  pub sha256_hex : String → String
  pub value_text : Value → String

abbrev hex_digits : List String
hex_digits =
    "0" ∷ "1" ∷ "2" ∷ "3" ∷ "4" ∷ "5" ∷ "6" ∷ "7" ∷ "8" ∷ "9" ∷ "a" ∷ "b" ∷ "c" ∷ "d" ∷ "e" ∷ "f"
    ∷ []

abbrev head_text : List String → String
head_text [] = ""
head_text (text ∷ texts) = text

unfoldable pub hex_digit : ℕ → String
hex_digit d = head_text (drop d hex_digits)

-- `f"{n:02x}"` and `f"{n:04x}"`, of an n with at most so many digits
unfoldable pub hex_two : ℕ → String
unfolding hex_digit
hex_two n = hex_digit (n / 16) <> hex_digit (n % 16)

unfoldable pub hex_four : ℕ → String
unfolding hex_two
hex_four n = hex_two (n / 256) <> hex_two (n % 256)

abbrev one : Char → String
one c = String.◌∷◌ c ""

-- A character in a text of JSON
unfoldable pub json_char : Char → String
unfolding hex_four
json_char c =
    let n = code c in
    if n == 34
    then "\\\""
    else if n == 92
    then "\\\\"
    else if n == 10
    then "\\n"
    else if n == 13
    then "\\r"
    else if n == 9
    then "\\t"
    else if n == 12
    then "\\f"
    else if n == 8
    then "\\b"
    else if leb 32 n && leb n 126
    then one c
    else if ltb n 0x10000
    then "\\u" <> hex_four n
    else "\\u"
      <> hex_four (0xd800 + (n - 0x10000) / 0x400)
      <> "\\u"
      <> hex_four (0xdc00 + (n - 0x10000) % 0x400)

unfoldable pub json_chars : String → String
unfolding json_char
json_chars String.[] = ""
json_chars (String.◌∷◌ c s) = json_char c <> json_chars s

unfoldable pub json_str : String → String
unfolding json_chars
json_str text = "\"" <> json_chars text <> "\""

abbrev Pairs : Type 0
Pairs = List (String × String)

unfoldable pub insert_pair : String × String → Pairs → Pairs
unfolding text_le
insert_pair (name, text) [] = (name, text) ∷ []
insert_pair (name, text) ((k, other) ∷ pairs) =
    let rest = insert_pair (name, text) pairs in
    if text_le (codes name) (codes k) then (name, text) ∷ (k, other) ∷ pairs else (k, other) ∷ rest

unfoldable pub sort_pairs : Pairs → Pairs
unfolding insert_pair
sort_pairs [] = []
sort_pairs (pair ∷ pairs) = insert_pair pair (sort_pairs pairs)

-- `separator.join(texts)`
unfoldable pub join : String → List String → String
join separator [] = ""
join separator (text ∷ []) = text
join separator (text ∷ next ∷ texts) = text <> separator <> join separator (next ∷ texts)

unfoldable pub pair_texts : Pairs → List String
unfolding json_str
pair_texts [] = []
pair_texts ((name, text) ∷ pairs) = (json_str name <> ":" <> text) ∷ pair_texts pairs

unfoldable pub json_float : (Float → String) → Float → String
json_float repr nan = "NaN"
json_float repr (infinity true) = "-Infinity"
json_float repr (infinity false) = "Infinity"
json_float repr f = repr f

-- `json.dumps(value, sort_keys=sort_keys, separators=(",", ":"))`
unfoldable mutual
  unfolding json_str json_float join pair_texts sort_pairs int_text

  pub dumps : Bool → (Float → String) → Value → String
  dumps sort_keys repr null = "null"
  dumps sort_keys repr (bool true) = "true"
  dumps sort_keys repr (bool false) = "false"
  dumps sort_keys repr (int n) = int_text n
  dumps sort_keys repr (float f) = json_float repr f
  dumps sort_keys repr (str s) = json_str s
  dumps sort_keys repr (list vs) = "[" <> join "," (dump_items sort_keys repr vs) <> "]"
  dumps sort_keys repr (dict fs) =
      let pairs = dump_fields sort_keys repr fs in
      "{" <> join "," (pair_texts (if sort_keys then sort_pairs pairs else pairs)) <> "}"

  pub dump_items : Bool → (Float → String) → Items → List String
  dump_items sort_keys repr no_items = []
  dump_items sort_keys repr (item v vs) = dumps sort_keys repr v ∷ dump_items sort_keys repr vs

  pub dump_fields : Bool → (Float → String) → Fields → List (String × String)
  dump_fields sort_keys repr no_entries = []
  dump_fields sort_keys repr (entry name v fs) =
      (name, dumps sort_keys repr v) ∷ dump_fields sort_keys repr fs

-- `_sha256_json`
unfoldable pub sha256_json : Host → Value → String
unfolding dumps
sha256_json host payload = host.sha256_hex (dumps true host.float_repr payload)

-- A character of `repr(text)` between marks with the given code. A character outside ASCII is taken
-- to be printable.
unfoldable pub repr_char : ℕ → Char → String
unfolding hex_two
repr_char mark c =
    let n = code c in
    if n == mark || n == 92
    then "\\" <> one c
    else if n == 9
    then "\\t"
    else if n == 10
    then "\\n"
    else if n == 13
    then "\\r"
    else if ltb n 32 || n == 127
    then "\\x" <> hex_two n
    else one c

unfoldable pub repr_chars : ℕ → String → String
unfolding repr_char
repr_chars mark String.[] = ""
repr_chars mark (String.◌∷◌ c s) = repr_char mark c <> repr_chars mark s

-- `repr(text)`
unfoldable pub repr_str : String → String
unfolding repr_chars
repr_str text =
    if any (λ n. n == 39) (codes text) && not (any (λ n. n == 34) (codes text))
    then "\"" <> repr_chars 34 text <> "\""
    else "'" <> repr_chars 39 text <> "'"

-- `bool(value)` of a float
unfoldable pub float_truthy : Float → Bool
float_truthy (fraction (pos zero) d) = false
float_truthy f = true

-- `_format_float`
unfoldable pub format_float : Host → Float → String
format_float host (fraction (pos n) d) =
    if n % suc d == 0 then decimal (n / suc d) else host.float_repr (fraction (pos n) d)
format_float host (fraction (negsuc n) d) =
    if suc n % suc d == 0
    then "-" <> decimal (suc n / suc d)
    else host.float_repr (fraction (negsuc n) d)
format_float host f = host.float_repr f

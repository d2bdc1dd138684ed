-- ===== src/Cluster/Shell.antt =====
-- What cluster.py takes from `shlex`, and the texts it prints: `str` of an int, `repr` of a str.
pub mod Words
pub mod RoundTrip
pub mod Decimal
use gemma_4_31b_mtp_v_llm_se.Prelude.{
  ℕ, zero, suc, ◌+◌, ◌-◌, ◌/◌, ◌%◌, String, Bool, true, false, not, ◌&&◌, ◌||◌, List, [], ◌∷◌, leb,
  ltb, ◌==◌, all, any, drop, if◌then◌else◌,
}
use gemma_4_31b_mtp_v_llm_se.Prelude.Text.{Text, codes}
use gemma_4_31b_mtp_v_llm_se.Json.{ℤ, pos, negsuc}
use Prim.Native.Char.{code}
use Prim.Native.String.{◌++◌ as ◌<>◌}

-- What `shlex` leaves bare: the characters outside its pattern `[^\w@%+=:,./-]`, read as ASCII
unfoldable pub is_safe : ℕ → Bool
is_safe c =
    (leb b'a' c && leb c b'z')
    || (leb b'A' c && leb c b'Z')
    || (leb b'0' c && leb c b'9')
    || c == b'_'
    || c == b'@'
    || c == b'%'
    || c == b'+'
    || c == b'='
    || c == b':'
    || c == b','
    || c == b'.'
    || c == b'/'
    || c == b'-'

-- `text.replace("'", "'\"'\"'")`, with the closing apostrophe
unfoldable pub quote_rest : String → String
quote_rest String.[] = "'"
quote_rest (String.◌∷◌ c s) =
    let rest = quote_rest s in if code c == 39 then "'\"'\"'" <> rest else String.◌∷◌ c rest

-- `shlex.quote(text)`
unfoldable pub shlex_quote : String → String
unfolding quote_rest is_safe
shlex_quote String.[] = "''"
shlex_quote text = if all is_safe (codes text) then text else "'" <> quote_rest text

-- `shlex.join(words)`
unfoldable pub shlex_join : List String → String
unfolding shlex_quote
shlex_join [] = ""
shlex_join (word ∷ []) = shlex_quote word
shlex_join (word ∷ next ∷ words) = shlex_quote word <> " " <> shlex_join (next ∷ words)

abbrev digits : List String
digits = "0" ∷ "1" ∷ "2" ∷ "3" ∷ "4" ∷ "5" ∷ "6" ∷ "7" ∷ "8" ∷ "9" ∷ []

abbrev first_or_empty : List String → String
first_or_empty [] = ""
first_or_empty (text ∷ texts) = text

unfoldable pub digit_text : ℕ → String
digit_text d = first_or_empty (drop d digits)

-- The decimal digits, the last one first to be split off: a turn for each of them
unfoldable pub decimal_loop : ℕ → ℕ → String
unfolding digit_text
decimal_loop zero n = ""
decimal_loop (suc fuel) n = elim (ltb n 10) [
  | true ↦ digit_text n
  | false ↦ decimal_loop fuel (n / 10) <> digit_text (n % 10)
]

-- `str(n)` of an int that is not negative
unfoldable pub decimal : ℕ → String
unfolding decimal_loop
decimal n = decimal_loop (suc n) n

-- `str(n)`
unfoldable pub int_text : ℤ → String
unfolding decimal
int_text (pos n) = decimal n
int_text (negsuc n) = "-" <> decimal (suc n)

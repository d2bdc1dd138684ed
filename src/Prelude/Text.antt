-- ===== src/Prelude/Text.antt =====
-- Python's `str` as the list of its code points, with the methods that the program walks text by.
use Prim.Native.Nat.{ℕ, suc, ◌+◌, ◌-◌}
use Prim.Native.Char.{code}
use Prim.Native.String.{String, [], ◌∷◌}
use mathlib.Core.Path.{◌≡◌, refl}
use native.Mathlib.Omega.{arith}
use mathlib.Core.Bool.{◌||◌, Bool, true, false, ◌&&◌}
use mathlib.Core.Option
use mathlib.Core.Option.{Option, none, some}
use mathlib.Core.List.{List, [], ◌∷◌, ◌++◌}
use gemma_4_31b_mtp_v_llm_se.Prelude.Tests.{leb, ◌==◌, if◌then◌else◌}
use gemma_4_31b_mtp_v_llm_se.Prelude.Lists.{length, drop, is_empty, all}

abbrev pub Text : Type 0
Text = List ℕ

abbrev pub codes : String → Text
codes String.[] = []
codes (String.◌∷◌ c s) = code c ∷ codes s

-- `text.startswith(prefix)`
unfoldable pub starts_with : Text → Text → Bool
starts_with text [] = true
starts_with [] (p ∷ ps) = false
starts_with (c ∷ cs) (p ∷ ps) = c == p && starts_with cs ps

-- `text.find(part)`, with `none` for -1
unfoldable pub find : Text → Text → Option ℕ
unfolding starts_with
find [] part = if starts_with [] part then some 0 else none
find (c ∷ cs) part =
    let rest = find cs part in if starts_with (c ∷ cs) part then some 0 else Option.map suc rest

-- `text.find(part, start)`
unfoldable pub find_from : Text → Text → ℕ → Option ℕ
unfolding find
find_from text part start = Option.map (λ i. start + i) (find (drop start text) part)

-- `c.lower()` for one code point. Only what the program can tell apart is written out: the capitals
-- of ASCII, U+212A (the Kelvin sign, whose lower case is the letter k), and U+0130, whose lower
-- case is two code points. Any other capital has a single code point outside ASCII for its lower
-- case, which no marker of the program holds, and is left as it is.
unfoldable pub lower_char : ℕ → Text
lower_char c =
    if leb b'A' c && leb c b'Z'
    then (c + 32) ∷ []
    else if c == 0x212a
    then b'k' ∷ []
    else if c == 0x130
    then b'i' ∷ 0x307 ∷ []
    else c ∷ []

-- `text.lower()`
unfoldable pub lower : Text → Text
unfolding lower_char
lower [] = []
lower (c ∷ cs) = lower_char c ++ lower cs

-- `text.replace`-free slices: `text[-n:]` for `0 < n`, and the empty text for `n = 0`.
unfoldable pub take_last : ℕ → Text → Text
take_last n text = drop (length text - n) text

-- `c.isspace()`
unfoldable pub is_space : ℕ → Bool
is_space c =
    (leb 0x09 c && leb c 0x0d)
    || (leb 0x1c c && leb c 0x20)
    || c == 0x85
    || c == 0xa0
    || c == 0x1680
    || (leb 0x2000 c && leb c 0x200a)
    || c == 0x2028
    || c == 0x2029
    || c == 0x202f
    || c == 0x205f
    || c == 0x3000

-- `text.lstrip()`, `text.rstrip()`, `text.strip()`
unfoldable pub lstrip : Text → Text
unfolding is_space
lstrip [] = []
lstrip (c ∷ cs) = let rest = lstrip cs in if is_space c then rest else c ∷ cs

unfoldable pub rstrip : Text → Text
unfolding is_space
rstrip [] = []
rstrip (c ∷ cs) = let rest = rstrip cs in if is_space c && is_empty rest then [] else c ∷ rest

unfoldable pub strip : Text → Text
unfolding lstrip rstrip
strip text = rstrip (lstrip text)

rstrip-empty : (text : Text) → is_empty (rstrip text) ≡ all is_space text
unfolding rstrip
rstrip-empty [] = refl
rstrip-empty (c ∷ cs) = ground (arith, rstrip-empty cs)

-- Only a text of white space is stripped to nothing.
pub strip-empty : (text : Text) → is_empty (strip text) ≡ all is_space text
unfolding strip lstrip
strip-empty [] = unfold rstrip in refl
strip-empty (c ∷ cs) = ground (arith, strip-empty cs, rstrip-empty (c ∷ cs))

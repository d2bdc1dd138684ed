-- ===== src/Prelude/Chars.antt =====
-- From code points back to texts. What is no scalar value becomes U+0000.
use Prim.Native.Nat.{ℕ, compare, Ordering}
use Prim.Native.Char.{Char, char, nul, code, IsScalar}
use Prim.Native.String.{String}
use mathlib.Core.Path.{◌≡◌, refl}
use mathlib.Core.List.{[], ◌∷◌}
use gemma_4_31b_mtp_v_llm_se.Prelude.Text.{Text, codes}
use gemma_4_31b_mtp_v_llm_se.Prelude.Lists.{All}

abbrev Below : Ordering → Type 0
Below Ordering.lt = Unit
Below Ordering.eq = ⊥
Below Ordering.gt = ⊥

abbrev Inside : Ordering → Ordering → Type 0
Inside Ordering.lt o = Below o
Inside Ordering.eq o = ⊥
Inside Ordering.gt o = ⊥

-- `IsScalar`, over what it compares
abbrev Ranges : Ordering → Ordering → Ordering → Type 0
Ranges Ordering.lt o p = Unit
Ranges Ordering.eq o p = Inside o p
Ranges Ordering.gt o p = Inside o p

unfoldable pub char_within : (a b c : Ordering) → (Ranges a b c → Char) → Char
char_within Ordering.lt b c make = make tt
char_within Ordering.eq Ordering.lt Ordering.lt make = make tt
char_within Ordering.gt Ordering.lt Ordering.lt make = make tt
char_within a b c make = nul

unfoldable pub char_of : ℕ → Char
unfolding char_within
char_of n = char_within (compare n 55296) (compare 57343 n) (compare n 1114112) (char n)

-- The text with the code points
unfoldable pub text_of : Text → String
unfolding char_of
text_of [] = ""
text_of (c ∷ cs) = String.◌∷◌ (char_of c) (text_of cs)

code-char_within :
    (a b c : Ordering) (n : ℕ) (make : Ranges a b c → Char)
    → Ranges a b c
    → ((q : Ranges a b c) → code (make q) ≡ n)
    → code (char_within a b c make) ≡ n
unfolding char_within
code-char_within Ordering.lt b c n make p h = h tt
code-char_within Ordering.eq Ordering.lt Ordering.lt n make p h = h tt
code-char_within Ordering.gt Ordering.lt Ordering.lt n make p h = h tt
code-char_within a b c n make p h = absurd p

-- A scalar value is the code of its character.
pub code-char_of : (n : ℕ) → IsScalar n → code (char_of n) ≡ n
unfolding char_of
code-char_of n p =
    code-char_within (compare n 55296) (compare 57343 n) (compare n 1114112) n (char n) p
      (λ q. refl)

pub code-IsScalar : (c : Char) → IsScalar (code c)
code-IsScalar (char n p) = p

pub codes-IsScalar : (s : String) → All IsScalar (codes s)
codes-IsScalar String.[] = tt
codes-IsScalar (String.◌∷◌ c s) = (code-IsScalar c, codes-IsScalar s)

-- A text of scalar values is the code points of its characters.
pub codes-text_of : (text : Text) → All IsScalar text → codes (text_of text) ≡ text
unfolding text_of
codes-text_of [] h = refl
codes-text_of (c ∷ cs) (p, h) = rw (code-char_of c p, codes-text_of cs h) refl

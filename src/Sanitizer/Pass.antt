-- ===== src/Sanitizer/Pass.antt =====
-- The characters of the buffer that a round may let go, whatever text comes behind it.

use gemma_4_31b_mtp_v_llm_se.Prelude.{
  ℕ, zero, suc, ◌-◌, ◌≤◌, ◌<◌, min, ◌≡◌, ◌≢◌, refl, sym, ap, subst, ◌∙◌, Bool, true, false, Option,
  some, none, List, [], ◌∷◌, arith, length, length-drop, drop, leb, leb→le, All, any, map, ◌==◌,
  ==_iff, inl, inr, Bool-cases,
}
use gemma_4_31b_mtp_v_llm_se.Prelude.Text.{Text, starts_with, lower, take_last}
use gemma_4_31b_mtp_v_llm_se.Sanitizer.{longest, suffix_len, safe_suffix_len}
use gemma_4_31b_mtp_v_llm_se.Sanitizer.Search.{IsAligned, lower-cons, lower_one, lower_one-lt}
use gemma_4_31b_mtp_v_llm_se.Sanitizer.Starts.{IsNoStart, length-lower}

abbrev pub has_lt : Text → Bool
has_lt text = any (λ c. c == b'<') text

-- The only `<` of a marker is its first character.
abbrev pub HasOneLt : Text → Type 0
HasOneLt [] = ⊥
HasOneLt (c ∷ cs) = (c ≡ b'<') × (has_lt cs ≡ false)

abbrev pub IsMarker : Text → Type 0
IsMarker m = HasOneLt m × HasOneLt (lower m)

starts_with-has_lt : (t u : Text) → starts_with t u ≡ true → has_lt t ≡ false → has_lt u ≡ false
unfolding starts_with
starts_with-has_lt t [] h k = refl
starts_with-has_lt [] (x ∷ u) h k = cc
starts_with-has_lt (c ∷ t) (x ∷ u) h k = ground (arith, starts_with-has_lt t u)

starts_with-one_lt :
    (m : Text) (l : ℕ) (u : Text) → HasOneLt m → has_lt u ≡ true → starts_with m (l ∷ u) ≡ false
unfolding starts_with
starts_with-one_lt [] l u h k = absurd h
starts_with-one_lt (c ∷ m) l u (_, h) k = ground (arith, starts_with-has_lt m u)

pub has_lt-lower : (t : Text) → IsAligned t → has_lt (lower t) ≡ has_lt t
has_lt-lower [] h = unfold lower in refl
has_lt-lower (c ∷ t) (h, hs) =
    ap has_lt (lower-cons c t h) ∙ ground (arith, lower_one-lt c, has_lt-lower t hs)

-- No marker begins at a character with a `<` behind it.
pub IsNoStart-of_lt :
    (c : ℕ) (cs : Text) (ms : List Text)
    → IsAligned (c ∷ cs)
    → All IsMarker ms
    → has_lt cs ≡ true
    → All (IsNoStart (c ∷ cs)) ms
IsNoStart-of_lt c cs [] a h k = tt
IsNoStart-of_lt c cs (m ∷ ms) (a, aligned) ((_, h), hs) k =
    let behind : has_lt (lower cs) ≡ true = has_lt-lower cs aligned ∙ k in
    (
      inl (rw (lower-cons c cs a) (starts_with-one_lt (lower m) (lower_one c) (lower cs) h behind)),
      IsNoStart-of_lt c cs ms (a, aligned) hs k,
    )

suffix_len-longest :
    (low : Text) (ms : List Text) (n j : ℕ)
    → suffix_len low ms n < j
    → j ≤ n
    → any (λ m. starts_with m (take_last j low)) ms ≡ false
unfolding suffix_len
suffix_len-longest low ms zero j p q = absurd (omega arith)
suffix_len-longest low ms (suc n) j p q =
    elim (Bool-cases (any (λ m. starts_with m (take_last (suc n) low)) ms)) [
      | inl found ↦ absurd (ground arith)
      | inr other ↦ elim (Bool-cases (j == suc n)) [
        | inl same ↦ rw ((==_iff j (suc n)).0 same) other
        | inr less ↦ suffix_len-longest low ms n j (ground arith) (ground arith)
      ]
    ]

lower-drop : (n : ℕ) (t : Text) → IsAligned t → lower (drop n t) ≡ drop n (lower t)
lower-drop zero t h = refl
lower-drop (suc n) [] h = unfold lower in refl
lower-drop (suc n) (c ∷ t) (h, hs) = lower-drop n t hs ∙ sym (ap (drop (suc n)) (lower-cons c t h))

IsNoStart-of_any :
    (t : Text) (ms : List Text)
    → any (λ m. starts_with m (lower t)) (map lower ms) ≡ false
    → All (IsNoStart t) ms
IsNoStart-of_any t [] h = tt
IsNoStart-of_any t (m ∷ ms) h = (inl (ground arith), IsNoStart-of_any t ms (ground arith))

IsNoStart-of_longest : (t : Text) (ms : List Text) → longest ms ≤ length t → All (IsNoStart t) ms
unfolding longest
IsNoStart-of_longest t [] h = tt
IsNoStart-of_longest t (m ∷ ms) h = (inr (omega arith), IsNoStart-of_longest t ms (omega arith))

-- What `_safe_suffix_len` does not keep begins no marker.
pub safe_suffix_len-IsNoStart :
    (b : Text) (ms : List Text) (p : ℕ)
    → IsAligned b
    → p < length b - safe_suffix_len b ms
    → All (IsNoStart (drop p b)) ms
unfolding safe_suffix_len
safe_suffix_len-IsNoStart b ms p a h =
    let j = length b - p in
    let n = min (length b) (longest ms - 1) in
    let place : length (lower b) - j ≡ p = omega (arith, length-lower b a) in
    let last : take_last j (lower b) ≡ lower (drop p b) =
      unfold take_last in rw place (sym (lower-drop p b a)) in
    elim (Bool-cases (leb j n)) [
      | inl short ↦ IsNoStart-of_any (drop p b) ms (
          subst (λ t. any (λ m. starts_with m t) (map lower ms) ≡ false) last
            (suffix_len-longest (lower b) (map lower ms) n j (omega arith) (leb→le j n short)))
      | inr long ↦ IsNoStart-of_longest (drop p b) ms (ground (arith, length-drop p b))
    ]

-- `Here t` says that at the start of the text `t` the code finds nothing, and `search` is the
-- code's search for the first place where it does.
module _ (Here : Text → Type 0) (ms : List Text) where
  -- The first `n` characters stay what they are, whatever text comes behind.
  abbrev pub Pass : Text → ℕ → Type 0
  Pass b zero = Unit
  Pass [] (suc n) = Unit
  Pass (c ∷ cs) (suc n) = Here (c ∷ cs) × All (IsNoStart (c ∷ cs)) ms × Pass cs n

  module _ (search : Text → Option ℕ) where
    abbrev pub FindsNone : Type 0
    FindsNone =
        (c : ℕ) (cs : Text)
        → c ≢ 0x130
        → search (c ∷ cs) ≡ none
        → Here (c ∷ cs) × (search cs ≡ none)

    abbrev pub FindsLater : Type 0
    FindsLater =
        (c : ℕ) (cs : Text) (i : ℕ)
        → IsAligned (c ∷ cs)
        → search (c ∷ cs) ≡ some (suc i)
        → Here (c ∷ cs) × (search cs ≡ some i) × (has_lt cs ≡ true)

    pub Pass-found :
        FindsLater
        → All IsMarker ms
        → (b : Text) (i : ℕ) → IsAligned b
        → search b ≡ some i
        → Pass b i
    Pass-found later markers b zero a e = tt
    Pass-found later markers [] (suc i) a e = tt
    Pass-found later markers (c ∷ cs) (suc i) a e =
        let (here, found, behind) = later c cs i a e in
        (here, IsNoStart-of_lt c cs ms a markers behind, Pass-found later markers cs i a.1 found)

    pub Pass-none :
        FindsNone
        → (b : Text) (n : ℕ) → IsAligned b
        → search b ≡ none
        → ((p : ℕ) → p < n → All (IsNoStart (drop p b)) ms)
        → Pass b n
    Pass-none absent b zero a e h = tt
    Pass-none absent [] (suc n) a e h = tt
    Pass-none absent (c ∷ cs) (suc n) (a, aligned) e h =
        let (here, later) = absent c cs a e in
        (
          here,
          h 0 (omega arith),
          Pass-none absent cs n aligned later (λ p q. h (suc p) (omega arith)),
        )

-- ===== src/Sanitizer/Starts.antt =====
-- Texts that begin a marker, and markers that cannot be taken for one another.
use gemma_4_31b_mtp_v_llm_se.Prelude.{
  ℕ, zero, suc, ◌≤◌, ◌≡◌, refl, ap, ◌∙◌, true, false, List, [], ◌∷◌, ◌++◌, arith, length, drop, All,
  ◌⊎◌, inl, inr, Bool-cases,
}
use gemma_4_31b_mtp_v_llm_se.Prelude.Text.{Text, starts_with, lower}
use gemma_4_31b_mtp_v_llm_se.Sanitizer.{
  channel_thought, channel_final, channel_close, html_starts, html_closes,
}
use gemma_4_31b_mtp_v_llm_se.Sanitizer.Search.{IsAligned, lower-cons}
use gemma_4_31b_mtp_v_llm_se.Sanitizer.Prefix.{
  starts_with-append, starts_with-append_new, lower-append, starts_with-lower,
}

pub starts_with-le : (t m : Text) → starts_with t m ≡ true → length m ≤ length t
unfolding starts_with
starts_with-le t [] h = omega arith
starts_with-le [] (x ∷ m) h = cc
starts_with-le (c ∷ t) (x ∷ m) h = ground (arith, starts_with-le t m)

pub starts_with-flip :
    (t m : Text) → starts_with t m ≡ true → length t ≤ length m → starts_with m t ≡ true
unfolding starts_with
starts_with-flip [] [] h k = refl
starts_with-flip (c ∷ t) [] h k = absurd (omega arith)
starts_with-flip [] (x ∷ m) h k = cc
starts_with-flip (c ∷ t) (x ∷ m) h k = ground (arith, starts_with-flip t m)

pub drop-append_le : (n : ℕ) (t more : Text) → n ≤ length t → drop n (t ++ more) ≡ drop n t ++ more
drop-append_le zero t more h = refl
drop-append_le (suc n) [] more h = absurd (omega arith)
drop-append_le (suc n) (c ∷ t) more h = drop-append_le n t more (omega arith)

pub length-lower : (t : Text) → IsAligned t → length (lower t) ≡ length t
unfolding lower
length-lower [] h = refl
length-lower (c ∷ t) (h, hs) = ap length (lower-cons c t h) ∙ ap suc (length-lower t hs)

-- The text cannot be the beginning of the marker: more text will not complete it.
abbrev pub IsNoStart : Text → Text → Type 0
IsNoStart t m = (starts_with (lower m) (lower t) ≡ false) ⊎ (length m ≤ length t)

pub starts_with-append_no :
    (t m more : Text) → IsNoStart t m → starts_with t m ≡ false → starts_with (t ++ more) m ≡ false
starts_with-append_no t m more h k = elim (Bool-cases (starts_with m t)) [
  | inr fresh ↦ starts_with-append_new t m more k fresh
  | inl begun ↦ ground (arith, h, starts_with-lower m t begun, starts_with-flip m t begun)
]

pub starts_with-lower-append_no :
    (t m more : Text)
    → IsAligned t
    → lower m ≡ m
    → IsNoStart t m
    → starts_with (lower t) m ≡ false
    → starts_with (lower (t ++ more)) m ≡ false
starts_with-lower-append_no t m more a low h k =
    rw (lower-append t more) (elim (Bool-cases (starts_with m (lower t))) [
      | inr fresh ↦ starts_with-append_new (lower t) m (lower more) k fresh
      | inl begun ↦ ground (arith, h, low, length-lower t a, starts_with-flip m (lower t) begun)
    ])

pub starts_with-lower-append :
    (t m more : Text) → starts_with (lower t) m ≡ true → starts_with (lower (t ++ more)) m ≡ true
starts_with-lower-append t m more h =
    rw (lower-append t more) (starts_with-append (lower t) m (lower more) h)

-- The markers' shapes
abbrev pub Clash : Text → Text → Type 0
Clash m n = (starts_with m n ≡ false) × (starts_with n m ≡ false)

abbrev pub AllClash : List Text → Type 0
AllClash [] = Unit
AllClash (m ∷ ms) = All (Clash m) ms × AllClash ms

pub channel_clash : AllClash (channel_thought ∷ channel_final ∷ channel_close ∷ [])
unfolding channel_thought channel_final channel_close starts_with
channel_clash = (((refl, refl), ((refl, refl), tt)), (((refl, refl), tt), (tt, tt)))

pub html_close_clash : AllClash html_closes
unfolding html_closes starts_with
html_close_clash = (((refl, refl), ((refl, refl), tt)), (((refl, refl), tt), (tt, tt)))

pub final_html-Clash : All (Clash (lower channel_final)) html_closes
unfolding html_closes channel_final lower starts_with
final_html-Clash = ((refl, refl), ((refl, refl), ((refl, refl), tt)))

pub close_html-Clash : All (Clash (lower channel_close)) html_closes
unfolding html_closes channel_close lower starts_with
close_html-Clash = ((refl, refl), ((refl, refl), ((refl, refl), tt)))

abbrev pub IsLower : Text → Type 0
IsLower m = lower m ≡ m

pub html_closes-IsLower : All IsLower html_closes
unfolding html_closes lower
html_closes-IsLower = (refl, (refl, (refl, tt)))

pub html_starts-IsLower : All IsLower html_starts
unfolding html_starts lower
html_starts-IsLower = (refl, (refl, (refl, tt)))

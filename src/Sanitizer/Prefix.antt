-- ===== src/Sanitizer/Prefix.antt =====
-- Texts that start with one another, and what more text behind a buffer can change of that.
use gemma_4_31b_mtp_v_llm_se.Prelude.{
  ◌≡◌, refl, sym, true, false, [], ◌∷◌, ◌++◌, arith, length, drop, ◌==◌, ==_iff, inl, inr,
  append_assoc, Bool-cases,
}
use gemma_4_31b_mtp_v_llm_se.Prelude.Text.{Text, starts_with, lower, lower_char}

pub starts_with-append :
    (t m more : Text) → starts_with t m ≡ true → starts_with (t ++ more) m ≡ true
unfolding starts_with
starts_with-append t [] more h = refl
starts_with-append [] (x ∷ m) more h = cc
starts_with-append (c ∷ t) (x ∷ m) more h = ground (arith, starts_with-append t m more)

-- A marker that more text completes had begun before it.
pub starts_with-append_new :
    (t m more : Text)
    → starts_with t m ≡ false
    → starts_with m t ≡ false
    → starts_with (t ++ more) m ≡ false
unfolding starts_with
starts_with-append_new t [] more h k = cc
starts_with-append_new [] (x ∷ m) more h k = cc
starts_with-append_new (c ∷ t) (x ∷ m) more h k = ground (arith, starts_with-append_new t m more)

pub drop-append_starts :
    (t m more : Text)
    → starts_with t m ≡ true
    → drop (length m) (t ++ more) ≡ drop (length m) t ++ more
unfolding starts_with
drop-append_starts t [] more h = refl
drop-append_starts [] (x ∷ m) more h = cc
drop-append_starts (c ∷ t) (x ∷ m) more h = drop-append_starts t m more (ground arith)

-- Two texts that start the same text start one another.
pub starts_with-both :
    (t m n : Text)
    → starts_with m n ≡ false
    → starts_with n m ≡ false
    → starts_with t m ≡ true
    → starts_with t n ≡ false
unfolding starts_with
starts_with-both t [] [] p q h = cc
starts_with-both t [] (y ∷ n) p q h = cc
starts_with-both t (x ∷ m) [] p q h = cc
starts_with-both [] (x ∷ m) (y ∷ n) p q h = cc
starts_with-both (c ∷ t) (x ∷ m) (y ∷ n) p q h = ground (arith, starts_with-both t m n)

pub lower-append : (a b : Text) → lower (a ++ b) ≡ lower a ++ lower b
unfolding lower
lower-append [] b = refl
lower-append (c ∷ a) b =
    rw (lower-append a b) (sym (append_assoc (lower_char c) (lower a) (lower b)))

starts_with-append_left : (a t m : Text) → starts_with (a ++ t) (a ++ m) ≡ starts_with t m
unfolding starts_with
starts_with-append_left [] t m = refl
starts_with-append_left (c ∷ a) t m = ground (arith, starts_with-append_left a t m)

pub starts_with-lower :
    (t m : Text) → starts_with t m ≡ true → starts_with (lower t) (lower m) ≡ true
unfolding starts_with lower
starts_with-lower t [] h = refl
starts_with-lower [] (x ∷ m) h = cc
starts_with-lower (c ∷ t) (x ∷ m) h = elim (Bool-cases (c == x)) [
  | inr n ↦ absurd (ground arith)
  | inl e ↦
      let same : c ≡ x = (==_iff c x).0 e in
      rw (same, starts_with-append_left (lower_char x) (lower t) (lower m))
        (starts_with-lower t m (ground arith))
]

-- ===== src/Gateway/Boundary/Clients.antt =====
-- Clients do not count against each other's rates.
use gemma_4_31b_mtp_v_llm_se.Prelude.{
  ℕ, suc, ◌≤◌, ◌≡◌, refl, ap, sym, ◌∙◌, subst, String, false, List, [], ◌∷◌, arith, Bool-cases, inl,
  inr, eq_iff, eq_refl, if◌then◌else◌,
}
use gemma_4_31b_mtp_v_llm_se.Json.{pos}
use gemma_4_31b_mtp_v_llm_se.Gateway.RateLimit.{allow_rate, serve}
use gemma_4_31b_mtp_v_llm_se.Gateway.RateLimit.Window.{IsOrdered, count_within, serve-bounded}
use gemma_4_31b_mtp_v_llm_se.Gateway.Boundary.{Buckets, set_bucket, check_rate, check_rates}
use text.Mathlib.Text.{◌==◌ as str_eq}

-- The times of one client's requests
abbrev pub times_of : String → List (String × ℕ) → List ℕ
times_of client [] = []
times_of client ((key, now) ∷ arrivals) =
    if str_eq key client then now ∷ times_of client arrivals else times_of client arrivals

set_bucket-own :
    (key : String) (bucket : List ℕ) (buckets : Buckets)
    → set_bucket key bucket buckets key ≡ bucket
unfolding set_bucket
set_bucket-own key bucket buckets = rw (eq_refl key)

set_bucket-other :
    (key other : String) (bucket : List ℕ) (buckets : Buckets)
    → str_eq key other ≡ false
    → set_bucket key bucket buckets other ≡ buckets other
unfolding set_bucket
set_bucket-other key other bucket buckets h = ground (arith, eq_iff key other, eq_iff other key)

-- What one request does to a client's bucket, and to what is let through of that client
module _ (n : ℕ) (client : String) (now : ℕ) (arrivals : List (String × ℕ)) (buckets : Buckets)
    (later : (next : Buckets)
      → times_of client (check_rates (pos (suc n)) arrivals next)
        ≡ serve (suc n) (times_of client arrivals) (next client)) where
  own-rate :
      times_of client (check_rates (pos (suc n)) ((client, now) ∷ arrivals) buckets)
      ≡ serve (suc n) (times_of client ((client, now) ∷ arrivals)) (buckets client)
  unfolding check_rates check_rate serve
  own-rate =
      let bucket = (allow_rate (suc n) now (buckets client)).1 in
      let same = eq_refl client in
      let rest =
        later (set_bucket client bucket buckets)
        ∙ ap (serve (suc n) (times_of client arrivals)) (set_bucket-own client bucket buckets) in
      elim (Bool-cases (allow_rate (suc n) now (buckets client)).0) [
        | inl y ↦ rw (same, y, same) (ap (λ ts. now ∷ ts) rest)
        | inr no_room ↦ rw (same, no_room) rest
      ]

  other-rate :
      (key : String)
      → str_eq key client ≡ false
      → times_of client (check_rates (pos (suc n)) ((key, now) ∷ arrivals) buckets)
        ≡ serve (suc n) (times_of client arrivals) (buckets client)
  unfolding check_rates check_rate
  other-rate key m =
      let bucket = (allow_rate (suc n) now (buckets key)).1 in
      let rest =
        later (set_bucket key bucket buckets)
        ∙ ap (serve (suc n) (times_of client arrivals))
            (set_bucket-other key client bucket buckets m) in
      elim (Bool-cases (allow_rate (suc n) now (buckets key)).0) [
        | inl y ↦ rw (y, m) rest
        | inr no_room ↦ rw no_room rest
      ]

-- However the requests of many clients interleave, those of one client that are let through are the
-- ones that would be, were it alone.
pub check_rates-serve :
    (n : ℕ) (client : String) (arrivals : List (String × ℕ)) (buckets : Buckets)
    → times_of client (check_rates (pos (suc n)) arrivals buckets)
      ≡ serve (suc n) (times_of client arrivals) (buckets client)
unfolding check_rates serve
check_rates-serve n client [] buckets = refl
check_rates-serve n client ((key, now) ∷ arrivals) buckets =
    let later = check_rates-serve n client arrivals in
    elim (Bool-cases (str_eq key client)) [
      | inl y ↦
          subst
            (λ k.
              times_of client (check_rates (pos (suc n)) ((k, now) ∷ arrivals) buckets)
              ≡ serve (suc n) (times_of client ((k, now) ∷ arrivals)) (buckets client))
            (sym ((eq_iff key client).0 y)) (own-rate n client now arrivals buckets later)
      | inr m ↦ rw m (other-rate n client now arrivals buckets later key m)
    ]

-- In any window of 60 seconds at most `rate_limit_rpm` requests of a client are let through, when
-- that client's times do not run backwards, whatever the other clients do.
check_rates-bounded :
    (n start : ℕ) (client : String) (arrivals : List (String × ℕ))
    → IsOrdered 0 (times_of client arrivals)
    → count_within start (times_of client (check_rates (pos (suc n)) arrivals (λ key. []))) ≤ suc n
check_rates-bounded n start client arrivals o =
    rw (check_rates-serve n client arrivals (λ key. []))
      (serve-bounded (suc n) start (times_of client arrivals) o)

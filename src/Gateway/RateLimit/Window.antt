-- ===== src/Gateway/RateLimit/Window.antt =====
-- No window of 60 seconds holds more requests that are let through than the limit.
use gemma_4_31b_mtp_v_llm_se.Prelude.{
  ℕ, ◌+◌, ◌≤◌, ◌<◌, ◌≡◌, ◌⊎◌, refl, inl, inr, leb, if◌then◌else◌, ◌&&◌, List, [], ◌∷◌, ◌++◌, length,
  length-append, arith, Bool-cases,
}
use gemma_4_31b_mtp_v_llm_se.Gateway.RateLimit.{rate_window, expire, allow_rate, serve}

-- Each time is at or after the one before it, the first at or after `from`.
abbrev pub IsOrdered : ℕ → List ℕ → Type 0
IsOrdered from [] = Unit
IsOrdered from (t ∷ ts) = (from ≤ t) × IsOrdered t ts

-- How many of the times are in the 60 seconds that begin at `start`, both ends included
abbrev pub count_within : ℕ → List ℕ → ℕ
count_within start [] = 0
count_within start (t ∷ ts) =
    if leb start t && leb t (start + rate_window)
    then 1 + count_within start ts
    else count_within start ts

count_within-append :
    (start : ℕ) (xs ys : List ℕ)
    → count_within start (xs ++ ys) ≡ count_within start xs + count_within start ys
count_within-append start [] ys = omega arith
count_within-append start (t ∷ ts) ys = ground (arith, count_within-append start ts ys)

count_within-le : (start : ℕ) (ts : List ℕ) → count_within start ts ≤ length ts
count_within-le start [] = omega arith
count_within-le start (t ∷ ts) = ground (arith, count_within-le start ts)

expire-le : (now : ℕ) (bucket : List ℕ) → length (expire now bucket) ≤ length bucket
unfolding expire
expire-le now [] = omega arith
expire-le now (t ∷ ts) = ground (arith, expire-le now ts)

-- What is dropped from the bucket is in no window that is still open.
expire-count :
    (start now : ℕ) (bucket : List ℕ)
    → (start + rate_window < now)
      ⊎ (count_within start (expire now bucket) ≡ count_within start bucket)
unfolding expire
expire-count start now [] = inr refl
expire-count start now (t ∷ ts) = ground (arith, expire-count start now ts)

-- Once the window is over, nothing that is let through is in it.
serve-late :
    (rpm_limit start from : ℕ) (times bucket : List ℕ)
    → IsOrdered from times
    → start + rate_window < from
    → count_within start (serve rpm_limit times bucket) ≡ 0
unfolding serve allow_rate
serve-late rpm_limit start from [] bucket o h = refl
serve-late rpm_limit start from (now ∷ times) bucket (le, o) h = ground (
  arith,
  serve-late rpm_limit start now times (expire now bucket) o (omega (arith, le, h)),
  serve-late rpm_limit start now times (expire now bucket ++ now ∷ []) o (omega (arith, le, h)),
)

-- The bucket and what is still to be let through together stay within the limit.
serve-within :
    (rpm_limit start from : ℕ) (times bucket : List ℕ)
    → IsOrdered from times
    → length bucket ≤ rpm_limit
    → count_within start bucket + count_within start (serve rpm_limit times bucket) ≤ rpm_limit
unfolding serve allow_rate
serve-within rpm_limit start from [] bucket o h = omega (arith, count_within-le start bucket, h)
serve-within rpm_limit start from (now ∷ times) bucket (le, o) h =
    let recent = expire now bucket in
    let short = expire-le now bucket in
    elim (expire-count start now bucket) [
      | inl late ↦ omega (
        arith,
        serve-late rpm_limit start now (now ∷ times) bucket (omega arith, o) late,
        count_within-le start bucket,
        h,
      )
      | inr same ↦ elim (Bool-cases (leb rpm_limit (length recent))) [
        | inl full ↦
            ground (
              arith,
              same,
              serve-within rpm_limit start now times recent o (omega (arith, short, h)),
            )
        | inr room ↦ ground (
          arith,
          same,
          count_within-append start recent (now ∷ []),
          serve-within rpm_limit start now times (recent ++ now ∷ []) o
              (ground (arith, length-append recent (now ∷ []))),
        )
      ]
    ]

-- However many requests a client makes, one after the other, every window of 60 seconds holds at
-- most `rpm_limit` that are let through.
pub serve-bounded :
    (rpm_limit start : ℕ) (times : List ℕ)
    → IsOrdered 0 times
    → count_within start (serve rpm_limit times []) ≤ rpm_limit
serve-bounded rpm_limit start times o =
    omega (arith, serve-within rpm_limit start 0 times [] o (omega arith))

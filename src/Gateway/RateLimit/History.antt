-- ===== src/Gateway/RateLimit/History.antt =====
-- The bucket of old times against the whole history of a client.
use gemma_4_31b_mtp_v_llm_se.Prelude.{
  ℕ, ◌+◌, ◌-◌, ◌≤◌, ◌≡◌, refl, ◌∙◌, ltb, leb, if◌then◌else◌, List, [], ◌∷◌, ◌++◌, length, All,
  All-append, arith, Bool-cases, inl, inr,
}
use gemma_4_31b_mtp_v_llm_se.Gateway.RateLimit.{rate_window, expire, allow_rate, serve}
use gemma_4_31b_mtp_v_llm_se.Gateway.RateLimit.Window.{IsOrdered}

-- How many of the times are at most 60 seconds before `now`
abbrev pub recent_count : ℕ → List ℕ → ℕ
recent_count now [] = 0
recent_count now (t ∷ ts) =
    if leb now (t + rate_window) then 1 + recent_count now ts else recent_count now ts

-- The requests that are let through when nothing is ever forgotten: a request is, when fewer than
-- the limit of those before it are at most 60 seconds old.
abbrev pub history_serve : ℕ → List ℕ → List ℕ → List ℕ
history_serve rpm_limit [] past = []
history_serve rpm_limit (now ∷ times) past =
    if ltb (recent_count now past) rpm_limit
    then now ∷ history_serve rpm_limit times (past ++ now ∷ [])
    else history_serve rpm_limit times past

recent_count-append :
    (now : ℕ) (xs ys : List ℕ)
    → recent_count now (xs ++ ys) ≡ recent_count now xs + recent_count now ys
recent_count-append now [] ys = omega arith
recent_count-append now (t ∷ ts) ys = ground (arith, recent_count-append now ts ys)

-- Behind a time that is recent, all are.
recent_count-IsOrdered :
    (now from : ℕ) (ts : List ℕ)
    → IsOrdered from ts
    → now ≤ from + rate_window
    → recent_count now ts ≡ length ts
recent_count-IsOrdered now from [] o h = refl
recent_count-IsOrdered now from (t ∷ ts) (le, o) h =
    ground (arith, recent_count-IsOrdered now t ts o (omega (arith, le, h)))

weaken-IsOrdered : (from t : ℕ) (ts : List ℕ) → from ≤ t → IsOrdered t ts → IsOrdered from ts
weaken-IsOrdered from t [] le o = tt
weaken-IsOrdered from t (s ∷ ts) le (here, o) = (omega (arith, le, here), o)

-- What stays in the bucket is what is recent.
expire-recent :
    (now from : ℕ) (bucket : List ℕ)
    → IsOrdered from bucket
    → length (expire now bucket) ≡ recent_count now bucket
unfolding expire
expire-recent now from [] o = refl
expire-recent now from (t ∷ ts) (le, o) = elim (Bool-cases (ltb rate_window (now - t))) [
  | inl old ↦ ground (arith, expire-recent now t ts o)
  | inr new ↦ ground (arith, recent_count-IsOrdered now t ts o (ground arith))
]

-- What is dropped from the bucket is never recent again.
expire-same :
    (now later : ℕ) (bucket : List ℕ)
    → now ≤ later
    → recent_count later (expire now bucket) ≡ recent_count later bucket
unfolding expire
expire-same now later [] le = refl
expire-same now later (t ∷ ts) le = ground (arith, expire-same now later ts le)

expire-IsOrdered :
    (now from : ℕ) (bucket : List ℕ) → IsOrdered from bucket → IsOrdered from (expire now bucket)
unfolding expire
expire-IsOrdered now from [] o = tt
expire-IsOrdered now from (t ∷ ts) (le, o) =
    ground (arith, weaken-IsOrdered from t (expire now ts) le (expire-IsOrdered now t ts o))

expire-All :
    (now bound : ℕ) (bucket : List ℕ)
    → All (λ t. t ≤ bound) bucket
    → All (λ t. t ≤ bound) (expire now bucket)
unfolding expire
expire-All now bound [] h = tt
expire-All now bound (t ∷ ts) (le, h) = ground (arith, expire-All now bound ts h)

append-IsOrdered :
    (from now : ℕ) (ts : List ℕ)
    → IsOrdered from ts
    → All (λ t. t ≤ now) ts
    → from ≤ now
    → IsOrdered from (ts ++ now ∷ [])
append-IsOrdered from now [] o h le = (le, tt)
append-IsOrdered from now (t ∷ ts) (here, o) (before, h) le =
    (here, append-IsOrdered t now ts o h before)

raise-All :
    (from now : ℕ) (ts : List ℕ) → from ≤ now → All (λ t. t ≤ from) ts → All (λ t. t ≤ now) ts
raise-All from now [] le h = tt
raise-All from now (t ∷ ts) le (here, h) = (omega (arith, here, le), raise-All from now ts le h)

-- Two lists of times that no later request can tell apart
SameRecent : ℕ → List ℕ → List ℕ → Type 0
SameRecent from bucket past =
    (later : ℕ) → from ≤ later → recent_count later bucket ≡ recent_count later past

append-SameRecent :
    (now : ℕ) (bucket past : List ℕ)
    → SameRecent now bucket past
    → SameRecent now (bucket ++ now ∷ []) (past ++ now ∷ [])
unfolding SameRecent
append-SameRecent now bucket past same later le = omega (
  arith,
  recent_count-append later bucket (now ∷ []),
  recent_count-append later past (now ∷ []),
  same later le,
)

serve-SameRecent :
    (rpm_limit from : ℕ) (times bucket past : List ℕ)
    → IsOrdered from times
    → IsOrdered 0 bucket
    → All (λ t. t ≤ from) bucket
    → SameRecent from bucket past
    → serve rpm_limit times bucket ≡ history_serve rpm_limit times past
unfolding serve allow_rate SameRecent
serve-SameRecent rpm_limit from [] bucket past o sorted before same = refl
serve-SameRecent rpm_limit from (now ∷ times) bucket past (le, o) sorted before same =
    let recent = expire now bucket in
    let kept = expire-IsOrdered now 0 bucket sorted in
    let bounded = expire-All now now bucket (raise-All from now bucket le before) in
    let size = expire-recent now 0 bucket sorted in
    let agree : SameRecent now recent past =
      λ later h. expire-same now later bucket h ∙ same later (omega (arith, le, h)) in
    elim (Bool-cases (leb rpm_limit (length recent))) [
      | inl full ↦ ground (
        arith,
        size,
        same now le,
        serve-SameRecent rpm_limit now times recent past o kept bounded agree,
      )
      | inr room ↦ ground (
        arith,
        size,
        same now le,
        serve-SameRecent rpm_limit now times (recent ++ now ∷ []) (past ++ now ∷ []) o
            (append-IsOrdered 0 now recent kept bounded (omega arith))
            (All-append (λ t. t ≤ now) recent (now ∷ []) bounded (omega arith, tt))
            (append-SameRecent now recent past agree),
      )
    ]

-- When time does not run backwards, forgetting what is older than 60 seconds changes nothing: the
-- requests let through are those of the limiter that keeps the whole history.
pub serve-eq-history_serve :
    (rpm_limit : ℕ) (times : List ℕ)
    → IsOrdered 0 times
    → serve rpm_limit times [] ≡ history_serve rpm_limit times []
unfolding SameRecent
serve-eq-history_serve rpm_limit times o =
    serve-SameRecent rpm_limit 0 times [] [] o tt tt (λ later h. refl)

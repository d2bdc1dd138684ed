-- ===== src/Gateway/Pool/Turns.antt =====
-- What one step of a request does to the slots.
use gemma_4_31b_mtp_v_llm_se.Prelude.{
  ℕ, zero, suc, ◌+◌, ◌≡◌, refl, sym, subst, Bool, true, false, List, [], ◌∷◌, All, arith,
}
use gemma_4_31b_mtp_v_llm_se.Gateway.RuntimeState.{
  RuntimeState, Admission, admitted, queue_full, acquire_generation_slot,
}
use gemma_4_31b_mtp_v_llm_se.Gateway.RuntimeState.Slots.{Reach, given, refused, released, noted}
use gemma_4_31b_mtp_v_llm_se.Gateway.Completions.{Call, attempt, release, note}
use gemma_4_31b_mtp_v_llm_se.Gateway.Completions.Slots.{IsNote}
use gemma_4_31b_mtp_v_llm_se.Gateway.Pool.{
  Task, waiting, running, is_admitted, do_call, do_first, turn, turn_at, run, releases, holds, held,
}

-- What is left of a request that has its slot: no attempt, and whatever is noted leaves the slots alone
abbrev pub IsRest : List Call → Type 0
IsRest [] = Unit
IsRest (attempt ∷ cs) = ⊥
IsRest (release ∷ cs) = IsRest cs
IsRest (note f ∷ cs) = IsNote (note f) × IsRest cs

-- The calls of a whole request, by the answer to its attempt
abbrev pub IsWhole : Bool → List Call → Type 0
IsWhole answer [] = Unit
IsWhole answer (attempt ∷ cs) = IsRest cs × (releases cs ≡ (elim answer [ true ↦ 1 | false ↦ 0 ]))
IsWhole answer (c ∷ cs) = ⊥

abbrev pub IsTask : Task → Type 0
IsTask (waiting h) = (answer : Bool) → IsWhole answer (h answer)
IsTask (running cs) = IsRest cs

-- The history of the runtime state, with some numbers of attempts and of slots given back
abbrev pub Holds : ℕ → RuntimeState → ℕ → Type 0
Holds n s h = (attempts : ℕ) × ((finished : ℕ) × Reach n s attempts h finished)

attempted :
    (n : ℕ) (s : RuntimeState) (h : ℕ) (r : Admission × RuntimeState)
    → acquire_generation_slot s ≡ r
    → Holds n s h
    → Holds n r.1 ((elim (is_admitted r.0) [ true ↦ 1 | false ↦ 0 ]) + h)
attempted n s h (admitted, t) e (attempts, (finished, r)) = (
  suc attempts,
  (finished, subst (λ k. Reach n t (suc attempts) k finished) (omega arith) (given r e)),
)
attempted n s h (queue_full, t) e (attempts, (finished, r)) = (
  suc attempts,
  (finished, subst (λ k. Reach n t (suc attempts) k finished) (omega arith) (refused r e)),
)

-- A step of a request that is running
rest_turn :
    (n : ℕ) (s : RuntimeState) (cs : List Call) (k : ℕ)
    → IsRest cs
    → Holds n s (releases cs + k)
    → IsTask (do_first cs s).0 × Holds n (do_first cs s).1 (holds (do_first cs s).0 + k)
unfolding do_first do_call
rest_turn n s [] k q h = (tt, h)
rest_turn n s (release ∷ cs) k q (attempts, (finished, r)) = (
  q,
  (attempts, (suc finished, released (subst (λ m. Reach n s attempts m finished) (omega arith) r))),
)
rest_turn n s (attempt ∷ cs) k q h = absurd q
rest_turn n s (note f ∷ cs) k (q, qs) (attempts, (finished, r)) =
    (qs, (attempts, (finished, noted r (q s))))

-- A step of a request that comes to its attempt
whole_turn :
    (n : ℕ) (s : RuntimeState) (cs : List Call) (k : ℕ)
    → IsWhole (is_admitted (acquire_generation_slot s).0) cs
    → Holds n s k
    → IsTask (do_first cs s).0 × Holds n (do_first cs s).1 (holds (do_first cs s).0 + k)
unfolding do_first do_call
whole_turn n s [] k q h = (tt, subst (Holds n s) (omega arith) h)
whole_turn n s (attempt ∷ cs) k (q, e) h = (
  q,
  subst (λ m. Holds n (acquire_generation_slot s).1 (m + k)) (sym e)
      (attempted n s k (acquire_generation_slot s) refl h),
)
whole_turn n s (release ∷ cs) k q h = absurd q
whole_turn n s (note f ∷ cs) k q h = absurd q

pub turn-Holds :
    (n : ℕ) (s : RuntimeState) (t : Task) (k : ℕ)
    → IsTask t
    → Holds n s (holds t + k)
    → IsTask (turn t s).0 × Holds n (turn t s).1 (holds (turn t s).0 + k)
unfolding turn
turn-Holds n s (waiting h) k q r =
    whole_turn n s (h (is_admitted (acquire_generation_slot s).0)) k
      (q (is_admitted (acquire_generation_slot s).0)) (subst (Holds n s) (omega arith) r)
turn-Holds n s (running cs) k q r = rest_turn n s cs k q r

regroup : (a b c : ℕ) → a + b + c ≡ a + (b + c)
regroup a b c = omega arith

swapped : (a b c : ℕ) → a + b + c ≡ b + (a + c)
swapped a b c = omega arith

pub turn_at-Holds :
    (n : ℕ) (s : RuntimeState) (i : ℕ) (ts : List Task) (k : ℕ)
    → All IsTask ts
    → Holds n s (held ts + k)
    → All IsTask (turn_at i ts s).0 × Holds n (turn_at i ts s).1 (held (turn_at i ts s).0 + k)
unfolding turn_at
turn_at-Holds n s i [] k q r = (tt, r)
turn_at-Holds n s zero (t ∷ ts) k (q, qs) r =
    let (q', r') =
      turn-Holds n s t (held ts + k) q (subst (Holds n s) (regroup (holds t) (held ts) k) r) in
    ((q', qs), subst (Holds n (turn t s).1) (sym (regroup (holds (turn t s).0) (held ts) k)) r')
turn_at-Holds n s (suc i) (t ∷ ts) k (q, qs) r =
    let (qs', r') =
      turn_at-Holds n s i ts (holds t + k) qs
        (subst (Holds n s) (swapped (holds t) (held ts) k) r) in
    (
      (q, qs'),
      subst (Holds n (turn_at i ts s).1) (sym (swapped (holds t) (held (turn_at i ts s).0) k)) r',
    )

-- After every schedule the runtime state is one whose held slots are those of the requests.
pub run-Holds :
    (n : ℕ) (schedule : List ℕ) (ts : List Task) (s : RuntimeState)
    → All IsTask ts
    → Holds n s (held ts + 0)
    → All IsTask (run schedule ts s).0
      × Holds n (run schedule ts s).1 (held (run schedule ts s).0 + 0)
unfolding run
run-Holds n [] ts s q r = (q, r)
run-Holds n (i ∷ is) ts s q r =
    let (q', r') = turn_at-Holds n s i ts 0 q r in
    run-Holds n is (turn_at i ts s).0 (turn_at i ts s).1 q' r'

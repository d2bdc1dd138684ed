-- ===== src/Gateway/RuntimeState/Slots.antt =====
-- The slots that the gateway has given out, against the numbers that it keeps.
use gemma_4_31b_mtp_v_llm_se.Prelude.{
  ℕ, zero, suc, ◌+◌, ◌-◌, ◌≤◌, ◌<◌, ◌≡◌, ◌↔◌, refl, subst, ◌∙◌, String, Option, some, arith,
}
use mathlib.Core.Option.{some-injective}
use gemma_4_31b_mtp_v_llm_se.Json.{ℤ, pos, Fields}
use gemma_4_31b_mtp_v_llm_se.Gateway.RuntimeState.{
  RuntimeState, fresh, init, Admission, admitted, queue_full, acquire_generation_slot, release_slot,
  record_generation, record_backend_error, record_mtp_delta, clear_backend_error, note_request,
}

-- The calls that record something
pub data Note : RuntimeState → RuntimeState → Type 0 where
  generation :
      {s : RuntimeState} (tokens : Option ℤ) (seconds size : ℤ)
      → Note s (record_generation tokens seconds size s)
  failed : {s : RuntimeState} (code : String) → Note s (record_backend_error code s)
  measured : {s : RuntimeState} (delta : Fields) → Note s (record_mtp_delta delta s)
  recovered : {s : RuntimeState} → Note s (clear_backend_error s)
  requested : {s : RuntimeState} (request_id : String) → Note s (note_request request_id s)

-- `Reach n s attempts held finished`: from the first state of a queue of size n, the handlers have
-- come to s by so many attempts to get a slot, with so many slots held and so many given back.
-- A handler gives a slot back only where it holds it.
pub data Reach (n : ℕ) : RuntimeState → ℕ → ℕ → ℕ → Type 0 where
  started : {s : RuntimeState} → init (pos n) ≡ some s → Reach n s 0 0 0
  given :
      {s t : RuntimeState} {attempts held finished : ℕ}
      → Reach n s attempts held finished
      → acquire_generation_slot s ≡ (admitted, t)
      → Reach n t (suc attempts) (suc held) finished
  refused :
      {s t : RuntimeState} {attempts held finished : ℕ}
      → Reach n s attempts held finished
      → acquire_generation_slot s ≡ (queue_full, t)
      → Reach n t (suc attempts) held finished
  released :
      {s : RuntimeState} {attempts held finished : ℕ}
      → Reach n s attempts (suc held) finished
      → Reach n (release_slot s) attempts held (suc finished)
  noted :
      {s t : RuntimeState} {attempts held finished : ℕ}
      → Reach n s attempts held finished
      → Note s t
      → Reach n t attempts held finished

-- The numbers of the state tell how the slots stand.
pub record IsAccounted (n : ℕ) (s : RuntimeState) (attempts held finished : ℕ) : Type 0 where
  pub capacity : s.max_queue_size ≡ n
  pub in_use : s.active ≡ held
  pub bounded : held ≤ n + 1
  pub admissions : s.total ≡ held + finished
  pub outcomes : s.total + s.rejected ≡ attempts

init-IsAccounted : (n : ℕ) (s : RuntimeState) → init (pos n) ≡ some s → IsAccounted n s 0 0 0
unfolding init
init-IsAccounted zero s e = absurd (ground arith)
init-IsAccounted (suc n) s e =
    subst (λ r. IsAccounted (suc n) r 0 0 0) (some-injective (fresh (suc n)) s e)
      (record {
        capacity = refl;
        in_use = refl;
        bounded = omega arith;
        admissions = refl;
        outcomes = refl;
      })

-- What a recording call leaves alone
Note-same :
    {s t : RuntimeState}
    → Note s t
    → (t.max_queue_size ≡ s.max_queue_size)
      × (t.active ≡ s.active)
      × (t.total ≡ s.total)
      × (t.rejected ≡ s.rejected)
unfolding record_generation record_backend_error record_mtp_delta clear_backend_error note_request
Note-same (generation tokens seconds size) = (refl, refl, refl, refl)
Note-same (failed code) = (refl, refl, refl, refl)
Note-same (measured delta) = (refl, refl, refl, refl)
Note-same recovered = (refl, refl, refl, refl)
Note-same (requested request_id) = (refl, refl, refl, refl)

-- How an attempt changes the state, as it ends
Attempted : RuntimeState → Admission × RuntimeState → Type 0
Attempted s (admitted, t) =
    (s.active ≤ s.max_queue_size)
    × (t.max_queue_size ≡ s.max_queue_size)
    × (t.active ≡ s.active + 1)
    × (t.total ≡ s.total + 1)
    × (t.rejected ≡ s.rejected)
Attempted s (queue_full, t) =
    (s.max_queue_size < s.active)
    × (t.max_queue_size ≡ s.max_queue_size)
    × (t.active ≡ s.active)
    × (t.total ≡ s.total)
    × (t.rejected ≡ s.rejected + 1)

acquire-Attempted : (s : RuntimeState) → Attempted s (acquire_generation_slot s)
unfolding acquire_generation_slot Attempted
acquire-Attempted s = ground arith

acquired :
    (s : RuntimeState) (r : Admission × RuntimeState)
    → acquire_generation_slot s ≡ r
    → Attempted s r
acquired s r e = subst (Attempted s) e (acquire-Attempted s)

release_slot-same :
    (s : RuntimeState)
    → let t = release_slot s in
      (t.max_queue_size ≡ s.max_queue_size)
      × (t.active ≡ s.active - 1)
      × (t.total ≡ s.total)
      × (t.rejected ≡ s.rejected)
unfolding release_slot
release_slot-same s = ground arith

-- However the handlers' calls follow each other: the active requests are the slots held, never more
-- than one above the size of the queue; the total is the slots held and given back; and each
-- attempt is counted once, as admitted or as rejected.
pub slots-IsAccounted :
    (n : ℕ) (s : RuntimeState) (attempts held finished : ℕ)
    → Reach n s attempts held finished
    → IsAccounted n s attempts held finished
unfolding Attempted
slots-IsAccounted n s zero zero zero (started e) = init-IsAccounted n s e
slots-IsAccounted n t (suc a) (suc h) f (given {s} r e) =
    let i = slots-IsAccounted n s a h f r in
    let (room, c, u, d, o) = acquired s (admitted, t) e in
    record {
      capacity = c ∙ i.capacity;
      in_use = omega (arith, u, i.in_use);
      bounded = omega (arith, room, i.in_use, i.capacity);
      admissions = omega (arith, d, i.admissions);
      outcomes = omega (arith, d, o, i.outcomes);
    }
slots-IsAccounted n t (suc a) h f (refused {s} r e) =
    let i = slots-IsAccounted n s a h f r in
    let (full, c, u, d, o) = acquired s (queue_full, t) e in
    record {
      capacity = c ∙ i.capacity;
      in_use = u ∙ i.in_use;
      bounded = i.bounded;
      admissions = d ∙ i.admissions;
      outcomes = omega (arith, d, o, i.outcomes);
    }
slots-IsAccounted n t a h (suc f) (released {s} r) =
    let i = slots-IsAccounted n s a (suc h) f r in
    let (c, u, d, o) = release_slot-same s in
    record {
      capacity = c ∙ i.capacity;
      in_use = omega (arith, u, i.in_use);
      bounded = omega (arith, i.bounded);
      admissions = omega (arith, d, i.admissions);
      outcomes = omega (arith, d, o, i.outcomes);
    }
slots-IsAccounted n t a h f (noted {s} r k) =
    let i = slots-IsAccounted n s a h f r in
    let (c, u, d, o) = Note-same k in
    record {
      capacity = c ∙ i.capacity;
      in_use = u ∙ i.in_use;
      bounded = i.bounded;
      admissions = d ∙ i.admissions;
      outcomes = omega (arith, d, o, i.outcomes);
    }

-- A request is refused exactly when one slot more than the size of the queue is held.
pub refused_iff :
    (n : ℕ) (s : RuntimeState) (attempts held finished : ℕ)
    → Reach n s attempts held finished
    → ((acquire_generation_slot s).0 ≡ queue_full) ↔ (held ≡ n + 1)
unfolding acquire_generation_slot
refused_iff n s a h f r =
    let i = slots-IsAccounted n s a h f r in ground (arith, i.capacity, i.in_use, i.bounded)

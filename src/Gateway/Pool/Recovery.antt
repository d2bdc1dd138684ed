-- ===== src/Gateway/Pool/Recovery.antt =====
-- However the requests run beside each other, the slots come back.
use gemma_4_31b_mtp_v_llm_se.Prelude.{
  ℕ, zero, suc, ◌+◌, ◌≤◌, ◌≡◌, refl, sym, ap, subst, Bool, true, false, none, some, List, [], ◌∷◌,
  ◌++◌, map, All, inl, inr, arith,
}
use gemma_4_31b_mtp_v_llm_se.Json.{pos}
use gemma_4_31b_mtp_v_llm_se.Gateway.RuntimeState.{
  RuntimeState, init, Admission, admitted, queue_full, acquire_generation_slot,
}
use gemma_4_31b_mtp_v_llm_se.Gateway.RuntimeState.Slots.{
  Reach, started, slots-IsAccounted, refused_iff,
}
use gemma_4_31b_mtp_v_llm_se.Gateway.Completions.{Call, attempt, release, note, Answer}
use gemma_4_31b_mtp_v_llm_se.Gateway.Completions.Slots.{IsNote, IsBalanced, completions-IsBalanced}
use gemma_4_31b_mtp_v_llm_se.Gateway.Chat.{Client, never_reads, reads}
use gemma_4_31b_mtp_v_llm_se.Gateway.Handlers.{Server, Outcome}
use gemma_4_31b_mtp_v_llm_se.Gateway.Handlers.Slots.{IsAccounted, handlers-IsAccounted}
use gemma_4_31b_mtp_v_llm_se.Gateway.Pool.{
  Job, chat, messages, completion, calls_of, handle, Task, waiting, running, do_call, do_first,
  turn, turn_at, run, is_admitted, releases, held,
}
use gemma_4_31b_mtp_v_llm_se.Gateway.Pool.Turns.{IsRest, IsWhole, IsTask, Holds, run-Holds}

abbrev pub IsDone : Task → Type 0
IsDone (waiting h) = ⊥
IsDone (running []) = Unit
IsDone (running (c ∷ cs)) = ⊥

abbrev zeros : ℕ → List ℕ
zeros zero = []
zeros (suc n) = 0 ∷ zeros n

-- Enough steps of the first request end it, whatever the others are.
abbrev Ends : Task → RuntimeState → Type 0
Ends t s =
    (k : ℕ) × ((s' : RuntimeState) × ((ts : List Task)
        → run (zeros k) (t ∷ ts) s ≡ (running [] ∷ ts, s')))

rest_Ends : (cs : List Call) (s : RuntimeState) → Ends (running cs) s
unfolding run turn_at turn do_first
rest_Ends [] s = (0, (s, λ ts. refl))
rest_Ends (c ∷ cs) s = let (k, (s', e)) = rest_Ends cs (do_call c s) in (suc k, (s', λ ts. e ts))

first_Ends : (cs : List Call) (s : RuntimeState) → Ends (do_first cs s).0 (do_first cs s).1
unfolding do_first
first_Ends [] s = rest_Ends [] s
first_Ends (c ∷ cs) s = rest_Ends cs (do_call c s)

task_Ends : (t : Task) (s : RuntimeState) → Ends t s
unfolding run turn_at turn
task_Ends (waiting h) s =
    let (k, (s', e)) = first_Ends (h (is_admitted (acquire_generation_slot s).0)) s in
    (suc k, (s', λ ts. e ts))
task_Ends (running cs) s = rest_Ends cs s

run-map-suc :
    (is : List ℕ) (t : Task) (ts : List Task) (s : RuntimeState)
    → run (map suc is) (t ∷ ts) s ≡ (t ∷ (run is ts s).0, (run is ts s).1)
unfolding run turn_at
run-map-suc [] t ts s = refl
run-map-suc (i ∷ is) t ts s = run-map-suc is t (turn_at i ts s).0 (turn_at i ts s).1

run-append :
    (is js : List ℕ) (ts : List Task) (s : RuntimeState)
    → run (is ++ js) ts s ≡ run js (run is ts s).0 (run is ts s).1
unfolding run
run-append [] js ts s = refl
run-append (i ∷ is) js ts s = run-append is js (turn_at i ts s).0 (turn_at i ts s).1

-- A schedule that ends all requests
ending_schedule : (ts : List Task) (s : RuntimeState) → (is : List ℕ) × All IsDone (run is ts s).0
ending_schedule [] s = unfold run in ([], tt)
ending_schedule (t ∷ ts) s =
    let (k, (s', e)) = task_Ends t s in
    let (js, done) = ending_schedule ts s' in
    (
      zeros k ++ map suc js,
      rw (run-append (zeros k) (map suc js) (t ∷ ts) s, e ts, run-map-suc js (running []) ts s')
          (tt, done),
    )

held_done : (ts : List Task) → All IsDone ts → held ts ≡ 0
held_done [] d = refl
held_done (waiting h ∷ ts) (d, ds) = absurd d
held_done (running [] ∷ ts) (d, ds) = omega (arith, held_done ts ds)
held_done (running (c ∷ cs) ∷ ts) (d, ds) = absurd d

not_full : (a : Admission) → ((a ≡ queue_full) → ⊥) → a ≡ admitted
not_full admitted f = refl
not_full queue_full f = absurd (f refl)

-- With no slot held the next attempt gets one.
free_again :
    (n : ℕ) (s : RuntimeState)
    → Holds n s 0
    → (s.active ≡ 0) × ((acquire_generation_slot s).0 ≡ admitted)
free_again n s (attempts, (finished, r)) =
    let i = slots-IsAccounted n s attempts 0 finished r in
    (
      i.in_use,
      not_full (acquire_generation_slot s).0
          (λ full. impossible ((refused_iff n s attempts 0 finished r).0 full)),
    )
  where
    impossible : 0 ≡ n + 1 → ⊥
    impossible e = omega arith

notes-IsRest :
    (cs : List Call)
    → All IsNote cs
    → IsRest (cs ++ release ∷ []) × (releases (cs ++ release ∷ []) ≡ 1)
notes-IsRest [] q = (tt, refl)
notes-IsRest (note f ∷ cs) (q, qs) = let (r, e) = notes-IsRest cs qs in ((q, r), e)
notes-IsRest (attempt ∷ cs) (q, qs) = absurd q
notes-IsRest (release ∷ cs) (q, qs) = absurd q

balanced-IsWhole :
    (answer : Bool) (r : List Call × Answer) → IsBalanced answer r → IsWhole answer r.0
balanced-IsWhole answer r (inl e) = subst (IsWhole answer) (sym e) tt
balanced-IsWhole answer r (inr (inl (a, e, f))) =
    subst (IsWhole answer) (sym e) (subst (λ b. IsWhole b (attempt ∷ [])) (sym a) (tt, refl))
balanced-IsWhole answer r (inr (inr (cs, a, e, q))) =
    subst (IsWhole answer) (sym e)
      (subst (λ b. IsWhole b (attempt ∷ (cs ++ release ∷ []))) (sym a) (notes-IsRest cs q))

abbrev pub stays : Client → Bool
stays never_reads = false
stays (reads events) = true

-- The client does not leave before the stream starts.
abbrev pub Stays : Job → Type 0
Stays (chat body u b) = stays b.client ≡ true
Stays (messages body u b id) = stays b.client ≡ true
Stays (completion body b) = Unit

accounted-IsWhole :
    (answer : Bool) (client : Client) (o : Outcome)
    → stays client ≡ true
    → IsAccounted answer client o
    → IsWhole answer (calls_of o)
accounted-IsWhole answer client none h a = absurd a
accounted-IsWhole answer client (some r) h (inl a) = balanced-IsWhole answer r a
accounted-IsWhole answer client (some r) h (inr (e, rest)) =
    absurd (left (subst (λ c. stays c ≡ true) e h))
  where
    left : stays never_reads ≡ true → ⊥
    left k = cc

request-IsTask : (server : Server) (r : Job) → Stays r → IsTask (waiting (handle server r))
unfolding handle
request-IsTask server (chat body u b) h answer =
    accounted-IsWhole answer b.client _ h (handlers-IsAccounted body server u answer b "").0
request-IsTask server (messages body u b id) h answer =
    accounted-IsWhole answer b.client _ h (handlers-IsAccounted body server u answer b id).1
request-IsTask server (completion body b) h answer =
    balanced-IsWhole answer _
      (completions-IsBalanced body server.aliases server.served server.limit answer b)

abbrev pub tasks_of : Server → List Job → List Task
tasks_of server [] = []
tasks_of server (r ∷ rs) = waiting (handle server r) ∷ tasks_of server rs

tasks-AreTasks : (server : Server) (rs : List Job) → All Stays rs → All IsTask (tasks_of server rs)
tasks-AreTasks server [] h = tt
tasks-AreTasks server (r ∷ rs) (h, hs) = (request-IsTask server r h, tasks-AreTasks server rs hs)

none_held : (server : Server) (rs : List Job) → held (tasks_of server rs) ≡ 0
none_held server [] = refl
none_held server (r ∷ rs) = omega (arith, none_held server rs)

-- The requests and the state after a schedule: the active requests are the slots that they hold, at most
-- one more than the queue is long; and some way to go on ends them all and gives every slot back.
abbrev pub Recovers : ℕ → List Task × RuntimeState → Type 0
Recovers n (ts, s) =
    (s.active ≡ held ts)
    × (held ts ≤ n + 1)
    × ((more : List ℕ) × All IsDone (run more ts s).0
        × ((run more ts s).1.active ≡ 0)
        × ((acquire_generation_slot (run more ts s).1).0 ≡ admitted))

tasks-Recovers :
    (n : ℕ) (ts : List Task) (s : RuntimeState)
    → All IsTask ts
    → Holds n s (held ts + 0)
    → Recovers n (ts, s)
tasks-Recovers n ts s q r =
    let now : Holds n s (held ts) = subst (Holds n s) (omega arith) r in
    let (attempts, (finished, history)) = now in
    let i = slots-IsAccounted n s attempts (held ts) finished history in
    let (more, done) = ending_schedule ts s in
    let (q', r') = run-Holds n more ts s q r in
    let none_left = held_done (run more ts s).0 done in
    let (idle, admits) =
      free_again n (run more ts s).1
        (subst (Holds n (run more ts s).1) (ap (λ h. h + 0) none_left) r') in
    (i.in_use, i.bounded, (more, done, idle, admits))

-- However many requests for chats, messages and completions run beside each other, from the first state
-- of a queue of any size and in any order of their steps, if no client leaves before its stream starts:
-- at every moment the active requests are the slots that the handlers hold, at most one more than the
-- queue is long, and the requests can be run to their ends, after which no request is active and the next
-- attempt gets a slot.
pub requests-Recovers :
    (n : ℕ) (s : RuntimeState) (server : Server) (requests : List Job) (schedule : List ℕ)
    → init (pos n) ≡ some s
    → All Stays requests
    → Recovers n (run schedule (tasks_of server requests) s)
requests-Recovers n s server requests schedule e h =
    let ts = tasks_of server requests in
    let (q, r) = run-Holds n schedule ts s (tasks-AreTasks server requests h) (
      0,
      (0, subst (λ k. Reach n s 0 k 0) (omega (arith, none_held server requests)) (started e)),
    ) in
    tasks-Recovers n (run schedule ts s).0 (run schedule ts s).1 q r

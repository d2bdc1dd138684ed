-- ===== src/Gateway/Pool.antt =====
-- The requests that the application of server/app.py serves at the same time, on one runtime state.
-- Between two calls of the runtime state any other request may run. Each call is one step, since none
-- of the methods waits for anything; so the attempt to get a slot tests and counts in one.
pub mod Turns
pub mod Recovery
mod Tests
use gemma_4_31b_mtp_v_llm_se.Prelude.{
  ℕ, zero, suc, ◌+◌, Bool, true, false, Option, none, some, List, [], ◌∷◌, map,
}
use gemma_4_31b_mtp_v_llm_se.Gateway.RuntimeState.{
  RuntimeState, Admission, admitted, queue_full, acquire_generation_slot, release_slot,
}
use gemma_4_31b_mtp_v_llm_se.Gateway.Completions.{
  Call, attempt, release, note, Answer, ReadBody, Backend, completions,
}
use gemma_4_31b_mtp_v_llm_se.Gateway.Chat.{Streaming}
use gemma_4_31b_mtp_v_llm_se.Gateway.Handlers.{
  Server, Upstreams, Outcome, chat_completions, anthropic_messages,
}
use gemma_4_31b_mtp_v_llm_se.Prelude.{String}

-- A request, with all that the backend, the clock and the client do to it
pub data Job : Type 0 where
  chat : (body : ReadBody) (u : Upstreams) (b : Streaming) → Job
  messages : (body : ReadBody) (u : Upstreams) (b : Streaming) (id : String) → Job
  completion : (body : ReadBody) (b : Backend) → Job

abbrev pub calls_of : Outcome → List Call
calls_of none = []
calls_of (some r) = r.0

-- The calls of the handler, by the answer to the attempt to get a slot
unfoldable pub handle : Server → Job → Bool → List Call
unfolding chat_completions anthropic_messages
handle server (chat body u b) answer = calls_of (chat_completions body server u answer b)
handle server (messages body u b id) answer =
    calls_of (anthropic_messages body server u answer b id)
handle server (completion body b) answer =
    (completions body server.aliases server.served server.limit answer b).0

-- A request that has not come to its attempt yet, or one with the calls that are left
pub data Task : Type 0 where
  waiting : (Bool → List Call) → Task
  running : List Call → Task

abbrev pub is_admitted : Admission → Bool
is_admitted admitted = true
is_admitted queue_full = false

unfoldable pub do_call : Call → RuntimeState → RuntimeState
do_call attempt s = (acquire_generation_slot s).1
do_call release s = release_slot s
do_call (note f) s = f s

unfoldable pub do_first : List Call → RuntimeState → Task × RuntimeState
unfolding do_call
do_first [] s = (running [], s)
do_first (c ∷ cs) s = (running cs, do_call c s)

-- One step of a request
unfoldable pub turn : Task → RuntimeState → Task × RuntimeState
unfolding do_first
turn (waiting h) s = do_first (h (is_admitted (acquire_generation_slot s).0)) s
turn (running cs) s = do_first cs s

unfoldable pub turn_at : ℕ → List Task → RuntimeState → List Task × RuntimeState
unfolding turn
turn_at i [] s = ([], s)
turn_at zero (t ∷ ts) s = let (t', s') = turn t s in (t' ∷ ts, s')
turn_at (suc i) (t ∷ ts) s = let (ts', s') = turn_at i ts s in (t ∷ ts', s')

-- The requests run in the order of the schedule, one step for each number in it.
unfoldable pub run : List ℕ → List Task → RuntimeState → List Task × RuntimeState
unfolding turn_at
run [] ts s = (ts, s)
run (i ∷ is) ts s = let (ts', s') = turn_at i ts s in run is ts' s'

-- The slots that a request holds
abbrev pub releases : List Call → ℕ
releases [] = 0
releases (release ∷ cs) = suc (releases cs)
releases (c ∷ cs) = releases cs

abbrev pub holds : Task → ℕ
holds (waiting h) = 0
holds (running cs) = releases cs

abbrev pub held : List Task → ℕ
held [] = 0
held (t ∷ ts) = holds t + held ts

-- ===== src/Lib.antt =====
-- gemma4-mtp-vllm: a gateway in front of a vLLM server. A request passes the boundary (identifier,
-- size of the body, rate), the authentication, and the checks of its body; then a generation slot is
-- taken and the backend called; what the backend streams loses its hidden reasoning and is given on,
-- in the protocol of OpenAI or of Anthropic.
--
-- The parts, each with the source that it models (paths from the repository's root):
-- - Sanitizer: src/gemma4_mtp_vllm/backend/response_parser.py. `ThoughtSanitizer` is a record, `feed`
--   and `finish` take it and return what is shown and the sanitizer behind it; `drain_loop` is the
--   loop of `_drain`, one `drain_round` for each turn. `sanitize_stream` is the loop of its callers.
--   Sanitizer.History is `visible_text_for_history`.
-- - Anthropic: src/gemma4_mtp_vllm/anthropic_adapter.py. The generator
--   `openai_stream_to_anthropic_events` is `stream_events`, the list of what it yields; it feeds a
--   sanitizer. Anthropic.Messages converts a request and a response.
-- - Json: the values of `json.loads`, which bodies and chunks are.
-- - Requests.Validation: src/gemma4_mtp_vllm/server/validation.py, and Requests.Policy:
--   src/gemma4_mtp_vllm/policy.py. A validator returns a value for what it raises.
-- - Gateway.RuntimeState: src/gemma4_mtp_vllm/server/runtime_state.py, each method a function of the
--   state. The calls of the handlers are the steps of the relation `Reach` (Gateway.RuntimeState.Slots).
-- - Gateway.RateLimit: `_allow_rate` of src/gemma4_mtp_vllm/server/middleware.py.
-- - Gateway.Limits: src/gemma4_mtp_vllm/server/limits.py and bind_policy.py.
-- - Gateway.Http: requests, responses, headers, and src/gemma4_mtp_vllm/server/errors.py.
-- - Gateway.Boundary: the handler of src/gemma4_mtp_vllm/server/middleware.py, with the rest of the
--   application as an argument, and the authentication of src/gemma4_mtp_vllm/server/app.py.
-- - Gateway.Completions: the handler of /v1/completions in src/gemma4_mtp_vllm/server/app.py, as the
--   list of its calls of the runtime state. The redaction of the response is left out.
-- - Gateway.Visible: what the same file sends to and takes from the backend, without hidden reasoning;
--   Gateway.Chat: the streams of chat and of messages, with the client, which may leave; Gateway.Handlers:
--   the handlers of /v1/chat/completions, /v1/messages and /v1/messages/count_tokens. Gateway.Pool runs the
--   handlers beside each other on one runtime state, in the order of a schedule.
-- - Readiness: src/gemma4_mtp_vllm/readiness.py, over the runtime state of the gateway.
-- - Cluster: src/gemma4_mtp_vllm/cluster.py. Topology, Environment, Commands, Plan and Execution hold the
--   functions of their parts; what may raise returns an `Outcome`. Shell, Serial and Paths write out
--   what the file takes from shlex, json and pathlib; Shell.Words is the shell that reads the commands.
--   SHA-256 and `repr` of a float that is no whole number are the fields of `Host`. `ModelProfile` is that
--   of src/gemma4_mtp_vllm/profiles.py.
-- - Versions: src/gemma4_mtp_vllm/versioning.py. The decimal digits of Unicode are an argument.
-- - Metrics: src/gemma4_mtp_vllm/mtp_metrics.py. Metrics.Lines reads a line; the floats are any type with
--   the operations of `Ops`. The handlers take the change between two states as an argument.
-- - Attestation: src/gemma4_mtp_vllm/runtime_config.py, as far as it reads the command line of a server
--   and the manifest of its launch (Argv, Observed, Manifest), merges what was observed and compares it
--   with what is asked for. What it takes of Python is the records `Python` and `Runtime`.
-- - Redaction: the functions of the same file that redact what is published. `redact_path_with` is the
--   body of `redact_path`, with what it does to the texts of a parsed value as an argument;
--   Redaction.Arguments is `redact_argv`. The record `Codec` is json.
-- - Prelude: lists, texts, characters and tests that these share.
-- A module named Tests holds runs and the theorems at concrete inputs.
--
-- Fuel and bounds: `drain` gives `drain_loop` one turn more than the buffer has characters, and every
-- turn that goes on leaves a shorter buffer (Sanitizer.Termination). The search for a tag has one turn
-- more than the lower-cased text has characters, and each turn starts behind the last find. A text
-- is the list of its code points; `lower` and `casefold` write out the code points that the program
-- can tell apart. An `int` is of any size, a `float` exact. Times are whole ticks of the monotonic
-- clock. The texts of errors are constructors with what the text names. The digits of a number n are split
-- off in at most n + 1 turns (Cluster.Shell.Decimal). A text is redacted with one turn more than it has
-- code points, since a text within its JSON is shorter (Redaction.Total).
--
-- Not modelled: the routes of src/gemma4_mtp_vllm/server/app.py that only report, their calls of the
-- redaction, the text of the events, the limit of `int` on 4300 digits, the loading of
-- profiles and of topologies, the desired configuration and what is observed of the models and the
-- metrics, the benchmarks; the command line, the doctor
-- and the HTTP client, which are input and output.
pub mod Prelude
pub mod Sanitizer
pub mod Json
pub mod Requests
pub mod Gateway
pub mod Anthropic
pub mod Cluster
pub mod Readiness
pub mod Versions
pub mod Metrics
pub mod Attestation
pub mod Redaction

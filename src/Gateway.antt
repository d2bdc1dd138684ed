-- ===== src/Gateway.antt =====
-- The gateway in front of the backend: server/runtime_state.py, limits.py, errors.py, bind_policy.py,
-- middleware.py, and the authentication and the handler of completions of server/app.py.
pub mod RuntimeState
pub mod RateLimit
pub mod Limits
pub mod Http
pub mod Boundary
pub mod Completions
pub mod Visible
pub mod Chat
pub mod Handlers
pub mod Pool

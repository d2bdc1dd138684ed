-- ===== src/Requests.antt =====
-- What the gateway accepts in the body of a request: server/validation.py and policy.py.
pub mod Validation
pub mod Policy

-- ===== src/Gateway.antt =====
-- apps/capability-gateway: the typed wrappers around the mock rail. `Types` has the messages
-- (schemas.py), `Rail` the mock rail (mock_rail.py), `Store` the state and the errors, `Service` and
-- `Release` the operations (service.py), `Api` the endpoints (main.py); the other modules prove
-- properties of the operations and of sequences of them.
pub mod Types
pub mod Rail
pub mod Fingerprint
pub mod Store
pub mod Service
pub mod Release
pub mod Calls
pub mod Coherence
pub mod Idempotency
pub mod Replay
mod Examples
pub mod Api

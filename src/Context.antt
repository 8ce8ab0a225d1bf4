-- ===== src/Context.antt =====
-- services/context-memory-service: the current task snapshots and the transactional outbox.
-- `Models` has the rows and the requests (models.py, schemas.py), `Repository` and `Outbox` the
-- operations (repository.py), `Api` the endpoints (main.py); the other modules prove their properties.
pub mod Models
pub mod Repository
pub mod Outbox
pub mod Calls
pub mod Api
pub mod Transitions
pub mod History
pub mod Patch
pub mod Leases
pub mod Exclusive
pub mod Claims
pub mod Rows
pub mod Attempts
pub mod Typed
mod Examples

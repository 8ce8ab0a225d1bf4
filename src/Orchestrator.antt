-- ===== src/Orchestrator.antt =====
-- apps/orchestrator-api: the intake and the resume of payments over the policy engine, the memory
-- services and the workflow worker.
pub mod Models
pub mod Registry
pub mod Service
pub mod Clients
pub mod Api
pub mod Trace
pub mod Gate
pub mod Cleared
pub mod Sent
pub mod Errors
pub mod Fixtures
mod Examples
pub mod Memory
pub mod Platform
pub mod Keep
pub mod Sound

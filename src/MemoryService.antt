-- ===== src/MemoryService.antt =====
-- The older memory service (services/memory-service): one service with the task and its evidence.
pub mod Models
pub mod Repository
pub mod Evidence
pub mod Api
pub mod Calls
pub mod Agreement
pub mod Refinement
pub mod References
mod Examples

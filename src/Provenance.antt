-- ===== src/Provenance.antt =====
-- services/provenance-service: the append-only evidence about the tasks. `Models` has the rows and the
-- requests (models.py, schemas.py), `Repository` the provenance records and the state history,
-- `Evidence` the artifacts and the delegated work (repository.py), `Api` the endpoints (main.py); the other modules
-- prove properties of the operations and of sequences of them.
pub mod Models
pub mod Repository
pub mod Evidence
pub mod Calls
pub mod Api
pub mod History
pub mod Sources
pub mod Origin
mod Examples

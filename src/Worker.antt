-- ===== src/Worker.antt =====
-- services/workflow-worker: it starts and resumes the payment workflow. `Router` has the envelopes and
-- the approval requests (delegation.py), `Agents` what the delegates answer, `Service` the messages, the
-- errors and the interface of the clients, `Requests` what a start sends, `Start` and `Resume` the two
-- operations (service.py, schemas.py), `Memory` and `Capability` the clients over the services behind
-- them; `Trace` has clients that log their calls, and the other modules prove properties.
pub mod Router
pub mod Service
pub mod Resume
pub mod Requests
pub mod Agents
pub mod Start
pub mod Intake
pub mod Metadata
pub mod Trace
pub mod Order
pub mod Answers
pub mod Settlement
pub mod Completion
pub mod Routing
pub mod Started
pub mod Guards
pub mod Fixtures
pub mod StartFixtures
mod Examples
pub mod Api
pub mod System
pub mod Capability
pub mod Memory
pub mod Clients
pub mod Invariant
pub mod KeepResume
pub mod KeepStart
pub mod Sound
pub mod Empty

-- ===== src/Contracts.antt =====
-- packages/shared-contracts: the types that the services exchange. `Tasks` has the payment task and
-- its evidence (tasks.py), `Envelopes` the messages between agents (tasks.py), `Events` the outbox
-- events (events.py); `Http` has the error responses that the services share, `Equality` and
-- `Comparison` Python's `==` on JSON values and on envelopes.
pub mod Literals
pub mod Json
pub mod Equality
pub mod Envelopes
pub mod Comparison
pub mod Tasks
pub mod Events
pub mod Http

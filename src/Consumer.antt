-- ===== src/Consumer.antt =====
-- services/event-consumer: it claims outbox events of the context service and projects them into the
-- provenance service. `Service` has the dispatch (service.py, schemas.py) over the operations of its
-- two clients, `Network` the clients over the two services and a network that may lose requests and
-- responses (context_client.py, provenance_client.py); the other modules prove properties of both.
pub mod Service
pub mod Network
pub mod Counts
pub mod Consistent
pub mod Requests
pub mod Projection
mod Examples
mod BatchExamples
pub mod Invariant
pub mod Standing
pub mod Reliable
pub mod Batch
pub mod Liveness
pub mod Claimed

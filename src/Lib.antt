-- ===== src/Lib.antt =====
-- A model of the agentic money movement services, and what holds of it.
--
-- The program and the files that model it:
-- - Contracts: packages/shared-contracts. The literals, the JSON values, the messages between
--   agents, the task and its evidence (tasks.py), and the events of the outbox (events.py). A
--   record or a data type has the name of the Python class and its fields or members; a
--   discriminated union is a data type whose constructors stand for the discriminator.
--   Contracts/Http has the error responses.
-- - ControlPlane: config/control-plane/default.yaml with the keys that the services read
--   (ControlPlane/Document), and apps/control-plane, which publishes it with the two registries
--   (ControlPlane/Service: service.py, schemas.py).
-- - Policy: apps/policy-engine. Policy/Engine has `evaluate_intake` and `evaluate_release`
--   (service.py, schemas.py); `decide_release` is the sequence of early returns of the latter.
-- - Gateway: apps/capability-gateway. Gateway/Types has the messages (schemas.py), Gateway/Rail the
--   mock rail (mock_rail.py), Gateway/Store the in-memory store, the errors and the loading of the
--   registry, Gateway/Service and Gateway/Release the four operations, Gateway/Fingerprint the
--   canonical JSON of a release request (service.py). Gateway/Calls has sequences of calls.
-- - Context: services/context-memory-service. Context/Models has the tables (models.py,
--   schemas.py), Context/Repository and Context/Outbox the operations (repository.py), Context/Api
--   the endpoints (main.py), Context/Calls sequences of operations.
-- - Provenance: services/provenance-service, in the same way; Provenance/Evidence has the artifacts
--   and the delegated work.
-- - Consumer: services/event-consumer. Consumer/Service has the dispatch (service.py) over
--   `Clients`, an interface of the operations of its two clients; Consumer/Network has the HTTP
--   clients (context_client.py, provenance_client.py) over the endpoints of the context and the
--   provenance service.
-- - Worker: services/workflow-worker. Worker/Router has the envelopes and the approval requests
--   (delegation.py), Worker/Agents what the delegated agents answer, Worker/Service the messages,
--   the errors and `WorkerClients`, an interface of the operations of its clients, Worker/Requests
--   what a start sends, Worker/Start and Worker/Resume the start and the resume of a workflow
--   (service.py). Worker/Trace has clients that log their calls. Worker/Memory and
--   Worker/Capability have the two HTTP clients (memory_client.py, capability_client.py) over the
--   services behind them, which are the state Worker/System; Worker/Api has the endpoints
--   (main.py).
-- - MemoryService: services/memory-service, the older service with the task and its evidence in one
--   database. MemoryService/Models, Repository, Evidence and Api stand for models.py, repository.py
--   (tasks, evidence), main.py and schemas.py; MemoryService/Calls has sequences of calls of it and
--   of the context memory service.
-- - Orchestrator: apps/orchestrator-api. Orchestrator/Models has the messages, the errors and
--   `OrchestratorClients`, an interface of its clients, Orchestrator/Registry the registry
--   (registry.py), Orchestrator/Service the intake and the resume (service.py),
--   Orchestrator/Clients the policy and worker clients (policy_client.py, workflow_client.py),
--   Orchestrator/Memory the memory client (memory_client.py), Orchestrator/Api the endpoints
--   (main.py). Orchestrator/Platform has the whole system behind the orchestrator,
--   Orchestrator/Trace clients that log their calls, and Orchestrator/Sent clients that record what
--   they are sent.
-- The worker creates and patches tasks in the context service, which writes an event to its outbox
-- in the same commit; the consumer claims the events and projects them into the provenance service.
-- The orchestrator asks the policy engine before it starts or resumes a workflow at the worker. The
-- worker releases payments through the gateway.
--
-- How the code is modelled:
-- - An operation is a function of the state to its result and the next state. What it raises is a
--   value, and what was written before a raise stays written. The current time and the random parts
--   of identifiers are arguments.
-- - A table is the list of its rows in the order of insertion. A commit that would repeat a unique
--   key raises an IntegrityError and changes nothing. `order_by` keeps rows with the same time in
--   their order. A dict is an association list.
-- - Amounts are whole cents and times whole microseconds, both natural numbers without a bound, so
--   `claimed_at < now - lease` is written as `claimed_at + lease < now`. Dates are texts.
--   `str.lower` is modelled on ASCII.
-- - A key that a configuration document may lack is an optional field, and a missing section is one
--   without keys. A key that is present has the type that it has in the repository's document.
-- - The SHA-256 digest is an argument of the services that use it, an arbitrary function of texts.
-- - A request of a client may be lost before or after the service has handled it; the network says
--   which requests are, and at which time each is handled. A response that arrives is read back as
--   it was sent. Request bodies are taken to validate, but for the length of a release's
--   idempotency key, and an identifier in a path is taken to be one segment.
-- - `==` on JSON dicts is Python's: regardless of the order of the keys, and a bool as a number.
-- - Every loop is over a list, so there is no fuel.
--
-- Not modelled: the orchestrator's MCP server; the control plane's, the health and the metadata
-- endpoints, which return what is held; the database engine, the settings and the migrations, which
-- hold no logic of their own; the Rego policies, which no code evaluates.
pub mod Base
pub mod Contracts
pub mod ControlPlane
pub mod Policy
pub mod Gateway
pub mod Context
pub mod Provenance
pub mod Consumer
pub mod Worker
pub mod MemoryService
pub mod Orchestrator

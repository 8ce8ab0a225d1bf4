-- ===== src/Consumer/Liveness.antt =====
-- On a network that delivers every request and response, a dispatch completes the events that it
-- claims (services/event-consumer/src/event_consumer/service.py, process_once).
use control_architecture.Base.{ℕ, true, String, List, [], ◌∷◌, ◌≡◌, ◌≢◌, ◌⊎◌, All, length}
use control_architecture.Contracts.Events.{TaskLifecycleOutboxEvent}
use control_architecture.Context.Models.{empty_database, OutboxClaimRequest}
use control_architecture.Context.Calls.{Operation, run}
use control_architecture.Context.Api.{in_bounds}
use control_architecture.Provenance.Models.{ProvenanceDatabase}
use control_architecture.Consumer.Service.{DispatchResponse, event_id}
use control_architecture.Consumer.Network.{World, Network}
use control_architecture.Consumer.Standing.{IsReadable}
use control_architecture.Consumer.Reliable.{IsReliable}

-- The batch follows the order of its tasks' events, where `K` says which tasks have a provenance
-- record: a change of state is one of a task that has one, or that an earlier event creates.
abbrev pub AreOrdered : (String → Type 0) → List TaskLifecycleOutboxEvent → Type 0
AreOrdered K [] = Unit
AreOrdered K (TaskLifecycleOutboxEvent.created b p ∷ r) = AreOrdered (λ t. K t ⊎ (p.task_id ≡ t)) r
AreOrdered K (TaskLifecycleOutboxEvent.state_changed b p ∷ r) = K p.task_id × AreOrdered K r

-- Each event of the batch has a row in the outbox, with an identifier that is not empty.
abbrev AreRows : World → List TaskLifecycleOutboxEvent → Type 0
AreRows w es = All (λ x. IsReadable (event_id x) w.context × (event_id x ≢ "")) es

-- The response of a dispatch that has projected a batch without a failure.
abbrev pub all_processed : List TaskLifecycleOutboxEvent → DispatchResponse
all_processed es = record {
  claimed_count = length es;
  processed_count = length es;
  failed_count = 0;
  failures = [];
}

module _ (n : Network) (reliable : IsReliable n) (ops : List Operation) (d : ProvenanceDatabase)
    (sent : ℕ) (p : OutboxClaimRequest) (bounded : in_bounds p ≡ true) where
  abbrev pub from_start : World
  from_start = record { context = run ops empty_database; provenance = d; requests = sent }

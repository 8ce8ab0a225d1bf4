-- ===== src/Consumer/Service.antt =====
-- The dispatch of the event consumer (services/event-consumer/src/event_consumer/service.py and
-- schemas.py), over the operations of its clients.
use control_architecture.Base.{
  ℕ, suc, String, Option, none, some, List, [], ◌∷◌, Result, ok, err, length, Exec, ◌>>=◌, ◌>>◌,
  pure,
}
use control_architecture.Contracts.Envelopes.{ProvenanceSeed}
use control_architecture.Contracts.Events.{
  TaskLifecycleOutboxEvent, TaskLifecycleTransition, event_base, event_type,
}

-- What a client raises: ContextOutboxError or ProvenanceProjectionError.
pub record ClientError : Type 0 where
  pub message : String
  pub status_code : ℕ

-- The operations of the two clients on a state `S`. The service uses no result but that of a claim.
pub record Clients (S : Type 0) : Type 0 where
  pub claim_events : ℕ → ℕ → Exec S ClientError (List TaskLifecycleOutboxEvent)
  pub complete_event : String → Exec S ClientError Unit
  pub fail_event : String → String → Exec S ClientError Unit
  pub ensure_task_provenance : String → ProvenanceSeed → Exec S ClientError Unit
  pub append_state_transition : String → TaskLifecycleTransition → String → Exec S ClientError Unit

pub record DispatchFailure : Type 0 where
  pub event_id : String
  pub event_type : String
  pub error_message : String

pub record DispatchResponse : Type 0 where
  pub claimed_count : ℕ
  pub processed_count : ℕ
  pub failed_count : ℕ
  pub failures : List DispatchFailure

-- What the loop over the claimed events counts.
pub record Tally : Type 0 where
  pub processed : ℕ
  pub failures : List DispatchFailure

abbrev pub event_id : TaskLifecycleOutboxEvent → String
event_id e = (event_base e).event_id

abbrev pub dispatch_failure : TaskLifecycleOutboxEvent → ClientError → DispatchFailure
dispatch_failure e x = record {
  event_id = event_id e;
  event_type = event_type e;
  error_message = x.message;
}

abbrev pub tally : Option DispatchFailure → Tally → Tally
tally none t = record t { processed = suc t.processed }
tally (some f) t = record t { failures = f ∷ t.failures }

module _ {S : Type 0} (c : Clients S) where
  -- The event types are those of the union, so the final `raise` is not reached.
  unfoldable pub project_event : TaskLifecycleOutboxEvent → Exec S ClientError Unit
  project_event (TaskLifecycleOutboxEvent.created b p) =
      c.ensure_task_provenance p.task_id p.provenance
      >> c.append_state_transition p.task_id p.transition b.event_id
  project_event (TaskLifecycleOutboxEvent.state_changed b p) =
      c.append_state_transition p.task_id p.transition b.event_id

  -- The body of the `try`.
  unfoldable pub attempt : TaskLifecycleOutboxEvent → Exec S ClientError Unit
  unfolding project_event
  attempt e = project_event e >> c.complete_event (event_id e)

  -- What follows it: nothing, or the `except`.
  unfoldable pub settle :
      TaskLifecycleOutboxEvent
      → Result ClientError Unit
      → Exec S ClientError (Option DispatchFailure)
  settle e (ok u) = pure none
  settle e (err x) = c.fail_event (event_id e) x.message >> pure (some (dispatch_failure e x))

  unfoldable pub process_event :
      TaskLifecycleOutboxEvent → Exec S ClientError (Option DispatchFailure)
  unfolding attempt settle
  process_event e s = let (r, s') = attempt e s in settle e r s'

  unfoldable pub process_events : List TaskLifecycleOutboxEvent → Exec S ClientError Tally
  unfolding process_event
  process_events [] = pure (record { processed = 0; failures = [] })
  process_events (e ∷ r) = process_event e >>= λ o. (process_events r >>= λ t. pure (tally o t))

  abbrev pub dispatch_response : List TaskLifecycleOutboxEvent → Tally → DispatchResponse
  dispatch_response events t = record {
    claimed_count = length events;
    processed_count = t.processed;
    failed_count = length t.failures;
    failures = t.failures;
  }

  unfoldable pub process_once : ℕ → ℕ → Exec S ClientError DispatchResponse
  unfolding process_events
  process_once limit lease_seconds = c.claim_events limit lease_seconds >>= λ events.
      (process_events events >>= λ t. pure (dispatch_response events t))

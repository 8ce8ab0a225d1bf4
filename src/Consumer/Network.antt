-- ===== src/Consumer/Network.antt =====
-- The clients of the event consumer (services/event-consumer/src/event_consumer/context_client.py
-- and provenance_client.py) over the endpoints of the two services. A response that is sent is read
-- back as it was sent.
use control_architecture.Base.{
  ℕ, suc, String, Option, none, some, List, [], ◌∷◌, Result, ok, err, format, or_value, Exec,
}
use control_architecture.Contracts.Literals.{TaskStatus, task_status_text}
use control_architecture.Contracts.Envelopes.{Time, ProvenanceSeed}
use control_architecture.Contracts.Events.{TaskLifecycleOutboxEvent, TaskLifecycleTransition}
use control_architecture.Contracts.Http.{HttpError}
use control_architecture.Context.Models.{Database, empty_database}
use control_architecture.Context.Api.{post_claim, post_complete, post_fail}
use control_architecture.Provenance.Models.{
  ProvenanceDatabase, empty_provenance, TaskStateTransitionCreateRequest,
}
use control_architecture.Provenance.Api.{post_task_provenance, create_state_transition}
use control_architecture.Consumer.Service.{ClientError, Clients}

-- The two services' databases, and the number of requests that were sent.
pub record World : Type 0 where
  pub context : Database
  pub provenance : ProvenanceDatabase
  pub requests : ℕ

abbrev pub empty_world : World
empty_world = record { context = empty_database; provenance = empty_provenance; requests = 0 }

-- What becomes of a request: it is answered, or the client raises an HTTPError, before or after the
-- service has handled the request.
pub data Delivery : Type 0 where
  delivered lost_request lost_response : Delivery

-- The time at which each request is handled, and what becomes of it.
pub record Network : Type 0 where
  pub clock : ℕ → Time
  pub delivery : ℕ → Delivery

abbrev pub client_error : String → HttpError → ClientError
client_error failure_message e = record {
  message = or_value e.detail failure_message;
  status_code = e.status_code;
}

abbrev pub http_failure : String → ClientError
http_failure failure_message = record { message = failure_message; status_code = 502 }

abbrev pub respond : {A : Type 0} → String → Result HttpError A → Result ClientError A
respond failure_message (ok a) = ok a
respond failure_message (err e) = err (client_error failure_message e)

abbrev pub exchange :
    {A : Type 0}
    → Delivery
    → String
    → (World → Result HttpError A × World)
    → Exec World ClientError A
exchange Delivery.delivered failure_message handler w =
    let (r, w') = handler w in (respond failure_message r, w')
exchange Delivery.lost_request failure_message handler w = (err (http_failure failure_message), w)
exchange Delivery.lost_response failure_message handler w =
    (err (http_failure failure_message), (handler w).1)

abbrev pub no_content : {A : Type 0} → Result HttpError A → Result HttpError Unit
no_content (ok a) = ok tt
no_content (err e) = err e

abbrev pub status_value : Option TaskStatus → Option String
status_value none = none
status_value (some s) = some (task_status_text s)

abbrev pub transition_request : TaskLifecycleTransition → String → TaskStateTransitionCreateRequest
transition_request t source_event_id = record {
  source_event_id = some source_event_id;
  from_status = status_value t.from_status;
  to_status = task_status_text t.to_status;
  changed_by = t.changed_by;
  reason = t.reason;
}

-- What the services do with the requests.
abbrev pub handle_claim :
    ℕ → ℕ → Time → World → Result HttpError (List TaskLifecycleOutboxEvent) × World
handle_claim limit lease now w =
    let (r, d) = post_claim now (record { limit = limit; lease_seconds = lease }) w.context in
    (r, record w { context = d })

abbrev pub handle_complete : String → Time → World → Result HttpError Unit × World
handle_complete id now w =
    let (r, d) = post_complete now id w.context in (no_content r, record w { context = d })

abbrev pub handle_fail : String → String → Time → World → Result HttpError Unit × World
handle_fail id error_message now w =
    let (r, d) = post_fail now id error_message w.context in
    (no_content r, record w { context = d })

abbrev pub handle_provenance :
    String → ProvenanceSeed → Time → World → Result HttpError Unit × World
handle_provenance id p now w =
    let (r, d) = post_task_provenance now id p w.provenance in
    (no_content r, record w { provenance = d })

abbrev pub handle_transition :
    String → TaskLifecycleTransition → String → Time → World → Result HttpError Unit × World
handle_transition id t source_event_id now w =
    let (r, d) =
      create_state_transition now id (transition_request t source_event_id) w.provenance in
    (no_content r, record w { provenance = d })

module _ (n : Network) where
  unfoldable pub request :
      {A : Type 0} → String → (Time → World → Result HttpError A × World) → Exec World ClientError A
  request failure_message handler w =
      exchange (n.delivery w.requests) failure_message (handler (n.clock w.requests))
        (record w { requests = suc w.requests })

  unfoldable pub claim_events : ℕ → ℕ → Exec World ClientError (List TaskLifecycleOutboxEvent)
  unfolding request
  claim_events limit lease =
      request "Failed to claim context outbox events." (handle_claim limit lease)

  unfoldable pub complete_event : String → Exec World ClientError Unit
  unfolding request
  complete_event id =
      request (format ("Failed to complete outbox event " ∷ id ∷ "." ∷ [])) (handle_complete id)

  unfoldable pub fail_event : String → String → Exec World ClientError Unit
  unfolding request
  fail_event id error_message =
      request (format ("Failed to mark outbox event " ∷ id ∷ " as failed." ∷ []))
        (handle_fail id error_message)

  unfoldable pub ensure_task_provenance : String → ProvenanceSeed → Exec World ClientError Unit
  unfolding request
  ensure_task_provenance id p =
      request (format ("Failed to project provenance for task " ∷ id ∷ "." ∷ []))
        (handle_provenance id p)

  unfoldable pub append_state_transition :
      String → TaskLifecycleTransition → String → Exec World ClientError Unit
  unfolding request
  append_state_transition id t source_event_id =
      request (format ("Failed to project state transition for task " ∷ id ∷ "." ∷ []))
        (handle_transition id t source_event_id)

  abbrev pub clients : Clients World
  clients = record {
    claim_events = claim_events;
    complete_event = complete_event;
    fail_event = fail_event;
    ensure_task_provenance = ensure_task_provenance;
    append_state_transition = append_state_transition;
  }

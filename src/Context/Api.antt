-- ===== src/Context/Api.antt =====
-- The endpoints of the context memory service (services/context-memory-service/src/
-- context_memory_service/main.py). The health and metadata endpoints only report settings.
use control_architecture.Base.{
  String, Bool, ◌&&◌, leb, Option, none, some, List, [], ◌∷◌, if◌then◌else◌, Result, ok, err,
  format,
}
use control_architecture.Contracts.Envelopes.{Time}
use control_architecture.Contracts.Tasks.{TaskContextView}
use control_architecture.Contracts.Events.{TaskLifecycleOutboxEvent, validate_event}
use control_architecture.Contracts.Http.{HttpError, server_error}
use control_architecture.Context.Models.{
  Task, OutboxEvent, Database, TaskCreateRequest, TaskStatePatchRequest, OutboxClaimRequest,
}
use control_architecture.Context.Repository.{
  RepositoryError, Tokens, create_task, get_task, update_task_state,
}
use control_architecture.Context.Outbox.{
  claim_outbox_events, complete_outbox_event, fail_outbox_event,
}

abbrev pub Response : Type 0 → Type 0
Response A = Result HttpError A × Database

abbrev pub not_found : String → String → HttpError
not_found what id = record {
  status_code = 404;
  detail = some (format (what ∷ " " ∷ id ∷ " was not found." ∷ []));
}

-- TaskResponse.model_validate(task)
abbrev pub task_response : Task → TaskContextView
task_response t = record {
  task_id = t.task_id;
  payment_id = t.payment_id;
  customer_id = t.customer_id;
  rail = t.rail;
  amount_usd = t.amount_usd;
  status = t.status;
  beneficiary_status = t.beneficiary_status;
  approval_status = t.approval_status;
  task_metadata = t.task_metadata;
  created_at = t.created_at;
  updated_at = some t.updated_at;
}

-- parse_task_lifecycle_outbox_event(event), of a row
unfoldable pub parse_event : OutboxEvent → Option TaskLifecycleOutboxEvent
unfolding validate_event
parse_event e =
    validate_event
      (record {
        event_id = e.event_id;
        aggregate_type = e.aggregate_type;
        aggregate_id = e.aggregate_id;
        status = e.status;
        attempt_count = e.attempt_count;
        last_error = e.last_error;
        claimed_at = e.claimed_at;
        processed_at = e.processed_at;
        created_at = some e.created_at;
        updated_at = some e.updated_at;
      })
      e.event_type e.payload

abbrev pub cons_parsed :
    Option TaskLifecycleOutboxEvent
    → Option (List TaskLifecycleOutboxEvent)
    → Option (List TaskLifecycleOutboxEvent)
cons_parsed (some e) (some r) = some (e ∷ r)
cons_parsed _ _ = none

-- The list comprehension over the claimed rows; `none` is a ValidationError.
unfoldable pub parse_events : List OutboxEvent → Option (List TaskLifecycleOutboxEvent)
unfolding parse_event
parse_events [] = some []
parse_events (e ∷ r) = cons_parsed (parse_event e) (parse_events r)

abbrev pub created_response : Result RepositoryError Task → Result HttpError TaskContextView
created_response (ok t) = ok (task_response t)
created_response (err e) = err server_error

unfoldable pub post_task : Time → Tokens → TaskCreateRequest → Database → Response TaskContextView
post_task now tokens p d = let (r, d') = create_task now tokens p d in (created_response r, d')

abbrev pub found_response : String → Option Task → Result HttpError TaskContextView
found_response id none = err (not_found "Task" id)
found_response id (some t) = ok (task_response t)

unfoldable pub get_task_endpoint : String → Database → Result HttpError TaskContextView
get_task_endpoint id d = found_response id (get_task id d)

abbrev pub patch_response :
    String → Result RepositoryError (Option Task) → Result HttpError TaskContextView
patch_response id (ok o) = found_response id o
patch_response id (err (RepositoryError.no_state_change message)) =
    err (record { status_code = 409; detail = some message })
patch_response id (err RepositoryError.integrity_error) = err server_error

unfoldable pub patch_task_state :
    Time → Tokens → String → TaskStatePatchRequest → Database → Response TaskContextView
patch_task_state now tokens id p d =
    let (r, d') = update_task_state now tokens id p d in (patch_response id r, d')

abbrev pub parsed_response : {A : Type 0} → Option A → Result HttpError A
parsed_response none = err server_error
parsed_response (some a) = ok a

-- The bounds of OutboxClaimRequest.
abbrev pub in_bounds : OutboxClaimRequest → Bool
in_bounds p = leb 1 p.limit && leb p.limit 500 && leb 1 p.lease_seconds && leb p.lease_seconds 3600

unfoldable pub post_claim :
    Time → OutboxClaimRequest → Database → Response (List TaskLifecycleOutboxEvent)
unfolding parse_events
post_claim now p d =
    let (events, d') = claim_outbox_events now p.limit p.lease_seconds d in
    if in_bounds p
    then (parsed_response (parse_events events), d')
    else (err (record { status_code = 422; detail = none }), d)

abbrev pub event_response : String → Option OutboxEvent → Result HttpError TaskLifecycleOutboxEvent
event_response id none = err (not_found "Outbox event" id)
event_response id (some e) = parsed_response (parse_event e)

unfoldable pub post_complete : Time → String → Database → Response TaskLifecycleOutboxEvent
unfolding parse_event
post_complete now id d = let (e, d') = complete_outbox_event now id d in (event_response id e, d')

unfoldable pub post_fail : Time → String → String → Database → Response TaskLifecycleOutboxEvent
unfolding parse_event
post_fail now id error_message d =
    let (e, d') = fail_outbox_event now id error_message d in (event_response id e, d')

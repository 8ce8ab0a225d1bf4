-- ===== src/Consumer/Examples.antt =====
-- The system on concrete actions.
use control_architecture.Base.{
  ◌+◌, none, some, List, [], ◌∷◌, ◌≡◌, refl, count, ◌==◌, nat_eq, if◌then◌else◌, string_discrete,
  ℕ_discrete, find, exists, select, update, order_by, insert_by, is_in,
}
use control_architecture.Contracts.Literals.{
  Rail, TaskStatus, BeneficiaryStatus, ApprovalStatus, OutboxStatus, OutboxStatus-discrete,
}
use control_architecture.Contracts.Json.{Fields}
use control_architecture.Contracts.Events.{validate_event}
use control_architecture.Context.Models.{OutboxEvent, TaskCreateRequest}
use control_architecture.Context.Repository.{
  Tokens, create_task, new_task, created_event, violates_unique,
}
use control_architecture.Context.Outbox.{
  claimable, order_by_created_at, limited, selected, event_ids, claim_outbox_events, failed,
  complete_outbox_event, fail_outbox_event, change_event, change_found, get_outbox_event,
}
use control_architecture.Context.Api.{
  post_claim, post_complete, post_fail, parse_event, parse_events,
}
use control_architecture.Provenance.Repository.{
  has_source, create_task_provenance, provenance_lookup, get_task_provenance, new_provenance,
  add_state_transition, transition_existing, transition_task, existing_transition, new_transition,
  get_state_transition_by_source_event,
}
use control_architecture.Provenance.Api.{post_task_provenance, create_state_transition}
use control_architecture.Consumer.Service.{
  DispatchResponse, project_event, attempt, settle, process_event, process_events, process_once,
}
use control_architecture.Consumer.Network.{
  World, empty_world, Network, Delivery, request, claim_events, complete_event, fail_event,
  ensure_task_provenance, append_state_transition,
}
use control_architecture.Consumer.Projection.{Action, act, acts, projected_once}

-- The answer to the completion, the fourth request, is lost.
abbrev network : Network
network = record {
  clock = λ k. k + 10;
  delivery = λ k. if k == 3 then Delivery.lost_response else Delivery.delivered;
}

abbrev pub new_payment : TaskCreateRequest
new_payment = record {
  task_id = none;
  payment_id = none;
  customer_id = "cust_1";
  rail = Rail.ach;
  amount_usd = 250000;
  status = TaskStatus.received;
  beneficiary_status = BeneficiaryStatus.unknown;
  approval_status = ApprovalStatus.pending;
  task_metadata = Fields.end;
  provenance = record {
    initiated_by = "user.ops";
    last_updated_by = none;
    policy_context_id = none;
    trace_id = none;
  };
}

abbrev pub event_tokens : Tokens
event_tokens = record { task = "t1"; payment = "p1"; event = "e1" }

abbrev creation : List Action
creation = Action.create 1 event_tokens new_payment ∷ []

abbrev two_dispatches : List Action
two_dispatches =
    Action.create 1 event_tokens new_payment ∷ Action.dispatch 50 30 ∷ Action.dispatch 50 30 ∷ []

abbrev created : World
created = acts network creation empty_world

-- The completed event is reported as failed, since its answer was lost.
abbrev first_answer : DispatchResponse
first_answer = record {
  claimed_count = 1;
  processed_count = 0;
  failed_count = 1;
  failures =
      record {
        event_id = "evt_e1";
        event_type = "task.lifecycle.created.v1";
        error_message = "Failed to complete outbox event evt_e1.";
      }
      ∷ [];
}

-- The event after the second dispatch: it was claimed twice, and completed in the end.
abbrev completed_event : OutboxEvent
completed_event =
    record (created_event 1 event_tokens new_payment (new_task 1 event_tokens new_payment)) {
      status = OutboxStatus.completed;
      attempt_count = 2;
      claimed_at = some 15;
      processed_at = some 18;
      updated_at = 18;
    }

event_found :
    get_outbox_event "evt_e1" (acts network two_dispatches empty_world).context
    ≡ some completed_event
unfolding acts act create_task new_task created_event violates_unique find exists string_discrete
    claimable insert_by order_by order_by_created_at limited selected event_ids claim_outbox_events
    select update is_in ℕ_discrete process_once process_events process_event attempt settle
    project_event request claim_events complete_event fail_event ensure_task_provenance
    append_state_transition post_claim post_complete post_fail parse_event parse_events
    validate_event post_task_provenance create_state_transition create_task_provenance
    provenance_lookup get_task_provenance new_provenance add_state_transition transition_existing
    transition_task existing_transition new_transition get_state_transition_by_source_event
    complete_outbox_event fail_outbox_event change_event change_found get_outbox_event failed
    OutboxStatus-discrete
event_found = refl

projected_once_example :
    count (has_source "evt_e1") (acts network two_dispatches empty_world).provenance.state_history
    ≡ 1
projected_once_example =
    projected_once network two_dispatches "evt_e1" completed_event event_found refl

-- ===== src/Contracts/Events.antt =====
-- The outbox events of a task's life (packages/shared-contracts/src/shared_contracts/events.py).
use control_architecture.Base.{ℕ, String, Option, none, some, ◌==◌, if◌then◌else◌, string_eq}
use control_architecture.Contracts.Literals.{
  Rail, TaskStatus, BeneficiaryStatus, ApprovalStatus, OutboxStatus,
}
use control_architecture.Contracts.Envelopes.{Time, Cents, ProvenanceSeed}

abbrev pub event_type_task_created : String
event_type_task_created = "task.lifecycle.created.v1"

abbrev pub event_type_task_state_changed : String
event_type_task_state_changed = "task.lifecycle.state_changed.v1"

pub record TaskLifecycleTransition : Type 0 where
  pub from_status : Option TaskStatus
  pub to_status : TaskStatus
  pub changed_by : String
  pub reason : Option String

pub record TaskSnapshotState : Type 0 where
  pub status : TaskStatus
  pub approval_status : ApprovalStatus
  pub beneficiary_status : BeneficiaryStatus

pub record TaskCreatedEventPayload : Type 0 where
  pub task_id : String
  pub payment_id : String
  pub customer_id : String
  pub rail : Rail
  pub amount_usd : Cents
  pub provenance : ProvenanceSeed
  pub transition : TaskLifecycleTransition

pub record TaskStateChangedEventPayload : Type 0 where
  pub task_id : String
  pub payment_id : String
  pub transition : TaskLifecycleTransition
  pub task_snapshot : TaskSnapshotState

-- What the JSON column `payload` of an event holds: one of the two dumped payloads.
pub data EventPayload : Type 0 where
  created : TaskCreatedEventPayload → EventPayload
  state_changed : TaskStateChangedEventPayload → EventPayload

pub record BaseTaskLifecycleOutboxEvent : Type 0 where
  pub event_id : String
  pub aggregate_type : String
  pub aggregate_id : String
  pub status : OutboxStatus
  pub attempt_count : ℕ
  pub last_error : Option String
  pub claimed_at : Option Time
  pub processed_at : Option Time
  pub created_at : Option Time
  pub updated_at : Option Time

-- The discriminated union: `event_type` is the constructor.
pub data TaskLifecycleOutboxEvent : Type 0 where
  created : BaseTaskLifecycleOutboxEvent → TaskCreatedEventPayload → TaskLifecycleOutboxEvent
  state_changed :
      BaseTaskLifecycleOutboxEvent → TaskStateChangedEventPayload → TaskLifecycleOutboxEvent

abbrev pub event_base : TaskLifecycleOutboxEvent → BaseTaskLifecycleOutboxEvent
event_base (TaskLifecycleOutboxEvent.created b p) = b
event_base (TaskLifecycleOutboxEvent.state_changed b p) = b

abbrev pub event_type : TaskLifecycleOutboxEvent → String
event_type (TaskLifecycleOutboxEvent.created b p) = event_type_task_created
event_type (TaskLifecycleOutboxEvent.state_changed b p) = event_type_task_state_changed

abbrev pub event_task_id : TaskLifecycleOutboxEvent → String
event_task_id (TaskLifecycleOutboxEvent.created b p) = p.task_id
event_task_id (TaskLifecycleOutboxEvent.state_changed b p) = p.task_id

abbrev pub event_transition : TaskLifecycleOutboxEvent → TaskLifecycleTransition
event_transition (TaskLifecycleOutboxEvent.created b p) = p.transition
event_transition (TaskLifecycleOutboxEvent.state_changed b p) = p.transition

-- The validation of an event read from a row: the type chooses the model, and a payload of the
-- other model lacks fields that it needs. `none` is the ValidationError.
unfoldable pub validate_event :
    BaseTaskLifecycleOutboxEvent → String → EventPayload → Option TaskLifecycleOutboxEvent
validate_event b t (EventPayload.created p) =
    if t == event_type_task_created then some (TaskLifecycleOutboxEvent.created b p) else none
validate_event b t (EventPayload.state_changed p) =
    if t == event_type_task_state_changed
    then some (TaskLifecycleOutboxEvent.state_changed b p)
    else none

-- ===== src/Consumer/BatchExamples.antt =====
-- A dispatch of two events on a network that loses nothing.
use control_architecture.Base.{String, ◌+◌, none, some, List, [], ◌∷◌, nat_eq}
use control_architecture.Contracts.Literals.{
  Rail, TaskStatus, BeneficiaryStatus, ApprovalStatus, OutboxStatus,
}
use control_architecture.Contracts.Events.{TaskLifecycleOutboxEvent, BaseTaskLifecycleOutboxEvent}
use control_architecture.Contracts.Envelopes.{Time}
use control_architecture.Context.Models.{TaskStatePatchRequest, OutboxClaimRequest}
use control_architecture.Context.Calls.{Operation}
use control_architecture.Consumer.Network.{Network, Delivery}
use control_architecture.Consumer.Examples.{new_payment, event_tokens}

-- A network that loses nothing, and the batch of the first claim.
abbrev reliable_network : Network
reliable_network = record { clock = λ k. k + 10; delivery = λ k. Delivery.delivered }

abbrev validation : TaskStatePatchRequest
validation = record {
  status = TaskStatus.validated;
  changed_by = "agent.worker";
  reason = none;
  approval_status = none;
  beneficiary_status = some BeneficiaryStatus.approved;
}

abbrev created_operations : List Operation
created_operations =
    Operation.create 1 event_tokens new_payment
    ∷ Operation.patch 2 (record event_tokens { event = "e2" }) "task_t1" validation
    ∷ []

abbrev first_claim : OutboxClaimRequest
first_claim = record { limit = 50; lease_seconds = 30 }

abbrev claimed_base : String → Time → BaseTaskLifecycleOutboxEvent
claimed_base id created_at = record {
  event_id = id;
  aggregate_type = "task";
  aggregate_id = "task_t1";
  status = OutboxStatus.in_progress;
  attempt_count = 1;
  last_error = none;
  claimed_at = some 10;
  processed_at = none;
  created_at = some created_at;
  updated_at = some 10;
}

abbrev first_batch : List TaskLifecycleOutboxEvent
first_batch =
    TaskLifecycleOutboxEvent.created (claimed_base "evt_e1" 1) (record {
      task_id = "task_t1";
      payment_id = "pay_p1";
      customer_id = "cust_1";
      rail = Rail.ach;
      amount_usd = 250000;
      provenance = new_payment.provenance;
      transition = record {
        from_status = none;
        to_status = TaskStatus.received;
        changed_by = "user.ops";
        reason = some "task created";
      };
    })
    ∷ TaskLifecycleOutboxEvent.state_changed (claimed_base "evt_e2" 2) (record {
      task_id = "task_t1";
      payment_id = "pay_p1";
      transition = record {
        from_status = some TaskStatus.received;
        to_status = TaskStatus.validated;
        changed_by = "agent.worker";
        reason = none;
      };
      task_snapshot = record {
        status = TaskStatus.validated;
        approval_status = ApprovalStatus.pending;
        beneficiary_status = BeneficiaryStatus.approved;
      };
    })
    ∷ []

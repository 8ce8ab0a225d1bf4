-- ===== src/Worker/Fixtures.antt =====
-- Requests, clients and services for the runs on concrete inputs (services/workflow-worker).
use control_architecture.Base.{
  String, true, none, some, [], ◌∷◌, pure, raise, ◌==◌, string_eq, ◌+◌, nat_eq, if◌then◌else◌, ℕ,
  zero, suc, format,
}
use control_architecture.Contracts.Literals.{
  Rail, TaskStatus, BeneficiaryStatus, ApprovalStatus, ArtifactTrustLevel, DelegationStatus,
  ReleaseMode,
}
use control_architecture.Contracts.Json.{Fields}
use control_architecture.Contracts.Envelopes.{
  ArtifactContent, CommonMessageEnvelopeBase, DelegationRequestEnvelope, DelegationResponseEnvelope,
}
use control_architecture.Contracts.Tasks.{
  TaskDetailView, ArtifactView, DelegatedWorkView, empty_task_records,
}
use control_architecture.Worker.Router.{
  EnvelopeTokens, approval_router_agent_id, approval_request, request_fields,
}
use control_architecture.Worker.Service.{ClientFault, WorkerClients, WorkflowResumeRequest}
use control_architecture.Worker.Resume.{Worker}
use control_architecture.ControlPlane.Document.{default_config}
use control_architecture.Consumer.Network.{Network, Delivery}
use control_architecture.Gateway.Store.{
  Capability, capability_check_status, capability_create_instruction, capability_release_payment,
  capability_validate_beneficiary,
}
use control_architecture.Worker.System.{Services}

abbrev pub tokens : EnvelopeTokens
tokens = record {
  message = "m1";
  correlation = "c1";
  timestamp = 1;
  later = 2;
  trace = "t1";
  span = "s1";
}

abbrev pub worker : Worker
worker = record { app_name = "workflow-worker"; sha256 = λ s. s; tokens = tokens }

abbrev pub base : CommonMessageEnvelopeBase
base = request_fields tokens (record {
  workflow_id = "wf_task_1";
  task_id = "task_1";
  delegated_agent_id = approval_router_agent_id;
  scope = "payment.submit_for_approval" ∷ [];
  trace_id = none;
  human_approval_required = true;
})

abbrev pub pending_delegation : DelegatedWorkView
pending_delegation = record {
  delegation_id = "dlg_1";
  workflow_id = "wf_task_1";
  parent_agent_id = "agent.payment_orchestrator";
  delegated_agent_id = approval_router_agent_id;
  delegated_action = "approval_routing";
  capability_id = none;
  status = DelegationStatus.pending;
  request_envelope = DelegationRequestEnvelope.approval_routing_request base (record {
    approval_profile = "dual_approval";
    task_summary = record {
      task_id = "task_1";
      payment_id = "pay_1";
      customer_id = "cust_1";
      amount_usd = 6000000;
      rail = Rail.ach;
    };
  });
  response_envelope = some (
      DelegationResponseEnvelope.approval_routing_result base
        (approval_request "a1" "dual_approval"));
  created_at = 1;
  updated_at = none;
}

abbrev pub waiting_task : TaskDetailView
waiting_task = record {
  context = record {
    task_id = "task_1";
    payment_id = "pay_1";
    customer_id = "cust_1";
    rail = Rail.ach;
    amount_usd = 6000000;
    status = TaskStatus.awaiting_approval;
    beneficiary_status = BeneficiaryStatus.approved;
    approval_status = ApprovalStatus.pending;
    task_metadata = Fields.end;
    created_at = 1;
    updated_at = none;
  };
  provenance = (empty_task_records "task_1").provenance;
  state_history = [];
  artifacts = [];
  delegations = pending_delegation ∷ [];
}

abbrev pub any_artifact : ArtifactView
any_artifact = record {
  id = 1;
  artifact_type = "approval_decision";
  artifact_ref = none;
  content = ArtifactContent.approval_request (approval_request "a1" "dual_approval");
  trust_level = ArtifactTrustLevel.trusted;
  created_by = approval_router_agent_id;
  created_at = 1;
}

-- Clients whose gateway does not answer.
abbrev pub clients : WorkerClients (Unit {0})
clients = record {
  create_task = λ q. pure waiting_task;
  get_task = λ id. pure waiting_task;
  patch_task_state = λ id q. pure waiting_task;
  create_artifact = λ id q. pure any_artifact;
  create_delegation = λ id q. pure pending_delegation;
  update_delegation = λ id q. pure pending_delegation;
  create_instruction = λ q. raise (ClientFault.capability_error "no answer" 502 none);
  validate_beneficiary = λ q. raise (ClientFault.capability_error "no answer" 502 none);
  release_payment = λ q. raise (ClientFault.capability_error "no answer" 502 none);
}

abbrev pub resume_request : WorkflowResumeRequest
resume_request = record {
  approved_by = "user.ops";
  approval_note = none;
  idempotency_key = some "release-key-1";
  release_mode = ReleaseMode.execute;
}

-- A text for each number.
unfoldable pub numbered : String → ℕ → String
numbered s zero = s
numbered s (suc n) = format (numbered s n ∷ "i" ∷ [])

abbrev pub network : Network
network = record {
  clock = λ k. k + 10;
  delivery = λ k. if k == 61 then Delivery.lost_response else Delivery.delivered;
}

abbrev capability : String → String → Capability
capability id class = record {
  id = id;
  owner = some "capability-gateway";
  side_effect_class = some class;
  dry_run_supported = none;
}

abbrev pub services : Services
services = record {
  network = network;
  gateway = record {
    config = default_config;
    app_name = "capability-gateway";
    capabilities =
        (capability_check_status, capability capability_check_status "none")
        ∷ (capability_create_instruction, capability capability_create_instruction "none")
        ∷ (
          capability_release_payment,
          capability capability_release_payment "irreversible-financial-action",
        )
        ∷ (capability_validate_beneficiary, capability capability_validate_beneficiary "none")
        ∷ [];
    ambiguous_status = "pending_reconcile";
    sha256 = λ s. s;
  };
  tokens = λ k. record { task = numbered "t" k; payment = numbered "p" k; event = numbered "e" k };
  delegation_token = numbered "d";
  instruction_tokens =
      λ k. record { task = numbered "t" k; payment = numbered "p" k; instruction = numbered "i" k };
}

-- ===== src/Orchestrator/Fixtures.antt =====
-- Requests, clients and a registry for the runs on concrete inputs (apps/orchestrator-api).
use control_architecture.Base.{String, false, none, some, [], ◌∷◌, pure, raise, string_eq}
use control_architecture.Contracts.Literals.{
  Rail, TaskStatus, BeneficiaryStatus, ApprovalStatus, ArtifactTrustLevel, ReleaseMode,
  PolicyDecisionType,
}
use control_architecture.Contracts.Json.{Fields}
use control_architecture.Contracts.Envelopes.{ArtifactContent}
use control_architecture.Contracts.Tasks.{TaskDetailView, ArtifactView, empty_task_records}
use control_architecture.ControlPlane.Document.{ControlPlaneConfig, default_config}
use control_architecture.Policy.Engine.{PolicyDecisionResponse}
use control_architecture.Orchestrator.Models.{
  DomesticPaymentIntakeRequest, DomesticPaymentResumeRequest, OrchestratorClients,
}
use control_architecture.Orchestrator.Registry.{CapabilityDescriptor}
use control_architecture.Orchestrator.Service.{OrchestrationService, decision_content}

abbrev pub waiting_task : TaskDetailView
waiting_task = record {
  context = record {
    task_id = "task_1";
    payment_id = "pay_1";
    customer_id = "cust_1";
    rail = Rail.ach;
    amount_usd = 250000;
    status = TaskStatus.awaiting_approval;
    beneficiary_status = BeneficiaryStatus.approved;
    approval_status = ApprovalStatus.pending;
    task_metadata = Fields.end;
    created_at = 1;
    updated_at = none;
  };
  provenance = (empty_task_records "task_1").provenance;
  state_history = [];
  artifacts = [];
  delegations = [];
}

abbrev pub allowed : PolicyDecisionResponse
allowed = record {
  decision = PolicyDecisionType.allow;
  reason = "The payment is within the configured intake thresholds.";
  approval_profile = "single_approval";
  execution_mode = "live";
  recommended_next_capability = "domestic_payment.create_instruction";
  requires_manual_escalation = false;
}

abbrev pub recorded : ArtifactView
recorded = record {
  id = 1;
  artifact_type = "release_policy_decision";
  artifact_ref = none;
  content = ArtifactContent.release_policy_decision (decision_content allowed);
  trust_level = ArtifactTrustLevel.trusted;
  created_by = "orchestrator-api";
  created_at = 1;
}

-- The worker does not answer.
abbrev pub clients : OrchestratorClients (Unit {0})
clients = record {
  get_task = λ id. pure waiting_task;
  create_artifact = λ id q. pure recorded;
  evaluate_intake = λ q. pure allowed;
  evaluate_release = λ q. pure allowed;
  start_workflow =
      λ q. raise (record { message = "no answer"; status_code = 502; error_class = none });
  resume_workflow =
      λ id q. raise (record { message = "no answer"; status_code = 502; error_class = none });
}

abbrev described : String → String → CapabilityDescriptor
described id category = record {
  id = id;
  version = "1.0.0";
  owner = "payments";
  category = category;
  side_effect_class = "none";
  required_scopes = [];
  input_schema = none;
  output_schema = none;
  timeout_ms = none;
  retry_policy = none;
  requires_human_approval = none;
  idempotency = none;
  compensation_action = none;
}

-- A document that lets releases run.
abbrev pub live_config : ControlPlaneConfig
live_config = record default_config {
  environment = record default_config.environment { default_mode = some "live" };
}

abbrev pub service : OrchestrationService
service = record {
  snapshot = record {
    control_plane = live_config;
    capabilities =
        described "domestic_payment.create_instruction" "draft"
        ∷ described "domestic_payment.validate_beneficiary_account" "validation"
        ∷ [];
    agents = [];
  };
  app_name = "orchestrator-api";
  sha256 = λ s. s;
}

abbrev pub resume_request : DomesticPaymentResumeRequest
resume_request = record {
  approved_by = "user.ops";
  approval_note = none;
  idempotency_key = some "release-key-1";
  release_mode = ReleaseMode.execute;
  principal_scopes = "release:domestic_payment" ∷ [];
}

abbrev pub intake_request : DomesticPaymentIntakeRequest
intake_request = record {
  customer_id = "cust_1";
  source_account_id = "acct_1";
  beneficiary_id = "ben_1";
  amount_usd = 250000;
  rail = Rail.ach;
  requested_execution_date = "2026-03-22";
  initiated_by = "user.ops";
  memo = none;
  trace_id = none;
  principal_scopes = [];
}

-- ===== src/Worker/Requests.antt =====
-- What the start of a payment workflow sends to the clients
-- (services/workflow-worker/src/workflow_worker/service.py and schemas.py).
use control_architecture.Base.{String, Option, none, some, List}
use control_architecture.Contracts.Literals.{
  Rail, TaskStatus, BeneficiaryStatus, ApprovalStatus, ArtifactTrustLevel, DelegationStatus,
  BeneficiaryValidationStatus, decision_text,
}
use control_architecture.Contracts.Json.{Json, Fields, strings, nullable}
use control_architecture.Contracts.Envelopes.{
  Cents, ArtifactContent, BeneficiaryValidationArtifactContent,
  ReleasePolicyDecisionArtifactContent, BeneficiaryValidationCapabilityRequest, ApprovalTaskSummary,
  DelegationRequestEnvelope, DelegationResponseEnvelope,
}
use control_architecture.Contracts.Tasks.{
  TaskDetailView, ArtifactCreateRequest, DelegatedWorkCreateRequest, DelegatedWorkUpdateRequest,
}
use control_architecture.Context.Models.{TaskCreateRequest, TaskStatePatchRequest}
use control_architecture.Gateway.Types.{
  DomesticPaymentInstructionRequest, DomesticPaymentInstructionResponse,
}
use control_architecture.Worker.Router.{parent_agent_id}
use control_architecture.Worker.Service.{default_workflow_id}

pub record DomesticPaymentIntakePayload : Type 0 where
  pub customer_id : String
  pub source_account_id : String
  pub beneficiary_id : String
  pub amount_usd : Cents
  pub rail : Rail
  pub requested_execution_date : String
  pub initiated_by : String
  pub memo : Option String
  pub trace_id : Option String
  pub principal_scopes : List String

-- Its fields are those of the shared `ReleasePolicyDecisionArtifactContent`.
abbrev pub PolicyDecision : Type 0
PolicyDecision = ReleasePolicyDecisionArtifactContent

pub record WorkflowStartRequest : Type 0 where
  pub request : DomesticPaymentIntakePayload
  pub policy_decision : PolicyDecision
  pub selected_agents : List String
  pub available_capabilities : List String

abbrev pub instruction_request : WorkflowStartRequest → DomesticPaymentInstructionRequest
instruction_request p = record {
  customer_id = p.request.customer_id;
  source_account_id = p.request.source_account_id;
  beneficiary_id = p.request.beneficiary_id;
  amount_usd = p.request.amount_usd;
  rail = p.request.rail;
  requested_execution_date = p.request.requested_execution_date;
  memo = p.request.memo;
  initiated_by = p.request.initiated_by;
  trace_id = p.request.trace_id;
}

-- policy_decision.model_dump()
abbrev pub decision_fields : PolicyDecision → Fields
decision_fields d = Fields.field "decision" (Json.str (decision_text d.decision)) (
    Fields.field "reason" (Json.str d.reason) (
      Fields.field "approval_profile" (Json.str d.approval_profile) (
        Fields.field "execution_mode" (Json.str d.execution_mode) (
          Fields.field "recommended_next_capability" (Json.str d.recommended_next_capability) (
            Fields.field "requires_manual_escalation" (Json.bool d.requires_manual_escalation)
              Fields.end)))))

unfoldable pub start_metadata : WorkflowStartRequest → DomesticPaymentInstructionResponse → Fields
start_metadata p i = Fields.field "source_account_id" (Json.str p.request.source_account_id) (
    Fields.field "beneficiary_id" (Json.str p.request.beneficiary_id) (
      Fields.field "requested_execution_date" (Json.str p.request.requested_execution_date) (
        Fields.field "memo" (nullable p.request.memo) (
          Fields.field "principal_scopes" (Json.arr (strings p.request.principal_scopes)) (
            Fields.field "policy_decision" (Json.obj (decision_fields p.policy_decision)) (
              Fields.field "selected_agents" (Json.arr (strings p.selected_agents)) (
                Fields.field "available_capabilities" (Json.arr (strings p.available_capabilities))
                  (Fields.field "gateway_instruction_id" (Json.str i.instruction_id) (
                    Fields.field "workflow_id" (Json.str (default_workflow_id i.task.task_id))
                      Fields.end)))))))))

abbrev pub task_request :
    String → WorkflowStartRequest → DomesticPaymentInstructionResponse → TaskCreateRequest
task_request app_name p i = record {
  task_id = some i.task.task_id;
  payment_id = some i.task.payment_id;
  customer_id = p.request.customer_id;
  rail = p.request.rail;
  amount_usd = p.request.amount_usd;
  status = TaskStatus.received;
  beneficiary_status = BeneficiaryStatus.unknown;
  approval_status = ApprovalStatus.pending;
  task_metadata = start_metadata p i;
  provenance = record {
    initiated_by = p.request.initiated_by;
    last_updated_by = some app_name;
    policy_context_id = none;
    trace_id = p.request.trace_id;
  };
}

abbrev pub capability_request :
    WorkflowStartRequest → TaskDetailView → BeneficiaryValidationCapabilityRequest
capability_request p t = record {
  task_id = t.task_id;
  payment_id = t.payment_id;
  customer_id = t.customer_id;
  beneficiary_id = p.request.beneficiary_id;
  amount_usd = t.amount_usd;
  rail = t.rail;
  trace_id = p.request.trace_id;
}

abbrev pub task_summary : TaskDetailView → ApprovalTaskSummary
task_summary t = record {
  task_id = t.task_id;
  payment_id = t.payment_id;
  customer_id = t.customer_id;
  amount_usd = t.amount_usd;
  rail = t.rail;
}

abbrev pub delegation_request :
    String → String → String → String → DelegationRequestEnvelope → DelegatedWorkCreateRequest
delegation_request workflow_id agent_id action capability_id envelope = record {
  workflow_id = workflow_id;
  parent_agent_id = parent_agent_id;
  delegated_agent_id = agent_id;
  delegated_action = action;
  capability_id = some capability_id;
  status = DelegationStatus.queued;
  request_envelope = envelope;
  response_envelope = none;
}

abbrev pub delegation_update :
    String → DelegationStatus → DelegationResponseEnvelope → DelegatedWorkUpdateRequest
delegation_update agent_id status envelope = record {
  status = status;
  updated_by = agent_id;
  response_envelope = some envelope;
}

abbrev pub evidence : String → String → ArtifactContent → ArtifactCreateRequest
evidence artifact_type created_by content = record {
  artifact_type = artifact_type;
  artifact_ref = none;
  content = content;
  trust_level = ArtifactTrustLevel.trusted;
  created_by = created_by;
}

abbrev pub beneficiary_status_of : BeneficiaryValidationStatus → BeneficiaryStatus
beneficiary_status_of BeneficiaryValidationStatus.validated = BeneficiaryStatus.approved
beneficiary_status_of BeneficiaryValidationStatus.rejected = BeneficiaryStatus.rejected
beneficiary_status_of BeneficiaryValidationStatus.needs_review = BeneficiaryStatus.needs_review

-- A task state patch of a start: the approval stays pending.
abbrev pub start_patch :
    String → BeneficiaryValidationArtifactContent → TaskStatus → String → TaskStatePatchRequest
start_patch app_name validation status reason = record {
  status = status;
  changed_by = app_name;
  reason = some reason;
  approval_status = some ApprovalStatus.pending;
  beneficiary_status = some (beneficiary_status_of validation.status);
}

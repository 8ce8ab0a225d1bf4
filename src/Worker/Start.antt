-- ===== src/Worker/Start.antt =====
-- The start of a payment workflow (services/workflow-worker/src/workflow_worker/service.py,
-- start_domestic_payment_workflow, and delegation.py, execute), over the operations of the clients.
use control_architecture.Base.{
  String, true, false, none, some, List, [], ◌∷◌, ◌==◌, if◌then◌else◌, string_eq, or_text, Exec,
  continue, ◌>>=◌, pure, raise,
}
use control_architecture.Contracts.Literals.{
  TaskStatus, BeneficiaryValidationStatus, validation_status_eq,
}
use control_architecture.Contracts.Envelopes.{
  ArtifactContent, ApprovalRequestArtifactContent, BeneficiaryValidationArtifactContent,
  BeneficiaryValidationResultPayload, CommonMessageEnvelopeBase,
  BeneficiaryValidationRequestPayload, ApprovalRoutingRequestPayload, DelegationRequestEnvelope,
}
use control_architecture.Contracts.Tasks.{TaskDetailView, ArtifactView}
use control_architecture.Gateway.Store.{capability_validate_beneficiary}
use control_architecture.Worker.Router.{
  request_fields, compliance_agent_id, approval_router_agent_id, approval_capability_id,
  DelegatedExecutionResult,
}
use control_architecture.Worker.Service.{
  WorkerFault, WorkerClients, WorkflowExecutionResponse, default_workflow_id,
}
use control_architecture.Worker.Resume.{tried}
use control_architecture.Worker.Requests.{
  WorkflowStartRequest, instruction_request, task_request, capability_request, task_summary,
  delegation_request, delegation_update, evidence, start_patch,
}
use control_architecture.Worker.Agents.{
  StartContext, gateway_request, execute_routing, validation_execution,
}

module _ {S : Type 0} (c : WorkerClients S) (x : StartContext) (p : WorkflowStartRequest) where
  -- `execute` of a beneficiary validation request.
  unfoldable pub execute_validation :
      CommonMessageEnvelopeBase
      → BeneficiaryValidationRequestPayload
      → Exec S WorkerFault (DelegatedExecutionResult BeneficiaryValidationResultPayload)
  execute_validation b q =
      if b.target.target_id == compliance_agent_id
      then (tried (c.validate_beneficiary (gateway_request q)) >>= λ r.
          pure (validation_execution x b q r))
      else raise WorkerFault.value_error

  abbrev pub start_response :
      String → String → String → List String → TaskDetailView → WorkflowExecutionResponse
  start_response workflow_id state next artifacts final_task = record {
    task = final_task;
    workflow = record {
      workflow_id = workflow_id;
      workflow_state = state;
      next_action = next;
      last_capability = some capability_validate_beneficiary;
    };
    artifacts_created = artifacts;
    release_result = none;
  }

  -- A beneficiary that is not validated blocks the workflow.
  unfoldable pub blocked :
      String
      → TaskDetailView
      → BeneficiaryValidationArtifactContent
      → ArtifactView
      → Exec S WorkerFault WorkflowExecutionResponse
  blocked workflow_id task v a =
      tried (
        c.patch_task_state task.task_id (
          start_patch x.app_name v
            (if v.status == BeneficiaryValidationStatus.needs_review
              then TaskStatus.exception
              else TaskStatus.failed)
            (or_text v.reason "Beneficiary validation failed.")))
      >>= λ final_task.
          pure
            (start_response workflow_id "blocked" "manual_review" (a.artifact_type ∷ []) final_task)

  abbrev pub routing_base : String → TaskDetailView → CommonMessageEnvelopeBase
  routing_base workflow_id task = request_fields x.routing_request (record {
    workflow_id = workflow_id;
    task_id = task.task_id;
    delegated_agent_id = approval_router_agent_id;
    scope = "payment.submit_for_approval" ∷ [];
    trace_id = p.request.trace_id;
    human_approval_required = true;
  })

  abbrev pub routing_payload : TaskDetailView → ApprovalRoutingRequestPayload
  routing_payload task = record {
    approval_profile = p.policy_decision.approval_profile;
    task_summary = task_summary task;
  }

  -- The approval request that was executed is recorded, and the task waits for the approval.
  unfoldable pub routed :
      String
      → TaskDetailView
      → BeneficiaryValidationArtifactContent
      → ArtifactView
      → String
      → DelegatedExecutionResult ApprovalRequestArtifactContent
      → Exec S WorkerFault WorkflowExecutionResponse
  routed workflow_id task v a delegation_id e =
      tried (
        c.update_delegation delegation_id
          (delegation_update approval_router_agent_id e.status e.response_envelope))
      >>= λ u.
          (tried (
              c.create_artifact task.task_id (
                evidence "approval_request" approval_router_agent_id
                  (ArtifactContent.approval_request e.payload)))
            >>= λ b.
                (tried (
                    c.patch_task_state task.task_id (
                      start_patch x.app_name v TaskStatus.awaiting_approval
                        "Workflow is waiting for human approval before release."))
                  >>= λ final_task. pure (
                      start_response workflow_id "waiting_for_approval" "resume_after_approval"
                        (a.artifact_type ∷ b.artifact_type ∷ []) final_task)))

  -- A validated beneficiary: the approval is routed.
  unfoldable pub accepted :
      String
      → TaskDetailView
      → BeneficiaryValidationArtifactContent
      → ArtifactView
      → Exec S WorkerFault WorkflowExecutionResponse
  unfolding routed
  accepted workflow_id task v a =
      tried (
        c.patch_task_state task.task_id
          (start_patch x.app_name v TaskStatus.validated "Beneficiary validation completed."))
      >>= λ t.
          (tried (
              c.create_delegation task.task_id (
                delegation_request workflow_id approval_router_agent_id "approval_routing"
                  approval_capability_id
                  (DelegationRequestEnvelope.approval_routing_request
                    (routing_base workflow_id task) (routing_payload task))))
            >>= λ d.
                continue
                  (execute_routing x.routing_response x.approval_token
                    (routing_base workflow_id task) (routing_payload task))
                  (routed workflow_id task v a d.delegation_id))

  unfoldable pub validated :
      String
      → TaskDetailView
      → BeneficiaryValidationArtifactContent
      → ArtifactView
      → Exec S WorkerFault WorkflowExecutionResponse
  unfolding accepted blocked
  validated workflow_id task v a =
      if v.status == BeneficiaryValidationStatus.validated
      then accepted workflow_id task v a
      else blocked workflow_id task v a

  -- The validation that was executed is recorded.
  unfoldable pub executed :
      String
      → TaskDetailView
      → String
      → DelegatedExecutionResult BeneficiaryValidationResultPayload
      → Exec S WorkerFault WorkflowExecutionResponse
  unfolding validated
  executed workflow_id task delegation_id e =
      tried (
        c.update_delegation delegation_id
          (delegation_update compliance_agent_id e.status e.response_envelope))
      >>= λ u.
          (tried (
              c.create_artifact task.task_id (
                evidence "beneficiary_validation_result" compliance_agent_id
                  (ArtifactContent.beneficiary_validation e.payload.validation_result)))
            >>= λ a. validated workflow_id task e.payload.validation_result a)

  abbrev pub validation_base : String → TaskDetailView → CommonMessageEnvelopeBase
  validation_base workflow_id task = request_fields x.validation_request (record {
    workflow_id = workflow_id;
    task_id = task.task_id;
    delegated_agent_id = compliance_agent_id;
    scope = "payment.validate" ∷ [];
    trace_id = p.request.trace_id;
    human_approval_required = false;
  })

  abbrev pub validation_request : TaskDetailView → BeneficiaryValidationRequestPayload
  validation_request task = record { capability_request = capability_request p task }

  -- The task was created: the validation is delegated.
  unfoldable pub tasked : String → TaskDetailView → Exec S WorkerFault WorkflowExecutionResponse
  unfolding executed execute_validation
  tasked workflow_id task =
      tried (
        c.create_delegation task.task_id (
          delegation_request workflow_id compliance_agent_id "beneficiary_validation"
            capability_validate_beneficiary
            (DelegationRequestEnvelope.beneficiary_validation_request
              (validation_base workflow_id task) (validation_request task))))
      >>= λ d.
          (execute_validation (validation_base workflow_id task) (validation_request task)
            >>= executed workflow_id task d.delegation_id)

  unfoldable pub start_domestic_payment_workflow : Exec S WorkerFault WorkflowExecutionResponse
  unfolding tasked
  start_domestic_payment_workflow = tried (c.create_instruction (instruction_request p)) >>= λ i.
      (tried (c.create_task (task_request x.app_name p i))
        >>= tasked (default_workflow_id i.task.task_id))

-- ===== src/Worker/Routing.antt =====
-- What a start that answers has called once the validation is recorded (services/workflow-worker/
-- src/workflow_worker/service.py, start_domestic_payment_workflow).
use control_architecture.Base.{
  String, List, [], ◌∷◌, ◌==◌, ◌≡◌, ◌⊎◌, refl, if_case, Bool-cases, inl, inr, Result, or_text,
  continue, string_eq,
}
use control_architecture.Contracts.Literals.{
  TaskStatus, DelegationStatus, BeneficiaryValidationStatus, validation_status_eq,
}
use control_architecture.Contracts.Envelopes.{
  ArtifactContent, ApprovalRequestArtifactContent, BeneficiaryValidationArtifactContent,
  CommonMessageEnvelopeBase, ApprovalRoutingRequestPayload, DelegationRequestEnvelope,
  DelegationResponseEnvelope,
}
use control_architecture.Contracts.Tasks.{TaskDetailView, ArtifactView}
use control_architecture.Worker.Router.{
  approval_router_agent_id, approval_capability_id, DelegatedExecutionResult,
}
use control_architecture.Worker.Service.{WorkerFault, WorkerClients, WorkflowExecutionResponse}
use control_architecture.Worker.Requests.{
  WorkflowStartRequest, delegation_request, delegation_update, evidence, start_patch,
}
use control_architecture.Worker.Agents.{StartContext, execute_routing}
use control_architecture.Worker.Start.{
  blocked, routing_base, routing_payload, routed, accepted, validated,
}
use control_architecture.Worker.Trace.{Event, logging}
use control_architecture.Worker.Answers.{Answers, raise-Answers, pure-Answers, call-Answers}

-- The calls up to the record of the validation.
abbrev pub validation_calls : List Event → List Event
validation_calls rest =
    Event.instruction_created
    ∷ Event.task_created
    ∷ Event.delegation_created
    ∷ Event.beneficiary_validated
    ∷ Event.delegation_updated DelegationStatus.completed
    ∷ Event.artifact_created "beneficiary_validation_result"
    ∷ rest

-- The calls of the approval's routing.
abbrev pub routing_calls : List Event
routing_calls =
    Event.task_patched TaskStatus.validated
    ∷ Event.delegation_created
    ∷ Event.delegation_updated DelegationStatus.pending
    ∷ Event.artifact_created "approval_request"
    ∷ Event.task_patched TaskStatus.awaiting_approval
    ∷ []

-- The workflow waits for an approval, or is blocked.
abbrev pub IsStarted : WorkflowExecutionResponse → List Event → Type 0
IsStarted x log =
    ((x.workflow.workflow_state ≡ "waiting_for_approval") × (log ≡ validation_calls routing_calls))
    ⊎ ((x.workflow.workflow_state ≡ "blocked")
        × ((log ≡ validation_calls (Event.task_patched TaskStatus.exception ∷ []))
            ⊎ (log ≡ validation_calls (Event.task_patched TaskStatus.failed ∷ []))))

-- After the record of the validation.
abbrev pub IsDecided : WorkflowExecutionResponse → List Event → Type 0
IsDecided x log = IsStarted x (validation_calls log)

module _ {S : Type 0} (c : WorkerClients S) (x : StartContext) (p : WorkflowStartRequest) where
  blocked-Answers :
      (workflow_id : String) (task : TaskDetailView) (v : BeneficiaryValidationArtifactContent)
      (a : ArtifactView)
      → Answers IsDecided (blocked (logging c) x p workflow_id task v a)
  unfolding blocked
  blocked-Answers workflow_id task v a =
      elim (Bool-cases (v.status == BeneficiaryValidationStatus.needs_review)) [
        | inl e ↦ rw e (
            call-Answers IsDecided (Event.task_patched TaskStatus.exception)
              (c.patch_task_state task.task_id (
                start_patch x.app_name v TaskStatus.exception
                  (or_text v.reason "Beneficiary validation failed.")))
              _ λ t. pure-Answers _ _ _ (λ s log. refl) (inr (refl, inl refl)))
        | inr e ↦ rw e (
            call-Answers IsDecided (Event.task_patched TaskStatus.failed)
              (c.patch_task_state task.task_id (
                start_patch x.app_name v TaskStatus.failed
                  (or_text v.reason "Beneficiary validation failed.")))
              _ λ t. pure-Answers _ _ _ (λ s log. refl) (inr (refl, inr refl)))
      ]

  -- After the task was set to validated and the approval delegated.
  abbrev IsRouted : WorkflowExecutionResponse → List Event → Type 0
  IsRouted y log =
      IsDecided y (Event.task_patched TaskStatus.validated ∷ Event.delegation_created ∷ log)

  routed-Answers :
      (workflow_id : String) (task : TaskDetailView) (v : BeneficiaryValidationArtifactContent)
      (a : ArtifactView) (id : String) (r : DelegationResponseEnvelope)
      (q : ApprovalRequestArtifactContent)
      → Answers IsRouted (
          routed
            (logging c)
            x
            p
            workflow_id
            task
            v
            a
            id
            (record { status = DelegationStatus.pending; response_envelope = r; payload = q }))
  unfolding routed
  routed-Answers workflow_id task v a id r q =
      call-Answers IsRouted (Event.delegation_updated DelegationStatus.pending)
        (c.update_delegation id
          (delegation_update approval_router_agent_id DelegationStatus.pending r))
        _
        λ u.
          call-Answers _ (Event.artifact_created "approval_request")
            (c.create_artifact task.task_id (
              evidence "approval_request" approval_router_agent_id
                (ArtifactContent.approval_request q)))
            _
            λ b.
              call-Answers _ (Event.task_patched TaskStatus.awaiting_approval)
                (c.patch_task_state task.task_id (
                  start_patch x.app_name v TaskStatus.awaiting_approval
                    "Workflow is waiting for human approval before release."))
                _ λ t. pure-Answers _ _ _ (λ s log. refl) (inl (refl, refl))

  routing-Answers :
      (workflow_id : String) (task : TaskDetailView) (v : BeneficiaryValidationArtifactContent)
      (a : ArtifactView) (id : String) (b : CommonMessageEnvelopeBase)
      (q : ApprovalRoutingRequestPayload)
      → Answers IsRouted (
          continue
            (execute_routing x.routing_response x.approval_token b q)
            (routed (logging c) x p workflow_id task v a id))
  unfolding execute_routing
  routing-Answers workflow_id task v a id b q =
      if_case
        (λ (e : Result WorkerFault (DelegatedExecutionResult ApprovalRequestArtifactContent)).
          Answers IsRouted (continue e (routed (logging c) x p workflow_id task v a id)))
        (b.target.target_id == approval_router_agent_id)
        (routed-Answers workflow_id task v a id _ _) (raise-Answers IsRouted _ _ (λ s log. refl))

  accepted-Answers :
      (workflow_id : String) (task : TaskDetailView) (v : BeneficiaryValidationArtifactContent)
      (a : ArtifactView)
      → Answers IsDecided (accepted (logging c) x p workflow_id task v a)
  unfolding accepted
  accepted-Answers workflow_id task v a =
      call-Answers IsDecided (Event.task_patched TaskStatus.validated)
        (c.patch_task_state task.task_id
          (start_patch x.app_name v TaskStatus.validated "Beneficiary validation completed."))
        _
        λ t.
          call-Answers _ Event.delegation_created
            (c.create_delegation task.task_id (
              delegation_request workflow_id approval_router_agent_id "approval_routing"
                approval_capability_id
                (DelegationRequestEnvelope.approval_routing_request
                  (routing_base c x p workflow_id task) (routing_payload c x p task))))
            _
            λ d.
              routing-Answers workflow_id task v a d.delegation_id
                (routing_base c x p workflow_id task) (routing_payload c x p task)

  pub validated-Answers :
      (workflow_id : String) (task : TaskDetailView) (v : BeneficiaryValidationArtifactContent)
      (a : ArtifactView)
      → Answers IsDecided (validated (logging c) x p workflow_id task v a)
  unfolding validated
  validated-Answers workflow_id task v a =
      if_case (Answers IsDecided) (v.status == BeneficiaryValidationStatus.validated)
        (accepted-Answers workflow_id task v a) (blocked-Answers workflow_id task v a)

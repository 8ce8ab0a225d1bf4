-- ===== src/Worker/KeepStart.antt =====
-- A start keeps what every operation of its clients keeps
-- (services/workflow-worker/src/workflow_worker/service.py, start_domestic_payment_workflow).
use control_architecture.Base.{
  String, ◌==◌, refl, if_case, Result, ok, err, continue, string_eq, Keeps, still-Keeps, seq-Keeps,
}
use control_architecture.Contracts.Literals.{BeneficiaryValidationStatus, validation_status_eq}
use control_architecture.Contracts.Envelopes.{
  ApprovalRequestArtifactContent, BeneficiaryValidationArtifactContent,
  BeneficiaryValidationResultPayload, CommonMessageEnvelopeBase,
  BeneficiaryValidationRequestPayload,
}
use control_architecture.Contracts.Tasks.{TaskDetailView, ArtifactView}
use control_architecture.Worker.Router.{compliance_agent_id, DelegatedExecutionResult}
use control_architecture.Worker.Service.{WorkerFault, WorkerClients, default_workflow_id}
use control_architecture.Worker.Requests.{WorkflowStartRequest}
use control_architecture.Worker.Agents.{StartContext}
use control_architecture.Worker.Start.{
  execute_validation, blocked, routed, accepted, validated, executed, tasked,
  start_domestic_payment_workflow,
}
use control_architecture.Worker.Invariant.{ClientsKeep, call-Keeps}

module _ {S : Type 0} (P : S → Type 0) (c : WorkerClients S) (k : ClientsKeep P c)
    (x : StartContext) (p : WorkflowStartRequest) where
  blocked-Keeps :
      (workflow_id : String) (task : TaskDetailView) (v : BeneficiaryValidationArtifactContent)
      (a : ArtifactView)
      → Keeps P (blocked c x p workflow_id task v a)
  unfolding blocked
  blocked-Keeps workflow_id task v a =
      call-Keeps P _ _ (k.patch_task_state _ _) λ t. still-Keeps P _ (λ s. refl)

  routed-Keeps :
      (workflow_id : String) (task : TaskDetailView) (v : BeneficiaryValidationArtifactContent)
      (a : ArtifactView) (id : String) (e : DelegatedExecutionResult ApprovalRequestArtifactContent)
      → Keeps P (routed c x p workflow_id task v a id e)
  unfolding routed
  routed-Keeps workflow_id task v a id e = call-Keeps P _ _ (k.update_delegation _ _) λ u.
      call-Keeps P _ _ (k.create_artifact _ _)
        λ b. call-Keeps P _ _ (k.patch_task_state _ _) λ t. still-Keeps P _ (λ s. refl)

  routing-Keeps :
      (workflow_id : String) (task : TaskDetailView) (v : BeneficiaryValidationArtifactContent)
      (a : ArtifactView) (id : String)
      (r : Result WorkerFault (DelegatedExecutionResult ApprovalRequestArtifactContent))
      → Keeps P (continue r (routed c x p workflow_id task v a id))
  routing-Keeps workflow_id task v a id (ok e) = routed-Keeps workflow_id task v a id e
  routing-Keeps workflow_id task v a id (err e) = still-Keeps P _ (λ s. refl)

  validated-Keeps :
      (workflow_id : String) (task : TaskDetailView) (v : BeneficiaryValidationArtifactContent)
      (a : ArtifactView)
      → Keeps P (validated c x p workflow_id task v a)
  unfolding validated accepted
  validated-Keeps workflow_id task v a =
      if_case (Keeps P) (v.status == BeneficiaryValidationStatus.validated)
        (call-Keeps P _ _ (k.patch_task_state _ _) λ t.
          call-Keeps P _ _ (k.create_delegation _ _)
            λ d. routing-Keeps workflow_id task v a d.delegation_id _)
        (blocked-Keeps workflow_id task v a)

  executed-Keeps :
      (workflow_id : String) (task : TaskDetailView) (id : String)
      (e : DelegatedExecutionResult BeneficiaryValidationResultPayload)
      → Keeps P (executed c x p workflow_id task id e)
  unfolding executed
  executed-Keeps workflow_id task id e = call-Keeps P _ _ (k.update_delegation _ _) λ u.
      call-Keeps P _ _ (k.create_artifact _ _)
        λ a. validated-Keeps workflow_id task e.payload.validation_result a

  validation-Keeps :
      (b : CommonMessageEnvelopeBase) (q : BeneficiaryValidationRequestPayload)
      → Keeps P (execute_validation c x p b q)
  unfolding execute_validation
  validation-Keeps b q =
      if_case (Keeps P) (b.target.target_id == compliance_agent_id)
        (call-Keeps P _ _ (k.validate_beneficiary _) λ r. still-Keeps P _ (λ s. refl))
        (still-Keeps P _ (λ s. refl))

  tasked-Keeps :
      (workflow_id : String) (task : TaskDetailView) → Keeps P (tasked c x p workflow_id task)
  unfolding tasked
  tasked-Keeps workflow_id task =
      call-Keeps P _ _ (k.create_delegation _ _) λ d.
        seq-Keeps P _ _ (validation-Keeps _ _) (executed-Keeps workflow_id task d.delegation_id)

  pub start-Keeps : Keeps P (start_domestic_payment_workflow c x p)
  unfolding start_domestic_payment_workflow
  start-Keeps =
      call-Keeps P _ _ (k.create_instruction _)
        λ i. call-Keeps P _ _ (k.create_task _) (tasked-Keeps (default_workflow_id i.task.task_id))

-- ===== src/Worker/KeepResume.antt =====
-- A resume keeps what every operation of its clients keeps
-- (services/workflow-worker/src/workflow_worker/service.py, resume_domestic_payment_workflow).
use control_architecture.Base.{
  String, Option, none, some, ◌==◌, refl, if_case, Result, ok, err, truthy, or_text, Keeps,
  still-Keeps,
}
use control_architecture.Contracts.Literals.{TaskStatus, DelegationStatus, task_status_eq}
use control_architecture.Contracts.Json.{get_field}
use control_architecture.Contracts.Tasks.{TaskDetailView, ArtifactView, DelegatedWorkView}
use control_architecture.Gateway.Types.{ReleaseApprovedPaymentResponse}
use control_architecture.Worker.Service.{
  WorkerFault, WorkerClients, WorkflowResumeRequest, WorkflowProgress, WorkflowExecutionResponse,
  find_latest_delegation, approval_request_id_of, workflow_id_of,
}
use control_architecture.Worker.Resume.{
  Worker, patch, submitted, ambiguous, unsuccessful, finish, approve, identified, delegated, loaded,
  resume_domestic_payment_workflow, with_progress,
}
use control_architecture.Worker.Invariant.{ClientsKeep, call-Keeps}

module _ {S : Type 0} (P : S → Type 0) (c : WorkerClients S) (k : ClientsKeep P c) (w : Worker)
    (id : String) (p : WorkflowResumeRequest) where
  progress-Keeps :
      (o : Option String) (state action : String) (f : WorkflowProgress → WorkflowExecutionResponse)
      → Keeps P (with_progress {S = S} o state action f)
  progress-Keeps none state action f = still-Keeps P (with_progress none state action f) (λ s. refl)
  progress-Keeps (some x) state action f =
      still-Keeps P (with_progress (some x) state action f) (λ s. refl)

  -- The progress that follows a release.
  noted-Keeps :
      (task : TaskDetailView) (state action : String)
      (f : WorkflowProgress → WorkflowExecutionResponse)
      → Keeps P (
          with_progress {S = S}
            (workflow_id_of id (get_field "workflow_id" task.task_metadata))
            state
            action
            f)
  noted-Keeps task = progress-Keeps (workflow_id_of id (get_field "workflow_id" task.task_metadata))

  finish-Keeps :
      (task : TaskDetailView) (r : ReleaseApprovedPaymentResponse) (a b : ArtifactView)
      → Keeps P (finish c w id p task r a b)
  unfolding finish submitted ambiguous unsuccessful patch
  finish-Keeps task r a b =
      if_case (Keeps P) (r.result.status == TaskStatus.settlement_pending)
        (call-Keeps P _ _ (k.patch_task_state id _)
          λ t. call-Keeps P _ _ (k.patch_task_state id _) λ u. noted-Keeps task _ _ _)
        (if_case (Keeps P) (r.result.status == TaskStatus.pending_reconcile)
          (call-Keeps P _ _ (k.patch_task_state id _) λ t. noted-Keeps task _ _ _)
          (call-Keeps P _ _ (k.patch_task_state id _) λ t. noted-Keeps task _ _ _))

  approve-Keeps :
      (task : TaskDetailView) (d : DelegatedWorkView) (request_id : String)
      → Keeps P (approve c w id p task d request_id)
  unfolding approve patch
  approve-Keeps task d request_id = call-Keeps P _ _ (k.update_delegation _ _) λ v.
      call-Keeps P _ _ (k.create_artifact id _) λ a. call-Keeps P _ _ (k.patch_task_state id _) λ t.
        call-Keeps P _ _ (k.release_payment _)
          λ r. call-Keeps P _ _ (k.create_artifact id _) λ b. finish-Keeps task r a b

  identified-Keeps :
      (task : TaskDetailView) (d : DelegatedWorkView) (o : Result WorkerFault (Option String))
      → Keeps P (identified c w id p task d o)
  unfolding identified
  identified-Keeps task d (err e) = still-Keeps P _ (λ s. refl)
  identified-Keeps task d (ok o) =
      if_case (Keeps P) (truthy o) (approve-Keeps task d (or_text o ""))
        (still-Keeps P _ (λ s. refl))

  delegated-Keeps :
      (task : TaskDetailView) (o : Option DelegatedWorkView) → Keeps P (delegated c w id p task o)
  unfolding delegated
  delegated-Keeps task none = still-Keeps P _ (λ s. refl)
  delegated-Keeps task (some d) =
      identified-Keeps task d (approval_request_id_of d.response_envelope)

  loaded-Keeps : (task : TaskDetailView) → Keeps P (loaded c w id p task)
  unfolding loaded
  loaded-Keeps task =
      if_case (Keeps P) (task.status == TaskStatus.awaiting_approval)
        (delegated-Keeps task
          (find_latest_delegation "approval_routing" DelegationStatus.pending task.delegations))
        (still-Keeps P _ (λ s. refl))

  pub resume-Keeps : Keeps P (resume_domestic_payment_workflow c w id p)
  unfolding resume_domestic_payment_workflow
  resume-Keeps = call-Keeps P _ _ (k.get_task id) loaded-Keeps

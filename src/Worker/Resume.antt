-- ===== src/Worker/Resume.antt =====
-- The resume of a payment workflow (services/workflow-worker/src/workflow_worker/service.py,
-- resume_domestic_payment_workflow), over the operations of the clients.
use control_architecture.Base.{
  String, Option, none, some, [], ◌∷◌, ◌==◌, if◌then◌else◌, string_eq, Result, ok, err, format,
  or_text, truthy, Exec, ◌>>=◌, pure, raise,
}
use control_architecture.Contracts.Literals.{
  TaskStatus, ApprovalStatus, ArtifactTrustLevel, DelegationStatus, task_status_eq,
}
use control_architecture.Contracts.Json.{get_field}
use control_architecture.Contracts.Envelopes.{ArtifactContent, ApprovalDecisionArtifactContent}
use control_architecture.Contracts.Tasks.{
  TaskDetailView, ArtifactView, ArtifactCreateRequest, DelegatedWorkView,
}
use control_architecture.Context.Models.{TaskStatePatchRequest}
use control_architecture.Gateway.Types.{
  ReleaseApprovedPaymentRequest, ReleaseApprovedPaymentResponse,
}
use control_architecture.Gateway.Store.{capability_release_payment}
use control_architecture.Worker.Router.{
  EnvelopeTokens, approval_router_agent_id, approval_decision, build_approval_completion_envelope,
}
use control_architecture.Worker.Service.{
  ClientFault, WorkerFault, caught, WorkerClients, WorkflowResumeRequest, WorkflowProgress,
  WorkflowExecutionResponse, state_conflict, workflow_id_of, default_idempotency_key,
  find_latest_delegation, approval_request_id_of,
}

-- The worker: its name, its digest, and the readings that an envelope is made of.
pub record Worker : Type 0 where
  pub app_name : String
  pub sha256 : String → String
  pub tokens : EnvelopeTokens

-- A task state patch of a resume: the beneficiary status stays, and the approval is given.
abbrev pub resume_patch : TaskDetailView → TaskStatus → String → String → TaskStatePatchRequest
resume_patch task status changed_by reason = record {
  status = status;
  changed_by = changed_by;
  reason = some reason;
  approval_status = some ApprovalStatus.approved;
  beneficiary_status = some task.beneficiary_status;
}

abbrev pub decision_artifact : ApprovalDecisionArtifactContent → ArtifactCreateRequest
decision_artifact content = record {
  artifact_type = "approval_decision";
  artifact_ref = none;
  content = ArtifactContent.approval_decision content;
  trust_level = ArtifactTrustLevel.trusted;
  created_by = approval_router_agent_id;
}

abbrev pub result_artifact : Worker → ReleaseApprovedPaymentResponse → ArtifactCreateRequest
result_artifact w r = record {
  artifact_type = "payment_release_result";
  artifact_ref = none;
  content = ArtifactContent.payment_release_result (record {
    payment_id = r.result.payment_id;
    status = r.result.status;
    rail = r.result.rail;
    updated_at = r.result.updated_at;
    error_class = r.result.error_class;
    explanation = r.result.explanation;
    mock_rail_outcome = r.mock_rail_outcome;
    idempotency_key = r.idempotency_key;
  });
  trust_level = ArtifactTrustLevel.trusted;
  created_by = w.app_name;
}

abbrev pub release_request :
    Worker → String → TaskDetailView → WorkflowResumeRequest → ReleaseApprovedPaymentRequest
release_request w id task p = record {
  payment_id = task.payment_id;
  task_id = id;
  idempotency_key = or_text p.idempotency_key (default_idempotency_key w.sha256 id);
  released_by = p.approved_by;
  release_mode = p.release_mode;
}

-- The progress, where the workflow id validates as a text.
abbrev pub with_progress :
    {S : Type 0}
    → Option String
    → String
    → String
    → (WorkflowProgress → WorkflowExecutionResponse)
    → Exec S WorkerFault WorkflowExecutionResponse
with_progress none state next f = raise WorkerFault.validation_error
with_progress (some workflow_id) state next f = pure (
    f (record {
      workflow_id = workflow_id;
      workflow_state = state;
      next_action = next;
      last_capability = some capability_release_payment;
    }))

-- A call of a client in a `try` whose `except` clauses make a WorkflowWorkerError.
abbrev pub tried : {S : Type 0} {A : Type 0} → Exec S ClientFault A → Exec S WorkerFault A
tried m s = let (r, s') = m s in (caught r, s')

module _ {S : Type 0} (c : WorkerClients S) (w : Worker) (id : String)
    (p : WorkflowResumeRequest) where
  unfoldable pub patch :
      TaskDetailView → TaskStatus → String → String → Exec S WorkerFault TaskDetailView
  patch task status changed_by reason =
      tried (c.patch_task_state id (resume_patch task status changed_by reason))

  abbrev pub response :
      ReleaseApprovedPaymentResponse
      → ArtifactView
      → ArtifactView
      → TaskDetailView
      → WorkflowProgress
      → WorkflowExecutionResponse
  response r approval_artifact artifact final_task workflow = record {
    task = final_task;
    workflow = workflow;
    artifacts_created = approval_artifact.artifact_type ∷ artifact.artifact_type ∷ [];
    release_result = some r;
  }

  -- What follows a release, by the status that it has given the payment. The response is made of the
  -- last task and the progress.
  unfoldable pub submitted :
      TaskDetailView
      → ReleaseApprovedPaymentResponse
      → (TaskDetailView → WorkflowProgress → WorkflowExecutionResponse)
      → Exec S WorkerFault WorkflowExecutionResponse
  unfolding patch
  submitted task r f =
      patch task TaskStatus.released w.app_name "Release request accepted by capability gateway."
      >>= λ t.
          (patch task TaskStatus.settlement_pending w.app_name
              (or_text r.result.explanation "Waiting for settlement confirmation.")
            >>= λ final_task.
                with_progress (workflow_id_of id (get_field "workflow_id" task.task_metadata))
                  "release_submitted" "wait_for_settlement" (f final_task))

  unfoldable pub ambiguous :
      TaskDetailView
      → ReleaseApprovedPaymentResponse
      → (TaskDetailView → WorkflowProgress → WorkflowExecutionResponse)
      → Exec S WorkerFault WorkflowExecutionResponse
  unfolding patch
  ambiguous task r f =
      patch task TaskStatus.pending_reconcile w.app_name
        (or_text r.result.explanation "Release outcome was ambiguous.")
      >>= λ final_task.
          with_progress (workflow_id_of id (get_field "workflow_id" task.task_metadata))
            "pending_reconcile" "manual_reconciliation" (f final_task)

  unfoldable pub unsuccessful :
      TaskDetailView
      → ReleaseApprovedPaymentResponse
      → (TaskDetailView → WorkflowProgress → WorkflowExecutionResponse)
      → Exec S WorkerFault WorkflowExecutionResponse
  unfolding patch
  unsuccessful task r f =
      patch task TaskStatus.failed w.app_name
        (or_text r.result.explanation "Release request failed.")
      >>= λ final_task.
          with_progress (workflow_id_of id (get_field "workflow_id" task.task_metadata)) "failed"
            "manual_recovery" (f final_task)

  unfoldable pub finish :
      TaskDetailView
      → ReleaseApprovedPaymentResponse
      → ArtifactView
      → ArtifactView
      → Exec S WorkerFault WorkflowExecutionResponse
  unfolding submitted ambiguous unsuccessful
  finish task r approval_artifact artifact =
      let f = response r approval_artifact artifact in
      if r.result.status == TaskStatus.settlement_pending
      then submitted task r f
      else if r.result.status == TaskStatus.pending_reconcile
      then ambiguous task r f
      else unsuccessful task r f

  -- The approval of a delegation, and the release.
  unfoldable pub approve :
      TaskDetailView → DelegatedWorkView → String → Exec S WorkerFault WorkflowExecutionResponse
  unfolding finish patch
  approve task d approval_request_id =
      tried (
        c.update_delegation d.delegation_id (record {
          status = DelegationStatus.completed;
          updated_by = approval_router_agent_id;
          response_envelope = some (
              build_approval_completion_envelope w.tokens d.request_envelope approval_request_id
                p.approved_by p.approval_note);
        }))
      >>= λ v.
          (tried (
              c.create_artifact id (
                decision_artifact
                  (approval_decision w.tokens approval_request_id p.approved_by p.approval_note)))
            >>= λ approval_artifact.
                (patch task TaskStatus.approved p.approved_by
                    (or_text p.approval_note "Approval granted. Resume release workflow.")
                  >>= λ t.
                      (tried (c.release_payment (release_request w id task p)) >>= λ r.
                      (tried (c.create_artifact id (result_artifact w r)) >>= λ artifact.
                      finish task r approval_artifact artifact))))

  unfoldable pub identified :
      TaskDetailView
      → DelegatedWorkView
      → Result WorkerFault (Option String)
      → Exec S WorkerFault WorkflowExecutionResponse
  unfolding approve
  identified task d (err e) = raise e
  identified task d (ok o) =
      if truthy o
      then approve task d (or_text o "")
      else raise (
          state_conflict
            (format ("Task " ∷ id ∷ " has an invalid approval delegation record." ∷ [])))

  unfoldable pub delegated :
      TaskDetailView → Option DelegatedWorkView → Exec S WorkerFault WorkflowExecutionResponse
  unfolding identified
  delegated task none = raise (
      state_conflict
        (format ("Task " ∷ id ∷ " does not have a pending approval delegation to complete." ∷ [])))
  delegated task (some d) = identified task d (approval_request_id_of d.response_envelope)

  unfoldable pub loaded : TaskDetailView → Exec S WorkerFault WorkflowExecutionResponse
  unfolding delegated
  loaded task =
      if task.status == TaskStatus.awaiting_approval
      then delegated task
          (find_latest_delegation "approval_routing" DelegationStatus.pending task.delegations)
      else raise (
          state_conflict
            (format ("Task " ∷ id ∷ " is not waiting for approval and cannot be resumed." ∷ [])))

  unfoldable pub resume_domestic_payment_workflow : Exec S WorkerFault WorkflowExecutionResponse
  unfolding loaded
  resume_domestic_payment_workflow = tried (c.get_task id) >>= loaded

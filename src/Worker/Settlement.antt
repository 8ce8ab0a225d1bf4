-- ===== src/Worker/Settlement.antt =====
-- What a resume that answers has called after the release (services/workflow-worker/src/
-- workflow_worker/service.py, resume_domestic_payment_workflow).
use control_architecture.Base.{
  String, true, false, Option, none, some, List, [], ◌∷◌, ◌==◌, ◌≡◌, refl, ◌∙◌, inl, inr, arith,
  Bool-cases, or_text,
}
use control_architecture.Contracts.Literals.{
  TaskStatus, DelegationStatus, task_status_eq, TaskStatus-discrete,
}
use control_architecture.Contracts.Json.{get_field}
use control_architecture.Contracts.Tasks.{TaskDetailView, ArtifactView}
use control_architecture.Gateway.Types.{ReleaseApprovedPaymentResponse}
use control_architecture.Worker.Service.{
  WorkerFault, WorkerClients, WorkflowResumeRequest, WorkflowProgress, WorkflowExecutionResponse,
  workflow_id_of,
}
use control_architecture.Worker.Resume.{
  Worker, patch, submitted, ambiguous, unsuccessful, finish, with_progress, resume_patch, response,
}
use control_architecture.Worker.Trace.{Event, logging}
use control_architecture.Worker.Answers.{Answers, raise-Answers, pure-Answers, call-Answers}

-- How the task goes on after a release that has given the payment a status.
abbrev pub settlement_calls : TaskStatus → List Event
settlement_calls TaskStatus.settlement_pending =
    Event.task_patched TaskStatus.released ∷ Event.task_patched TaskStatus.settlement_pending ∷ []
settlement_calls TaskStatus.pending_reconcile = Event.task_patched TaskStatus.pending_reconcile ∷ []
settlement_calls _ = Event.task_patched TaskStatus.failed ∷ []

abbrev pub settlement_state : TaskStatus → String
settlement_state TaskStatus.settlement_pending = "release_submitted"
settlement_state TaskStatus.pending_reconcile = "pending_reconcile"
settlement_state _ = "failed"

-- The calls of a whole resume.
abbrev pub resume_calls : TaskStatus → List Event
resume_calls status =
    Event.task_loaded
    ∷ Event.delegation_updated DelegationStatus.completed
    ∷ Event.artifact_created "approval_decision"
    ∷ Event.task_patched TaskStatus.approved
    ∷ Event.payment_released
    ∷ Event.artifact_created "payment_release_result"
    ∷ settlement_calls status

-- The answer has the release result, and the calls and the state are those of its status.
abbrev pub IsResumed : WorkflowExecutionResponse → List Event → Type 0
IsResumed x log =
    (r : ReleaseApprovedPaymentResponse) × (x.release_result ≡ some r)
    × (log ≡ resume_calls r.result.status)
    × (x.workflow.workflow_state ≡ settlement_state r.result.status)

-- After the first six calls.
abbrev pub IsSettled : WorkflowExecutionResponse → List Event → Type 0
IsSettled x log =
    (r : ReleaseApprovedPaymentResponse) × (x.release_result ≡ some r)
    × (log ≡ settlement_calls r.result.status)
    × (x.workflow.workflow_state ≡ settlement_state r.result.status)

submitted_status :
    (t : TaskStatus)
    → (t == TaskStatus.settlement_pending) ≡ true
    → t ≡ TaskStatus.settlement_pending
unfolding TaskStatus-discrete
submitted_status t h = ground (arith, h)

ambiguous_status :
    (t : TaskStatus) → (t == TaskStatus.pending_reconcile) ≡ true → t ≡ TaskStatus.pending_reconcile
unfolding TaskStatus-discrete
ambiguous_status t h = ground (arith, h)

failed_calls :
    (t : TaskStatus)
    → (t == TaskStatus.settlement_pending) ≡ false
    → (t == TaskStatus.pending_reconcile) ≡ false
    → (Event.task_patched TaskStatus.failed ∷ [] ≡ settlement_calls t)
      × ("failed" ≡ settlement_state t)
unfolding TaskStatus-discrete
failed_calls t h k = ground (arith, h, k)

module _ {S : Type 0} (c : WorkerClients S) (w : Worker) (id : String)
    (p : WorkflowResumeRequest) where
  progress-Answers :
      (Q : WorkflowExecutionResponse → List Event → Type 0) (o : Option String)
      (state action : String) (f : WorkflowProgress → WorkflowExecutionResponse)
      → ((g : WorkflowProgress) → g.workflow_state ≡ state → Q (f g) [])
      → Answers {S = S} Q (with_progress o state action f)
  progress-Answers Q none state action f h =
      raise-Answers Q (with_progress none state action f) WorkerFault.validation_error
        (λ s log. refl)
  progress-Answers Q (some x) state action f h =
      pure-Answers Q (with_progress (some x) state action f) _ (λ s log. refl) (h _ refl)

  module _ (task : TaskDetailView) (r : ReleaseApprovedPaymentResponse) (a b : ArtifactView) where
    submitted-Answers :
        r.result.status ≡ TaskStatus.settlement_pending
        → Answers IsSettled
            (submitted (logging c) w id p task r (response (logging c) w id p r a b))
    unfolding submitted patch
    submitted-Answers e =
        call-Answers IsSettled (Event.task_patched TaskStatus.released)
          (c.patch_task_state id (
            resume_patch task TaskStatus.released w.app_name
              "Release request accepted by capability gateway."))
          _
          λ t.
            call-Answers _ (Event.task_patched TaskStatus.settlement_pending)
              (c.patch_task_state id (
                resume_patch task TaskStatus.settlement_pending w.app_name
                  (or_text r.result.explanation "Waiting for settlement confirmation.")))
              _
              λ final_task.
                progress-Answers _ (workflow_id_of id (get_field "workflow_id" task.task_metadata))
                  "release_submitted" "wait_for_settlement"
                  (response (logging c) w id p r a b final_task)
                  (λ g h. (r, refl, rw e refl, rw (e, h) refl))

    ambiguous-Answers :
        r.result.status ≡ TaskStatus.pending_reconcile
        → Answers IsSettled
            (ambiguous (logging c) w id p task r (response (logging c) w id p r a b))
    unfolding ambiguous patch
    ambiguous-Answers e =
        call-Answers IsSettled (Event.task_patched TaskStatus.pending_reconcile)
          (c.patch_task_state id (
            resume_patch task TaskStatus.pending_reconcile w.app_name
              (or_text r.result.explanation "Release outcome was ambiguous.")))
          _
          λ final_task.
            progress-Answers _ (workflow_id_of id (get_field "workflow_id" task.task_metadata))
              "pending_reconcile" "manual_reconciliation"
              (response (logging c) w id p r a b final_task)
              (λ g h. (r, refl, rw e refl, rw (e, h) refl))

    unsuccessful-Answers :
        Event.task_patched TaskStatus.failed ∷ [] ≡ settlement_calls r.result.status
        → "failed" ≡ settlement_state r.result.status
        → Answers IsSettled
            (unsuccessful (logging c) w id p task r (response (logging c) w id p r a b))
    unfolding unsuccessful patch
    unsuccessful-Answers calls state =
        call-Answers IsSettled (Event.task_patched TaskStatus.failed)
          (c.patch_task_state id (
            resume_patch task TaskStatus.failed w.app_name
              (or_text r.result.explanation "Release request failed.")))
          _
          λ final_task.
            progress-Answers _ (workflow_id_of id (get_field "workflow_id" task.task_metadata))
              "failed" "manual_recovery" (response (logging c) w id p r a b final_task)
              (λ g h. (r, refl, calls, h ∙ state))

    pub finish-Answers : Answers IsSettled (finish (logging c) w id p task r a b)
    unfolding finish
    finish-Answers = elim (Bool-cases (r.result.status == TaskStatus.settlement_pending)) [
      | inl e ↦ rw e (submitted-Answers (submitted_status r.result.status e))
      | inr e ↦ elim (Bool-cases (r.result.status == TaskStatus.pending_reconcile)) [
        | inl k ↦ rw (e, k) (ambiguous-Answers (ambiguous_status r.result.status k))
        | inr k ↦
            let (calls, state) = failed_calls r.result.status e k in
            rw (e, k) (unsuccessful-Answers calls state)
      ]
    ]

-- ===== src/Worker/Order.antt =====
-- The order of the calls of a resume, and what has to hold before it releases a payment
-- (services/workflow-worker/src/workflow_worker/service.py, resume_domestic_payment_workflow).
use control_architecture.Base.{
  String, Option, none, some, [], ◌==◌, refl, sym, if_case, Result, ok, err, truthy, or_text,
}
use mathlib.Core.Path.{subst}
use control_architecture.Contracts.Literals.{TaskStatus, DelegationStatus, task_status_eq}
use control_architecture.Contracts.Json.{get_field}
use control_architecture.Contracts.Tasks.{TaskDetailView, ArtifactView, DelegatedWorkView}
use control_architecture.Gateway.Types.{ReleaseApprovedPaymentResponse}
use control_architecture.Worker.Router.{
  approval_router_agent_id, approval_decision, build_approval_completion_envelope,
}
use control_architecture.Worker.Service.{
  WorkerFault, WorkerClients, WorkflowResumeRequest, WorkflowProgress, WorkflowExecutionResponse,
  find_latest_delegation, approval_request_id_of, workflow_id_of,
}
use control_architecture.Worker.Resume.{
  Worker, patch, submitted, ambiguous, unsuccessful, finish, approve, identified, delegated, loaded,
  resume_domestic_payment_workflow, with_progress, resume_patch, release_request, result_artifact,
  decision_artifact, response,
}
use control_architecture.Worker.Trace.{
  Event, logging, Plan, Follows, Obeys, still-Obeys, left-Obeys, right-Obeys, call-Obeys,
}

-- The calls after a release: the task is set to released and then to settlement_pending, or to
-- pending_reconcile, or to failed.
abbrev pub finish_plan : Plan
finish_plan =
    Plan.either
      (Plan.next (Event.task_patched TaskStatus.released)
        (Plan.next (Event.task_patched TaskStatus.settlement_pending) Plan.stop))
      (Plan.either (Plan.next (Event.task_patched TaskStatus.pending_reconcile) Plan.stop)
        (Plan.next (Event.task_patched TaskStatus.failed) Plan.stop))

abbrev pub approve_plan : Plan
approve_plan = Plan.next (Event.delegation_updated DelegationStatus.completed) (
    Plan.next (Event.artifact_created "approval_decision") (
      Plan.next (Event.task_patched TaskStatus.approved) (
        Plan.next Event.payment_released
          (Plan.next (Event.artifact_created "payment_release_result") finish_plan))))

-- The calls of a resume.
abbrev pub resume_plan : Plan
resume_plan = Plan.next Event.task_loaded approve_plan

module _ {S : Type 0} (c : WorkerClients S) (w : Worker) (id : String)
    (p : WorkflowResumeRequest) where
  progress-Obeys :
      (q : Plan) (o : Option String) (state action : String)
      (f : WorkflowProgress → WorkflowExecutionResponse)
      → Obeys {S = S} q (with_progress o state action f)
  progress-Obeys q none state action f =
      still-Obeys q (with_progress none state action f) (λ s log. refl)
  progress-Obeys q (some x) state action f =
      still-Obeys q (with_progress (some x) state action f) (λ s log. refl)

  submitted-Obeys :
      (task : TaskDetailView) (r : ReleaseApprovedPaymentResponse)
      (f : TaskDetailView → WorkflowProgress → WorkflowExecutionResponse)
      → Obeys
          (Plan.next
            (Event.task_patched TaskStatus.released)
            (Plan.next (Event.task_patched TaskStatus.settlement_pending) Plan.stop))
          (submitted (logging c) w id p task r f)
  unfolding submitted patch
  submitted-Obeys task r f =
      call-Obeys (Event.task_patched TaskStatus.released) _
        (c.patch_task_state id (
          resume_patch task TaskStatus.released w.app_name
            "Release request accepted by capability gateway."))
        _
        λ t.
          call-Obeys (Event.task_patched TaskStatus.settlement_pending) Plan.stop
            (c.patch_task_state id (
              resume_patch task TaskStatus.settlement_pending w.app_name
                (or_text r.result.explanation "Waiting for settlement confirmation.")))
            _
            λ final_task.
              progress-Obeys Plan.stop
                (workflow_id_of id (get_field "workflow_id" task.task_metadata)) "release_submitted"
                "wait_for_settlement" (f final_task)

  ambiguous-Obeys :
      (task : TaskDetailView) (r : ReleaseApprovedPaymentResponse)
      (f : TaskDetailView → WorkflowProgress → WorkflowExecutionResponse)
      → Obeys
          (Plan.next (Event.task_patched TaskStatus.pending_reconcile) Plan.stop)
          (ambiguous (logging c) w id p task r f)
  unfolding ambiguous patch
  ambiguous-Obeys task r f =
      call-Obeys (Event.task_patched TaskStatus.pending_reconcile) Plan.stop
        (c.patch_task_state id (
          resume_patch task TaskStatus.pending_reconcile w.app_name
            (or_text r.result.explanation "Release outcome was ambiguous.")))
        _
        λ final_task.
          progress-Obeys Plan.stop (workflow_id_of id (get_field "workflow_id" task.task_metadata))
            "pending_reconcile" "manual_reconciliation" (f final_task)

  unsuccessful-Obeys :
      (task : TaskDetailView) (r : ReleaseApprovedPaymentResponse)
      (f : TaskDetailView → WorkflowProgress → WorkflowExecutionResponse)
      → Obeys
          (Plan.next (Event.task_patched TaskStatus.failed) Plan.stop)
          (unsuccessful (logging c) w id p task r f)
  unfolding unsuccessful patch
  unsuccessful-Obeys task r f =
      call-Obeys (Event.task_patched TaskStatus.failed) Plan.stop
        (c.patch_task_state id (
          resume_patch task TaskStatus.failed w.app_name
            (or_text r.result.explanation "Release request failed.")))
        _
        λ final_task.
          progress-Obeys Plan.stop (workflow_id_of id (get_field "workflow_id" task.task_metadata))
            "failed" "manual_recovery" (f final_task)

  finish-Obeys :
      (task : TaskDetailView) (r : ReleaseApprovedPaymentResponse) (a b : ArtifactView)
      → Obeys finish_plan (finish (logging c) w id p task r a b)
  unfolding finish
  finish-Obeys task r a b =
      let f = response (logging c) w id p r a b in
      if_case (Obeys finish_plan) (r.result.status == TaskStatus.settlement_pending)
        (left-Obeys _ _ _ (submitted-Obeys task r f))
        (right-Obeys _ _ _ (
          if_case (Obeys _) (r.result.status == TaskStatus.pending_reconcile)
            (left-Obeys _ _ _ (ambiguous-Obeys task r f))
            (right-Obeys _ _ _ (unsuccessful-Obeys task r f))))

  approve-Obeys :
      (task : TaskDetailView) (d : DelegatedWorkView) (request_id : String)
      → Obeys approve_plan (approve (logging c) w id p task d request_id)
  unfolding approve patch
  approve-Obeys task d request_id =
      call-Obeys (Event.delegation_updated DelegationStatus.completed) _
        (c.update_delegation d.delegation_id (record {
          status = DelegationStatus.completed;
          updated_by = approval_router_agent_id;
          response_envelope = some (
              build_approval_completion_envelope w.tokens d.request_envelope request_id
                p.approved_by p.approval_note);
        }))
        _
        λ v.
          call-Obeys (Event.artifact_created "approval_decision") _
            (c.create_artifact id (
              decision_artifact
                (approval_decision w.tokens request_id p.approved_by p.approval_note)))
            _
            λ a.
              call-Obeys (Event.task_patched TaskStatus.approved) _
                (c.patch_task_state id (
                  resume_patch task TaskStatus.approved p.approved_by
                    (or_text p.approval_note "Approval granted. Resume release workflow.")))
                _
                λ t.
                  call-Obeys Event.payment_released _
                    (c.release_payment (release_request w id task p)) _
                    λ r.
                      call-Obeys (Event.artifact_created "payment_release_result") finish_plan
                        (c.create_artifact id (result_artifact w r)) _ λ b. finish-Obeys task r a b

  identified-Obeys :
      (task : TaskDetailView) (d : DelegatedWorkView) (o : Result WorkerFault (Option String))
      → Obeys approve_plan (identified (logging c) w id p task d o)
  unfolding identified
  identified-Obeys task d (err e) = still-Obeys approve_plan _ (λ s log. refl)
  identified-Obeys task d (ok o) =
      if_case (Obeys approve_plan) (truthy o) (approve-Obeys task d (or_text o ""))
        (still-Obeys approve_plan _ (λ s log. refl))

  delegated-Obeys :
      (task : TaskDetailView) (o : Option DelegatedWorkView)
      → Obeys approve_plan (delegated (logging c) w id p task o)
  unfolding delegated
  delegated-Obeys task none = still-Obeys approve_plan _ (λ s log. refl)
  delegated-Obeys task (some d) =
      identified-Obeys task d (approval_request_id_of d.response_envelope)

  loaded-Obeys : (task : TaskDetailView) → Obeys approve_plan (loaded (logging c) w id p task)
  unfolding loaded
  loaded-Obeys task =
      if_case (Obeys approve_plan) (task.status == TaskStatus.awaiting_approval)
        (delegated-Obeys task
          (find_latest_delegation "approval_routing" DelegationStatus.pending task.delegations))
        (still-Obeys approve_plan _ (λ s log. refl))

  -- Whatever its clients do, the calls of a resume are made in this order, and may break off at any
  -- point: it loads the task, completes the approval's delegation, records the decision, sets the task
  -- to approved, releases the payment, records the result, and sets the task to released and then to
  -- settlement_pending, or to pending_reconcile, or to failed.
  pub resume-Follows :
      (s : S)
      → Follows resume_plan (resume_domestic_payment_workflow (logging c) w id p (s, [])).1.1
  unfolding resume_domestic_payment_workflow Obeys
  resume-Follows s =
      let (r, same, f) =
        call-Obeys Event.task_loaded approve_plan (c.get_task id) (loaded (logging c) w id p)
          loaded-Obeys s [] in
      subst (Follows resume_plan) (sym same) f

-- ===== src/Worker/Guards.antt =====
-- What has to hold before a resume releases a payment
-- (services/workflow-worker/src/workflow_worker/service.py, resume_domestic_payment_workflow).
use control_architecture.Base.{
  String, Bool, true, false, some, List, [], ◌∷◌, if◌then◌else◌, string_eq, ◌≡◌, ◌≢◌, ok,
}
use control_architecture.Contracts.Literals.{TaskStatus, DelegationStatus, task_status_eq}
use control_architecture.Contracts.Tasks.{TaskDetailView, DelegatedWorkView}
use control_architecture.Worker.Service.{find_latest_delegation, approval_request_id_of}
use control_architecture.Worker.Resume.{Worker, identified}
use control_architecture.Worker.Trace.{Event}

abbrev is_release : Event → Bool
is_release Event.payment_released = true
is_release _ = false

-- Whether a release was requested.
unfoldable pub released : List Event → Bool
released [] = false
released (e ∷ r) = let rest = released r in if is_release e then true else rest

-- The pending approval that a task has: its latest one, with the id of its request.
pub record IsPending (task : TaskDetailView) (d : DelegatedWorkView) (request_id : String)
    : Type 0 where
  pub awaiting : task.status ≡ TaskStatus.awaiting_approval
  pub latest :
      find_latest_delegation "approval_routing" DelegationStatus.pending task.delegations ≡ some d
  pub identified : approval_request_id_of d.response_envelope ≡ ok (some request_id)
  pub named : request_id ≢ ""

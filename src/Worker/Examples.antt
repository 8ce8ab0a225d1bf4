-- ===== src/Worker/Examples.antt =====
-- A resume with clients that answer the same each time.
use control_architecture.Base.{
  String, none, some, [], ◌∷◌, ◌≡◌, refl, ok, string_discrete, string_eq,
}
use control_architecture.Contracts.Literals.{
  TaskStatus, DelegationStatus, ReleaseMode, BeneficiaryValidationStatus-discrete,
  TaskStatus-discrete, DelegationStatus-discrete,
}
use control_architecture.Worker.Router.{approval_request, request_fields}
use control_architecture.Worker.Service.{find_latest_delegation, WorkflowExecutionResponse}
use control_architecture.Worker.Resume.{
  resume_domestic_payment_workflow, loaded, delegated, identified, approve, patch,
}
use control_architecture.Policy.Engine.{ReleaseDecisionRequest}
use control_architecture.Worker.Requests.{start_metadata}
use control_architecture.Worker.Agents.{validation_execution, execute_routing}
use control_architecture.Worker.Start.{
  start_domestic_payment_workflow, tasked, execute_validation, executed, validated, accepted,
  routed,
}
use control_architecture.Worker.Routing.{IsStarted}
use control_architecture.Worker.Started.{start_completes}
use control_architecture.Worker.Intake.{start_plan, start-Follows}
use control_architecture.Worker.Trace.{Event, Follows, logging}
use control_architecture.Worker.Order.{resume_plan, resume-Follows}
use control_architecture.Worker.StartFixtures.{
  start_context, start_request, created_instruction, answering_clients, released_payment,
}
use control_architecture.Worker.Fixtures.{worker, clients, resume_request, waiting_task}

resume_log :
    (resume_domestic_payment_workflow (logging clients) worker "task_1" resume_request (tt, [])).1.1
    ≡ Event.task_loaded
      ∷ Event.delegation_updated DelegationStatus.completed
      ∷ Event.artifact_created "approval_decision"
      ∷ Event.task_patched TaskStatus.approved
      ∷ Event.payment_released
      ∷ []
unfolding resume_domestic_payment_workflow loaded delegated identified approve patch
    find_latest_delegation string_discrete TaskStatus-discrete DelegationStatus-discrete
    approval_request
resume_log = refl

resume-Follows_example :
    Follows resume_plan
      (resume_domestic_payment_workflow
        (logging clients)
        worker
        "task_1"
        resume_request
        (tt, [])).1.1
resume-Follows_example = resume-Follows clients worker "task_1" resume_request tt

abbrev no_text : String
no_text = ""

start_log :
    (start_domestic_payment_workflow
      (logging answering_clients)
      start_context
      start_request
      (tt, [])).1.1
    ≡ Event.instruction_created
      ∷ Event.task_created
      ∷ Event.delegation_created
      ∷ Event.beneficiary_validated
      ∷ Event.delegation_updated DelegationStatus.completed
      ∷ Event.artifact_created "beneficiary_validation_result"
      ∷ Event.task_patched TaskStatus.validated
      ∷ Event.delegation_created
      ∷ Event.delegation_updated DelegationStatus.pending
      ∷ Event.artifact_created "approval_request"
      ∷ Event.task_patched TaskStatus.awaiting_approval
      ∷ []
unfolding start_domestic_payment_workflow tasked execute_validation validation_execution executed
    validated accepted routed execute_routing request_fields string_discrete
    BeneficiaryValidationStatus-discrete
start_log = refl

start-Follows_example :
    Follows start_plan
      (start_domestic_payment_workflow
        (logging answering_clients)
        start_context
        start_request
        (tt, [])).1.1
start-Follows_example = start-Follows answering_clients start_context start_request tt

abbrev started : WorkflowExecutionResponse
started = record {
  task = waiting_task;
  workflow = record {
    workflow_id = "wf_task_1";
    workflow_state = "waiting_for_approval";
    next_action = "resume_after_approval";
    last_capability = some "domestic_payment.validate_beneficiary_account";
  };
  artifacts_created = "approval_decision" ∷ "approval_decision" ∷ [];
  release_result = none;
}

start_answers :
    (start_domestic_payment_workflow
      (logging answering_clients)
      start_context
      start_request
      (tt, [])).0
    ≡ ok started
unfolding start_domestic_payment_workflow tasked execute_validation validation_execution executed
    validated accepted routed execute_routing request_fields string_discrete
    BeneficiaryValidationStatus-discrete
start_answers = refl

start_completes_example :
    IsStarted started
      (start_domestic_payment_workflow
        (logging answering_clients)
        start_context
        start_request
        (tt, [])).1.1
start_completes_example =
    start_completes answering_clients start_context start_request tt started start_answers

abbrev resumed : WorkflowExecutionResponse
resumed = record {
  task = waiting_task;
  workflow = record {
    workflow_id = "wf_task_1";
    workflow_state = "release_submitted";
    next_action = "wait_for_settlement";
    last_capability = some "domestic_payment.release_approved_payment";
  };
  artifacts_created = "approval_decision" ∷ "approval_decision" ∷ [];
  release_result = some released_payment;
}

abbrev started_release : ReleaseDecisionRequest
started_release = record {
  payment = record {
    task_id = "task_1";
    payment_id = "pay_1";
    amount_usd = 250000;
    rail = "ach";
    status = "awaiting_approval";
    approval_status = "pending";
    beneficiary_status = "approved";
    task_metadata = start_metadata start_request created_instruction;
  };
  principal = record { actor_id = none; scopes = "release:domestic_payment" ∷ [] };
  request = record {
    approved_by = "user.ops";
    approval_note = none;
    approval_outcome = "approved";
    idempotency_key = "release-key-1";
    release_mode = ReleaseMode.execute;
  };
  trace_id = none;
}

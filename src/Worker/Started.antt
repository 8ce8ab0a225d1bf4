-- ===== src/Worker/Started.antt =====
-- What a start that answers has called (services/workflow-worker/src/workflow_worker/service.py,
-- start_domestic_payment_workflow).
use mathlib.Core.Path.{subst}
use control_architecture.Base.{
  String, List, [], ◌∷◌, ◌==◌, ◌≡◌, refl, sym, if_case, ok, Exec, ◌>>=◌, string_eq,
}
use control_architecture.Contracts.Literals.{DelegationStatus, validation_status_eq}
use control_architecture.Contracts.Envelopes.{
  ArtifactContent, BeneficiaryValidationResultPayload, CommonMessageEnvelopeBase,
  BeneficiaryValidationRequestPayload, DelegationRequestEnvelope, DelegationResponseEnvelope,
}
use control_architecture.Contracts.Tasks.{TaskDetailView}
use control_architecture.Gateway.Store.{capability_validate_beneficiary}
use control_architecture.Worker.Router.{compliance_agent_id, DelegatedExecutionResult}
use control_architecture.Worker.Service.{
  WorkerFault, WorkerClients, WorkflowExecutionResponse, default_workflow_id,
}
use control_architecture.Worker.Requests.{
  WorkflowStartRequest, instruction_request, task_request, delegation_request, delegation_update,
  evidence,
}
use control_architecture.Worker.Resume.{tried}
use control_architecture.Worker.Agents.{StartContext, gateway_request, validation_execution}
use control_architecture.Worker.Start.{
  execute_validation, executed, validation_base, validation_request, tasked,
  start_domestic_payment_workflow,
}
use control_architecture.Worker.Trace.{Event, logged, logging, continue-pure}
use control_architecture.Worker.Answers.{Answers, raise-Answers, call-Answers, same-Answers}
use control_architecture.Worker.Routing.{IsStarted, validated-Answers}

module _ {S : Type 0} (c : WorkerClients S) (x : StartContext) (p : WorkflowStartRequest) where
  -- After the beneficiary was validated.
  abbrev IsChecked : WorkflowExecutionResponse → List Event → Type 0
  IsChecked y log = IsStarted y (
      Event.instruction_created ∷ Event.task_created ∷ Event.delegation_created
      ∷ Event.beneficiary_validated ∷ log)

  executed-Answers :
      (workflow_id : String) (task : TaskDetailView) (id : String) (r : DelegationResponseEnvelope)
      (q : BeneficiaryValidationResultPayload)
      → Answers IsChecked (
          executed
            (logging c)
            x
            p
            workflow_id
            task
            id
            (record { status = DelegationStatus.completed; response_envelope = r; payload = q }))
  unfolding executed
  executed-Answers workflow_id task id r q =
      call-Answers IsChecked (Event.delegation_updated DelegationStatus.completed)
        (c.update_delegation id
          (delegation_update compliance_agent_id DelegationStatus.completed r))
        _
        λ u.
          call-Answers _ (Event.artifact_created "beneficiary_validation_result")
            (c.create_artifact task.task_id (
              evidence "beneficiary_validation_result" compliance_agent_id
                (ArtifactContent.beneficiary_validation q.validation_result)))
            _ λ a. validated-Answers c x p workflow_id task q.validation_result a

  -- After the validation was delegated.
  abbrev IsDelegated : WorkflowExecutionResponse → List Event → Type 0
  IsDelegated y log =
      IsStarted y (Event.instruction_created ∷ Event.task_created ∷ Event.delegation_created ∷ log)

  validation-Answers :
      (workflow_id : String) (task : TaskDetailView) (id : String) (b : CommonMessageEnvelopeBase)
      (q : BeneficiaryValidationRequestPayload)
      → Answers IsDelegated
          (execute_validation (logging c) x p b q >>= executed (logging c) x p workflow_id task id)
  unfolding execute_validation validation_execution
  validation-Answers workflow_id task id b q =
      if_case
        (λ (e : Exec (S × List Event) WorkerFault
            (DelegatedExecutionResult BeneficiaryValidationResultPayload)).
          Answers IsDelegated (e >>= executed (logging c) x p workflow_id task id))
        (b.target.target_id == compliance_agent_id)
        (same-Answers IsDelegated
          (tried (logged Event.beneficiary_validated (c.validate_beneficiary (gateway_request q)))
            >>= λ r. executed (logging c) x p workflow_id task id (validation_execution x b q r))
          _
          (λ s log.
            let checked =
              tried
                (logged Event.beneficiary_validated (c.validate_beneficiary (gateway_request q)))
                (s, log) in
            continue-pure checked.0 (validation_execution x b q)
              (executed (logging c) x p workflow_id task id) checked.1)
          (call-Answers IsDelegated Event.beneficiary_validated
            (c.validate_beneficiary (gateway_request q)) _
            λ r. executed-Answers workflow_id task id _ _))
        (raise-Answers IsDelegated _ _ (λ s log. refl))

  tasked-Answers :
      (workflow_id : String) (task : TaskDetailView)
      → Answers
          (λ y log. IsStarted y (Event.instruction_created ∷ Event.task_created ∷ log))
          (tasked (logging c) x p workflow_id task)
  unfolding tasked
  tasked-Answers workflow_id task =
      call-Answers _ Event.delegation_created
        (c.create_delegation task.task_id (
          delegation_request workflow_id compliance_agent_id "beneficiary_validation"
            capability_validate_beneficiary
            (DelegationRequestEnvelope.beneficiary_validation_request
              (validation_base c x p workflow_id task) (validation_request c x p task))))
        _
        λ d.
          validation-Answers workflow_id task d.delegation_id
            (validation_base c x p workflow_id task) (validation_request c x p task)

  -- Whatever its clients do, a start that answers has made every call in its order: it has created the
  -- instruction, the task and the validation's delegation, validated the beneficiary, completed the
  -- delegation and recorded the result. If it answers that the workflow waits for an approval, it has
  -- then set the task to validated, created the approval's delegation, noted it as pending, recorded the
  -- approval request and set the task to awaiting_approval; otherwise it answers that the workflow is
  -- blocked, and has set the task to exception or to failed.
  pub start_completes :
      (s : S) (y : WorkflowExecutionResponse)
      → (start_domestic_payment_workflow (logging c) x p (s, [])).0 ≡ ok y
      → IsStarted y (start_domestic_payment_workflow (logging c) x p (s, [])).1.1
  unfolding start_domestic_payment_workflow Answers
  start_completes s y k =
      let (r, same, q) =
        call-Answers IsStarted Event.instruction_created
          (c.create_instruction (instruction_request p))
          (λ i.
            tried ((logging c).create_task (task_request x.app_name p i))
            >>= tasked (logging c) x p (default_workflow_id i.task.task_id))
          (λ i.
            call-Answers _ Event.task_created (c.create_task (task_request x.app_name p i)) _
              (tasked-Answers (default_workflow_id i.task.task_id)))
          s [] y k in
      subst (IsStarted y) (sym same) q

-- ===== src/Worker/Intake.antt =====
-- The order of the calls of a start (services/workflow-worker/src/workflow_worker/service.py,
-- start_domestic_payment_workflow).
use control_architecture.Base.{
  String, List, [], ◌==◌, refl, sym, if_case, Bool-cases, inl, inr, Result, or_text, Exec, continue,
  ◌>>=◌, string_eq,
}
use mathlib.Core.Path.{subst}
use control_architecture.Contracts.Literals.{
  TaskStatus, DelegationStatus, BeneficiaryValidationStatus, validation_status_eq,
}
use control_architecture.Contracts.Envelopes.{
  ArtifactContent, ApprovalRequestArtifactContent, BeneficiaryValidationArtifactContent,
  BeneficiaryValidationResultPayload, CommonMessageEnvelopeBase,
  BeneficiaryValidationRequestPayload, ApprovalRoutingRequestPayload, DelegationRequestEnvelope,
  DelegationResponseEnvelope,
}
use control_architecture.Contracts.Tasks.{TaskDetailView, ArtifactView}
use control_architecture.Gateway.Store.{capability_validate_beneficiary}
use control_architecture.Worker.Router.{
  compliance_agent_id, approval_router_agent_id, approval_capability_id, DelegatedExecutionResult,
}
use control_architecture.Worker.Service.{WorkerFault, WorkerClients, default_workflow_id}
use control_architecture.Worker.Requests.{
  WorkflowStartRequest, instruction_request, task_request, delegation_request, delegation_update,
  evidence, start_patch,
}
use control_architecture.Worker.Resume.{tried}
use control_architecture.Worker.Agents.{
  StartContext, gateway_request, execute_routing, validation_execution,
}
use control_architecture.Worker.Start.{
  execute_validation, blocked, routing_base, routing_payload, routed, accepted, validated, executed,
  validation_base, validation_request, tasked, start_domestic_payment_workflow,
}
use control_architecture.Worker.Trace.{
  Event, logged, logging, Plan, Follows, Obeys, still-Obeys, left-Obeys, right-Obeys, call-Obeys,
  same-Obeys, continue-pure,
}

abbrev pub routed_plan : Plan
routed_plan = Plan.next (Event.delegation_updated DelegationStatus.pending) (
    Plan.next (Event.artifact_created "approval_request")
      (Plan.next (Event.task_patched TaskStatus.awaiting_approval) Plan.stop))

abbrev pub validated_plan : Plan
validated_plan =
    Plan.either
      (Plan.next (Event.task_patched TaskStatus.validated)
        (Plan.next Event.delegation_created routed_plan))
      (Plan.either (Plan.next (Event.task_patched TaskStatus.exception) Plan.stop)
        (Plan.next (Event.task_patched TaskStatus.failed) Plan.stop))

abbrev pub executed_plan : Plan
executed_plan =
    Plan.next (Event.delegation_updated DelegationStatus.completed)
      (Plan.next (Event.artifact_created "beneficiary_validation_result") validated_plan)

-- The calls of a start.
abbrev pub start_plan : Plan
start_plan = Plan.next Event.instruction_created (
    Plan.next Event.task_created
      (Plan.next Event.delegation_created (Plan.next Event.beneficiary_validated executed_plan)))

module _ {S : Type 0} (c : WorkerClients S) (x : StartContext) (p : WorkflowStartRequest) where
  blocked-Obeys :
      (workflow_id : String) (task : TaskDetailView) (v : BeneficiaryValidationArtifactContent)
      (a : ArtifactView)
      → Obeys
          (Plan.either
            (Plan.next (Event.task_patched TaskStatus.exception) Plan.stop)
            (Plan.next (Event.task_patched TaskStatus.failed) Plan.stop))
          (blocked (logging c) x p workflow_id task v a)
  unfolding blocked
  blocked-Obeys workflow_id task v a =
      elim (Bool-cases (v.status == BeneficiaryValidationStatus.needs_review)) [
        | inl e ↦ rw e (
            left-Obeys _ _ _ (
              call-Obeys (Event.task_patched TaskStatus.exception) Plan.stop
                (c.patch_task_state task.task_id (
                  start_patch x.app_name v TaskStatus.exception
                    (or_text v.reason "Beneficiary validation failed.")))
                _ λ t. still-Obeys Plan.stop _ (λ s log. refl)))
        | inr e ↦ rw e (
            right-Obeys _ _ _ (
              call-Obeys (Event.task_patched TaskStatus.failed) Plan.stop
                (c.patch_task_state task.task_id (
                  start_patch x.app_name v TaskStatus.failed
                    (or_text v.reason "Beneficiary validation failed.")))
                _ λ t. still-Obeys Plan.stop _ (λ s log. refl)))
      ]

  routed-Obeys :
      (workflow_id : String) (task : TaskDetailView) (v : BeneficiaryValidationArtifactContent)
      (a : ArtifactView) (id : String) (r : DelegationResponseEnvelope)
      (q : ApprovalRequestArtifactContent)
      → Obeys routed_plan (
          routed
            (logging c)
            x
            p
            workflow_id
            task
            v
            a
            id
            (record { status = DelegationStatus.pending; response_envelope = r; payload = q }))
  unfolding routed
  routed-Obeys workflow_id task v a id r q =
      call-Obeys (Event.delegation_updated DelegationStatus.pending) _
        (c.update_delegation id
          (delegation_update approval_router_agent_id DelegationStatus.pending r))
        _
        λ u.
          call-Obeys (Event.artifact_created "approval_request") _
            (c.create_artifact task.task_id (
              evidence "approval_request" approval_router_agent_id
                (ArtifactContent.approval_request q)))
            _
            λ b.
              call-Obeys (Event.task_patched TaskStatus.awaiting_approval) Plan.stop
                (c.patch_task_state task.task_id (
                  start_patch x.app_name v TaskStatus.awaiting_approval
                    "Workflow is waiting for human approval before release."))
                _ λ t. still-Obeys Plan.stop _ (λ s log. refl)

  routing-Obeys :
      (workflow_id : String) (task : TaskDetailView) (v : BeneficiaryValidationArtifactContent)
      (a : ArtifactView) (id : String) (b : CommonMessageEnvelopeBase)
      (q : ApprovalRoutingRequestPayload)
      → Obeys routed_plan (
          continue
            (execute_routing x.routing_response x.approval_token b q)
            (routed (logging c) x p workflow_id task v a id))
  unfolding execute_routing
  routing-Obeys workflow_id task v a id b q =
      if_case
        (λ (e : Result WorkerFault (DelegatedExecutionResult ApprovalRequestArtifactContent)).
          Obeys routed_plan (continue e (routed (logging c) x p workflow_id task v a id)))
        (b.target.target_id == approval_router_agent_id) (routed-Obeys workflow_id task v a id _ _)
        (still-Obeys routed_plan _ (λ s log. refl))

  accepted-Obeys :
      (workflow_id : String) (task : TaskDetailView) (v : BeneficiaryValidationArtifactContent)
      (a : ArtifactView)
      → Obeys
          (Plan.next
            (Event.task_patched TaskStatus.validated)
            (Plan.next Event.delegation_created routed_plan))
          (accepted (logging c) x p workflow_id task v a)
  unfolding accepted
  accepted-Obeys workflow_id task v a =
      call-Obeys (Event.task_patched TaskStatus.validated) _
        (c.patch_task_state task.task_id
          (start_patch x.app_name v TaskStatus.validated "Beneficiary validation completed."))
        _
        λ t.
          call-Obeys Event.delegation_created routed_plan
            (c.create_delegation task.task_id (
              delegation_request workflow_id approval_router_agent_id "approval_routing"
                approval_capability_id
                (DelegationRequestEnvelope.approval_routing_request
                  (routing_base c x p workflow_id task) (routing_payload c x p task))))
            _
            λ d.
              routing-Obeys workflow_id task v a d.delegation_id
                (routing_base c x p workflow_id task) (routing_payload c x p task)

  validated-Obeys :
      (workflow_id : String) (task : TaskDetailView) (v : BeneficiaryValidationArtifactContent)
      (a : ArtifactView)
      → Obeys validated_plan (validated (logging c) x p workflow_id task v a)
  unfolding validated
  validated-Obeys workflow_id task v a =
      if_case (Obeys validated_plan) (v.status == BeneficiaryValidationStatus.validated)
        (left-Obeys _ _ _ (accepted-Obeys workflow_id task v a))
        (right-Obeys _ _ _ (blocked-Obeys workflow_id task v a))

  executed-Obeys :
      (workflow_id : String) (task : TaskDetailView) (id : String) (r : DelegationResponseEnvelope)
      (q : BeneficiaryValidationResultPayload)
      → Obeys executed_plan (
          executed
            (logging c)
            x
            p
            workflow_id
            task
            id
            (record { status = DelegationStatus.completed; response_envelope = r; payload = q }))
  unfolding executed
  executed-Obeys workflow_id task id r q =
      call-Obeys (Event.delegation_updated DelegationStatus.completed) _
        (c.update_delegation id
          (delegation_update compliance_agent_id DelegationStatus.completed r))
        _
        λ u.
          call-Obeys (Event.artifact_created "beneficiary_validation_result") validated_plan
            (c.create_artifact task.task_id (
              evidence "beneficiary_validation_result" compliance_agent_id
                (ArtifactContent.beneficiary_validation q.validation_result)))
            _ λ a. validated-Obeys workflow_id task q.validation_result a

  validation-Obeys :
      (workflow_id : String) (task : TaskDetailView) (id : String) (b : CommonMessageEnvelopeBase)
      (q : BeneficiaryValidationRequestPayload)
      → Obeys
          (Plan.next Event.beneficiary_validated executed_plan)
          (execute_validation (logging c) x p b q >>= executed (logging c) x p workflow_id task id)
  unfolding execute_validation validation_execution
  validation-Obeys workflow_id task id b q =
      if_case
        (λ (e : Exec (S × List Event) WorkerFault
            (DelegatedExecutionResult BeneficiaryValidationResultPayload)).
          Obeys (Plan.next Event.beneficiary_validated executed_plan)
            (e >>= executed (logging c) x p workflow_id task id))
        (b.target.target_id == compliance_agent_id)
        (same-Obeys _
          (tried (logged Event.beneficiary_validated (c.validate_beneficiary (gateway_request q)))
            >>= λ r. executed (logging c) x p workflow_id task id (validation_execution x b q r))
          _
          (λ s log.
            let checked =
              tried
                (logged Event.beneficiary_validated (c.validate_beneficiary (gateway_request q)))
                (s, log) in
            continue-pure checked.0 (validation_execution x b q)
              (executed (logging c) x p workflow_id task id) checked.1)
          (call-Obeys Event.beneficiary_validated executed_plan
            (c.validate_beneficiary (gateway_request q)) _
            λ r. executed-Obeys workflow_id task id _ _))
        (still-Obeys _ _ (λ s log. refl))

  tasked-Obeys :
      (workflow_id : String) (task : TaskDetailView)
      → Obeys
          (Plan.next Event.delegation_created (Plan.next Event.beneficiary_validated executed_plan))
          (tasked (logging c) x p workflow_id task)
  unfolding tasked
  tasked-Obeys workflow_id task =
      call-Obeys Event.delegation_created _
        (c.create_delegation task.task_id (
          delegation_request workflow_id compliance_agent_id "beneficiary_validation"
            capability_validate_beneficiary
            (DelegationRequestEnvelope.beneficiary_validation_request
              (validation_base c x p workflow_id task) (validation_request c x p task))))
        _
        λ d.
          validation-Obeys workflow_id task d.delegation_id (validation_base c x p workflow_id task)
            (validation_request c x p task)

  -- Whatever its clients do, the calls of a start are made in this order, and may break off at any
  -- point: it creates the instruction, the task and the validation's delegation, validates the
  -- beneficiary, completes the delegation and records the result. Then it sets the task to validated,
  -- creates the approval's delegation, notes it as pending, records the approval request and sets the
  -- task to awaiting_approval; or it sets the task to exception or to failed.
  pub start-Follows :
      (s : S) → Follows start_plan (start_domestic_payment_workflow (logging c) x p (s, [])).1.1
  unfolding start_domestic_payment_workflow Obeys
  start-Follows s =
      let (r, same, f) =
        call-Obeys Event.instruction_created _ (c.create_instruction (instruction_request p))
          (λ i.
            tried ((logging c).create_task (task_request x.app_name p i))
            >>= tasked (logging c) x p (default_workflow_id i.task.task_id))
          (λ i.
            call-Obeys Event.task_created _ (c.create_task (task_request x.app_name p i)) _
              (tasked-Obeys (default_workflow_id i.task.task_id)))
          s [] in
      subst (Follows start_plan) (sym same) f

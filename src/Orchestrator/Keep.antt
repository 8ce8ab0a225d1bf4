-- ===== src/Orchestrator/Keep.antt =====
-- The orchestrator keeps what every operation of its clients keeps
-- (apps/orchestrator-api/src/orchestrator_api/service.py).
use control_architecture.Base.{
  String, Option, none, some, refl, Result, Exec, ◌>>=◌, pure, Keeps, still-Keeps, seq-Keeps,
}
use control_architecture.Contracts.Literals.{PolicyDecisionType}
use control_architecture.Contracts.Tasks.{TaskDetailView, ArtifactCreateRequest}
use control_architecture.Policy.Engine.{
  IntakeDecisionRequest, ReleaseDecisionRequest, PolicyDecisionResponse,
}
use control_architecture.Worker.Service.{WorkflowResumeRequest}
use control_architecture.Worker.Requests.{WorkflowStartRequest}
use control_architecture.Orchestrator.Models.{
  DomesticPaymentIntakeRequest, DomesticPaymentResumeRequest, OrchestratorClients, translated,
  memory_failed, policy_failed, workflow_failed, OrchestrationServiceError,
}
use control_architecture.Orchestrator.Registry.{CapabilityDescriptor}
use control_architecture.Orchestrator.Service.{
  OrchestrationService, intake_capability, intake_decided, create_domestic_payment_task,
  resume_decided, resume_loaded, resume_task, get_task, start_request, intake_response,
  intake_decision_request, release_decision_request, decision_artifact, worker_request, resume_key,
  resume_response,
}

module _ {S : Type 0} (P : S → Type 0) where
  -- Every operation of the clients keeps it.
  pub record ClientsKeep (c : OrchestratorClients S) : Type 0 where
    pub get_task : (id : String) → Keeps P (c.get_task id)
    pub create_artifact :
        (id : String) (q : ArtifactCreateRequest) → Keeps P (c.create_artifact id q)
    pub evaluate_intake : (q : IntakeDecisionRequest) → Keeps P (c.evaluate_intake q)
    pub evaluate_release : (q : ReleaseDecisionRequest) → Keeps P (c.evaluate_release q)
    pub start_workflow : (q : WorkflowStartRequest) → Keeps P (c.start_workflow q)
    pub resume_workflow :
        (id : String) (q : WorkflowResumeRequest) → Keeps P (c.resume_workflow id q)

  pure-Keeps : {A : Type 0} (a : A) → Keeps P (pure {S = S} {E = OrchestrationServiceError} a)
  pure-Keeps a = still-Keeps P _ (λ s. refl)

  translated-Keeps :
      {E : Type 0} {F : Type 0} {A : Type 0} (f : Result E A → Result F A) (m : Exec S E A)
      → Keeps P m
      → Keeps P (translated f m)
  unfolding Keeps
  translated-Keeps f m h s p = h s p

  -- A call of a client, and then a computation.
  call-Keeps :
      {E : Type 0} {F : Type 0} {A : Type 0} {B : Type 0} (g : Result E A → Result F A)
      (m : Exec S E A) (f : A → Exec S F B)
      → Keeps P m
      → ((a : A) → Keeps P (f a))
      → Keeps P (translated g m >>= f)
  call-Keeps g m f h k = seq-Keeps P (translated g m) f (translated-Keeps g m h) k

  module _ (c : OrchestratorClients S) (k : ClientsKeep c) (o : OrchestrationService) where
    capability-Keeps :
        (p : DomesticPaymentIntakeRequest) (d : PolicyDecisionResponse)
        (x : Option CapabilityDescriptor)
        → Keeps P (intake_capability c o p d x)
    unfolding intake_capability
    capability-Keeps p d none = still-Keeps P _ (λ s. refl)
    capability-Keeps p d (some x) =
        call-Keeps workflow_failed _ _ (k.start_workflow (start_request c o p d))
          (λ r. pure-Keeps (intake_response c o d r))

    intake_decided-Keeps :
        (p : DomesticPaymentIntakeRequest) (d : PolicyDecisionResponse) (t : PolicyDecisionType)
        → Keeps P (intake_decided c o p d t)
    unfolding intake_decided
    intake_decided-Keeps p d PolicyDecisionType.deny = still-Keeps P _ (λ s. refl)
    intake_decided-Keeps p d PolicyDecisionType.allow = capability-Keeps p d _
    intake_decided-Keeps p d PolicyDecisionType.escalate = capability-Keeps p d _
    intake_decided-Keeps p d PolicyDecisionType.simulate = capability-Keeps p d _

    pub intake-Keeps :
        (p : DomesticPaymentIntakeRequest) → Keeps P (create_domestic_payment_task c o p)
    unfolding create_domestic_payment_task
    intake-Keeps p =
        call-Keeps policy_failed _ _ (k.evaluate_intake (intake_decision_request p))
          (λ d. intake_decided-Keeps p d d.decision)

    module _ (id : String) (p : DomesticPaymentResumeRequest) where
      resume_decided-Keeps :
          (d : PolicyDecisionResponse) (t : PolicyDecisionType)
          → Keeps P (resume_decided c o id p d t)
      unfolding resume_decided
      resume_decided-Keeps d PolicyDecisionType.deny = still-Keeps P _ (λ s. refl)
      resume_decided-Keeps d PolicyDecisionType.escalate = still-Keeps P _ (λ s. refl)
      resume_decided-Keeps d PolicyDecisionType.simulate = still-Keeps P _ (λ s. refl)
      resume_decided-Keeps d PolicyDecisionType.allow =
          call-Keeps memory_failed _ _ (k.create_artifact id (decision_artifact o d)) λ a.
            call-Keeps workflow_failed _ _
              (k.resume_workflow id (worker_request p (resume_key o id p)))
              (λ r. pure-Keeps (resume_response r))

      loaded-Keeps : (task : TaskDetailView) → Keeps P (resume_loaded c o id p task)
      unfolding resume_loaded
      loaded-Keeps task =
          call-Keeps policy_failed _ _
            (k.evaluate_release (release_decision_request task p (resume_key o id p)))
            (λ d. resume_decided-Keeps d d.decision)

      pub resume-Keeps : Keeps P (resume_task c o id p)
      unfolding resume_task
      resume-Keeps = call-Keeps memory_failed _ _ (k.get_task id) loaded-Keeps

    pub get_task-Keeps : (id : String) → Keeps P (get_task c o id)
    unfolding get_task
    get_task-Keeps id = translated-Keeps memory_failed _ (k.get_task id)

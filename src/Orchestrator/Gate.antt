-- ===== src/Orchestrator/Gate.antt =====
-- What has to hold before the orchestrator calls the worker
-- (apps/orchestrator-api/src/orchestrator_api/service.py).
use control_architecture.Base.{
  String, true, Option, none, some, [], ◌∷◌, ◌≡◌, ◌≢◌, refl, Result, ok, err, continue,
}
use control_architecture.Contracts.Literals.{PolicyDecisionType}
use control_architecture.Contracts.Tasks.{TaskDetailView, ArtifactView}
use control_architecture.Policy.Engine.{PolicyDecisionResponse}
use control_architecture.Orchestrator.Models.{
  DomesticPaymentIntakeRequest, DomesticPaymentResumeRequest, PolicyEngineError,
  OrchestratorClients, policy_failed,
}
use control_architecture.Orchestrator.Registry.{CapabilityDescriptor, get_capability}
use control_architecture.Orchestrator.Service.{
  OrchestrationService, intake_decision_request, release_decision_request, decision_artifact,
  resume_key, intake_capability, intake_decided, create_domestic_payment_task,
}
use control_architecture.Orchestrator.Trace.{Event, logging, reached_worker}

module _ {S : Type 0} (c : OrchestratorClients S) (o : OrchestrationService) where
  -- The policy has allowed the release of the task that was loaded, and its decision is recorded.
  pub record IsReleaseAllowed (id : String) (p : DomesticPaymentResumeRequest) (s : S)
      : Type 0 where
    pub task : TaskDetailView
    pub decision : PolicyDecisionResponse
    pub artifact : ArtifactView
    pub loaded : (c.get_task id s).0 ≡ ok task
    pub evaluated :
        (c.evaluate_release
          (release_decision_request task p (resume_key o id p))
          (c.get_task id s).1).0
        ≡ ok decision
    pub allowed : decision.decision ≡ PolicyDecisionType.allow
    pub recorded :
        (c.create_artifact id
          (decision_artifact o decision)
          (c.evaluate_release
            (release_decision_request task p (resume_key o id p))
            (c.get_task id s).1).1).0
        ≡ ok artifact

  module _ (p : DomesticPaymentIntakeRequest) where
    capability_gate :
        (d : PolicyDecisionResponse) (k : Option CapabilityDescriptor) (s : S)
        → reached_worker
            (intake_capability (logging c) o p d k (s, Event.intake_evaluated ∷ [])).1.1
          ≡ true
        → k ≢ none
    unfolding intake_capability reached_worker
    capability_gate d none s h = cc h
    capability_gate d (some k) s h = λ e. cc e

    intake_decided_gate :
        (d : PolicyDecisionResponse) (t : PolicyDecisionType) (s : S)
        → reached_worker (intake_decided (logging c) o p d t (s, Event.intake_evaluated ∷ [])).1.1
          ≡ true
        → (t ≢ PolicyDecisionType.deny)
          × (get_capability d.recommended_next_capability o.snapshot ≢ none)
    unfolding intake_decided reached_worker
    intake_decided_gate d PolicyDecisionType.deny s h = cc h
    intake_decided_gate d PolicyDecisionType.allow s h = (λ e. cc e, capability_gate d _ s h)
    intake_decided_gate d PolicyDecisionType.escalate s h = (λ e. cc e, capability_gate d _ s h)
    intake_decided_gate d PolicyDecisionType.simulate s h = (λ e. cc e, capability_gate d _ s h)

    intake_evaluated_gate :
        (r : Result PolicyEngineError PolicyDecisionResponse) (s : S)
        → reached_worker
            (continue
              (policy_failed r)
              (λ d. intake_decided (logging c) o p d d.decision)
              (s, Event.intake_evaluated ∷ [])).1.1
          ≡ true
        → (d : PolicyDecisionResponse) × (r ≡ ok d)
          × (d.decision ≢ PolicyDecisionType.deny)
          × (get_capability d.recommended_next_capability o.snapshot ≢ none)
    unfolding reached_worker
    intake_evaluated_gate (ok d) s h =
        let (ne, known) = intake_decided_gate d d.decision s h in (d, refl, ne, known)
    intake_evaluated_gate (err e) s h = cc h

    -- Whatever its clients do, an intake calls the worker only if the policy engine has answered with
    -- a decision that is no denial, and the capability that it recommends is in the registry.
    pub intake_gated :
        (s : S)
        → reached_worker (create_domestic_payment_task (logging c) o p (s, [])).1.1 ≡ true
        → (d : PolicyDecisionResponse) × ((c.evaluate_intake (intake_decision_request p) s).0
            ≡ ok d)
          × (d.decision ≢ PolicyDecisionType.deny)
          × (get_capability d.recommended_next_capability o.snapshot ≢ none)
    unfolding create_domestic_payment_task
    intake_gated s h =
        let q = c.evaluate_intake (intake_decision_request p) s in intake_evaluated_gate q.0 q.1 h

-- ===== src/Orchestrator/Sent.antt =====
-- What a resume sends to the policy engine and to the worker
-- (apps/orchestrator-api/src/orchestrator_api/service.py, resume_task).
use control_architecture.Base.{
  String, Option, none, some, List, [], ◌∷◌, ◌++◌, ◌≡◌, ◌≢◌, ◌⊎◌, inl, inr, refl, arith, Result, ok,
  err, continue, ◌>>=◌, pure, or_text, has_code, format-ne-empty, string_eq,
}
use control_architecture.Contracts.Literals.{PolicyDecisionType}
use control_architecture.Contracts.Tasks.{TaskDetailView, ArtifactView}
use control_architecture.Policy.Engine.{ReleaseDecisionRequest, PolicyDecisionResponse}
use control_architecture.Worker.Service.{
  WorkflowResumeRequest, WorkflowExecutionResponse, default_idempotency_key, prefix_of,
}
use control_architecture.Worker.Resume.{Worker, release_request}
use control_architecture.Orchestrator.Models.{
  DomesticPaymentResumeRequest, DomesticPaymentResumeResponse, OrchestratorClients,
  MemoryServiceError, PolicyEngineError, OrchestrationServiceError, memory_failed, policy_failed,
  workflow_failed, translated,
}
use control_architecture.Orchestrator.Service.{
  OrchestrationService, resume_key, worker_request, resume_response, release_decision_request,
  resume_decided, resume_loaded, resume_task,
}

-- The release requests that the policy engine was sent, and the resumes that the worker was sent.
pub record Sent : Type 0 where
  pub evaluated : List ReleaseDecisionRequest
  pub resumed : List (String × WorkflowResumeRequest)

abbrev pub nothing_sent : Sent
nothing_sent = record { evaluated = []; resumed = [] }

-- Clients that record what they are sent, whatever comes of it.
abbrev pub recording : {S : Type 0} → OrchestratorClients S → OrchestratorClients (S × Sent)
recording c = record {
  get_task = λ id (s, k). let (r, s') = c.get_task id s in (r, (s', k));
  create_artifact = λ id q (s, k). let (r, s') = c.create_artifact id q s in (r, (s', k));
  evaluate_intake = λ q (s, k). let (r, s') = c.evaluate_intake q s in (r, (s', k));
  evaluate_release = λ q (s, k).
      let (r, s') = c.evaluate_release q s in
      (r, (s', record k { evaluated = k.evaluated ++ q ∷ [] }));
  start_workflow = λ q (s, k). let (r, s') = c.start_workflow q s in (r, (s', k));
  resume_workflow = λ id q (s, k).
      let (r, s') = c.resume_workflow id q s in
      (r, (s', record k { resumed = k.resumed ++ (id, q) ∷ [] }));
}

default_key-named :
    (sha256 : String → String) (id : String) → default_idempotency_key sha256 id ≢ ""
default_key-named sha256 id =
    format-ne-empty "release-" (prefix_of 16 (sha256 id) ∷ []) (has_code "release-" refl)

or_text-named : (o : Option String) (s : String) → s ≢ "" → or_text o s ≢ ""
or_text-named none s h = h
or_text-named (some x) s h = ground (arith, h)

-- A release that the worker sends to the gateway is the one that the policy has evaluated.
pub record IsSameRelease (w : Worker) (id : String) (task : TaskDetailView)
    (q : ReleaseDecisionRequest) (r : WorkflowResumeRequest) : Type 0 where
  pub key : (release_request w id task r).idempotency_key ≡ q.request.idempotency_key
  pub named : q.request.idempotency_key ≢ ""
  pub mode : (release_request w id task r).release_mode ≡ q.request.release_mode
  pub approver : (release_request w id task r).released_by ≡ q.request.approved_by
  pub payment : (release_request w id task r).payment_id ≡ q.payment.payment_id

module _ {S : Type 0} (w : Worker) (c : OrchestratorClients S) (o : OrchestrationService)
    (id : String) (p : DomesticPaymentResumeRequest) where
  sent-IsSameRelease :
      (task : TaskDetailView)
      → let key = resume_key o id p in
        IsSameRelease w id task (release_decision_request task p key) (worker_request p key)
  sent-IsSameRelease task =
      let named = or_text-named p.idempotency_key _ (default_key-named o.sha256 id) in
      record {
        key = ground (arith, named);
        named = named;
        mode = refl;
        approver = refl;
        payment = refl;
      }

  abbrev Outcome : Type 0
  Outcome = Result OrchestrationServiceError DomesticPaymentResumeResponse × (S × Sent)

  -- The resume has raised before the worker was sent anything.
  abbrev pub IsHalted : Outcome → Type 0
  IsHalted (x, (s, k)) = (k.resumed ≡ []) × (e : OrchestrationServiceError) × (x ≡ err e)

  -- It has, or the worker was sent one resume for the release that was evaluated.
  IsFaithful : TaskDetailView → Outcome → Type 0
  IsFaithful task (x, (s, k)) =
      IsHalted (x, (s, k))
      ⊎ ((q : ReleaseDecisionRequest) × (r : WorkflowResumeRequest) × (k.evaluated ≡ q ∷ [])
          × (k.resumed ≡ (id, r) ∷ [])
          × IsSameRelease w id task q r)

  module _ (task : TaskDetailView) where
    answered :
        (r : Result OrchestrationServiceError WorkflowExecutionResponse) (s : S) (k : Sent)
        (q : ReleaseDecisionRequest) (m : WorkflowResumeRequest)
        → k.evaluated ≡ q ∷ []
        → k.resumed ≡ (id, m) ∷ []
        → IsSameRelease w id task q m
        → IsFaithful task (continue {S = S × Sent} r (λ x. pure (resume_response x)) (s, k))
    unfolding IsFaithful
    answered (ok x) s k q m e f h = inr (q, m, e, f, h)
    answered (err x) s k q m e f h = inr (q, m, e, f, h)

    recorded :
        (r : Result MemoryServiceError ArtifactView) (s : S)
        → IsFaithful task (
            continue
              (memory_failed r)
              (λ a.
                translated workflow_failed
                  ((recording c).resume_workflow id (worker_request p (resume_key o id p)))
                >>= λ x. pure (resume_response x))
              (
                s,
                record {
                  evaluated = release_decision_request task p (resume_key o id p) ∷ [];
                  resumed = [];
                },
              ))
    unfolding IsFaithful
    recorded (ok a) s =
        answered (workflow_failed (c.resume_workflow id (worker_request p (resume_key o id p)) s).0)
          _ _ _ _ refl refl (sent-IsSameRelease task)
    recorded (err e) s = inl (refl, _, refl)

    decided :
        (d : PolicyDecisionResponse) (t : PolicyDecisionType) (s : S)
        → IsFaithful task (
            resume_decided (recording c) o id p d t (
              s,
              record {
                evaluated = release_decision_request task p (resume_key o id p) ∷ [];
                resumed = [];
              },
            ))
    unfolding resume_decided IsFaithful
    decided d PolicyDecisionType.deny s = inl (refl, _, refl)
    decided d PolicyDecisionType.escalate s = inl (refl, _, refl)
    decided d PolicyDecisionType.simulate s = inl (refl, _, refl)
    decided d PolicyDecisionType.allow s = recorded _ _

    evaluated_one :
        (r : Result PolicyEngineError PolicyDecisionResponse) (s : S)
        → IsFaithful task (
            continue
              (policy_failed r)
              (λ d. resume_decided (recording c) o id p d d.decision)
              (
                s,
                record {
                  evaluated = release_decision_request task p (resume_key o id p) ∷ [];
                  resumed = [];
                },
              ))
    unfolding IsFaithful
    evaluated_one (ok d) s = decided d d.decision s
    evaluated_one (err e) s = inl (refl, _, refl)

  loaded_one :
      (r : Result MemoryServiceError TaskDetailView) (s : S)
      → let x = continue (memory_failed r) (resume_loaded (recording c) o id p) (s, nothing_sent) in
        IsHalted x ⊎ ((task : TaskDetailView) × (r ≡ ok task) × IsFaithful task x)
  unfolding resume_loaded
  loaded_one (ok task) s = inr (task, refl, evaluated_one task _ _)
  loaded_one (err e) s = inl (refl, _, refl)

  -- Whatever its clients do, a resume raises before it sends the worker anything, or it has loaded a
  -- task and sends the worker one request, after one release request to the policy engine. The release
  -- that the worker makes of its request, with whatever digest, has the idempotency key that the policy
  -- engine was sent, which is not empty, and the same mode, approver and payment.
  pub resume_sends :
      (s : S)
      → let x = resume_task (recording c) o id p (s, nothing_sent) in
        IsHalted x
        ⊎ ((task : TaskDetailView) × (q : ReleaseDecisionRequest) × (r : WorkflowResumeRequest)
            × ((c.get_task id s).0 ≡ ok task)
            × (x.1.1.evaluated ≡ q ∷ [])
            × (x.1.1.resumed ≡ (id, r) ∷ [])
            × IsSameRelease w id task q r)
  unfolding resume_task IsFaithful
  resume_sends s = elim (loaded_one (c.get_task id s).0 (c.get_task id s).1) [
    | inl halted ↦ inl halted
    | inr (task, loaded, inl halted) ↦ inl halted
    | inr (task, loaded, inr (q, r, e, f, same)) ↦ inr (task, q, r, loaded, e, f, same)
  ]

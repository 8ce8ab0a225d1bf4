-- ===== src/Worker/Trace.antt =====
-- The calls that a resume makes, in their order (services/workflow-worker/src/workflow_worker/
-- service.py, resume_domestic_payment_workflow).
use control_architecture.Base.{
  String, List, [], ◌∷◌, ◌++◌, ◌≡◌, refl, sym, ◌∙◌, Result, ok, err, Exec, pure, ap, continue,
  ◌>>=◌,
}
use mathlib.Core.List.{append_assoc, append-nil}
use control_architecture.Contracts.Literals.{TaskStatus, DelegationStatus, task_status_eq}
use control_architecture.Worker.Service.{ClientFault, WorkerFault, caught, WorkerClients}
use control_architecture.Worker.Resume.{tried}

-- A call of a client, as far as the order of the calls goes.
pub data Event : Type 0 where
  task_created task_loaded delegation_created : Event
  task_patched : TaskStatus → Event
  artifact_created : String → Event
  delegation_updated : DelegationStatus → Event
  instruction_created beneficiary_validated payment_released : Event

-- A call that is written to the log before it is made, whatever comes of it.
abbrev pub logged :
    {S : Type 0} {A : Type 0} → Event → Exec S ClientFault A → Exec (S × List Event) ClientFault A
logged e m (s, log) = let (r, s') = m s in (r, (s', log ++ e ∷ []))

-- Clients that keep a log of their calls.
abbrev pub logging : {S : Type 0} → WorkerClients S → WorkerClients (S × List Event)
logging c = record {
  create_task = λ q. logged Event.task_created (c.create_task q);
  get_task = λ id. logged Event.task_loaded (c.get_task id);
  patch_task_state = λ id q. logged (Event.task_patched q.status) (c.patch_task_state id q);
  create_artifact =
      λ id q. logged (Event.artifact_created q.artifact_type) (c.create_artifact id q);
  create_delegation = λ id q. logged Event.delegation_created (c.create_delegation id q);
  update_delegation = λ id q. logged (Event.delegation_updated q.status) (c.update_delegation id q);
  create_instruction = λ q. logged Event.instruction_created (c.create_instruction q);
  validate_beneficiary = λ q. logged Event.beneficiary_validated (c.validate_beneficiary q);
  release_payment = λ q. logged Event.payment_released (c.release_payment q);
}

-- What calls may come: none, one and then others, or either of two.
pub data Plan : Type 0 where
  stop : Plan
  next : Event → Plan → Plan
  either : Plan → Plan → Plan

-- The calls follow the plan, and may break off.
pub data Follows : Plan → List Event → Type 0 where
  broken : (p : Plan) → Follows p []
  stepped : (e : Event) (p : Plan) (r : List Event) → Follows p r → Follows (Plan.next e p) (e ∷ r)
  left : (p q : Plan) (r : List Event) → Follows p r → Follows (Plan.either p q) r
  right : (p q : Plan) (r : List Event) → Follows q r → Follows (Plan.either p q) r

-- A computation appends calls to the log that follow the plan.
unfoldable pub Obeys :
    {S : Type 0} {A : Type 0} → Plan → Exec (S × List Event) WorkerFault A → Type 0
Obeys {S = S} p m =
    (s : S) (log : List Event) → (r : List Event) × ((m (s, log)).1.1 ≡ log ++ r) × Follows p r

module _ {S : Type 0} {A : Type 0} where
  -- A computation that makes no call.
  pub still-Obeys :
      (p : Plan) (m : Exec (S × List Event) WorkerFault A)
      → ((s : S) (log : List Event) → (m (s, log)).1.1 ≡ log)
      → Obeys p m
  unfolding Obeys
  still-Obeys p m h s log = ([], h s log ∙ sym (append-nil log), Follows.broken p)

  pub left-Obeys :
      (p q : Plan) (m : Exec (S × List Event) WorkerFault A) → Obeys p m → Obeys (Plan.either p q) m
  unfolding Obeys
  left-Obeys p q m h s log = let (r, e, f) = h s log in (r, e, Follows.left p q r f)

  pub right-Obeys :
      (p q : Plan) (m : Exec (S × List Event) WorkerFault A) → Obeys q m → Obeys (Plan.either p q) m
  unfolding Obeys
  right-Obeys p q m h s log = let (r, e, f) = h s log in (r, e, Follows.right p q r f)

  continue-Obeys :
      {B : Type 0} (x : Result ClientFault B) (p : Plan)
      (f : B → Exec (S × List Event) WorkerFault A)
      → ((b : B) → Obeys p (f b))
      → (s : S) (log : List Event)
      → (r : List Event) × ((continue (caught x) f (s, log)).1.1 ≡ log ++ r) × Follows p r
  unfolding Obeys
  continue-Obeys (ok b) p f h s log = h b s log
  continue-Obeys (err e) p f h s log = ([], sym (append-nil log), Follows.broken p)

  -- A logged call, and then a computation that follows the rest of the plan.
  pub call-Obeys :
      {B : Type 0} (e : Event) (p : Plan) (m : Exec S ClientFault B)
      (f : B → Exec (S × List Event) WorkerFault A)
      → ((b : B) → Obeys p (f b))
      → Obeys (Plan.next e p) (tried (logged e m) >>= f)
  unfolding Obeys
  call-Obeys e p m f h s log =
      let (r, same, k) = continue-Obeys (m s).0 p f h (m s).1 (log ++ e ∷ []) in
      (e ∷ r, same ∙ append_assoc log (e ∷ []) r, Follows.stepped e p r k)

  -- Two computations that agree.
  pub same-Obeys :
      (p : Plan) (m n : Exec (S × List Event) WorkerFault A)
      → ((s : S) (log : List Event) → n (s, log) ≡ m (s, log))
      → Obeys p m
      → Obeys p n
  unfolding Obeys
  same-Obeys p m n e h s log =
      let (r, same, f) = h s log in (r, ap (λ o. o.1.1) (e s log) ∙ same, f)

-- A computation whose result is only changed, and then another.
pub continue-pure :
    {S : Type 0} {A : Type 0} {B : Type 0} {C : Type 0} (r : Result WorkerFault A) (g : A → B)
    (f : B → Exec S WorkerFault C) (s : S)
    → continue (continue r (λ a. pure (g a)) s).0 f (continue r (λ a. pure (g a)) s).1
      ≡ continue r (λ a. f (g a)) s
continue-pure (ok a) g f s = refl
continue-pure (err e) g f s = refl

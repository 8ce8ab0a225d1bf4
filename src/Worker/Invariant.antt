-- ===== src/Worker/Invariant.antt =====
-- A property of the state that every operation of the clients keeps
-- (services/workflow-worker/src/workflow_worker/service.py): the rules by which a computation keeps
-- it.
use control_architecture.Base.{String, Exec, ◌>>=◌, Keeps, seq-Keeps}
use control_architecture.Contracts.Tasks.{
  ArtifactCreateRequest, DelegatedWorkCreateRequest, DelegatedWorkUpdateRequest,
}
use control_architecture.Context.Models.{TaskCreateRequest, TaskStatePatchRequest}
use control_architecture.Gateway.Types.{
  DomesticPaymentInstructionRequest, BeneficiaryValidationRequest, ReleaseApprovedPaymentRequest,
}
use control_architecture.Worker.Service.{ClientFault, WorkerFault, WorkerClients}
use control_architecture.Worker.Resume.{tried}

module _ {S : Type 0} (P : S → Type 0) where
  -- Every operation of the clients keeps it.
  pub record ClientsKeep (c : WorkerClients S) : Type 0 where
    pub create_task : (q : TaskCreateRequest) → Keeps P (c.create_task q)
    pub get_task : (id : String) → Keeps P (c.get_task id)
    pub patch_task_state :
        (id : String) (q : TaskStatePatchRequest) → Keeps P (c.patch_task_state id q)
    pub create_artifact :
        (id : String) (q : ArtifactCreateRequest) → Keeps P (c.create_artifact id q)
    pub create_delegation :
        (id : String) (q : DelegatedWorkCreateRequest) → Keeps P (c.create_delegation id q)
    pub update_delegation :
        (id : String) (q : DelegatedWorkUpdateRequest) → Keeps P (c.update_delegation id q)
    pub create_instruction :
        (q : DomesticPaymentInstructionRequest) → Keeps P (c.create_instruction q)
    pub validate_beneficiary :
        (q : BeneficiaryValidationRequest) → Keeps P (c.validate_beneficiary q)
    pub release_payment : (q : ReleaseApprovedPaymentRequest) → Keeps P (c.release_payment q)

  -- A call of a client in a `try`.
  pub tried-Keeps : {A : Type 0} (m : Exec S ClientFault A) → Keeps P m → Keeps P (tried m)
  unfolding Keeps
  tried-Keeps m h s p = h s p

  -- A call of a client, and then a computation.
  pub call-Keeps :
      {A : Type 0} {B : Type 0} (m : Exec S ClientFault A) (f : A → Exec S WorkerFault B)
      → Keeps P m
      → ((a : A) → Keeps P (f a))
      → Keeps P (tried m >>= f)
  call-Keeps m f h k = seq-Keeps P (tried m) f (tried-Keeps m h) k

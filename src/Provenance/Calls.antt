-- ===== src/Provenance/Calls.antt =====
-- Sequences of operations on the provenance database (services/provenance-service/src/
-- provenance_service/repository.py).
use control_architecture.Base.{String, List, [], ◌∷◌}
use control_architecture.Contracts.Envelopes.{Time}
use control_architecture.Contracts.Tasks.{
  ArtifactCreateRequest, DelegatedWorkCreateRequest, DelegatedWorkUpdateRequest,
}
use control_architecture.Provenance.Models.{
  ProvenanceDatabase, ProvenanceRecordCreateRequest, TaskStateTransitionCreateRequest,
}
use control_architecture.Provenance.Repository.{create_task_provenance, add_state_transition}
use control_architecture.Provenance.Evidence.{add_artifact, create_delegation, update_delegation}

-- The operations that write, with the time and the random part that they meet.
pub data Operation : Type 0 where
  create : Time → String → ProvenanceRecordCreateRequest → Operation
  transition : Time → String → TaskStateTransitionCreateRequest → Operation
  artifact : Time → String → ArtifactCreateRequest → Operation
  delegate : Time → String → String → DelegatedWorkCreateRequest → Operation
  update : Time → String → DelegatedWorkUpdateRequest → Operation

unfoldable pub step : Operation → ProvenanceDatabase → ProvenanceDatabase
step (Operation.create now id p) d = (create_task_provenance now id p d).1
step (Operation.transition now id p) d = (add_state_transition now id p d).1
step (Operation.artifact now id p) d = (add_artifact now id p d).1
step (Operation.delegate now token id p) d = (create_delegation now token id p d).1
step (Operation.update now id p) d = (update_delegation now id p d).1

unfoldable pub run : List Operation → ProvenanceDatabase → ProvenanceDatabase
run [] d = d
run (o ∷ r) d = run r (step o d)

-- What every operation keeps holds after any operations.
pub run_induction {ℓ} :
    (P : ProvenanceDatabase → Type ℓ)
    → ((o : Operation) (d : ProvenanceDatabase) → P d → P (step o d))
    → (ops : List Operation) (d : ProvenanceDatabase) → P d
    → P (run ops d)
unfolding run
run_induction P keep [] d h = h
run_induction P keep (o ∷ r) d h = run_induction P keep r (step o d) (keep o d h)

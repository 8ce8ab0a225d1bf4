-- ===== src/Provenance/Origin.antt =====
-- Provenance records over sequences of operations (services/provenance-service/src/
-- provenance_service/repository.py, create_task_provenance).
use control_architecture.Base.{
  String, Bool, true, false, Option, none, some, List, [], ◌∷◌, ◌++◌, ◌≡◌, refl, ◌∙◌, arith,
  Bool-cases, Option-cases, inl, inr, ap, if_case, find, find-append, find-update, or_else,
  if◌then◌else◌, string_eq,
}
use control_architecture.Contracts.Envelopes.{Time}
use control_architecture.Contracts.Tasks.{
  ArtifactCreateRequest, DelegatedWorkCreateRequest, DelegatedWorkUpdateRequest,
}
use control_architecture.Provenance.Models.{
  DelegatedWorkItem, TaskProvenance, TaskStateTransition, ProvenanceDatabase,
  ProvenanceRecordCreateRequest, TaskStateTransitionCreateRequest,
}
use control_architecture.Provenance.Repository.{
  create_task_provenance, provenance_lookup, get_task_provenance, add_state_transition,
  transition_existing, transition_task, existing_transition, source_taken, has_task, new_provenance,
  updated_by, touch, get_delegation, Outcome,
}
use control_architecture.Provenance.Evidence.{
  add_artifact, artifact_task, create_delegation, delegation_task, update_delegation,
  delegation_found,
}
use control_architecture.Provenance.Calls.{Operation, step, run}

-- What a provenance record keeps for good.
pub record SameOrigin (t u : TaskProvenance) : Type 0 where
  pub same_task : u.task_id ≡ t.task_id
  pub same_initiator : u.initiated_by ≡ t.initiated_by
  pub same_policy_context : u.policy_context_id ≡ t.policy_context_id
  pub same_trace : u.trace_id ≡ t.trace_id
  pub same_creation : u.created_at ≡ t.created_at

-- The record of a task is there, with the origin of `t`.
record Kept (id : String) (t : TaskProvenance) (d : ProvenanceDatabase) : Type 0 where
  current : TaskProvenance
  found : get_task_provenance id d ≡ some current
  origin : SameOrigin t current

-- What an operation does to the provenance records: nothing, or it appends one, or it notes who
-- changed one last.
data Records (d d' : ProvenanceDatabase) : Type 0 where
  kept : d'.provenance ≡ d.provenance → Records d d'
  added : (t : TaskProvenance) → d'.provenance ≡ d.provenance ++ t ∷ [] → Records d d'
  touched :
      (now : Time) (id name : String)
      → d'.provenance ≡ touch now id name d.provenance
      → Records d d'

transition-Records :
    (now : Time) (id : String) (p : TaskStateTransitionCreateRequest)
    (o : Option TaskStateTransition) (d : ProvenanceDatabase)
    → Records d (transition_existing now id p o d).1
unfolding transition_existing transition_task
transition-Records now id p (some t) d = Records.kept refl
transition-Records now id p none d = elim (Option-cases (get_task_provenance id d)) [
  | inl e ↦ Records.kept (ground arith)
  | inr (t, e) ↦ elim (Bool-cases (source_taken p.source_event_id d)) [
    | inl taken ↦ Records.kept (ground arith)
    | inr free ↦ Records.touched now id p.changed_by (rw e (rw free refl))
  ]
]

delegation-Records :
    (now : Time) (token id : String) (p : DelegatedWorkCreateRequest) (o : Option TaskProvenance)
    (d : ProvenanceDatabase)
    → Records d (delegation_task now token id p o d).1
unfolding delegation_task
delegation-Records now token id p none d = Records.kept refl
delegation-Records now token id p (some t) d =
    if_case (λ (out : Outcome DelegatedWorkItem). Records d out.1) _ (Records.kept refl)
      (Records.touched now id p.parent_agent_id refl)

artifact-Records :
    (now : Time) (id : String) (p : ArtifactCreateRequest) (o : Option TaskProvenance)
    (d : ProvenanceDatabase)
    → Records d (artifact_task now id p o d).1
unfolding artifact_task
artifact-Records now id p none d = Records.kept refl
artifact-Records now id p (some t) d = Records.touched now id p.created_by refl

update-Records :
    (now : Time) (id : String) (p : DelegatedWorkUpdateRequest) (o : Option DelegatedWorkItem)
    (d : ProvenanceDatabase)
    → Records d (delegation_found now id p o d).1
unfolding delegation_found
update-Records now id p none d = Records.kept refl
update-Records now id p (some w) d = Records.touched now w.task_id p.updated_by refl

create-Records :
    (now : Time) (id : String) (p : ProvenanceRecordCreateRequest) (o : Option TaskProvenance)
    (d : ProvenanceDatabase)
    → Records d (provenance_lookup now id p o d).1
unfolding provenance_lookup
create-Records now id p none d = Records.added (new_provenance now id p) refl
create-Records now id p (some t) d = Records.kept refl

step-Records : (o : Operation) (d : ProvenanceDatabase) → Records d (step o d)
unfolding step create_task_provenance add_state_transition add_artifact create_delegation
    update_delegation
step-Records (Operation.create now id p) d = create-Records now id p (get_task_provenance id d) d
step-Records (Operation.transition now id p) d =
    transition-Records now id p (existing_transition p.source_event_id d) d
step-Records (Operation.artifact now id p) d =
    artifact-Records now id p (get_task_provenance id d) d
step-Records (Operation.delegate now token id p) d =
    delegation-Records now token id p (get_task_provenance id d) d
step-Records (Operation.update now id p) d = update-Records now id p (get_delegation id d) d

touched_origin :
    (b : Bool) (now : Time) (name : String) (t u : TaskProvenance)
    → SameOrigin t u
    → SameOrigin t (if b then updated_by now name u else u)
touched_origin true now name t u o = record {
  same_task = o.same_task;
  same_initiator = o.same_initiator;
  same_policy_context = o.same_policy_context;
  same_trace = o.same_trace;
  same_creation = o.same_creation;
}
touched_origin false now name t u o = o

step-Kept :
    (o : Operation) (id : String) (t : TaskProvenance) (d : ProvenanceDatabase)
    → Kept id t d
    → Kept id t (step o d)
unfolding get_task_provenance
step-Kept o id t d k = elim (step-Records o d) [
  | Records.kept e ↦ record {
    current = k.current;
    found = ap (find (has_task id)) e ∙ k.found;
    origin = k.origin;
  }
  | Records.added n e ↦ record {
    current = k.current;
    found =
        ap (find (has_task id)) e
        ∙ find-append (has_task id) d.provenance (n ∷ [])
        ∙ ap (λ o. or_else o (find (has_task id) (n ∷ []))) k.found;
    origin = k.origin;
  }
  | Records.touched now j name e ↦ record {
    current = if has_task j k.current then updated_by now name k.current else k.current;
    found =
        ap (find (has_task id)) e
        ∙ find-update (has_task j) (has_task id) (updated_by now name) d.provenance (λ x. refl)
        ∙ rw k.found refl;
    origin = touched_origin (has_task j k.current) now name t k.current k.origin;
  }
]

-- A task that has a record has one after any operation.
pub record_kept :
    (o : Operation) (id : String) (d : ProvenanceDatabase) (t : TaskProvenance)
    → get_task_provenance id d ≡ some t
    → (u : TaskProvenance) × (get_task_provenance id (step o d) ≡ some u)
record_kept o id d t h =
    let k = step-Kept o id t d (record {
      current = t;
      found = h;
      origin = record {
        same_task = refl;
        same_initiator = refl;
        same_policy_context = refl;
        same_trace = refl;
        same_creation = refl;
      };
    }) in
    (k.current, k.found)

run-Kept :
    (ops : List Operation) (id : String) (t : TaskProvenance) (d : ProvenanceDatabase)
    → Kept id t d
    → Kept id t (run ops d)
unfolding run
run-Kept [] id t d k = k
run-Kept (o ∷ ops) id t d k = run-Kept ops id t (step o d) (step-Kept o id t d k)

-- The record that a task has keeps its origin (who initiated it, its policy context, its trace and
-- its time) through any operations, and a later request to create it, whatever it says, returns the
-- record as it is then and changes nothing.
pub origin_kept :
    (ops : List Operation) (later : Time) (id : String) (q : ProvenanceRecordCreateRequest)
    (d : ProvenanceDatabase) (t : TaskProvenance)
    → get_task_provenance id d ≡ some t
    → (u : TaskProvenance) × (create_task_provenance later id q (run ops d) ≡ (some u, run ops d))
      × SameOrigin t u
unfolding create_task_provenance provenance_lookup
origin_kept ops later id q d t h =
    let k = run-Kept ops id t d (record {
      current = t;
      found = h;
      origin = record {
        same_task = refl;
        same_initiator = refl;
        same_policy_context = refl;
        same_trace = refl;
        same_creation = refl;
      };
    }) in
    (k.current, rw k.found refl, k.origin)

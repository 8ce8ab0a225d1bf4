-- ===== src/Provenance/Api.antt =====
-- The endpoints of the provenance service (services/provenance-service/src/provenance_service/
-- main.py). The health and metadata endpoints only report settings.
use control_architecture.Base.{
  String, Option, none, some, [], ◌∷◌, ◌==◌, string_eq, Result, ok, err, format, map, select,
  order_by,
}
use control_architecture.Contracts.Envelopes.{Time}
use control_architecture.Contracts.Tasks.{
  TaskProvenanceView, TaskStateHistoryEntry, ArtifactView, DelegatedWorkView, TaskRecordsView,
  ArtifactCreateRequest, DelegatedWorkCreateRequest, DelegatedWorkUpdateRequest,
}
use control_architecture.Contracts.Http.{HttpError, server_error}
use control_architecture.Provenance.Models.{
  TaskProvenance, TaskStateTransition, Artifact, DelegatedWorkItem, ProvenanceDatabase,
  ProvenanceRecordCreateRequest, TaskStateTransitionCreateRequest,
}
use control_architecture.Provenance.Repository.{
  ProvenanceFault, create_task_provenance, get_task_provenance, add_state_transition,
  get_delegation,
}
use control_architecture.Provenance.Evidence.{add_artifact, create_delegation, update_delegation}

abbrev pub Response : Type 0 → Type 0
Response A = Result HttpError A × ProvenanceDatabase

abbrev pub no_provenance : String → HttpError
no_provenance id = record {
  status_code = 404;
  detail = some (format ("Task " ∷ id ∷ " provenance was not found." ∷ []));
}

abbrev pub no_delegation : String → HttpError
no_delegation id = record {
  status_code = 404;
  detail = some (format ("Delegation " ∷ id ∷ " was not found." ∷ []));
}

abbrev pub provenance_view : TaskProvenance → TaskProvenanceView
provenance_view t = record {
  task_id = t.task_id;
  initiated_by = some t.initiated_by;
  last_updated_by = some t.last_updated_by;
  policy_context_id = t.policy_context_id;
  trace_id = t.trace_id;
  created_at = some t.created_at;
  updated_at = some t.updated_at;
}

abbrev pub history_entry : TaskStateTransition → TaskStateHistoryEntry
history_entry t = record {
  id = t.id;
  source_event_id = t.source_event_id;
  from_status = t.from_status;
  to_status = t.to_status;
  changed_by = t.changed_by;
  reason = t.reason;
  created_at = t.created_at;
}

abbrev pub artifact_view : Artifact → ArtifactView
artifact_view a = record {
  id = a.id;
  artifact_type = a.artifact_type;
  artifact_ref = a.artifact_ref;
  content = a.content;
  trust_level = a.trust_level;
  created_by = a.created_by;
  created_at = a.created_at;
}

abbrev pub delegation_view : DelegatedWorkItem → DelegatedWorkView
delegation_view w = record {
  delegation_id = w.delegation_id;
  workflow_id = w.workflow_id;
  parent_agent_id = w.parent_agent_id;
  delegated_agent_id = w.delegated_agent_id;
  delegated_action = w.delegated_action;
  capability_id = w.capability_id;
  status = w.status;
  request_envelope = w.request_envelope;
  response_envelope = w.response_envelope;
  created_at = w.created_at;
  updated_at = some w.updated_at;
}

-- The relationships of a record: its rows of each table, ordered by their times.
unfoldable pub records_view : TaskProvenance → ProvenanceDatabase → TaskRecordsView
records_view t d = record {
  provenance = provenance_view t;
  state_history = map history_entry (
      order_by (λ (x : TaskStateTransition). x.created_at)
        (select (λ x. x.task_id == t.task_id) d.state_history));
  artifacts = map artifact_view (
      order_by (λ (x : Artifact). x.created_at) (select (λ x. x.task_id == t.task_id) d.artifacts));
  delegations = map delegation_view (
      order_by (λ (x : DelegatedWorkItem). x.created_at)
        (select (λ x. x.task_id == t.task_id) d.delegations));
}

-- The response to a result that may be missing or an integrity error.
abbrev pub answer :
    {A B : Type 0} → HttpError → (A → B) → Result ProvenanceFault (Option A) → Result HttpError B
answer missing f (ok (some a)) = ok (f a)
answer missing f (ok none) = err missing
answer missing f (err e) = err server_error

-- A record that was just created is there; without one the response would not validate.
unfoldable pub post_task_provenance :
    Time → String → ProvenanceRecordCreateRequest → ProvenanceDatabase → Response TaskProvenanceView
post_task_provenance now id p d =
    let (r, d') = create_task_provenance now id p d in
    (answer server_error provenance_view (ok r), d')

unfoldable pub get_task_records : String → ProvenanceDatabase → Result HttpError TaskRecordsView
unfolding records_view
get_task_records id d =
    answer (no_provenance id) (λ t. records_view t d) (ok (get_task_provenance id d))

unfoldable pub create_state_transition :
    Time
    → String
    → TaskStateTransitionCreateRequest
    → ProvenanceDatabase
    → Response TaskStateHistoryEntry
create_state_transition now id p d =
    let (r, d') = add_state_transition now id p d in (answer (no_provenance id) history_entry r, d')

unfoldable pub create_artifact :
    Time → String → ArtifactCreateRequest → ProvenanceDatabase → Response ArtifactView
create_artifact now id p d =
    let (r, d') = add_artifact now id p d in (answer (no_provenance id) artifact_view (ok r), d')

unfoldable pub post_delegation :
    Time
    → String
    → String
    → DelegatedWorkCreateRequest
    → ProvenanceDatabase
    → Response DelegatedWorkView
post_delegation now token id p d =
    let (r, d') = create_delegation now token id p d in
    (answer (no_provenance id) delegation_view r, d')

unfoldable pub get_delegation_endpoint :
    String → ProvenanceDatabase → Result HttpError DelegatedWorkView
get_delegation_endpoint id d = answer (no_delegation id) delegation_view (ok (get_delegation id d))

unfoldable pub patch_delegation :
    Time → String → DelegatedWorkUpdateRequest → ProvenanceDatabase → Response DelegatedWorkView
patch_delegation now id p d =
    let (r, d') = update_delegation now id p d in
    (answer (no_delegation id) delegation_view (ok r), d')

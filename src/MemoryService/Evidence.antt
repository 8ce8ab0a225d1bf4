-- ===== src/MemoryService/Evidence.antt =====
-- The artifacts and the delegated work of the older memory service
-- (services/memory-service/src/memory_service/repository.py).
use control_architecture.Base.{
  suc, String, Bool, false, Option, none, some, [], ◌∷◌, ◌++◌, ◌==◌, ◌&&◌, if◌then◌else◌, string_eq,
  ok, err, format, find, exists, update, length,
}
use control_architecture.Contracts.Literals.{delegation_status_eq}
use control_architecture.Contracts.Json.{Fields}
use control_architecture.Contracts.Equality.{same_value, same_fields}
use control_architecture.Contracts.Envelopes.{Time}
use control_architecture.Context.Repository.{RepositoryError}
use control_architecture.MemoryService.Models.{
  MemoryTask, MemoryArtifact, MemoryDelegation, MemoryDatabase, MemoryArtifactCreateRequest,
  MemoryDelegationCreateRequest, MemoryDelegationUpdateRequest,
}
use control_architecture.MemoryService.Repository.{
  MemoryOutcome, has_memory_id, get_memory_task, updated_provenance,
}

abbrev same_name : String → Option String → Bool
same_name s none = false
same_name s (some x) = x == s

-- A new provenance dict on the task's row. A row whose columns keep their values is not updated, so
-- its `updated_at` stays.
abbrev pub touched : Time → String → MemoryTask → MemoryTask
touched now name t = record t {
  provenance = updated_provenance name t.provenance;
  updated_at = if same_name name t.provenance.last_updated_by then t.updated_at else now;
}

unfoldable pub new_memory_artifact :
    Time → String → MemoryArtifactCreateRequest → MemoryDatabase → MemoryArtifact
new_memory_artifact now id p d = record {
  id = suc (length d.artifacts);
  task_id = id;
  artifact_type = p.artifact_type;
  artifact_ref = p.artifact_ref;
  content = p.content;
  trust_level = p.trust_level;
  created_by = p.created_by;
  created_at = now;
}

unfoldable pub memory_artifact_task :
    Time
    → String
    → MemoryArtifactCreateRequest
    → Option MemoryTask
    → MemoryDatabase
    → Option MemoryArtifact × MemoryDatabase
unfolding new_memory_artifact
memory_artifact_task now id p none d = (none, d)
memory_artifact_task now id p (some t) d = (
  some (new_memory_artifact now t.task_id p d),
  record d {
    tasks = update (has_memory_id id) (touched now p.created_by) d.tasks;
    artifacts = d.artifacts ++ new_memory_artifact now t.task_id p d ∷ [];
  },
)

unfoldable pub add_memory_artifact :
    Time
    → String
    → MemoryArtifactCreateRequest
    → MemoryDatabase
    → Option MemoryArtifact × MemoryDatabase
unfolding memory_artifact_task
add_memory_artifact now id p d = memory_artifact_task now id p (get_memory_task id d) d

abbrev pub has_memory_delegation : String → MemoryDelegation → Bool
has_memory_delegation id w = w.delegation_id == id

unfoldable pub new_memory_delegation :
    Time → String → String → MemoryDelegationCreateRequest → MemoryDelegation
new_memory_delegation now token id p = record {
  delegation_id = format ("dlg_" ∷ token ∷ []);
  task_id = id;
  workflow_id = p.workflow_id;
  parent_agent_id = p.parent_agent_id;
  delegated_agent_id = p.delegated_agent_id;
  delegated_action = p.delegated_action;
  capability_id = p.capability_id;
  status = p.status;
  request_envelope = p.request_envelope;
  response_envelope = p.response_envelope;
  created_at = now;
  updated_at = now;
}

unfoldable pub memory_delegation_task :
    Time
    → String
    → String
    → MemoryDelegationCreateRequest
    → Option MemoryTask
    → MemoryDatabase
    → MemoryOutcome (Option MemoryDelegation)
unfolding new_memory_delegation
memory_delegation_task now token id p none d = (ok none, d)
memory_delegation_task now token id p (some t) d =
    let w = new_memory_delegation now token t.task_id p in
    if exists (has_memory_delegation w.delegation_id) d.delegations
    then (err RepositoryError.integrity_error, d)
    else (
      ok (some w),
      record d {
        tasks = update (has_memory_id id) (touched now p.parent_agent_id) d.tasks;
        delegations = d.delegations ++ w ∷ [];
      },
    )

unfoldable pub create_memory_delegation :
    Time
    → String
    → String
    → MemoryDelegationCreateRequest
    → MemoryDatabase
    → MemoryOutcome (Option MemoryDelegation)
unfolding memory_delegation_task
create_memory_delegation now token id p d =
    memory_delegation_task now token id p (get_memory_task id d) d

unfoldable pub get_memory_delegation : String → MemoryDatabase → Option MemoryDelegation
get_memory_delegation id d = find (has_memory_delegation id) d.delegations

abbrev same_envelope : Fields → Option Fields → Bool
same_envelope e none = false
same_envelope e (some old) = same_fields e old

-- The columns of a row after an update, and whether they keep their values.
abbrev keeps_row : MemoryDelegationUpdateRequest → MemoryDelegation → Bool
keeps_row p w = elim p.response_envelope [
  | none ↦ w.status == p.status
  | some e ↦ (w.status == p.status) && same_envelope e w.response_envelope
]

unfoldable pub updated_memory_delegation :
    Time → MemoryDelegationUpdateRequest → MemoryDelegation → MemoryDelegation
unfolding same_value
updated_memory_delegation now p w = record w {
  status = p.status;
  response_envelope = elim p.response_envelope [ none ↦ w.response_envelope | some e ↦ some e ];
  updated_at = if keeps_row p w then w.updated_at else now;
}

-- The update of the work that was found, and of its task, where there is one.
unfoldable pub memory_delegation_found :
    Time
    → String
    → MemoryDelegationUpdateRequest
    → Option MemoryDelegation
    → MemoryDatabase
    → Option MemoryDelegation × MemoryDatabase
unfolding updated_memory_delegation
memory_delegation_found now id p none d = (none, d)
memory_delegation_found now id p (some w) d =
    let d' = record d {
      tasks = update (has_memory_id w.task_id) (touched now p.updated_by) d.tasks;
      delegations =
          update (has_memory_delegation id) (updated_memory_delegation now p) d.delegations;
    } in
    (get_memory_delegation id d', d')

unfoldable pub update_memory_delegation :
    Time
    → String
    → MemoryDelegationUpdateRequest
    → MemoryDatabase
    → Option MemoryDelegation × MemoryDatabase
unfolding memory_delegation_found
update_memory_delegation now id p d =
    memory_delegation_found now id p (get_memory_delegation id d) d

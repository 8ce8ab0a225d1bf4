-- ===== src/Provenance/Evidence.antt =====
-- Artifacts and delegated work in the provenance service (services/provenance-service/src/
-- provenance_service/repository.py).
use control_architecture.Base.{
  suc, String, Bool, true, false, ◌&&◌, Option, none, some, [], ◌∷◌, ◌++◌, ◌==◌, if◌then◌else◌,
  string_eq, ok, err, format, exists, update, length,
}
use control_architecture.Contracts.Literals.{delegation_status_eq}
use control_architecture.Contracts.Comparison.{response_envelope_eq}
use control_architecture.Contracts.Envelopes.{Time, DelegationResponseEnvelope}
use control_architecture.Contracts.Tasks.{
  ArtifactCreateRequest, DelegatedWorkCreateRequest, DelegatedWorkUpdateRequest,
}
use control_architecture.Provenance.Models.{
  TaskProvenance, Artifact, DelegatedWorkItem, ProvenanceDatabase,
}
use control_architecture.Provenance.Repository.{
  ProvenanceFault, Outcome, get_task_provenance, get_delegation, has_delegation, touch,
}

unfoldable pub new_artifact : Time → String → ArtifactCreateRequest → ProvenanceDatabase → Artifact
new_artifact now id p d = record {
  id = suc (length d.artifacts);
  task_id = id;
  artifact_type = p.artifact_type;
  artifact_ref = p.artifact_ref;
  content = p.content;
  trust_level = p.trust_level;
  created_by = p.created_by;
  created_at = now;
}

unfoldable pub artifact_task :
    Time
    → String
    → ArtifactCreateRequest
    → Option TaskProvenance
    → ProvenanceDatabase
    → Option Artifact × ProvenanceDatabase
unfolding new_artifact
artifact_task now id p none d = (none, d)
artifact_task now id p (some t) d = (
  some (new_artifact now id p d),
  record d {
    provenance = touch now id p.created_by d.provenance;
    artifacts = d.artifacts ++ new_artifact now id p d ∷ [];
  },
)

unfoldable pub add_artifact :
    Time
    → String
    → ArtifactCreateRequest
    → ProvenanceDatabase
    → Option Artifact × ProvenanceDatabase
unfolding artifact_task
add_artifact now id p d = artifact_task now id p (get_task_provenance id d) d

unfoldable pub new_delegation :
    Time → String → String → DelegatedWorkCreateRequest → DelegatedWorkItem
new_delegation now token id p = record {
  delegation_id = format ("dlg_" ∷ token ∷ []);
  task_id = id;
  workflow_id = p.workflow_id;
  parent_agent_id = p.parent_agent_id;
  delegated_agent_id = p.delegated_agent_id;
  delegated_action = p.delegated_action;
  capability_id = p.capability_id;
  status = p.status;
  request_envelope = p.request_envelope;
  response_envelope = p.response_envelope;
  created_at = now;
  updated_at = now;
}

unfoldable pub delegation_task :
    Time
    → String
    → String
    → DelegatedWorkCreateRequest
    → Option TaskProvenance
    → ProvenanceDatabase
    → Outcome DelegatedWorkItem
unfolding new_delegation
delegation_task now token id p none d = (ok none, d)
delegation_task now token id p (some t) d =
    let w = new_delegation now token id p in
    if exists (has_delegation w.delegation_id) d.delegations
    then (err ProvenanceFault.integrity_error, d)
    else (
      ok (some w),
      record d {
        provenance = touch now id p.parent_agent_id d.provenance;
        delegations = d.delegations ++ w ∷ [];
      },
    )

unfoldable pub create_delegation :
    Time
    → String
    → String
    → DelegatedWorkCreateRequest
    → ProvenanceDatabase
    → Outcome DelegatedWorkItem
unfolding delegation_task
create_delegation now token id p d = delegation_task now token id p (get_task_provenance id d) d

abbrev new_envelope :
    Option DelegationResponseEnvelope
    → Option DelegationResponseEnvelope
    → Option DelegationResponseEnvelope
new_envelope none old = old
new_envelope (some e) old = some e

-- Whether a given envelope is the one of the row.
abbrev keeps_envelope : Option DelegationResponseEnvelope → Option DelegationResponseEnvelope → Bool
keeps_envelope none old = true
keeps_envelope (some e) none = false
keeps_envelope (some e) (some old) = e == old

-- A row whose columns keep their values is not updated, so its `updated_at` stays.
abbrev delegation_time : Time → DelegatedWorkUpdateRequest → DelegatedWorkItem → Time
delegation_time now p w =
    if (w.status == p.status) && keeps_envelope p.response_envelope w.response_envelope
    then w.updated_at
    else now

unfoldable pub updated_delegation :
    Time → DelegatedWorkUpdateRequest → DelegatedWorkItem → DelegatedWorkItem
updated_delegation now p w = record w {
  status = p.status;
  response_envelope = new_envelope p.response_envelope w.response_envelope;
  updated_at = delegation_time now p w;
}

-- The update of the work that was found, and of its task, where there is one.
unfoldable pub delegation_found :
    Time
    → String
    → DelegatedWorkUpdateRequest
    → Option DelegatedWorkItem
    → ProvenanceDatabase
    → Option DelegatedWorkItem × ProvenanceDatabase
unfolding updated_delegation
delegation_found now id p none d = (none, d)
delegation_found now id p (some w) d =
    let d' = record d {
      provenance = touch now w.task_id p.updated_by d.provenance;
      delegations = update (has_delegation id) (updated_delegation now p) d.delegations;
    } in
    (get_delegation id d', d')

unfoldable pub update_delegation :
    Time
    → String
    → DelegatedWorkUpdateRequest
    → ProvenanceDatabase
    → Option DelegatedWorkItem × ProvenanceDatabase
unfolding delegation_found
update_delegation now id p d = delegation_found now id p (get_delegation id d) d

-- ===== src/Provenance/Models.antt =====
-- The rows and the requests of the provenance service (services/provenance-service/src/
-- provenance_service/models.py and schemas.py). The text columns with literals of the shared
-- contracts hold those, and the JSON columns hold the values that were dumped into them.
use control_architecture.Base.{ℕ, String, Option, List, []}
use control_architecture.Contracts.Literals.{ArtifactTrustLevel, DelegationStatus}
use control_architecture.Contracts.Envelopes.{
  Time, ProvenanceSeed, ArtifactContent, DelegationRequestEnvelope, DelegationResponseEnvelope,
}

pub record TaskProvenance : Type 0 where
  pub task_id : String
  pub initiated_by : String
  pub last_updated_by : String
  pub policy_context_id : Option String
  pub trace_id : Option String
  pub created_at : Time
  pub updated_at : Time

pub record TaskStateTransition : Type 0 where
  pub id : ℕ
  pub task_id : String
  pub source_event_id : Option String
  pub from_status : Option String
  pub to_status : String
  pub changed_by : String
  pub reason : Option String
  pub created_at : Time

pub record Artifact : Type 0 where
  pub id : ℕ
  pub task_id : String
  pub artifact_type : String
  pub artifact_ref : Option String
  pub content : ArtifactContent
  pub trust_level : ArtifactTrustLevel
  pub created_by : String
  pub created_at : Time

pub record DelegatedWorkItem : Type 0 where
  pub delegation_id : String
  pub task_id : String
  pub workflow_id : String
  pub parent_agent_id : String
  pub delegated_agent_id : String
  pub delegated_action : String
  pub capability_id : Option String
  pub status : DelegationStatus
  pub request_envelope : DelegationRequestEnvelope
  pub response_envelope : Option DelegationResponseEnvelope
  pub created_at : Time
  pub updated_at : Time

-- The four tables, in the order of insertion.
pub record ProvenanceDatabase : Type 0 where
  pub provenance : List TaskProvenance
  pub state_history : List TaskStateTransition
  pub artifacts : List Artifact
  pub delegations : List DelegatedWorkItem

abbrev pub empty_provenance : ProvenanceDatabase
empty_provenance = record { provenance = []; state_history = []; artifacts = []; delegations = [] }

abbrev pub ProvenanceRecordCreateRequest : Type 0
ProvenanceRecordCreateRequest = ProvenanceSeed

pub record TaskStateTransitionCreateRequest : Type 0 where
  pub source_event_id : Option String
  pub from_status : Option String
  pub to_status : String
  pub changed_by : String
  pub reason : Option String

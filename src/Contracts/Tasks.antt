-- ===== src/Contracts/Tasks.antt =====
-- The payment task, its evidence, and the merged view that the orchestrator and the worker read
-- (packages/shared-contracts/src/shared_contracts/tasks.py).
use control_architecture.Base.{ℕ, String, Option, none, List, []}
use control_architecture.Contracts.Literals.{
  Rail, TaskStatus, BeneficiaryStatus, ApprovalStatus, ArtifactTrustLevel, DelegationStatus,
}
use control_architecture.Contracts.Json.{Fields}
use control_architecture.Contracts.Envelopes.{
  Time, Cents, ArtifactContent, DelegationRequestEnvelope, DelegationResponseEnvelope,
}

pub record TaskContextView : Type 0 where
  pub task_id : String
  pub payment_id : String
  pub customer_id : String
  pub rail : Rail
  pub amount_usd : Cents
  pub status : TaskStatus
  pub beneficiary_status : BeneficiaryStatus
  pub approval_status : ApprovalStatus
  pub task_metadata : Fields
  pub created_at : Time
  pub updated_at : Option Time

pub record TaskProvenanceView : Type 0 where
  pub task_id : String
  pub initiated_by : Option String
  pub last_updated_by : Option String
  pub policy_context_id : Option String
  pub trace_id : Option String
  pub created_at : Option Time
  pub updated_at : Option Time

pub record TaskStateHistoryEntry : Type 0 where
  pub id : ℕ
  pub source_event_id : Option String
  pub from_status : Option String
  pub to_status : String
  pub changed_by : String
  pub reason : Option String
  pub created_at : Time

pub record ArtifactView : Type 0 where
  pub id : ℕ
  pub artifact_type : String
  pub artifact_ref : Option String
  pub content : ArtifactContent
  pub trust_level : ArtifactTrustLevel
  pub created_by : String
  pub created_at : Time

pub record ArtifactCreateRequest : Type 0 where
  pub artifact_type : String
  pub artifact_ref : Option String
  pub content : ArtifactContent
  pub trust_level : ArtifactTrustLevel
  pub created_by : String

pub record DelegatedWorkView : Type 0 where
  pub delegation_id : String
  pub workflow_id : String
  pub parent_agent_id : String
  pub delegated_agent_id : String
  pub delegated_action : String
  pub capability_id : Option String
  pub status : DelegationStatus
  pub request_envelope : DelegationRequestEnvelope
  pub response_envelope : Option DelegationResponseEnvelope
  pub created_at : Time
  pub updated_at : Option Time

pub record DelegatedWorkCreateRequest : Type 0 where
  pub workflow_id : String
  pub parent_agent_id : String
  pub delegated_agent_id : String
  pub delegated_action : String
  pub capability_id : Option String
  pub status : DelegationStatus
  pub request_envelope : DelegationRequestEnvelope
  pub response_envelope : Option DelegationResponseEnvelope

pub record DelegatedWorkUpdateRequest : Type 0 where
  pub status : DelegationStatus
  pub updated_by : String
  pub response_envelope : Option DelegationResponseEnvelope

pub record TaskRecordsView : Type 0 where
  pub provenance : TaskProvenanceView
  pub state_history : List TaskStateHistoryEntry
  pub artifacts : List ArtifactView
  pub delegations : List DelegatedWorkView

pub record TaskDetailView : Type 0 where
  pub context : TaskContextView
  pub open context use *
  pub provenance : TaskProvenanceView
  pub state_history : List TaskStateHistoryEntry
  pub artifacts : List ArtifactView
  pub delegations : List DelegatedWorkView

unfoldable pub empty_task_records : String → TaskRecordsView
empty_task_records task_id = record {
  provenance = record {
    task_id = task_id;
    initiated_by = none;
    last_updated_by = none;
    policy_context_id = none;
    trace_id = none;
    created_at = none;
    updated_at = none;
  };
  state_history = [];
  artifacts = [];
  delegations = [];
}

unfoldable pub merge_task_detail : TaskContextView → TaskRecordsView → TaskDetailView
merge_task_detail context_task records = record {
  context = context_task;
  provenance = records.provenance;
  state_history = records.state_history;
  artifacts = records.artifacts;
  delegations = records.delegations;
}

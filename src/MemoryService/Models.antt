-- ===== src/MemoryService/Models.antt =====
-- The rows and the requests of the older memory service (services/memory-service/src/memory_service/
-- models.py and schemas.py). The text columns with statuses hold literals; the requests for tasks
-- have the fields of those of the context memory service.
use control_architecture.Base.{ℕ, String, Option, List, []}
use control_architecture.Contracts.Literals.{
  Rail, TaskStatus, BeneficiaryStatus, ApprovalStatus, ArtifactTrustLevel, DelegationStatus,
}
use control_architecture.Contracts.Json.{Fields}
use control_architecture.Contracts.Envelopes.{Time, Cents, ProvenanceSeed}
use control_architecture.Context.Models.{TaskCreateRequest, TaskStatePatchRequest}

-- The dict with the four keys of a dumped ProvenanceRecord.
abbrev pub ProvenanceRecord : Type 0
ProvenanceRecord = ProvenanceSeed

abbrev pub MemoryTaskCreateRequest : Type 0
MemoryTaskCreateRequest = TaskCreateRequest

abbrev pub MemoryTaskStatePatchRequest : Type 0
MemoryTaskStatePatchRequest = TaskStatePatchRequest

pub record MemoryTask : Type 0 where
  pub task_id : String
  pub payment_id : String
  pub customer_id : String
  pub rail : Rail
  pub amount_usd : Cents
  pub status : TaskStatus
  pub beneficiary_status : BeneficiaryStatus
  pub approval_status : ApprovalStatus
  pub task_metadata : Fields
  pub provenance : ProvenanceRecord
  pub created_at : Time
  pub updated_at : Time

pub record TaskStateHistory : Type 0 where
  pub id : ℕ
  pub task_id : String
  pub from_status : Option TaskStatus
  pub to_status : TaskStatus
  pub changed_by : String
  pub reason : Option String
  pub created_at : Time

pub record MemoryArtifact : Type 0 where
  pub id : ℕ
  pub task_id : String
  pub artifact_type : String
  pub artifact_ref : Option String
  pub content : Fields
  pub trust_level : ArtifactTrustLevel
  pub created_by : String
  pub created_at : Time

pub record MemoryDelegation : Type 0 where
  pub delegation_id : String
  pub task_id : String
  pub workflow_id : String
  pub parent_agent_id : String
  pub delegated_agent_id : String
  pub delegated_action : String
  pub capability_id : Option String
  pub status : DelegationStatus
  pub request_envelope : Fields
  pub response_envelope : Option Fields
  pub created_at : Time
  pub updated_at : Time

-- The four tables, in the order of insertion.
pub record MemoryDatabase : Type 0 where
  pub tasks : List MemoryTask
  pub state_history : List TaskStateHistory
  pub artifacts : List MemoryArtifact
  pub delegations : List MemoryDelegation

abbrev pub empty_memory : MemoryDatabase
empty_memory = record { tasks = []; state_history = []; artifacts = []; delegations = [] }

pub record MemoryArtifactCreateRequest : Type 0 where
  pub artifact_type : String
  pub artifact_ref : Option String
  pub content : Fields
  pub trust_level : ArtifactTrustLevel
  pub created_by : String

pub record MemoryDelegationCreateRequest : Type 0 where
  pub workflow_id : String
  pub parent_agent_id : String
  pub delegated_agent_id : String
  pub delegated_action : String
  pub capability_id : Option String
  pub status : DelegationStatus
  pub request_envelope : Fields
  pub response_envelope : Option Fields

pub record MemoryDelegationUpdateRequest : Type 0 where
  pub status : DelegationStatus
  pub updated_by : String
  pub response_envelope : Option Fields

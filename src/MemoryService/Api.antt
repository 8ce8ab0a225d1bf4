-- ===== src/MemoryService/Api.antt =====
-- The endpoints of the older memory service (services/memory-service/src/memory_service/main.py and
-- schemas.py). The health and metadata endpoints only report settings.
use control_architecture.Base.{
  ℕ, String, Option, none, some, List, [], ◌∷◌, ◌==◌, string_eq, Result, ok, err, format, map,
  select, order_by,
}
use control_architecture.Contracts.Literals.{
  Rail, TaskStatus, BeneficiaryStatus, ApprovalStatus, ArtifactTrustLevel, DelegationStatus,
}
use control_architecture.Contracts.Json.{Fields}
use control_architecture.Contracts.Envelopes.{Time, Cents}
use control_architecture.Contracts.Http.{HttpError, server_error}
use control_architecture.Context.Repository.{RepositoryError, Tokens}
use control_architecture.MemoryService.Models.{
  ProvenanceRecord, MemoryTask, TaskStateHistory, MemoryArtifact, MemoryDelegation, MemoryDatabase,
  MemoryTaskCreateRequest, MemoryTaskStatePatchRequest, MemoryArtifactCreateRequest,
  MemoryDelegationCreateRequest, MemoryDelegationUpdateRequest,
}
use control_architecture.MemoryService.Repository.{
  get_memory_task, create_memory_task, update_memory_state,
}
use control_architecture.MemoryService.Evidence.{
  add_memory_artifact, create_memory_delegation, get_memory_delegation, update_memory_delegation,
}

pub record TaskStateHistoryResponse : Type 0 where
  pub id : ℕ
  pub from_status : Option TaskStatus
  pub to_status : TaskStatus
  pub changed_by : String
  pub reason : Option String
  pub created_at : Time

pub record ArtifactResponse : Type 0 where
  pub id : ℕ
  pub artifact_type : String
  pub artifact_ref : Option String
  pub content : Fields
  pub trust_level : ArtifactTrustLevel
  pub created_by : String
  pub created_at : Time

pub record DelegatedWorkResponse : Type 0 where
  pub delegation_id : String
  pub workflow_id : String
  pub parent_agent_id : String
  pub delegated_agent_id : String
  pub delegated_action : String
  pub capability_id : Option String
  pub status : DelegationStatus
  pub request_envelope : Fields
  pub response_envelope : Option Fields
  pub created_at : Time
  pub updated_at : Option Time

pub record TaskDetailResponse : Type 0 where
  pub task_id : String
  pub payment_id : String
  pub customer_id : String
  pub rail : Rail
  pub amount_usd : Cents
  pub status : TaskStatus
  pub beneficiary_status : BeneficiaryStatus
  pub approval_status : ApprovalStatus
  pub task_metadata : Fields
  pub provenance : ProvenanceRecord
  pub created_at : Time
  pub updated_at : Option Time
  pub state_history : List TaskStateHistoryResponse
  pub artifacts : List ArtifactResponse
  pub delegations : List DelegatedWorkResponse

abbrev pub MemoryResponse : Type 0 → Type 0
MemoryResponse A = Result HttpError A × MemoryDatabase

abbrev pub history_response : TaskStateHistory → TaskStateHistoryResponse
history_response h = record {
  id = h.id;
  from_status = h.from_status;
  to_status = h.to_status;
  changed_by = h.changed_by;
  reason = h.reason;
  created_at = h.created_at;
}

abbrev pub artifact_response : MemoryArtifact → ArtifactResponse
artifact_response a = record {
  id = a.id;
  artifact_type = a.artifact_type;
  artifact_ref = a.artifact_ref;
  content = a.content;
  trust_level = a.trust_level;
  created_by = a.created_by;
  created_at = a.created_at;
}

abbrev pub delegation_response : MemoryDelegation → DelegatedWorkResponse
delegation_response w = record {
  delegation_id = w.delegation_id;
  workflow_id = w.workflow_id;
  parent_agent_id = w.parent_agent_id;
  delegated_agent_id = w.delegated_agent_id;
  delegated_action = w.delegated_action;
  capability_id = w.capability_id;
  status = w.status;
  request_envelope = w.request_envelope;
  response_envelope = w.response_envelope;
  created_at = w.created_at;
  updated_at = some w.updated_at;
}

-- The rows of each table that belong to the task, ordered by their times.
unfoldable pub detail_response : MemoryDatabase → MemoryTask → TaskDetailResponse
detail_response d t = record {
  task_id = t.task_id;
  payment_id = t.payment_id;
  customer_id = t.customer_id;
  rail = t.rail;
  amount_usd = t.amount_usd;
  status = t.status;
  beneficiary_status = t.beneficiary_status;
  approval_status = t.approval_status;
  task_metadata = t.task_metadata;
  provenance = t.provenance;
  created_at = t.created_at;
  updated_at = some t.updated_at;
  state_history = map history_response (
      order_by (λ (h : TaskStateHistory). h.created_at)
        (select (λ h. h.task_id == t.task_id) d.state_history));
  artifacts = map artifact_response (
      order_by (λ (a : MemoryArtifact). a.created_at)
        (select (λ a. a.task_id == t.task_id) d.artifacts));
  delegations = map delegation_response (
      order_by (λ (w : MemoryDelegation). w.created_at)
        (select (λ w. w.task_id == t.task_id) d.delegations));
}

abbrev pub missing : String → String → HttpError
missing what id = record {
  status_code = 404;
  detail = some (format (what ∷ " " ∷ id ∷ " was not found." ∷ []));
}

-- A row that was found or not, or what the repository raised.
abbrev pub memory_reply :
    {A B : Type 0} → HttpError → (A → B) → Result RepositoryError (Option A) → Result HttpError B
memory_reply none_found f (ok none) = err none_found
memory_reply none_found f (ok (some a)) = ok (f a)
memory_reply none_found f (err (RepositoryError.no_state_change message)) =
    err (record { status_code = 409; detail = some message })
memory_reply none_found f (err RepositoryError.integrity_error) = err server_error

-- A row that was just created is there; without one the response would not validate.
unfoldable pub post_memory_task :
    Time → Tokens → MemoryTaskCreateRequest → MemoryDatabase → MemoryResponse TaskDetailResponse
unfolding detail_response
post_memory_task now tokens p d =
    let (r, d') = create_memory_task now tokens p d in
    (memory_reply server_error (detail_response d') r, d')

unfoldable pub read_memory_task : String → MemoryDatabase → Result HttpError TaskDetailResponse
unfolding detail_response
read_memory_task id d =
    memory_reply (missing "Task" id) (detail_response d) (ok (get_memory_task id d))

-- The session has loaded the task and its collections before the change, and a commit expires nothing:
-- the response has the new row, with the history of before.
unfoldable pub patch_memory_state :
    Time → String → MemoryTaskStatePatchRequest → MemoryDatabase → MemoryResponse TaskDetailResponse
unfolding detail_response
patch_memory_state now id p d =
    let (r, d') = update_memory_state now id p d in
    (memory_reply (missing "Task" id) (detail_response d) r, d')

unfoldable pub post_memory_artifact :
    Time → String → MemoryArtifactCreateRequest → MemoryDatabase → MemoryResponse ArtifactResponse
post_memory_artifact now id p d =
    let (a, d') = add_memory_artifact now id p d in
    (memory_reply (missing "Task" id) artifact_response (ok a), d')

unfoldable pub post_memory_delegation :
    Time
    → String
    → String
    → MemoryDelegationCreateRequest
    → MemoryDatabase
    → MemoryResponse DelegatedWorkResponse
post_memory_delegation now token id p d =
    let (r, d') = create_memory_delegation now token id p d in
    (memory_reply (missing "Task" id) delegation_response r, d')

unfoldable pub read_memory_delegation :
    String → MemoryDatabase → Result HttpError DelegatedWorkResponse
read_memory_delegation id d =
    memory_reply (missing "Delegation" id) delegation_response (ok (get_memory_delegation id d))

unfoldable pub patch_memory_delegation :
    Time
    → String
    → MemoryDelegationUpdateRequest
    → MemoryDatabase
    → MemoryResponse DelegatedWorkResponse
patch_memory_delegation now id p d =
    let (w, d') = update_memory_delegation now id p d in
    (memory_reply (missing "Delegation" id) delegation_response (ok w), d')

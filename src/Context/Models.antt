-- ===== src/Context/Models.antt =====
-- The rows and the requests of the context memory service (services/context-memory-service/src/
-- context_memory_service/models.py and schemas.py). The text columns with statuses hold literals.
use control_architecture.Base.{ℕ, String, Option, List, []}
use control_architecture.Contracts.Literals.{
  Rail, TaskStatus, BeneficiaryStatus, ApprovalStatus, OutboxStatus,
}
use control_architecture.Contracts.Json.{Fields}
use control_architecture.Contracts.Envelopes.{Time, Cents, ProvenanceSeed}
use control_architecture.Contracts.Events.{EventPayload}

pub record Task : Type 0 where
  pub task_id : String
  pub payment_id : String
  pub customer_id : String
  pub rail : Rail
  pub amount_usd : Cents
  pub status : TaskStatus
  pub beneficiary_status : BeneficiaryStatus
  pub approval_status : ApprovalStatus
  pub task_metadata : Fields
  pub created_at : Time
  pub updated_at : Time

pub record OutboxEvent : Type 0 where
  pub event_id : String
  pub aggregate_type : String
  pub aggregate_id : String
  pub event_type : String
  pub payload : EventPayload
  pub status : OutboxStatus
  pub attempt_count : ℕ
  pub last_error : Option String
  pub claimed_at : Option Time
  pub processed_at : Option Time
  pub created_at : Time
  pub updated_at : Time

-- The two tables, in the order of insertion.
pub record Database : Type 0 where
  pub tasks : List Task
  pub outbox : List OutboxEvent

abbrev pub empty_database : Database
empty_database = record { tasks = []; outbox = [] }

pub record TaskCreateRequest : Type 0 where
  pub task_id : Option String
  pub payment_id : Option String
  pub customer_id : String
  pub rail : Rail
  pub amount_usd : Cents
  pub status : TaskStatus
  pub beneficiary_status : BeneficiaryStatus
  pub approval_status : ApprovalStatus
  pub task_metadata : Fields
  pub provenance : ProvenanceSeed

pub record TaskStatePatchRequest : Type 0 where
  pub status : TaskStatus
  pub changed_by : String
  pub reason : Option String
  pub approval_status : Option ApprovalStatus
  pub beneficiary_status : Option BeneficiaryStatus

pub record OutboxClaimRequest : Type 0 where
  pub limit : ℕ
  pub lease_seconds : ℕ

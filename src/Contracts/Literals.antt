-- ===== src/Contracts/Literals.antt =====
-- The `Literal` types of packages/shared-contracts/src/shared_contracts/tasks.py and events.py. A
-- function `…_text` gives the text that a literal is in Python and in JSON.
use control_architecture.Base.{HasEq, String, Option, none, some, ◌==◌, if◌then◌else◌, string_eq}

pub data Rail : Type 0 where
  ach same_day_ach internal_transfer rtp : Rail

pub data TaskStatus : Type 0 where
  received validated awaiting_approval approved released settlement_pending : TaskStatus
  settled failed cancelled pending_reconcile exception : TaskStatus

pub data BeneficiaryStatus : Type 0 where
  unknown approved rejected needs_review : BeneficiaryStatus

pub data ApprovalStatus : Type 0 where
  not_required pending approved denied expired : ApprovalStatus

pub data ArtifactTrustLevel : Type 0 where
  trusted quarantined untrusted : ArtifactTrustLevel

pub data DelegationStatus : Type 0 where
  queued pending completed failed cancelled : DelegationStatus

pub data BeneficiaryValidationStatus : Type 0 where
  validated rejected needs_review : BeneficiaryValidationStatus

pub data PolicyDecisionType : Type 0 where
  allow deny escalate simulate : PolicyDecisionType

pub data MockRailOutcome : Type 0 where
  success reject ambiguous : MockRailOutcome

pub data OutboxStatus : Type 0 where
  pending in_progress completed failed : OutboxStatus

pub data ReleaseMode : Type 0 where
  dry_run execute : ReleaseMode

unfoldable pub TaskStatus-discrete : Discrete TaskStatus
TaskStatus-discrete = hlevel

unfoldable pub BeneficiaryStatus-discrete : Discrete BeneficiaryStatus
BeneficiaryStatus-discrete = hlevel

unfoldable pub ApprovalStatus-discrete : Discrete ApprovalStatus
ApprovalStatus-discrete = hlevel

unfoldable pub OutboxStatus-discrete : Discrete OutboxStatus
OutboxStatus-discrete = hlevel

unfoldable pub DelegationStatus-discrete : Discrete DelegationStatus
DelegationStatus-discrete = hlevel

unfoldable pub ReleaseMode-discrete : Discrete ReleaseMode
ReleaseMode-discrete = hlevel

unfoldable pub BeneficiaryValidationStatus-discrete : Discrete BeneficiaryValidationStatus
BeneficiaryValidationStatus-discrete = hlevel

instance abbrev pub task_status_eq : HasEq TaskStatus
task_status_eq = record { dec_eq = TaskStatus-discrete }

instance abbrev pub beneficiary_status_eq : HasEq BeneficiaryStatus
beneficiary_status_eq = record { dec_eq = BeneficiaryStatus-discrete }

instance abbrev pub approval_status_eq : HasEq ApprovalStatus
approval_status_eq = record { dec_eq = ApprovalStatus-discrete }

instance abbrev pub outbox_status_eq : HasEq OutboxStatus
outbox_status_eq = record { dec_eq = OutboxStatus-discrete }

instance abbrev pub delegation_status_eq : HasEq DelegationStatus
delegation_status_eq = record { dec_eq = DelegationStatus-discrete }

instance abbrev pub release_mode_eq : HasEq ReleaseMode
release_mode_eq = record { dec_eq = ReleaseMode-discrete }

instance abbrev pub validation_status_eq : HasEq BeneficiaryValidationStatus
validation_status_eq = record { dec_eq = BeneficiaryValidationStatus-discrete }

abbrev pub rail_text : Rail → String
rail_text Rail.ach = "ach"
rail_text Rail.same_day_ach = "same_day_ach"
rail_text Rail.internal_transfer = "internal_transfer"
rail_text Rail.rtp = "rtp"

abbrev pub task_status_text : TaskStatus → String
task_status_text TaskStatus.received = "received"
task_status_text TaskStatus.validated = "validated"
task_status_text TaskStatus.awaiting_approval = "awaiting_approval"
task_status_text TaskStatus.approved = "approved"
task_status_text TaskStatus.released = "released"
task_status_text TaskStatus.settlement_pending = "settlement_pending"
task_status_text TaskStatus.settled = "settled"
task_status_text TaskStatus.failed = "failed"
task_status_text TaskStatus.cancelled = "cancelled"
task_status_text TaskStatus.pending_reconcile = "pending_reconcile"
task_status_text TaskStatus.exception = "exception"

abbrev pub beneficiary_status_text : BeneficiaryStatus → String
beneficiary_status_text BeneficiaryStatus.unknown = "unknown"
beneficiary_status_text BeneficiaryStatus.approved = "approved"
beneficiary_status_text BeneficiaryStatus.rejected = "rejected"
beneficiary_status_text BeneficiaryStatus.needs_review = "needs_review"

abbrev pub approval_status_text : ApprovalStatus → String
approval_status_text ApprovalStatus.not_required = "not_required"
approval_status_text ApprovalStatus.pending = "pending"
approval_status_text ApprovalStatus.approved = "approved"
approval_status_text ApprovalStatus.denied = "denied"
approval_status_text ApprovalStatus.expired = "expired"

abbrev pub decision_text : PolicyDecisionType → String
decision_text PolicyDecisionType.allow = "allow"
decision_text PolicyDecisionType.deny = "deny"
decision_text PolicyDecisionType.escalate = "escalate"
decision_text PolicyDecisionType.simulate = "simulate"

abbrev pub release_mode_text : ReleaseMode → String
release_mode_text ReleaseMode.dry_run = "dry_run"
release_mode_text ReleaseMode.execute = "execute"

-- The literal that a text is, where pydantic validates one; `none` is a ValidationError.
unfoldable pub parse_task_status : String → Option TaskStatus
parse_task_status s =
    if s == "received"
    then some TaskStatus.received
    else if s == "validated"
    then some TaskStatus.validated
    else if s == "awaiting_approval"
    then some TaskStatus.awaiting_approval
    else if s == "approved"
    then some TaskStatus.approved
    else if s == "released"
    then some TaskStatus.released
    else if s == "settlement_pending"
    then some TaskStatus.settlement_pending
    else if s == "settled"
    then some TaskStatus.settled
    else if s == "failed"
    then some TaskStatus.failed
    else if s == "cancelled"
    then some TaskStatus.cancelled
    else if s == "pending_reconcile"
    then some TaskStatus.pending_reconcile
    else if s == "exception"
    then some TaskStatus.exception
    else none

-- ===== src/MemoryService/Examples.antt =====
-- The older memory service and the context memory service on concrete calls.
use control_architecture.Base.{
  String, none, some, List, [], ◌∷◌, refl, string_discrete, find, exists, update,
}
use control_architecture.Contracts.Literals.{
  Rail, TaskStatus, BeneficiaryStatus, ApprovalStatus, ArtifactTrustLevel, TaskStatus-discrete,
  ApprovalStatus-discrete, BeneficiaryStatus-discrete,
}
use control_architecture.Contracts.Json.{Fields}
use control_architecture.Context.Models.{TaskCreateRequest, TaskStatePatchRequest, empty_database}
use control_architecture.Context.Repository.{
  Tokens, create_task, new_task, created_event, violates_unique, update_task_state, patch_lookup,
  patch_found, patched, changed_event, get_task,
}
use control_architecture.Context.Calls.{Operation, step}
use control_architecture.MemoryService.Models.{MemoryArtifactCreateRequest, empty_memory}
use control_architecture.MemoryService.Calls.{Call, context_step, AreFresh}
use control_architecture.MemoryService.References.{run_memory, IsReferenced, run-IsReferenced}
use control_architecture.MemoryService.Refinement.{Refines, context-Refines}

abbrev tokens_of : String → Tokens
tokens_of event = record { task = "t1"; payment = "p1"; event = event }

abbrev new_payment : TaskCreateRequest
new_payment = record {
  task_id = none;
  payment_id = none;
  customer_id = "cust_1";
  rail = Rail.ach;
  amount_usd = 250000;
  status = TaskStatus.received;
  beneficiary_status = BeneficiaryStatus.unknown;
  approval_status = ApprovalStatus.pending;
  task_metadata = Fields.end;
  provenance = record {
    initiated_by = "user.ops";
    last_updated_by = none;
    policy_context_id = none;
    trace_id = none;
  };
}

abbrev validation : TaskStatePatchRequest
validation = record {
  status = TaskStatus.validated;
  changed_by = "agent.worker";
  reason = none;
  approval_status = none;
  beneficiary_status = some BeneficiaryStatus.approved;
}

abbrev note : MemoryArtifactCreateRequest
note = record {
  artifact_type = "note";
  artifact_ref = none;
  content = Fields.end;
  trust_level = ArtifactTrustLevel.trusted;
  created_by = "agent.worker";
}

-- The second creation repeats the task identifier, and the second patch changes nothing.
abbrev day : List Call
day =
    Call.operation (Operation.create 1 (tokens_of "e1") new_payment)
    ∷ Call.operation (Operation.create 2 (tokens_of "e2") new_payment)
    ∷ Call.operation (Operation.patch 3 (tokens_of "e3") "task_t1" validation)
    ∷ Call.artifact 4 "task_t1" note
    ∷ Call.operation (Operation.patch 5 (tokens_of "e4") "task_t1" validation)
    ∷ []

day_fresh : AreFresh day empty_database
unfolding context_step step create_task new_task created_event violates_unique update_task_state
    patch_lookup patch_found patched changed_event get_task find exists update string_discrete
    TaskStatus-discrete ApprovalStatus-discrete BeneficiaryStatus-discrete
day_fresh = (refl, (refl, (refl, (tt, (refl, tt)))))

context-Refines_example : Refines day empty_database empty_memory
context-Refines_example = context-Refines day day_fresh

run-IsReferenced_example : IsReferenced (run_memory day empty_memory)
run-IsReferenced_example = run-IsReferenced day

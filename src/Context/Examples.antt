-- ===== src/Context/Examples.antt =====
-- The context database on concrete operations.
use Prim.Native.Nat.{min}
use control_architecture.Base.{
  ◌≢◌, ◌≤◌, ◌++◌, false≢true, ap, ◌==◌, string_eq, String, true, false, none, some, List, [], ◌∷◌,
  ◌≡◌, refl, ok, err, arith, string_discrete, ℕ_discrete, find, exists, update, select, is_in,
  insert_by, order_by, length, All,
}
use control_architecture.Contracts.Literals.{
  Rail, TaskStatus, BeneficiaryStatus, ApprovalStatus, OutboxStatus-discrete, TaskStatus-discrete,
  ApprovalStatus-discrete, BeneficiaryStatus-discrete,
}
use control_architecture.Contracts.Json.{Fields}
use control_architecture.Contracts.Events.{TaskLifecycleOutboxEvent}
use control_architecture.Context.Models.{
  Task, Database, empty_database, TaskCreateRequest, TaskStatePatchRequest, OutboxClaimRequest,
}
use control_architecture.Context.Repository.{
  Tokens, create_task, new_task, created_event, violates_unique, get_task, patched, changed_event,
  patch_found, patch_lookup, update_task_state,
}
use control_architecture.Context.Outbox.{
  claimable, order_by_created_at, limited, selected, event_ids, claim_outbox_events, failed,
  complete_outbox_event, fail_outbox_event, change_found, get_outbox_event,
}
use control_architecture.Context.Calls.{Operation, step, run}
use control_architecture.Context.Api.{post_claim}
use control_architecture.Context.Transitions.{IsReplayed}
use control_architecture.Context.History.{run-IsReplayed}
use control_architecture.Context.Patch.{PatchEffect, patch_effect, patch_repeat, unchanged_error}
use control_architecture.Context.Leases.{claimable_count}
use control_architecture.Context.Claims.{ClaimEffect, claim_effect}
use control_architecture.Context.Exclusive.{claims_exclusive}
use control_architecture.Context.Typed.{IsTyped, run-IsTyped, post_claim_answers}
use control_architecture.Context.Attempts.{claim_history, claims, IsRecorded, run-IsRecorded}

abbrev tokens_of : String → Tokens
tokens_of event = record { task = "t1"; payment = "p1"; event = event }

abbrev new_payment : TaskCreateRequest
new_payment = record {
  task_id = none;
  payment_id = none;
  customer_id = "cust_1";
  rail = Rail.ach;
  amount_usd = 250000;
  status = TaskStatus.received;
  beneficiary_status = BeneficiaryStatus.unknown;
  approval_status = ApprovalStatus.pending;
  task_metadata = Fields.end;
  provenance = record {
    initiated_by = "user.ops";
    last_updated_by = none;
    policy_context_id = none;
    trace_id = none;
  };
}

abbrev validation : TaskStatePatchRequest
validation = record {
  status = TaskStatus.validated;
  changed_by = "agent.worker";
  reason = none;
  approval_status = none;
  beneficiary_status = some BeneficiaryStatus.approved;
}

abbrev creation : List Operation
creation = Operation.create 1 (tokens_of "e1") new_payment ∷ []

abbrev day : List Operation
day =
    Operation.create 1 (tokens_of "e1") new_payment
    ∷ Operation.create 2 (tokens_of "e2") new_payment
    ∷ Operation.patch 3 (tokens_of "e3") "task_t1" validation
    ∷ Operation.claim 4 10 30
    ∷ Operation.complete 5 "evt_e1"
    ∷ Operation.fail 6 "evt_e3" "no answer"
    ∷ []

abbrev created : Database
created = run creation empty_database

abbrev patched_task : Task
patched_task = patched 3 validation (new_task 1 (tokens_of "e1") new_payment)

patch_answer :
    (update_task_state 3 (tokens_of "e3") "task_t1" validation created).0 ≡ ok (some patched_task)
unfolding run step create_task new_task created_event violates_unique get_task patched changed_event
    patch_found patch_lookup update_task_state find exists string_discrete TaskStatus-discrete
    ApprovalStatus-discrete BeneficiaryStatus-discrete
patch_answer = refl

-- The failed event may be claimed again; the completed one may not.
claims_again : event_ids (claim_outbox_events 7 10 30 (run day empty_database)).0 ≡ "evt_e3" ∷ []
unfolding run step create_task new_task created_event violates_unique get_task patched changed_event
    patch_found patch_lookup update_task_state find exists string_discrete TaskStatus-discrete
    ApprovalStatus-discrete BeneficiaryStatus-discrete claimable insert_by order_by
    order_by_created_at limited selected event_ids claim_outbox_events complete_outbox_event
    fail_outbox_event failed OutboxStatus-discrete change_found get_outbox_event select update is_in
    ℕ_discrete
claims_again = refl

run-IsReplayed_example : IsReplayed (run day empty_database)
run-IsReplayed_example = run-IsReplayed day

patch_effect_example :
    PatchEffect "task_t1" created
      (update_task_state 3 (tokens_of "e3") "task_t1" validation created).1
      (update_task_state 3 (tokens_of "e3") "task_t1" validation created).0
patch_effect_example = patch_effect 3 (tokens_of "e3") "task_t1" validation created

patch_repeat_example :
    update_task_state 9
      (tokens_of "e4")
      "task_t1"
      validation
      (update_task_state 3 (tokens_of "e3") "task_t1" validation created).1
    ≡ (
      err (unchanged_error "task_t1"),
      (update_task_state 3 (tokens_of "e3") "task_t1" validation created).1,
    )
patch_repeat_example =
    patch_repeat 3 9 (tokens_of "e3") (tokens_of "e4") "task_t1" validation created patched_task
      patch_answer

claim_effect_example :
    ClaimEffect 2 10 30 created
      (claim_outbox_events 2 10 30 created).0
      (claim_outbox_events 2 10 30 created).1
claim_effect_example = claim_effect 2 10 30 created

created_claimed : is_in "evt_e1" (event_ids (claim_outbox_events 2 10 30 created).0) ≡ true
unfolding run step create_task new_task created_event violates_unique find exists string_discrete
    claimable insert_by order_by order_by_created_at limited selected event_ids claim_outbox_events
    select update is_in ℕ_discrete
created_claimed = refl

abbrev event_name : String
event_name = "evt_e1"

abbrev other_name : String
other_name = "evt_e3"

-- In between another event fails, and the event is claimed and patched in vain.
abbrev between : List Operation
between =
    Operation.fail 3 other_name "no answer"
    ∷ Operation.claim 20 5 60
    ∷ Operation.patch 21 (tokens_of "e1") "task_t1" validation
    ∷ []

failed_other : other_name ≢ event_name
unfolding string_discrete
failed_other e = false≢true (ap (λ s. s == event_name) e)

claims_exclusive_example :
    is_in event_name (
      event_ids
        (claim_outbox_events 30 5 60 (run between (claim_outbox_events 2 10 30 created).1)).0)
    ≡ false
claims_exclusive_example =
    claims_exclusive 2 10 30 created event_name between 30 5 60
      (failed_other, (omega arith, (tt, tt))) (omega arith) created_claimed

abbrev claim_request : OutboxClaimRequest
claim_request = record { limit = 10; lease_seconds = 30 }

post_claim_answers_example :
    (r : List TaskLifecycleOutboxEvent) × ((post_claim 7 claim_request (run day empty_database)).0
      ≡ ok r)
    × (length r ≡ min 10 (claimable_count 7 30 (run day empty_database)))
post_claim_answers_example = post_claim_answers day 7 claim_request refl

-- The failed event is claimed once more.
abbrev next_day : List Operation
next_day = day ++ Operation.claim 7 10 30 ∷ []

run-IsRecorded_example :
    All
      (λ e. IsRecorded (claim_history next_day) e × (e.attempt_count ≤ claims next_day))
      (run next_day empty_database).outbox
run-IsRecorded_example = run-IsRecorded next_day

run-IsTyped_example : IsTyped (run day empty_database)
run-IsTyped_example = run-IsTyped day

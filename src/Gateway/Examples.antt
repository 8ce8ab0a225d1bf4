-- ===== src/Gateway/Examples.antt =====
-- The gateway on concrete calls.
use control_architecture.Base.{
  String, none, some, List, [], ◌∷◌, ◌≡◌, ◌≢◌, ◌≤◌, refl, ok, err, All, string_discrete, ℕ_discrete,
  false≢true, ap, get, put, is_in, lower_code, contains, ends_with, starts_with, ◌==◌, string_eq,
}
use control_architecture.Contracts.Literals.{
  Rail, TaskStatus, MockRailOutcome, ReleaseMode, ReleaseMode-discrete,
}
use control_architecture.ControlPlane.Document.{default_config}
use control_architecture.Gateway.Types.{
  DomesticPaymentInstructionRequest, ReleaseApprovedPaymentRequest, ReleaseApprovedPaymentResponse,
}
use control_architecture.Gateway.Rail.{lower, release_outcome, outcome_answer, release_payment}
use control_architecture.Gateway.Fingerprint.{json_string, canonical_payload}
use control_architecture.Gateway.Store.{
  Capability, GatewayService, GatewayStore, GatewayPaymentRecord, empty_store, put_record,
  put_idempotency_record, side_effect_class, capability_create_instruction,
  capability_validate_beneficiary, capability_release_payment, capability_check_status, no_record,
  duplicate_request,
}
use control_architecture.Gateway.Service.{
  InstructionTokens, instruction_record, create_instruction, matching_record,
}
use control_architecture.Gateway.Release.{
  release_approved_payment, release_matched, release_keyed, submit_release, release_response,
  released_record,
}
use control_architecture.Gateway.Calls.{Call, call, run, IsClassified, call_error_unchanged}
use control_architecture.Gateway.Coherence.{run-IsCoherent, run_coherent}
use control_architecture.Gateway.Idempotency.{submissions, submissions-le-one}
use control_architecture.Gateway.Replay.{
  MakesNo, IsServed, marked, release_replays, release_conflicts,
}

abbrev capability : String → String → Capability
capability id class = record {
  id = id;
  owner = some "capability-gateway";
  side_effect_class = some class;
  dry_run_supported = none;
}

-- A service whose digest is the text itself.
abbrev service : GatewayService
service = record {
  config = default_config;
  app_name = "capability-gateway";
  capabilities =
      (capability_check_status, capability capability_check_status "none")
      ∷ (capability_create_instruction, capability capability_create_instruction "none")
      ∷ (
        capability_release_payment,
        capability capability_release_payment "irreversible-financial-action",
      )
      ∷ (capability_validate_beneficiary, capability capability_validate_beneficiary "none")
      ∷ [];
  ambiguous_status = "pending_reconcile";
  sha256 = λ s. s;
}

abbrev tokens : InstructionTokens
tokens = record { task = "t1"; payment = "p1"; instruction = "i1" }

abbrev instruction : DomesticPaymentInstructionRequest
instruction = record {
  customer_id = "cust_1";
  source_account_id = "acct_1";
  beneficiary_id = "ben_1";
  amount_usd = 250000;
  rail = Rail.ach;
  requested_execution_date = "2026-03-22";
  memo = none;
  initiated_by = "user.ops";
  trace_id = none;
}

abbrev release_with : String → String → ReleaseApprovedPaymentRequest
release_with key released_by = record {
  payment_id = "pay_p1";
  task_id = "task_t1";
  idempotency_key = key;
  released_by = released_by;
  release_mode = ReleaseMode.execute;
}

abbrev first_release : ReleaseApprovedPaymentRequest
first_release = release_with "release-key-1" "user.ops"

abbrev other_release : ReleaseApprovedPaymentRequest
other_release = release_with "release-key-1" "user.other"

abbrev between : List Call
between = Call.status "pay_p1" ∷ Call.release 5 (release_with "release-key-2" "user.ops") ∷ []

abbrev created_store : GatewayStore
created_store = run service (Call.create 1 tokens instruction ∷ []) empty_store

abbrev created_record : GatewayPaymentRecord
created_record = instruction_record service 1 tokens instruction

abbrev first_response : ReleaseApprovedPaymentResponse
first_response =
    release_response first_release
      (
        MockRailOutcome.success,
        record {
          payment_id = "pay_p1";
          status = TaskStatus.settlement_pending;
          rail = some Rail.ach;
          updated_at = 3;
          error_class = none;
          explanation = some "The mock rail accepted the release request.";
        },
      )
      created_record "irreversible-financial-action"

first_released :
    (release_approved_payment service 3 first_release created_store).0 ≡ ok first_response
unfolding run call create_instruction instruction_record put_record matching_record
    release_approved_payment release_matched release_keyed submit_release release_payment
    release_outcome outcome_answer lower lower_code contains ends_with starts_with side_effect_class
    get put is_in string_discrete ReleaseMode-discrete put_idempotency_record ℕ_discrete
first_released = refl

-- Names that the rail reads decide what it answers.
rejected_outcome : release_outcome "pay_p1" "release-key-99" ≡ MockRailOutcome.reject
unfolding release_outcome lower lower_code contains ends_with starts_with ℕ_discrete
rejected_outcome = refl

ambiguous_outcome : release_outcome "pay_AMBIGUOUS" "release-key-1" ≡ MockRailOutcome.ambiguous
unfolding release_outcome lower lower_code contains ends_with starts_with ℕ_discrete
ambiguous_outcome = refl

service-IsClassified : IsClassified service
unfolding side_effect_class get string_discrete
service-IsClassified = record { create = λ e. cc; validate = λ e. cc; release = λ e. cc }

unknown_release : (call service (Call.release 1 first_release) empty_store).0 ≡ err no_record
unfolding call release_approved_payment release_matched matching_record get
unknown_release = refl

call_error_unchanged_example :
    (call service (Call.release 1 first_release) empty_store).1 ≡ empty_store
call_error_unchanged_example =
    call_error_unchanged service (Call.release 1 first_release) empty_store no_record
      service-IsClassified unknown_release

abbrev day : List Call
day =
    Call.create 1 tokens instruction
    ∷ Call.release 3 first_release
    ∷ Call.release 4 other_release
    ∷ []

submissions-le-one_example : submissions "release-key-1" service day empty_store ≤ 1
submissions-le-one_example = submissions-le-one service day empty_store "release-key-1"

between-MakesNo : All (MakesNo "pay_p1") between
between-MakesNo = (λ e. cc, (λ e. cc, tt))

release_replays_example :
    release_approved_payment service 9 first_release
      (run service between (release_approved_payment service 3 first_release created_store).1)
    ≡ (
      ok (marked first_response),
      run service between (release_approved_payment service 3 first_release created_store).1,
    )
release_replays_example =
    release_replays service 3 9 first_release created_store between first_response
      (run-IsCoherent service (Call.create 1 tokens instruction ∷ [])) between-MakesNo
      first_released

abbrev status_call : List Call
status_call = Call.status "pay_p1" ∷ []

abbrev released_store : GatewayStore
released_store =
    run service status_call (release_approved_payment service 3 first_release created_store).1

abbrev released : GatewayPaymentRecord
released = released_record first_release first_response.result created_record

released_found : matching_record "pay_p1" "task_t1" released_store ≡ some released
unfolding run call create_instruction instruction_record put_record matching_record
    release_approved_payment release_matched release_keyed submit_release release_payment
    release_outcome outcome_answer lower lower_code contains ends_with starts_with side_effect_class
    get put is_in string_discrete ReleaseMode-discrete put_idempotency_record ℕ_discrete
released_found = refl

stored :
    get "pay_p1"
      (run service
        (Call.create 1 tokens instruction ∷ Call.release 3 first_release ∷ [])
        empty_store).by_payment_id
    ≡ some released
unfolding run call create_instruction instruction_record put_record matching_record
    release_approved_payment release_matched release_keyed submit_release release_payment
    release_outcome outcome_answer lower lower_code contains ends_with starts_with side_effect_class
    get put is_in string_discrete ReleaseMode-discrete put_idempotency_record ℕ_discrete
stored = refl

other_digest :
    service.sha256 (canonical_payload other_release)
    ≢ service.sha256 (canonical_payload first_release)
unfolding canonical_payload json_string string_discrete ℕ_discrete
other_digest e = false≢true (ap (λ s. s == service.sha256 (canonical_payload first_release)) e)

other-IsServed : IsServed service other_release
unfolding ReleaseMode-discrete
other-IsServed = refl

release_conflicts_example :
    release_approved_payment service 9 other_release released_store
    ≡ (err duplicate_request, released_store)
release_conflicts_example =
    release_conflicts service 3 9 first_release other_release created_store status_call
      first_response released (run-IsCoherent service (Call.create 1 tokens instruction ∷ []))
      (λ e. cc, tt) first_released refl other_digest other-IsServed released_found

run_coherent_example :
    (released.task.payment_id ≡ "pay_p1")
    × (released.payment_status.payment_id ≡ "pay_p1")
    × (released.payment_status.status ≡ released.task.status)
run_coherent_example =
    run_coherent service (Call.create 1 tokens instruction ∷ Call.release 3 first_release ∷ [])
      "pay_p1" released stored

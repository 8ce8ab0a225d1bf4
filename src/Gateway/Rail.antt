-- ===== src/Gateway/Rail.antt =====
-- The mock rail (apps/capability-gateway/src/capability_gateway/mock_rail.py).
use control_architecture.Base.{
  ℕ, String, ◌||◌, Option, none, some, List, [], ◌∷◌, map, if◌then◌else◌, format, codes, lower_code,
  contains, ends_with,
}
use control_architecture.Contracts.Literals.{
  Rail, TaskStatus, BeneficiaryValidationStatus, MockRailOutcome, parse_task_status,
}
use control_architecture.Contracts.Envelopes.{Time}
use control_architecture.Gateway.Types.{BeneficiaryValidationResult, PaymentStatusResponse}

-- `str.lower` of a text, as code points.
unfoldable pub lower : String → List ℕ
unfolding lower_code
lower s = map lower_code (codes s)

unfoldable pub validate_beneficiary : String → Time → BeneficiaryValidationResult
unfolding lower contains ends_with
validate_beneficiary beneficiary_id validated_at =
    let normalized = lower beneficiary_id in
    if contains normalized (codes "review") || ends_with normalized (codes "7")
    then record {
      beneficiary_id = beneficiary_id;
      status = BeneficiaryValidationStatus.needs_review;
      reason = some "The mock rail flagged this beneficiary for manual review.";
      validated_at = validated_at;
    }
    else if contains normalized (codes "reject") || ends_with normalized (codes "9")
    then record {
      beneficiary_id = beneficiary_id;
      status = BeneficiaryValidationStatus.rejected;
      reason = some "The mock rail rejected the beneficiary details.";
      validated_at = validated_at;
    }
    else record {
      beneficiary_id = beneficiary_id;
      status = BeneficiaryValidationStatus.validated;
      reason = some "The mock rail validated the beneficiary account.";
      validated_at = validated_at;
    }

-- The outcome that the rail picks for a payment and a key.
unfoldable pub release_outcome : String → String → MockRailOutcome
unfolding lower contains ends_with
release_outcome payment_id idempotency_key =
    let outcome_token = lower (format (payment_id ∷ ":" ∷ idempotency_key ∷ [])) in
    let key = codes idempotency_key in
    if contains outcome_token (codes "ambiguous") || ends_with key (codes "77")
    then MockRailOutcome.ambiguous
    else if contains outcome_token (codes "reject") || ends_with key (codes "99")
    then MockRailOutcome.reject
    else MockRailOutcome.success

-- The answer to an outcome. The configured status of an ambiguous one is validated as a payment
-- status; `none` is the ValidationError.
unfoldable pub outcome_answer :
    String
    → MockRailOutcome
    → String
    → Rail
    → Time
    → Option (MockRailOutcome × PaymentStatusResponse)
outcome_answer ambiguous_status MockRailOutcome.ambiguous payment_id rail updated_at =
    elim (parse_task_status ambiguous_status) [
      | none ↦ none
      | some status ↦ some (
        MockRailOutcome.ambiguous,
        record {
          payment_id = payment_id;
          status = status;
          rail = some rail;
          updated_at = updated_at;
          error_class = some "ambiguous_result";
          explanation =
              some "The mock rail returned an ambiguous release outcome that needs reconciliation.";
        },
      )
    ]
outcome_answer ambiguous_status MockRailOutcome.reject payment_id rail updated_at = some (
  MockRailOutcome.reject,
  record {
    payment_id = payment_id;
    status = TaskStatus.failed;
    rail = some rail;
    updated_at = updated_at;
    error_class = some "state_conflict";
    explanation = some "The mock rail rejected the release request.";
  },
)
outcome_answer ambiguous_status MockRailOutcome.success payment_id rail updated_at = some (
  MockRailOutcome.success,
  record {
    payment_id = payment_id;
    status = TaskStatus.settlement_pending;
    rail = some rail;
    updated_at = updated_at;
    error_class = none;
    explanation = some "The mock rail accepted the release request.";
  },
)

unfoldable pub release_payment :
    String → String → Rail → String → Time → Option (MockRailOutcome × PaymentStatusResponse)
unfolding release_outcome outcome_answer
release_payment ambiguous_status payment_id rail idempotency_key updated_at =
    outcome_answer ambiguous_status (release_outcome payment_id idempotency_key) payment_id rail
      updated_at

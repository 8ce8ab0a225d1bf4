-- ===== src/Gateway/Release.antt =====
-- The release of a payment and its idempotency records
-- (apps/capability-gateway/src/capability_gateway/service.py, release_approved_payment).
use control_architecture.Base.{
  String, Bool, true, false, ◌&&◌, not, Option, none, some, ◌==◌, if◌then◌else◌, string_eq, Result,
  ok, err, or_value, get,
}
use control_architecture.Contracts.Literals.{
  MockRailOutcome, ApprovalStatus, ReleaseMode, release_mode_eq, validation_status_eq,
}
use control_architecture.Contracts.Envelopes.{Time}
use control_architecture.Gateway.Types.{
  ReleaseApprovedPaymentRequest, ReleaseApprovedPaymentResponse, PaymentStatusResponse,
}
use control_architecture.Gateway.Rail.{release_payment}
use control_architecture.Gateway.Fingerprint.{canonical_payload}
use control_architecture.Gateway.Store.{
  no_record, dry_run_unsupported, duplicate_request, side_effect_class, capability_release_payment,
  GatewayFault, Capability, GatewayPaymentRecord, IdempotencyRecord, GatewayStore, put_record,
  put_idempotency_record, GatewayService,
}
use control_architecture.Gateway.Service.{Outcome, matching_record, copy_task}

abbrev pub release_fingerprint : GatewayService → ReleaseApprovedPaymentRequest → String
release_fingerprint g p = g.sha256 (canonical_payload p)

abbrev pub supports_dry_run : Option Capability → Bool
supports_dry_run none = false
supports_dry_run (some c) = or_value c.dry_run_supported false

abbrev pub released_record :
    ReleaseApprovedPaymentRequest
    → PaymentStatusResponse
    → GatewayPaymentRecord
    → GatewayPaymentRecord
released_record p status r = record r {
  task =
      copy_task r.task (some status.status) none (some ApprovalStatus.approved) p.released_by none;
  payment_status = status;
}

abbrev pub release_response :
    ReleaseApprovedPaymentRequest
    → MockRailOutcome × PaymentStatusResponse
    → GatewayPaymentRecord
    → String
    → ReleaseApprovedPaymentResponse
release_response p a r c = record {
  capability_id = capability_release_payment;
  side_effect_class = c;
  idempotency_key = p.idempotency_key;
  idempotency_replayed = false;
  mock_rail_outcome = a.0;
  result = a.1;
  task = (released_record p a.1 r).task;
}

-- A first release with its key: the rail is called, the record and then the response are stored.
unfoldable pub submit_release :
    GatewayService
    → Time
    → ReleaseApprovedPaymentRequest
    → GatewayPaymentRecord
    → GatewayStore
    → Outcome ReleaseApprovedPaymentResponse
unfolding put_record put_idempotency_record
submit_release g now p r s =
    elim (release_payment g.ambiguous_status p.payment_id r.task.rail p.idempotency_key now) [
      | none ↦ (err GatewayFault.validation_error, s)
      | some a ↦ elim (side_effect_class g capability_release_payment) [
        | none ↦ (err GatewayFault.key_error, put_record (released_record p a.1 r) s)
        | some c ↦ (
          ok (release_response p a r c),
          put_idempotency_record p.idempotency_key
              (record {
                fingerprint = release_fingerprint g p;
                response = release_response p a r c;
              })
              (put_record (released_record p a.1 r) s),
        )
      ]
    ]

-- A release whose key is known: the stored response, or a conflict.
abbrev pub replay_release :
    GatewayService
    → ReleaseApprovedPaymentRequest
    → IdempotencyRecord
    → Result GatewayFault ReleaseApprovedPaymentResponse
replay_release g p prior =
    if prior.fingerprint == release_fingerprint g p
    then ok (record prior.response { idempotency_replayed = true })
    else err duplicate_request

-- The rest of a release, once its record is known.
unfoldable pub release_keyed :
    GatewayService
    → Time
    → ReleaseApprovedPaymentRequest
    → GatewayPaymentRecord
    → Option IdempotencyRecord
    → GatewayStore
    → Outcome ReleaseApprovedPaymentResponse
release_keyed g now p r none s = submit_release g now p r s
release_keyed g now p r (some prior) s = (replay_release g p prior, s)

unfoldable pub release_matched :
    GatewayService
    → Time
    → ReleaseApprovedPaymentRequest
    → Option GatewayPaymentRecord
    → GatewayStore
    → Outcome ReleaseApprovedPaymentResponse
unfolding release_keyed
release_matched g now p none s = (err no_record, s)
release_matched g now p (some r) s =
    if (p.release_mode == ReleaseMode.dry_run)
      && not (supports_dry_run (get capability_release_payment g.capabilities))
    then (err dry_run_unsupported, s)
    else release_keyed g now p r (get p.idempotency_key s.idempotency_records) s

unfoldable pub release_approved_payment :
    GatewayService
    → Time
    → ReleaseApprovedPaymentRequest
    → GatewayStore
    → Outcome ReleaseApprovedPaymentResponse
unfolding release_matched
release_approved_payment g now p s =
    release_matched g now p (matching_record p.payment_id p.task_id s) s

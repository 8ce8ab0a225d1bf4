-- ===== src/Gateway/Idempotency.antt =====
-- Releases and their idempotency keys over sequences of calls
-- (apps/capability-gateway/src/capability_gateway/service.py, release_approved_payment).
use control_architecture.Base.{
  if_case, ℕ, String, false, Option, none, some, List, [], ◌∷◌, ◌≡◌, refl, Result, ok, err, ◌==◌,
  if◌then◌else◌, string_eq, arith, get, put, get-put, ◌+◌, ◌≤◌, Option-cases, inl, inr, ◌⊎◌,
  string_discrete,
}
use control_architecture.Contracts.Envelopes.{Time}
use control_architecture.Gateway.Types.{
  ReleaseApprovedPaymentRequest, ReleaseApprovedPaymentResponse,
}
use control_architecture.Gateway.Store.{
  GatewayFault, GatewayService, GatewayStore, GatewayPaymentRecord, IdempotencyRecord,
  dry_run_unsupported, no_record, side_effect_class, capability_release_payment,
}
use control_architecture.Gateway.Service.{
  create_instruction, validate_beneficiary, get_payment_status, matching_record, Outcome,
}
use control_architecture.Gateway.Rail.{release_payment}
use control_architecture.Gateway.Release.{
  release_matched, release_keyed, release_approved_payment, submit_release, release_fingerprint,
  replay_release, release_response,
}
use control_architecture.Gateway.Calls.{Call, Reply, call}

-- Whether a reply reports a release that was submitted with this key just now.
abbrev pub is_submission : String → Result GatewayFault Reply → ℕ
is_submission k (ok (Reply.released r)) =
    if r.idempotency_replayed then 0 else if r.idempotency_key == k then 1 else 0
is_submission k _ = 0

-- How many of a sequence of calls submit a release with this key.
unfoldable pub submissions : String → GatewayService → List Call → GatewayStore → ℕ
submissions k g [] s = 0
submissions k g (c ∷ r) s = is_submission k (call g c s).0 + submissions k g r (call g c s).1

-- The record of a submitted release.
abbrev pub entry :
    GatewayService
    → ReleaseApprovedPaymentRequest
    → ReleaseApprovedPaymentResponse
    → IdempotencyRecord
entry g p r = record { fingerprint = release_fingerprint g p; response = r }

-- What a release call comes to, as far as the idempotency records go.
pub data ReleaseCase (g : GatewayService) (p : ReleaseApprovedPaymentRequest) (s : GatewayStore)
    (out : Outcome ReleaseApprovedPaymentResponse) : Type 0 where
  refused :
      (e : GatewayFault)
      → out.0 ≡ err e
      → out.1.idempotency_records ≡ s.idempotency_records
      → ReleaseCase g p s out
  replayed :
      (x : IdempotencyRecord)
      → get p.idempotency_key s.idempotency_records ≡ some x
      → out ≡ (replay_release g p x, s)
      → ReleaseCase g p s out
  submitted :
      (r : ReleaseApprovedPaymentResponse)
      → get p.idempotency_key s.idempotency_records ≡ none
      → out.0 ≡ ok r
      → (r.idempotency_replayed ≡ false) × (r.idempotency_key ≡ p.idempotency_key)
      → out.1.idempotency_records ≡ put p.idempotency_key (entry g p r) s.idempotency_records
      → ReleaseCase g p s out

module _ (g : GatewayService) (now : Time) (p : ReleaseApprovedPaymentRequest)
    (s : GatewayStore) where
  submit_release_case :
      (t : GatewayPaymentRecord)
      → get p.idempotency_key s.idempotency_records ≡ none
      → ReleaseCase g p s (submit_release g now p t s)
  unfolding submit_release
  submit_release_case t fresh =
      elim (Option-cases
        (release_payment g.ambiguous_status p.payment_id t.task.rail p.idempotency_key now)) [
          | inl e ↦ ReleaseCase.refused GatewayFault.validation_error (ground arith) (ground arith)
          | inr (a, e) ↦ elim (Option-cases (side_effect_class g capability_release_payment)) [
            | inl f ↦ ReleaseCase.refused GatewayFault.key_error (ground arith) (ground arith)
            | inr (c, f) ↦
                ReleaseCase.submitted (release_response p a t c) fresh (ground arith) (refl, refl)
                  (ground arith)
          ]
        ]

  keyed_case :
      (t : GatewayPaymentRecord) (o : Option IdempotencyRecord)
      → get p.idempotency_key s.idempotency_records ≡ o
      → ReleaseCase g p s (release_keyed g now p t o s)
  unfolding release_keyed
  keyed_case t none e = submit_release_case t e
  keyed_case t (some x) e = ReleaseCase.replayed x e refl

  matched_case : (o : Option GatewayPaymentRecord) → ReleaseCase g p s (release_matched g now p o s)
  unfolding release_matched
  matched_case none = ReleaseCase.refused no_record refl refl
  matched_case (some t) =
      if_case (ReleaseCase g p s) _ (ReleaseCase.refused dry_run_unsupported refl refl)
        (unfold release_keyed in keyed_case t (get p.idempotency_key s.idempotency_records) refl)

  pub release_case : ReleaseCase g p s (release_approved_payment g now p s)
  unfolding release_approved_payment
  release_case = matched_case (matching_record p.payment_id p.task_id s)

-- A recorded key keeps its record, and no call reports a new submission of it.
pub call-recorded :
    (g : GatewayService) (c : Call) (s : GatewayStore) (k : String) (x : IdempotencyRecord)
    → get k s.idempotency_records ≡ some x
    → (get k (call g c s).1.idempotency_records ≡ some x) × (is_submission k (call g c s).0 ≡ 0)
unfolding call create_instruction validate_beneficiary get_payment_status
call-recorded g (Call.create now tokens p) s k x h = ground arith
call-recorded g (Call.validate now p) s k x h = ground arith
call-recorded g (Call.status payment_id) s k x h = ground arith
call-recorded g (Call.release now p) s k x h = elim (release_case g now p s) [
  | refused e a b ↦ rw (a, b) (h, refl)
  | replayed y a b ↦ rw b (h, ground arith)
  | submitted r a b f d ↦
      rw (b, d) (ground (arith, get-put p.idempotency_key k (entry g p r) s.idempotency_records))
]

-- A call submits a release with a key at most once, and then the key is recorded.
call-submits :
    (g : GatewayService) (c : Call) (s : GatewayStore) (k : String)
    → (is_submission k (call g c s).0 ≡ 0)
      ⊎ ((is_submission k (call g c s).0 ≡ 1)
          × ((x : IdempotencyRecord) × (get k (call g c s).1.idempotency_records ≡ some x)))
unfolding call create_instruction validate_beneficiary get_payment_status
call-submits g (Call.create now tokens p) s k = inl (ground arith)
call-submits g (Call.validate now p) s k = inl (ground arith)
call-submits g (Call.status payment_id) s k = inl (ground arith)
call-submits g (Call.release now p) s k = elim (release_case g now p s) [
  | refused e a b ↦ inl (rw a)
  | replayed y a b ↦ inl (rw b (ground arith))
  | submitted r a b f d ↦ elim (string_discrete p.idempotency_key k) [
    | yes e ↦ inr (
      rw b (ground arith),
      (
        entry g p r,
        rw d (ground (arith, get-put p.idempotency_key k (entry g p r) s.idempotency_records)),
      ),
    )
    | no ne ↦ inl (rw b (ground arith))
  ]
]

recorded-submissions :
    (g : GatewayService) (calls : List Call) (s : GatewayStore) (k : String) (x : IdempotencyRecord)
    → get k s.idempotency_records ≡ some x
    → submissions k g calls s ≡ 0
unfolding submissions
recorded-submissions g [] s k x h = refl
recorded-submissions g (c ∷ r) s k x h =
    let (kept, none_new) = call-recorded g c s k x h in
    omega (arith, none_new, recorded-submissions g r (call g c s).1 k x kept)

-- Whatever calls are made, in whatever order, a release with a given idempotency key is submitted
-- and answered at most once; every other answer with the key is a replay or an error.
pub submissions-le-one :
    (g : GatewayService) (calls : List Call) (s : GatewayStore) (k : String)
    → submissions k g calls s ≤ 1
unfolding submissions
submissions-le-one g [] s k = omega arith
submissions-le-one g (c ∷ r) s k = elim (call-submits g c s k) [
  | inl z ↦ omega (arith, z, submissions-le-one g r (call g c s).1 k)
  | inr (one, (x, h)) ↦ omega (arith, one, recorded-submissions g r (call g c s).1 k x h)
]

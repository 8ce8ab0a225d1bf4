-- ===== src/Gateway/Replay.antt =====
-- What a release answers when it is sent again later
-- (apps/capability-gateway/src/capability_gateway/service.py, release_approved_payment).
use control_architecture.Base.{
  String, true, false, some, List, [], ◌∷◌, ◌≡◌, ◌≢◌, refl, arith, get, put, get-put, Option-cases,
  inl, inr, string_discrete, ◌==◌, string_eq, sym, ◌∙◌, ok, err, All, ap, not, ◌&&◌,
}
use control_architecture.Contracts.Literals.{ReleaseMode, release_mode_eq}
use control_architecture.Contracts.Envelopes.{Time}
use control_architecture.Gateway.Types.{
  ReleaseApprovedPaymentRequest, ReleaseApprovedPaymentResponse,
}
use control_architecture.Gateway.Store.{
  GatewayService, GatewayStore, GatewayPaymentRecord, IdempotencyRecord, duplicate_request,
  capability_release_payment,
}
use control_architecture.Gateway.Fingerprint.{canonical_payload}
use control_architecture.Gateway.Service.{matching_record}
use control_architecture.Gateway.Release.{
  release_approved_payment, release_matched, replay_release, release_fingerprint, supports_dry_run,
}
use control_architecture.Gateway.Calls.{Call, call, run}
use control_architecture.Gateway.Idempotency.{ReleaseCase, release_case, call-recorded, entry}
use control_architecture.Gateway.Coherence.{
  IsCoherent, created_id, Write, call-Write, call-IsCoherent, matching-get,
}

-- The calls make no new payment under this id.
abbrev pub MakesNo : String → Call → Type 0
MakesNo payment_id c = created_id c ≢ some payment_id

match-put :
    (payment_id task_id : String) (s t : GatewayStore) (o r : GatewayPaymentRecord)
    → matching_record payment_id task_id s ≡ some o
    → (r.task.payment_id ≡ payment_id → r.task.task_id ≡ task_id)
    → t.by_payment_id ≡ put r.task.payment_id r s.by_payment_id
    → (x : GatewayPaymentRecord) × (matching_record payment_id task_id t ≡ some x)
unfolding matching_record
match-put payment_id task_id s t o r m same e =
    elim (string_discrete r.task.payment_id payment_id) [
      | yes p ↦
          (r, rw e (ground (arith, get-put r.task.payment_id payment_id r s.by_payment_id, same p)))
      | no ne ↦ (o, rw e (ground (arith, get-put r.task.payment_id payment_id r s.by_payment_id)))
    ]

match-kept :
    (payment_id task_id : String) (s t : GatewayStore) (o : GatewayPaymentRecord)
    → matching_record payment_id task_id s ≡ some o
    → t.by_payment_id ≡ s.by_payment_id
    → matching_record payment_id task_id t ≡ some o
unfolding matching_record
match-kept payment_id task_id s t o m e = ground arith

-- A payment that has a record of a task keeps having one.
call-keeps_match :
    (g : GatewayService) (c : Call) (s : GatewayStore) (payment_id task_id : String)
    (o : GatewayPaymentRecord)
    → IsCoherent s
    → MakesNo payment_id c
    → matching_record payment_id task_id s ≡ some o
    → (x : GatewayPaymentRecord) × (matching_record payment_id task_id (call g c s).1 ≡ some x)
call-keeps_match g c s payment_id task_id o w f m = elim (call-Write g s w c) [
  | Write.kept e ↦ (o, match-kept payment_id task_id s (call g c s).1 o m e)
  | Write.added r a i e ↦
      match-put payment_id task_id s (call g c s).1 o r m (λ p. absurd (f (a ∙ ap some p))) e
  | Write.replaced q r a b i e ↦
      match-put payment_id task_id s (call g c s).1 o r m
        (λ p. ground (arith, matching-get payment_id task_id s o m)) e
]

-- What a release needs to be answered from its record.
record IsRecorded (p : ReleaseApprovedPaymentRequest) (x : IdempotencyRecord) (s : GatewayStore)
    : Type 0 where
  coherent : IsCoherent s
  recorded : get p.idempotency_key s.idempotency_records ≡ some x
  matched : (o : GatewayPaymentRecord) × (matching_record p.payment_id p.task_id s ≡ some o)

run-IsRecorded :
    (g : GatewayService) (calls : List Call) (s : GatewayStore) (p : ReleaseApprovedPaymentRequest)
    (x : IdempotencyRecord)
    → All (MakesNo p.payment_id) calls
    → IsRecorded p x s
    → IsRecorded p x (run g calls s)
unfolding run
run-IsRecorded g [] s p x f h = h
run-IsRecorded g (c ∷ r) s p x f h = run-IsRecorded g r (call g c s).1 p x f.1 (record {
  coherent = call-IsCoherent g c s h.coherent;
  recorded = (call-recorded g c s p.idempotency_key x h.recorded).0;
  matched = call-keeps_match g c s p.payment_id p.task_id h.matched.0 h.coherent f.0 h.matched.1;
})

-- A request that the release capability can serve in its mode.
abbrev pub IsServed : GatewayService → ReleaseApprovedPaymentRequest → Type 0
IsServed g p =
    ((p.release_mode == ReleaseMode.dry_run)
      && not (supports_dry_run (get capability_release_payment g.capabilities)))
    ≡ false

recorded_answer :
    (g : GatewayService) (now : Time) (p : ReleaseApprovedPaymentRequest) (x : IdempotencyRecord)
    (s : GatewayStore)
    → IsServed g p
    → IsRecorded p x s
    → release_approved_payment g now p s ≡ (replay_release g p x, s)
unfolding release_approved_payment
recorded_answer g now p x s served h = rw h.matched.1 (rw (served, h.recorded))

abbrev pub marked : ReleaseApprovedPaymentResponse → ReleaseApprovedPaymentResponse
marked r = record r { idempotency_replayed = true }

-- The record that a successful release leaves, or has found.
release-record :
    (g : GatewayService) (now : Time) (p : ReleaseApprovedPaymentRequest) (s : GatewayStore)
    (r : ReleaseApprovedPaymentResponse)
    → (release_approved_payment g now p s).0 ≡ ok r
    → (x : IdempotencyRecord) × (get p.idempotency_key
          (release_approved_payment g now p s).1.idempotency_records
        ≡ some x)
      × (x.fingerprint ≡ release_fingerprint g p)
      × (marked x.response ≡ marked r)
release-record g now p s r h = elim (release_case g now p s) [
  | ReleaseCase.refused e a b ↦ cc
  | ReleaseCase.replayed x a b ↦
      let answer : replay_release g p x ≡ ok r = sym (ap (λ o. o.0) b) ∙ h in
      (x, rw b a, ground (arith, answer), ground (arith, answer))
  | ReleaseCase.submitted q a b f d ↦ (
    entry g p q,
    rw d (
        ground
          (arith, get-put p.idempotency_key p.idempotency_key (entry g p q) s.idempotency_records)),
    refl,
    ground arith,
  )
]

-- A recorded request with the same digest is answered with the recorded response.
replay-answer :
    (g : GatewayService) (p : ReleaseApprovedPaymentRequest) (x : IdempotencyRecord)
    (r : ReleaseApprovedPaymentResponse)
    → x.fingerprint ≡ release_fingerprint g p
    → marked x.response ≡ marked r
    → replay_release g p x ≡ ok (marked r)
replay-answer g p x r same response = rw (← response) (ground arith)

release-IsServed :
    (g : GatewayService) (now : Time) (p : ReleaseApprovedPaymentRequest) (s : GatewayStore)
    (o : GatewayPaymentRecord) (r : ReleaseApprovedPaymentResponse)
    → (release_matched g now p (some o) s).0 ≡ ok r
    → IsServed g p
unfolding release_matched
release-IsServed g now p s o r h = ground arith

-- A successful release had a matching record, in a mode that is served.
release-matched :
    (g : GatewayService) (now : Time) (p : ReleaseApprovedPaymentRequest) (s : GatewayStore)
    (r : ReleaseApprovedPaymentResponse)
    → (release_approved_payment g now p s).0 ≡ ok r
    → IsServed g p
      × ((o : GatewayPaymentRecord) × (matching_record p.payment_id p.task_id s ≡ some o))
unfolding release_approved_payment
release-matched g now p s r h = elim (Option-cases (matching_record p.payment_id p.task_id s)) [
  | inl e ↦ cc (h, ap (λ o. (release_matched g now p o s).0) e)
  | inr m ↦ (
    release-IsServed g now p s m.0 r (sym (ap (λ o. (release_matched g now p o s).0) m.1) ∙ h),
    m,
  )
]

release-IsRecorded :
    (g : GatewayService) (now : Time) (p : ReleaseApprovedPaymentRequest) (s : GatewayStore)
    (r : ReleaseApprovedPaymentResponse)
    → IsCoherent s
    → (h : (release_approved_payment g now p s).0 ≡ ok r)
    → IsRecorded p (release-record g now p s r h).0 (release_approved_payment g now p s).1
unfolding call
release-IsRecorded g now p s r w h =
    let m = (release-matched g now p s r h).1 in
    record {
      coherent = call-IsCoherent g (Call.release now p) s w;
      recorded = (release-record g now p s r h).1;
      matched =
          call-keeps_match g (Call.release now p) s p.payment_id p.task_id m.0 w (λ e. cc) m.1;
    }

-- A release that was answered, sent again after any calls that make no new payment under its id,
-- is answered with the same response, marked as a replay, and changes nothing.
pub release_replays :
    (g : GatewayService) (now later : Time) (p : ReleaseApprovedPaymentRequest) (s : GatewayStore)
    (calls : List Call) (r : ReleaseApprovedPaymentResponse)
    → IsCoherent s
    → All (MakesNo p.payment_id) calls
    → (release_approved_payment g now p s).0 ≡ ok r
    → let t = run g calls (release_approved_payment g now p s).1 in
      release_approved_payment g later p t ≡ (ok (marked r), t)
release_replays g now later p s calls r w f h =
    let (x, found, same, response) = release-record g now p s r h in
    let t = run g calls (release_approved_payment g now p s).1 in
    recorded_answer g later p x t (release-matched g now p s r h).0 (
      run-IsRecorded g calls (release_approved_payment g now p s).1 p x f
        (release-IsRecorded g now p s r w h))
    ∙ ap (λ q. (q, t)) (replay-answer g p x r same response)

conflict_answer :
    (g : GatewayService) (now : Time) (q : ReleaseApprovedPaymentRequest) (x : IdempotencyRecord)
    (s : GatewayStore) (o : GatewayPaymentRecord)
    → IsServed g q
    → matching_record q.payment_id q.task_id s ≡ some o
    → get q.idempotency_key s.idempotency_records ≡ some x
    → x.fingerprint ≢ release_fingerprint g q
    → release_approved_payment g now q s ≡ (err duplicate_request, s)
unfolding release_approved_payment
conflict_answer g now q x s o served m found ne = rw m (rw (served, found) (ground arith))

-- A key that a release was answered for is refused to every later request with another digest, if
-- the request names an existing record and a mode that is served: a conflict, and no change.
pub release_conflicts :
    (g : GatewayService) (now later : Time) (p q : ReleaseApprovedPaymentRequest) (s : GatewayStore)
    (calls : List Call) (r : ReleaseApprovedPaymentResponse) (o : GatewayPaymentRecord)
    → IsCoherent s
    → All (MakesNo p.payment_id) calls
    → (release_approved_payment g now p s).0 ≡ ok r
    → q.idempotency_key ≡ p.idempotency_key
    → g.sha256 (canonical_payload q) ≢ g.sha256 (canonical_payload p)
    → IsServed g q
    → matching_record q.payment_id q.task_id (run g calls (release_approved_payment g now p s).1)
      ≡ some o
    → release_approved_payment g later q (run g calls (release_approved_payment g now p s).1)
      ≡ (err duplicate_request, run g calls (release_approved_payment g now p s).1)
release_conflicts g now later p q s calls r o w f h key digest served m =
    let t = (release_approved_payment g now p s).1 in
    let (x, found, same, response) = release-record g now p s r h in
    conflict_answer g later q x (run g calls t) o served m
      (rw key (run-IsRecorded g calls t p x f (release-IsRecorded g now p s r w h)).recorded)
      (λ e. digest (sym e ∙ same))

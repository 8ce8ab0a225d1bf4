-- ===== src/Gateway/Coherence.antt =====
-- The payment records over sequences of calls
-- (apps/capability-gateway/src/capability_gateway/service.py, InMemoryGatewayStore).
use control_architecture.Base.{
  String, Option, none, some, List, [], ◌≡◌, refl, arith, get, put, get-put, if_case, is_in,
  or_value, Bool-cases, Option-cases, inl, inr, string_discrete, ◌==◌, if◌then◌else◌, string_eq,
  sym, ◌∙◌,
}
use control_architecture.Contracts.Literals.{MockRailOutcome, rail_text}
use control_architecture.Contracts.Envelopes.{Time}
use mathlib.Core.Path.{subst}
use control_architecture.Gateway.Types.{
  ReleaseApprovedPaymentResponse, ReleaseApprovedPaymentRequest, BeneficiaryValidationRequest,
  PaymentStatusResponse, DomesticPaymentInstructionRequest,
}
use control_architecture.Gateway.Rail.{release_payment, outcome_answer, release_outcome}
use control_architecture.Gateway.Store.{
  GatewayService, GatewayStore, GatewayPaymentRecord, IdempotencyRecord, empty_store,
}
use control_architecture.Gateway.Service.{
  InstructionTokens, new_identifier, create_instruction, instruction_record, validate_beneficiary,
  validated_record, matching_record, Outcome,
}
use control_architecture.Gateway.Release.{
  release_approved_payment, release_matched, release_keyed, submit_release, released_record,
}
use control_architecture.Gateway.Calls.{Call, call, run, run_induction}

-- A record that may stand under a payment id: it is of that payment, and its payment status says
-- what its task says.
pub record IsRecordOf (payment_id : String) (r : GatewayPaymentRecord) : Type 0 where
  pub task_payment : r.task.payment_id ≡ payment_id
  pub status_payment : r.payment_status.payment_id ≡ payment_id
  pub same_status : r.payment_status.status ≡ r.task.status

pub record IsCoherent (s : GatewayStore) : Type 0 where
  pub at_payment :
      (k : String) (r : GatewayPaymentRecord) → get k s.by_payment_id ≡ some r → IsRecordOf k r

-- The payment id that a call makes.
abbrev pub created_id : Call → Option String
created_id (Call.create now tokens p) = some (new_identifier "pay" tokens.payment)
created_id _ = none

-- What a call does to the payment records: nothing, or it writes one that it creates, or one that
-- replaces a record of the same payment and task.
pub data Write (c : Call) (s t : GatewayStore) : Type 0 where
  kept : t.by_payment_id ≡ s.by_payment_id → Write c s t
  added :
      (r : GatewayPaymentRecord)
      → created_id c ≡ some r.task.payment_id
      → IsRecordOf r.task.payment_id r
      → t.by_payment_id ≡ put r.task.payment_id r s.by_payment_id
      → Write c s t
  replaced :
      (o r : GatewayPaymentRecord)
      → get r.task.payment_id s.by_payment_id ≡ some o
      → o.task.task_id ≡ r.task.task_id
      → IsRecordOf r.task.payment_id r
      → t.by_payment_id ≡ put r.task.payment_id r s.by_payment_id
      → Write c s t

-- A matching record stands under its payment id.
pub matching-get :
    (payment_id task_id : String) (s : GatewayStore) (r : GatewayPaymentRecord)
    → matching_record payment_id task_id s ≡ some r
    → (get payment_id s.by_payment_id ≡ some r) × (r.task.task_id ≡ task_id)
unfolding matching_record
matching-get payment_id task_id s r h = ground arith

-- The rail answers for the payment that it was asked to release.
release_payment-id :
    (ambiguous : String) (payment_id : String) (r : GatewayPaymentRecord) (key : String)
    (now : Time) (a : MockRailOutcome × PaymentStatusResponse)
    → release_payment ambiguous payment_id r.task.rail key now ≡ some a
    → a.1.payment_id ≡ payment_id
unfolding release_payment release_outcome outcome_answer
release_payment-id ambiguous payment_id r key now a h = ground arith

module _ (g : GatewayService) (s : GatewayStore) (w : IsCoherent s) where
  create-Write :
      (now : Time) (tokens : InstructionTokens) (p : DomesticPaymentInstructionRequest)
      → Write (Call.create now tokens p) s (create_instruction g now tokens p s).1
  unfolding create_instruction
  create-Write now tokens p =
      elim (Bool-cases (is_in (rail_text p.rail) (or_value g.config.environment.rail_scope []))) [
        | inl e ↦
            Write.added (instruction_record g now tokens p) refl
              (record { task_payment = refl; status_payment = refl; same_status = refl })
              (ground arith)
        | inr e ↦ Write.kept (ground arith)
      ]

  -- A matching record and the payment id that it has.
  matched_id :
      (payment_id task_id : String) (o : GatewayPaymentRecord)
      → matching_record payment_id task_id s ≡ some o
      → o.task.payment_id ≡ payment_id
  matched_id payment_id task_id o e =
      (w.at_payment payment_id o (matching-get payment_id task_id s o e).0).task_payment

  validate-Write :
      (now : Time) (p : BeneficiaryValidationRequest)
      → Write (Call.validate now p) s (validate_beneficiary g now p s).1
  unfolding validate_beneficiary
  validate-Write now p = elim (Option-cases (matching_record p.payment_id p.task_id s)) [
    | inl e ↦ Write.kept (ground arith)
    | inr (o, e) ↦
        Write.replaced o (validated_record g now p o)
          (simp (matched_id p.payment_id p.task_id o e)
            (matching-get p.payment_id p.task_id s o e).0)
          refl (record { task_payment = refl; status_payment = refl; same_status = refl })
          (ground arith)
  ]

  submit-Write :
      (now : Time) (p : ReleaseApprovedPaymentRequest) (o : GatewayPaymentRecord)
      → matching_record p.payment_id p.task_id s ≡ some o
      → Write (Call.release now p) s (submit_release g now p o s).1
  unfolding submit_release
  submit-Write now p o e =
      elim (Option-cases
        (release_payment g.ambiguous_status p.payment_id o.task.rail p.idempotency_key now)) [
          | inl f ↦ Write.kept (ground arith)
          | inr (a, f) ↦
              Write.replaced o (released_record p a.1 o)
                (simp (matched_id p.payment_id p.task_id o e)
                  (matching-get p.payment_id p.task_id s o e).0)
                refl
                (record {
                  task_payment = refl;
                  status_payment =
                      release_payment-id g.ambiguous_status p.payment_id o p.idempotency_key now a f
                      ∙ sym (matched_id p.payment_id p.task_id o e);
                  same_status = refl;
                })
                (ground arith)
        ]

  keyed-Write :
      (now : Time) (p : ReleaseApprovedPaymentRequest) (o : GatewayPaymentRecord)
      → matching_record p.payment_id p.task_id s ≡ some o
      → (x : Option IdempotencyRecord)
      → Write (Call.release now p) s (release_keyed g now p o x s).1
  unfolding release_keyed
  keyed-Write now p o e none = submit-Write now p o e
  keyed-Write now p o e (some x) = Write.kept refl

  matched-Write :
      (now : Time) (p : ReleaseApprovedPaymentRequest) (x : Option GatewayPaymentRecord)
      → matching_record p.payment_id p.task_id s ≡ x
      → Write (Call.release now p) s (release_matched g now p x s).1
  unfolding release_matched
  matched-Write now p none e = Write.kept refl
  matched-Write now p (some o) e =
      if_case (λ (out : Outcome ReleaseApprovedPaymentResponse). Write (Call.release now p) s out.1)
        _ (Write.kept refl) (keyed-Write now p o e (get p.idempotency_key s.idempotency_records))

  pub call-Write : (c : Call) → Write c s (call g c s).1
  unfolding call release_approved_payment
  call-Write (Call.create now tokens p) = create-Write now tokens p
  call-Write (Call.validate now p) = validate-Write now p
  call-Write (Call.release now p) =
      matched-Write now p (matching_record p.payment_id p.task_id s) refl
  call-Write (Call.status payment_id) = Write.kept refl

put-IsCoherent :
    (s t : GatewayStore) (r : GatewayPaymentRecord)
    → IsCoherent s
    → IsRecordOf r.task.payment_id r
    → t.by_payment_id ≡ put r.task.payment_id r s.by_payment_id
    → IsCoherent t
put-IsCoherent s t r w i e = record {
  at_payment = λ k x h.
      let found : (if r.task.payment_id == k then some r else get k s.by_payment_id) ≡ some x =
        sym (get-put r.task.payment_id k r s.by_payment_id) ∙ (rw e at h) in
      elim (string_discrete r.task.payment_id k) [
        | yes same ↦
            let named : r ≡ x = ground arith in
            subst (IsRecordOf k) named (subst (λ q. IsRecordOf q r) same i)
        | no other ↦ w.at_payment k x (ground arith)
      ];
}

kept-IsCoherent :
    (s t : GatewayStore) → IsCoherent s → t.by_payment_id ≡ s.by_payment_id → IsCoherent t
kept-IsCoherent s t w e = record { at_payment = λ k x h. w.at_payment k x (rw e at h) }

-- Every call keeps the payment records coherent.
pub call-IsCoherent :
    (g : GatewayService) (c : Call) (s : GatewayStore) → IsCoherent s → IsCoherent (call g c s).1
call-IsCoherent g c s w = elim (call-Write g s w c) [
  | kept e ↦ kept-IsCoherent s (call g c s).1 w e
  | added r o i e ↦ put-IsCoherent s (call g c s).1 r w i e
  | replaced o r a b i e ↦ put-IsCoherent s (call g c s).1 r w i e
]

empty-IsCoherent : IsCoherent empty_store
unfolding get
empty-IsCoherent = record { at_payment = λ k r h. cc }

pub run-IsCoherent : (g : GatewayService) (calls : List Call) → IsCoherent (run g calls empty_store)
run-IsCoherent g calls =
    run_induction IsCoherent g (call-IsCoherent g) calls empty_store empty-IsCoherent

-- After any calls on an empty store, a record that is found under a payment id is of that payment, as
-- its payment status is, and the payment status has the status of the record's task.
pub run_coherent :
    (g : GatewayService) (calls : List Call) (k : String) (r : GatewayPaymentRecord)
    → get k (run g calls empty_store).by_payment_id ≡ some r
    → (r.task.payment_id ≡ k)
      × (r.payment_status.payment_id ≡ k)
      × (r.payment_status.status ≡ r.task.status)
run_coherent g calls k r h =
    let i = (run-IsCoherent g calls).at_payment k r h in
    (i.task_payment, i.status_payment, i.same_status)

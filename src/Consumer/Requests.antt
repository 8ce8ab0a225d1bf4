-- ===== src/Consumer/Requests.antt =====
-- What the requests of the event consumer do to the two services, over any network (services/
-- event-consumer/src/event_consumer/context_client.py and provenance_client.py).
use control_architecture.Base.{
  ℕ, String, Option, none, some, List, ◌≡◌, refl, arith, Result, ok, err, if_case, suc,
}
use control_architecture.Contracts.Http.{HttpError}
use control_architecture.Contracts.Envelopes.{Time, ProvenanceSeed}
use control_architecture.Contracts.Events.{TaskLifecycleOutboxEvent, TaskLifecycleTransition}
use control_architecture.Context.Api.{Response, post_claim, post_complete, post_fail}
use control_architecture.Provenance.Models.{
  ProvenanceDatabase, TaskStateTransition, TaskStateTransitionCreateRequest,
}
use control_architecture.Provenance.Repository.{ProvenanceFault, add_state_transition}
use control_architecture.Provenance.Calls.{Operation, step}
use control_architecture.Provenance.Api.{
  answer, no_provenance, history_entry, post_task_provenance, create_state_transition,
}
use control_architecture.Consumer.Network.{
  World, handle_claim, handle_complete, handle_fail, handle_provenance, handle_transition, respond,
  no_content, Network, Delivery, exchange, request, transition_request, claim_events,
  complete_event, fail_event, ensure_task_provenance, append_state_transition,
}
use control_architecture.Consumer.Consistent.{
  IsRecorded, IsConsistent, provenance-IsConsistent, claim-IsConsistent, complete-IsConsistent,
  fail-IsConsistent, transition-IsRecorded,
}

abbrev pub Inv : World → Type 0
Inv w = IsConsistent w.context w.provenance

-- A handler keeps the invariant, so a request of it does, whatever the network does.
exchange_keeps :
    {A : Type 0} (x : Delivery) (m : String) (handler : World → Result HttpError A × World)
    → ((w : World) → Inv w → Inv (handler w).1)
    → (w : World) → Inv w
    → Inv (exchange x m handler w).1
exchange_keeps Delivery.delivered m handler k w h = k w h
exchange_keeps Delivery.lost_request m handler k w h = h
exchange_keeps Delivery.lost_response m handler k w h = k w h

respond_ok :
    {A : Type 0} (m : String) (r : Result HttpError A) (a : A) → respond m r ≡ ok a → r ≡ ok a
respond_ok m (ok b) a h = ground (arith, h)
respond_ok m (err e) a h = cc

exchange_keeps_at :
    {A : Type 0} (x : Delivery) (m : String) (handler : World → Result HttpError A × World)
    (w : World)
    → Inv w
    → Inv (handler w).1
    → Inv (exchange x m handler w).1
exchange_keeps_at Delivery.delivered m handler w h k = k
exchange_keeps_at Delivery.lost_request m handler w h k = h
exchange_keeps_at Delivery.lost_response m handler w h k = k

-- A request whose answer the client saw was handled.
exchange_ok :
    {A : Type 0} (x : Delivery) (m : String) (handler : World → Result HttpError A × World)
    (w : World) (a : A)
    → (exchange x m handler w).0 ≡ ok a
    → ((handler w).0 ≡ ok a) × ((exchange x m handler w).1 ≡ (handler w).1)
exchange_ok Delivery.delivered m handler w a h = (respond_ok m (handler w).0 a h, refl)
exchange_ok Delivery.lost_request m handler w a h = cc
exchange_ok Delivery.lost_response m handler w a h = cc

-- An endpoint that answered has recorded the transition.
answer-IsRecorded :
    (now : Time) (id s : String) (p : TaskStateTransitionCreateRequest) (d : ProvenanceDatabase)
    (r : Result ProvenanceFault (Option TaskStateTransition))
    → p.source_event_id ≡ some s
    → (add_state_transition now id p d).0 ≡ r
    → no_content (answer (no_provenance id) history_entry r) ≡ ok tt
    → IsRecorded (add_state_transition now id p d).1 s
answer-IsRecorded now id s p d (ok (some t)) src e h = transition-IsRecorded now id s p d t src e
answer-IsRecorded now id s p d (ok none) src e h = cc
answer-IsRecorded now id s p d (err x) src e h = cc

module _ (n : Network) where
  request_keeps :
      {A : Type 0} (m : String) (handler : Time → World → Result HttpError A × World)
      → ((now : Time) (w : World) → Inv w → Inv (handler now w).1)
      → (w : World) → Inv w
      → Inv (request n m handler w).1
  unfolding request
  request_keeps m handler k w h =
      exchange_keeps (n.delivery w.requests) m (handler (n.clock w.requests))
        (k (n.clock w.requests)) _ h

  pub claim_keeps : (limit lease : ℕ) (w : World) → Inv w → Inv (claim_events n limit lease w).1
  unfolding claim_events post_claim
  claim_keeps limit lease = request_keeps _ (handle_claim limit lease) λ now w h.
      if_case (λ (out : Response (List TaskLifecycleOutboxEvent)). IsConsistent out.1 w.provenance)
        _ (claim-IsConsistent w.provenance now limit lease w.context h) h

  -- A completion keeps the invariant where the event was recorded.
  pub complete_keeps :
      (id : String) (w : World) → Inv w → IsRecorded w.provenance id → Inv (complete_event n id w).1
  unfolding complete_event request post_complete
  complete_keeps id w h r =
      exchange_keeps_at (n.delivery w.requests) _ (handle_complete id (n.clock w.requests)) _ h
        (complete-IsConsistent w.provenance (n.clock w.requests) id w.context r h)

  pub fail_keeps : (id message : String) (w : World) → Inv w → Inv (fail_event n id message w).1
  unfolding fail_event post_fail
  fail_keeps id message =
      request_keeps _ (handle_fail id message)
        λ now w h. fail-IsConsistent w.provenance now id message w.context h

  pub provenance_keeps :
      (id : String) (p : ProvenanceSeed) (w : World)
      → Inv w
      → Inv (ensure_task_provenance n id p w).1
  unfolding ensure_task_provenance post_task_provenance step
  provenance_keeps id p =
      request_keeps _ (handle_provenance id p)
        λ now w h. provenance-IsConsistent (Operation.create now id p) w.context w.provenance h

  pub transition_keeps :
      (id : String) (t : TaskLifecycleTransition) (s : String) (w : World)
      → Inv w
      → Inv (append_state_transition n id t s w).1
  unfolding append_state_transition create_state_transition step
  transition_keeps id t s = request_keeps _ (handle_transition id t s) λ now w h.
      provenance-IsConsistent (Operation.transition now id (transition_request t s)) w.context
        w.provenance h

  -- A transition that the client saw answered is recorded.
  pub append-IsRecorded :
      (id : String) (t : TaskLifecycleTransition) (s : String) (w : World)
      → (append_state_transition n id t s w).0 ≡ ok tt
      → IsRecorded (append_state_transition n id t s w).1.provenance s
  unfolding append_state_transition request create_state_transition
  append-IsRecorded id t s w h =
      let now = n.clock w.requests in
      let (served, same) =
        exchange_ok (n.delivery w.requests) _ (handle_transition id t s now)
          (record w { requests = suc w.requests }) tt h in
      rw same (answer-IsRecorded now id s (transition_request t s) w.provenance _ refl refl served)

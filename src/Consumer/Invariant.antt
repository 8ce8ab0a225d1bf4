-- ===== src/Consumer/Invariant.antt =====
-- What every operation of the context service keeps, a dispatch of the consumer keeps, whatever the
-- network loses (services/event-consumer/src/event_consumer/service.py).
use control_architecture.Base.{
  ℕ, String, List, [], ◌∷◌, refl, Result, ok, err, if_case, Keeps, still-Keeps, seq-Keeps,
}
use control_architecture.Contracts.Http.{HttpError}
use control_architecture.Contracts.Envelopes.{Time, ProvenanceSeed}
use control_architecture.Contracts.Events.{TaskLifecycleOutboxEvent, TaskLifecycleTransition}
use control_architecture.Context.Models.{Database}
use control_architecture.Context.Calls.{Operation, step}
use control_architecture.Context.Api.{Response, post_claim, post_complete, post_fail}
use control_architecture.Consumer.Service.{
  ClientError, event_id, project_event, attempt, settle, process_event, process_events,
  process_once,
}
use control_architecture.Consumer.Network.{
  World, Network, Delivery, exchange, request, clients, handle_claim, handle_complete, handle_fail,
  handle_provenance, handle_transition, claim_events, complete_event, fail_event,
  ensure_task_provenance, append_state_transition,
}

module _ (C : Database → Type 0) (keep : (o : Operation) (d : Database) → C d → C (step o d))
    (n : Network) where
  abbrev OnContext : World → Type 0
  OnContext w = C w.context

  exchange_keeps :
      {A : Type 0} (x : Delivery) (m : String) (handler : World → Result HttpError A × World)
      → ((w : World) → OnContext w → OnContext (handler w).1)
      → (w : World) → OnContext w
      → OnContext (exchange x m handler w).1
  exchange_keeps Delivery.delivered m handler k w h = k w h
  exchange_keeps Delivery.lost_request m handler k w h = h
  exchange_keeps Delivery.lost_response m handler k w h = k w h

  request-Keeps :
      {A : Type 0} (m : String) (handler : Time → World → Result HttpError A × World)
      → ((now : Time) (w : World) → OnContext w → OnContext (handler now w).1)
      → Keeps OnContext (request n m handler)
  unfolding request Keeps
  request-Keeps m handler k w h =
      exchange_keeps (n.delivery w.requests) m (handler (n.clock w.requests))
        (k (n.clock w.requests)) _ h

  claim-Keeps : (limit lease : ℕ) → Keeps OnContext (claim_events n limit lease)
  unfolding claim_events post_claim step
  claim-Keeps limit lease = request-Keeps _ (handle_claim limit lease) λ now w h.
      if_case (λ (out : Response (List TaskLifecycleOutboxEvent)). C out.1) _
        (keep (Operation.claim now limit lease) w.context h) h

  complete-Keeps : (id : String) → Keeps OnContext (complete_event n id)
  unfolding complete_event post_complete step
  complete-Keeps id =
      request-Keeps _ (handle_complete id) λ now w h. keep (Operation.complete now id) w.context h

  fail-Keeps : (id message : String) → Keeps OnContext (fail_event n id message)
  unfolding fail_event post_fail step
  fail-Keeps id message =
      request-Keeps _ (handle_fail id message)
        λ now w h. keep (Operation.fail now id message) w.context h

  provenance-Keeps :
      (id : String) (p : ProvenanceSeed) → Keeps OnContext (ensure_task_provenance n id p)
  unfolding ensure_task_provenance
  provenance-Keeps id p = request-Keeps _ (handle_provenance id p) λ now w h. h

  transition-Keeps :
      (id : String) (t : TaskLifecycleTransition) (s : String)
      → Keeps OnContext (append_state_transition n id t s)
  unfolding append_state_transition
  transition-Keeps id t s = request-Keeps _ (handle_transition id t s) λ now w h. h

  project-Keeps : (e : TaskLifecycleOutboxEvent) → Keeps OnContext (project_event (clients n) e)
  unfolding project_event
  project-Keeps (TaskLifecycleOutboxEvent.created b p) =
      seq-Keeps OnContext _ _ (provenance-Keeps p.task_id p.provenance)
        λ u. transition-Keeps p.task_id p.transition b.event_id
  project-Keeps (TaskLifecycleOutboxEvent.state_changed b p) =
      transition-Keeps p.task_id p.transition b.event_id

  attempt-Keeps : (e : TaskLifecycleOutboxEvent) → Keeps OnContext (attempt (clients n) e)
  unfolding attempt
  attempt-Keeps e = seq-Keeps OnContext _ _ (project-Keeps e) λ u. complete-Keeps (event_id e)

  settle-Keeps :
      (e : TaskLifecycleOutboxEvent) (r : Result ClientError (Unit {0}))
      → Keeps OnContext (settle (clients n) e r)
  unfolding settle
  settle-Keeps e (ok u) = still-Keeps OnContext _ (λ w. refl)
  settle-Keeps e (err x) =
      seq-Keeps OnContext _ _ (fail-Keeps (event_id e) x.message)
        λ u. still-Keeps OnContext _ (λ w. refl)

  process_event-Keeps :
      (e : TaskLifecycleOutboxEvent) → Keeps OnContext (process_event (clients n) e)
  unfolding process_event Keeps
  process_event-Keeps e w h =
      let (r, w') = attempt (clients n) e w in settle-Keeps e r w' (attempt-Keeps e w h)

  process_events-Keeps :
      (es : List TaskLifecycleOutboxEvent) → Keeps OnContext (process_events (clients n) es)
  unfolding process_events
  process_events-Keeps [] = still-Keeps OnContext _ (λ w. refl)
  process_events-Keeps (e ∷ es) = seq-Keeps OnContext _ _ (process_event-Keeps e) λ o.
      seq-Keeps OnContext _ _ (process_events-Keeps es) λ t. still-Keeps OnContext _ (λ w. refl)

  pub dispatch-Keeps : (limit lease : ℕ) → Keeps OnContext (process_once (clients n) limit lease)
  unfolding process_once
  dispatch-Keeps limit lease = seq-Keeps OnContext _ _ (claim-Keeps limit lease) λ es.
      seq-Keeps OnContext _ _ (process_events-Keeps es) λ t. still-Keeps OnContext _ (λ w. refl)

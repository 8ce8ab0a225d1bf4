-- ===== src/Consumer/Projection.antt =====
-- The system of the context service, the provenance service and the event consumer, over any network
-- (services/event-consumer/src/event_consumer/service.py, process_once).
use control_architecture.Base.{
  ℕ, String, some, List, [], ◌∷◌, ◌≡◌, refl, sym, ◌∙◌, ap, arith, Result, ok, err, Exec, continue,
  ◌>>=◌, pure, All-find, find-holds, string_eq, count, exists-count_pos,
}
use control_architecture.Contracts.Literals.{OutboxStatus}
use control_architecture.Contracts.Envelopes.{Time}
use control_architecture.Contracts.Events.{TaskLifecycleOutboxEvent}
use control_architecture.Context.Models.{OutboxEvent, TaskCreateRequest, TaskStatePatchRequest}
use control_architecture.Context.Outbox.{get_outbox_event}
use control_architecture.Context.Repository.{Tokens, has_event_id, create_task, update_task_state}
use control_architecture.Provenance.Repository.{has_source}
use control_architecture.Provenance.Calls.{Operation, step}
use control_architecture.Consumer.Service.{
  ClientError, event_id, project_event, attempt, settle, process_event, process_events,
  process_once, tally, dispatch_failure, dispatch_response,
}
use control_architecture.Consumer.Network.{
  World, empty_world, Network, clients, claim_events, complete_event, fail_event,
  ensure_task_provenance, append_state_transition,
}
use control_architecture.Consumer.Consistent.{
  IsRecorded, IsProjected, empty-IsConsistent, provenance-IsConsistent, create-IsConsistent,
  patch-IsConsistent,
}
use control_architecture.Consumer.Requests.{
  Inv, claim_keeps, complete_keeps, fail_keeps, provenance_keeps, transition_keeps,
  append-IsRecorded,
}

-- What happens to the system: a task is created or patched, the provenance service is sent a request
-- of its own, or the consumer dispatches.
pub data Action : Type 0 where
  create : Time → Tokens → TaskCreateRequest → Action
  patch : Time → Tokens → String → TaskStatePatchRequest → Action
  provenance : Operation → Action
  dispatch : ℕ → ℕ → Action

unfoldable pub act : Network → Action → World → World
act n (Action.create now tokens p) w = record w { context = (create_task now tokens p w.context).1 }
act n (Action.patch now tokens id p) w = record w {
  context = (update_task_state now tokens id p w.context).1;
}
act n (Action.provenance o) w = record w { provenance = step o w.provenance }
act n (Action.dispatch limit lease) w = (process_once (clients n) limit lease w).1

unfoldable pub acts : Network → List Action → World → World
acts n [] w = w
acts n (a ∷ r) w = acts n r (act n a w)

continue_keeps :
    {A B : Type 0} (r : Result ClientError A) (f : A → Exec World ClientError B) (w : World)
    → Inv w
    → ((a : A) → r ≡ ok a → Inv (f a w).1)
    → Inv (continue r f w).1
continue_keeps (ok a) f w h k = k a refl
continue_keeps (err e) f w h k = h

continue_ok :
    {A B : Type 0} (r : Result ClientError A) (f : A → Exec World ClientError B) (w : World) (b : B)
    → (continue r f w).0 ≡ ok b
    → (a : A) × (continue r f w ≡ f a w)
continue_ok (ok a) f w b h = (a, refl)
continue_ok (err e) f w b h = cc

seq_keeps :
    {A B : Type 0} (m : Exec World ClientError A) (f : A → Exec World ClientError B) (w : World)
    → Inv (m w).1
    → ((a : A) → (m w).0 ≡ ok a → Inv (f a (m w).1).1)
    → Inv ((m >>= f) w).1
seq_keeps m f w h k = continue_keeps (m w).0 f (m w).1 h k

module _ (n : Network) where
  project_keeps :
      (e : TaskLifecycleOutboxEvent) (w : World) → Inv w → Inv (project_event (clients n) e w).1
  unfolding project_event
  project_keeps (TaskLifecycleOutboxEvent.created b p) w h =
      let k = provenance_keeps n p.task_id p.provenance w h in
      seq_keeps (ensure_task_provenance n p.task_id p.provenance)
        (λ u. append_state_transition n p.task_id p.transition b.event_id) w k
        (λ a e.
          transition_keeps n p.task_id p.transition b.event_id
            (ensure_task_provenance n p.task_id p.provenance w).1 k)
  project_keeps (TaskLifecycleOutboxEvent.state_changed b p) w h =
      transition_keeps n p.task_id p.transition b.event_id w h

  -- An event that was projected without an error is recorded.
  project-IsRecorded :
      (e : TaskLifecycleOutboxEvent) (w : World) (u : Unit {0})
      → (project_event (clients n) e w).0 ≡ ok u
      → IsRecorded (project_event (clients n) e w).1.provenance (event_id e)
  unfolding project_event
  project-IsRecorded (TaskLifecycleOutboxEvent.created b p) w u h =
      let w' = (ensure_task_provenance n p.task_id p.provenance w).1 in
      let (a, same) =
        continue_ok (ensure_task_provenance n p.task_id p.provenance w).0
          (λ u. append_state_transition n p.task_id p.transition b.event_id) w' u h in
      rw same
        (append-IsRecorded n p.task_id p.transition b.event_id w' (sym (ap (λ o. o.0) same) ∙ h))
  project-IsRecorded (TaskLifecycleOutboxEvent.state_changed b p) w u h =
      append-IsRecorded n p.task_id p.transition b.event_id w h

  attempt_keeps :
      (e : TaskLifecycleOutboxEvent) (w : World) → Inv w → Inv (attempt (clients n) e w).1
  unfolding attempt
  attempt_keeps e w h =
      let k = project_keeps e w h in
      seq_keeps (project_event (clients n) e) (λ u. complete_event n (event_id e)) w k
        (λ u done.
          complete_keeps n (event_id e) (project_event (clients n) e w).1 k
            (project-IsRecorded e w u done))

  settle_keeps :
      (e : TaskLifecycleOutboxEvent) (r : Result ClientError (Unit {0})) (w : World)
      → Inv w
      → Inv (settle (clients n) e r w).1
  unfolding settle
  settle_keeps e (ok u) w h = h
  settle_keeps e (err x) w h =
      let k = fail_keeps n (event_id e) x.message w h in
      seq_keeps (fail_event n (event_id e) x.message) (λ u. pure (some (dispatch_failure e x))) w k
        (λ u done. k)

  process_keeps :
      (es : List TaskLifecycleOutboxEvent) (w : World)
      → Inv w
      → Inv (process_events (clients n) es w).1
  unfolding process_events process_event
  process_keeps [] w h = h
  process_keeps (e ∷ es) w h =
      let a = attempt (clients n) e w in
      let w' = (process_event (clients n) e w).1 in
      let k = settle_keeps e a.0 a.1 (attempt_keeps e w h) in
      seq_keeps (process_event (clients n) e)
        (λ o. process_events (clients n) es >>= λ t. pure (tally o t)) w k
        λ o done.
          let q = process_keeps es w' k in
          seq_keeps (process_events (clients n) es) (λ t. pure (tally o t)) w' q (λ t last. q)

  pub dispatch_keeps :
      (limit lease : ℕ) (w : World) → Inv w → Inv (process_once (clients n) limit lease w).1
  unfolding process_once
  dispatch_keeps limit lease w h =
      let k = claim_keeps n limit lease w h in
      let w' = (claim_events n limit lease w).1 in
      seq_keeps (claim_events n limit lease)
        (λ es. process_events (clients n) es >>= λ t. pure (dispatch_response (clients n) es t)) w k
        λ es done.
          let q = process_keeps es w' k in
          seq_keeps (process_events (clients n) es) (λ t. pure (dispatch_response (clients n) es t))
            w' q (λ t last. q)

  act_keeps : (a : Action) (w : World) → Inv w → Inv (act n a w)
  unfolding act
  act_keeps (Action.create now tokens p) w h =
      create-IsConsistent w.provenance now tokens p w.context h
  act_keeps (Action.patch now tokens id p) w h =
      patch-IsConsistent w.provenance now tokens id p w.context h
  act_keeps (Action.provenance o) w h = provenance-IsConsistent o w.context w.provenance h
  act_keeps (Action.dispatch limit lease) w h = dispatch_keeps limit lease w h

  acts_keeps : (actions : List Action) (w : World) → Inv w → Inv (acts n actions w)
  unfolding acts
  acts_keeps [] w h = h
  acts_keeps (a ∷ r) w h = acts_keeps r (act n a w) (act_keeps a w h)

  -- Whatever happens to the system from its empty start, and whichever requests and responses of the
  -- consumer the network loses: the outbox event under an id, if it is completed, has exactly one
  -- transition in the state history.
  pub projected_once :
      (actions : List Action) (id : String) (e : OutboxEvent)
      → get_outbox_event id (acts n actions empty_world).context ≡ some e
      → e.status ≡ OutboxStatus.completed
      → count (has_source id) (acts n actions empty_world).provenance.state_history ≡ 1
  unfolding get_outbox_event
  projected_once actions id e found done =
      let w = acts n actions empty_world in
      let h = acts_keeps actions empty_world empty-IsConsistent in
      let named : e.event_id ≡ id =
        ground (arith, find-holds (has_event_id id) w.context.outbox e found) in
      let recorded : IsRecorded w.provenance e.event_id =
        All-find (IsProjected w.provenance) (has_event_id id) w.context.outbox e h.projected found
          done in
      omega (
        arith,
        h.unique.at_source id,
        exists-count_pos (has_source id) w.provenance.state_history (rw named at recorded),
      )

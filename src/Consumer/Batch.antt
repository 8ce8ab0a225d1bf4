-- ===== src/Consumer/Batch.antt =====
-- On a network that delivers every request and response, a batch of events that can be projected is
-- completed (services/event-consumer/src/event_consumer/service.py, process_events).
use control_architecture.Base.{
  String, Option, none, List, [], ◌∷◌, ◌≡◌, ◌≢◌, ◌⊎◌, inl, inr, refl, ap, Result, ok, Exec,
  continue, ◌>>◌, All, length,
}
use mathlib.Core.Path.{subst}
use control_architecture.Contracts.Events.{
  TaskLifecycleOutboxEvent, BaseTaskLifecycleOutboxEvent, TaskCreatedEventPayload,
}
use control_architecture.Consumer.Service.{
  ClientError, DispatchFailure, Tally, event_id, project_event, attempt, settle, process_event,
  process_events,
}
use control_architecture.Consumer.Network.{
  World, Network, clients, complete_event, ensure_task_provenance, append_state_transition,
}
use control_architecture.Consumer.Standing.{
  IsReadable, IsCompleted, IsKnown, Advances, Advances-trans,
}
use control_architecture.Consumer.Reliable.{
  IsReliable, Served, ensure-Served, append-Served, complete-Served,
}

-- The batch can be projected in its order, where `K` says which tasks have a provenance record: each
-- event is a named row of the outbox, and a change of state is one of a task that has a record, or
-- that an earlier event of the batch creates.
abbrev pub AreReady : World → (String → Type 0) → List TaskLifecycleOutboxEvent → Type 0
AreReady w K [] = Unit
AreReady w K (TaskLifecycleOutboxEvent.created b p ∷ r) =
    IsReadable b.event_id w.context × (b.event_id ≢ "") × AreReady w (λ t. K t ⊎ (p.task_id ≡ t)) r
AreReady w K (TaskLifecycleOutboxEvent.state_changed b p ∷ r) =
    IsReadable b.event_id w.context × (b.event_id ≢ "") × K p.task_id × AreReady w K r

abbrev pub AreCompleted : World → List TaskLifecycleOutboxEvent → Type 0
AreCompleted w es = All (λ e. IsCompleted (event_id e) w.context) es

seq_served :
    (m n : Exec World ClientError (Unit {0})) (w : World) → (m w).0 ≡ ok tt → (m >> n) w ≡ n (m w).1
seq_served m n w h = ap (λ r. continue r (λ _. n) (m w).1) h

-- What the processing of an event has done.
record Processed (e : TaskLifecycleOutboxEvent) (r : Result ClientError (Option DispatchFailure))
    (w w' : World) : Type 0 where
  answered : r ≡ ok none
  advances : Advances w w'
  done : IsCompleted (event_id e) w'.context

module _ (n : Network) (reliable : IsReliable n) where
  project_created :
      (b : BaseTaskLifecycleOutboxEvent) (p : TaskCreatedEventPayload) (w : World)
      → b.event_id ≢ ""
      → let m = project_event (clients n) (TaskLifecycleOutboxEvent.created b p) in
        Served (m w).0 w (m w).1 × IsKnown p.task_id (m w).1.provenance
  unfolding project_event
  project_created b p w named =
      let (first, known) = ensure-Served n reliable p.task_id p.provenance w in
      let w1 = (ensure_task_provenance n p.task_id p.provenance w).1 in
      let next = append-Served n reliable p.task_id p.transition b.event_id w1 named known in
      rw
        (seq_served (ensure_task_provenance n p.task_id p.provenance)
          (append_state_transition n p.task_id p.transition b.event_id) w first.answered)
        (
          record {
            answered = next.answered;
            advances = Advances-trans first.advances next.advances;
          },
          next.advances.known p.task_id known,
        )

  -- A projection that was served is followed by the completion.
  attempt_completes :
      (e : TaskLifecycleOutboxEvent) (w : World)
      → Served (project_event (clients n) e w).0 w (project_event (clients n) e w).1
      → IsReadable (event_id e) w.context
      → Processed e (process_event (clients n) e w).0 w (process_event (clients n) e w).1
        × Advances (project_event (clients n) e w).1 (process_event (clients n) e w).1
  unfolding process_event attempt settle
  attempt_completes e w first readable =
      let w1 = (project_event (clients n) e w).1 in
      let (next, done) =
        complete-Served n reliable (event_id e) w1
          (first.advances.readable (event_id e) readable) in
      rw (seq_served (project_event (clients n) e) (complete_event n (event_id e)) w first.answered)
        (rw next.answered (
          record {
            answered = refl;
            advances = Advances-trans first.advances next.advances;
            done = done;
          },
          next.advances,
        ))

  -- What the processing of a batch has done.
  pub record Delivered (es : List TaskLifecycleOutboxEvent) (r : Result ClientError Tally)
      (w w' : World) : Type 0 where
    pub answered : r ≡ ok (record { processed = length es; failures = [] })
    pub advances : Advances w w'
    pub done : AreCompleted w' es

  cons_delivers :
      (e : TaskLifecycleOutboxEvent) (es : List TaskLifecycleOutboxEvent) (w : World)
      → Processed e (process_event (clients n) e w).0 w (process_event (clients n) e w).1
      → let w1 = (process_event (clients n) e w).1 in
        Delivered es (process_events (clients n) es w1).0 w1 (process_events (clients n) es w1).1
        → Delivered
            (e ∷ es)
            (process_events (clients n) (e ∷ es) w).0
            w
            (process_events (clients n) (e ∷ es) w).1
  unfolding process_events
  cons_delivers e es w first rest = rw first.answered (
      rw rest.answered (record {
        answered = refl;
        advances = Advances-trans first.advances rest.advances;
        done = (rest.advances.completed (event_id e) first.done, rest.done);
      }))

  pub batch-Delivered :
      (es : List TaskLifecycleOutboxEvent) (w0 w : World) (K : String → Type 0)
      → Advances w0 w
      → ((t : String) → K t → IsKnown t w.provenance)
      → AreReady w0 K es
      → Delivered es (process_events (clients n) es w).0 w (process_events (clients n) es w).1
  unfolding process_events
  batch-Delivered [] w0 w K a known ready = record {
    answered = refl;
    advances = record { readable = λ id h. h; completed = λ id h. h; known = λ id h. h };
    done = tt;
  }
  batch-Delivered (TaskLifecycleOutboxEvent.created b p ∷ es) w0 w K a known (row, named, ready) =
      let e = TaskLifecycleOutboxEvent.created b p in
      let (projected, made) = project_created b p w named in
      let (first, after) = attempt_completes e w projected (a.readable b.event_id row) in
      cons_delivers e es w first (
        batch-Delivered es w0 (process_event (clients n) e w).1 _ (Advances-trans a first.advances)
          (λ t h. elim h [
            | inl old ↦ first.advances.known t (known t old)
            | inr new ↦
                subst (λ j. IsKnown j (process_event (clients n) e w).1.provenance) new
                  (after.known p.task_id made)
          ])
          ready)
  batch-Delivered (TaskLifecycleOutboxEvent.state_changed b p ∷ es) w0 w K a known
        (row, named, task, ready) =
      let e = TaskLifecycleOutboxEvent.state_changed b p in
      let (first, after) =
        attempt_completes e w
          (unfold project_event in
            append-Served n reliable p.task_id p.transition b.event_id w named
              (known p.task_id task))
          (a.readable b.event_id row) in
      cons_delivers e es w first (
        batch-Delivered es w0 (process_event (clients n) e w).1 K (Advances-trans a first.advances)
          (λ t h. first.advances.known t (known t h)) ready)

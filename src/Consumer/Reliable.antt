-- ===== src/Consumer/Reliable.antt =====
-- What the clients of the event consumer do on a network that delivers every request and response
-- (services/event-consumer/src/event_consumer/context_client.py and provenance_client.py).
use control_architecture.Base.{
  ℕ, suc, String, Bool, false, Option, none, some, List, [], ◌∷◌, ◌++◌, ◌≡◌, ◌≢◌, refl, ◌∙◌, arith,
  Result, ok, find, exists, find-append, Option-cases, inl, inr, string_eq,
}
use control_architecture.Contracts.Http.{HttpError}
use control_architecture.Contracts.Envelopes.{Time, ProvenanceSeed}
use control_architecture.Contracts.Events.{TaskLifecycleTransition}
use control_architecture.Context.Outbox.{get_outbox_event, change_event, complete_outbox_event}
use control_architecture.Context.Api.{post_complete}
use control_architecture.Context.Typed.{completed-Parses}
use control_architecture.Provenance.Models.{
  TaskProvenance, TaskStateTransition, ProvenanceDatabase, TaskStateTransitionCreateRequest,
}
use control_architecture.Provenance.Repository.{
  get_task_provenance, create_task_provenance, provenance_lookup, new_provenance, has_task,
  add_state_transition, transition_existing, transition_task, existing_transition,
  get_state_transition_by_source_event, has_source, new_transition,
}
use control_architecture.Provenance.Calls.{Operation, step}
use control_architecture.Provenance.Api.{post_task_provenance, create_state_transition}
use control_architecture.Provenance.Origin.{record_kept}
use control_architecture.Consumer.Service.{ClientError}
use control_architecture.Consumer.Network.{
  World, Network, Delivery, request, respond, handle_complete, handle_provenance, handle_transition,
  transition_request, complete_event, ensure_task_provenance, append_state_transition,
}
use control_architecture.Consumer.Standing.{
  IsReadable, IsCompleted, IsKnown, Advances, complete-IsReadable, complete-IsCompleted, completes,
}

-- Every request and every response arrives.
pub record IsReliable (n : Network) : Type 0 where
  pub delivers : (i : ℕ) → n.delivery i ≡ Delivery.delivered

-- What a call has done: it has answered, and undone nothing.
pub record Served (r : Result ClientError (Unit {0})) (w w' : World) : Type 0 where
  pub answered : r ≡ ok tt
  pub advances : Advances w w'

-- The steps of the provenance service advance.
provenance-Advances :
    (o : Operation) (w w' : World)
    → w'.context ≡ w.context
    → w'.provenance ≡ step o w.provenance
    → Advances w w'
provenance-Advances o w w' c d = record {
  readable = λ id h. rw c h;
  completed = λ id h. rw c h;
  known = λ id (t, h). rw d (record_kept o id w.provenance t h);
}

pub find_exists : {A : Type 0} (p : A → Bool) (xs : List A) → find p xs ≡ none → exists p xs ≡ false
unfolding find exists
find_exists p [] h = refl
find_exists p (x ∷ xs) h = ground (arith, find_exists p xs)

find_new :
    (now : Time) (id : String) (p : ProvenanceSeed) (d : ProvenanceDatabase)
    → get_task_provenance id d ≡ none
    → find (has_task id) (d.provenance ++ new_provenance now id p ∷ [])
      ≡ some (new_provenance now id p)
unfolding get_task_provenance find new_provenance
find_new now id p d e =
    find-append (has_task id) d.provenance (new_provenance now id p ∷ []) ∙ rw e (ground arith)

create_known :
    (now : Time) (id : String) (p : ProvenanceSeed) (d : ProvenanceDatabase)
    → (t : TaskProvenance) × ((create_task_provenance now id p d).0 ≡ some t)
      × (get_task_provenance id (create_task_provenance now id p d).1 ≡ some t)
unfolding create_task_provenance provenance_lookup
create_known now id p d = elim (Option-cases (get_task_provenance id d)) [
  | inl e ↦
      let found = find_new now id p d e in
      unfold get_task_provenance in rw e (new_provenance now id p, found, found)
  | inr (t, e) ↦ rw e (t, refl, e)
]

existing_answered :
    (now : Time) (id s : String) (p : TaskStateTransitionCreateRequest) (d : ProvenanceDatabase)
    (o : Option TaskStateTransition) (u : TaskProvenance)
    → p.source_event_id ≡ some s
    → (o ≡ none → exists (has_source s) d.state_history ≡ false)
    → get_task_provenance id d ≡ some u
    → (t : TaskStateTransition) × ((transition_existing now id p o d).0 ≡ ok (some t))
unfolding transition_existing transition_task
existing_answered now id s p d (some t) u src free known = (t, refl)
existing_answered now id s p d none u src free known =
    (new_transition now id p d, ground (arith, known, src, free refl))

-- A transition of a task that has a record is answered, whether it was recorded before or not.
transition_answered :
    (now : Time) (id s : String) (p : TaskStateTransitionCreateRequest) (d : ProvenanceDatabase)
    → p.source_event_id ≡ some s
    → s ≢ ""
    → IsKnown id d
    → (t : TaskStateTransition) × ((add_state_transition now id p d).0 ≡ ok (some t))
unfolding add_state_transition existing_transition get_state_transition_by_source_event
transition_answered now id s p d src named (u, known) =
    existing_answered now id s p d (existing_transition p.source_event_id d) u src
      (λ e. find_exists (has_source s) d.state_history (ground (arith, e, src, named))) known

module _ (n : Network) (reliable : IsReliable n) where
  -- A request is handled, and its answer is read.
  pub request_delivered :
      {A : Type 0} (m : String) (handler : Time → World → Result HttpError A × World) (w : World)
      → let w1 = record w { requests = suc w.requests } in
        let now = n.clock w.requests in
        request n m handler w ≡ (respond m (handler now w1).0, (handler now w1).1)
  unfolding request
  request_delivered m handler w = rw (reliable.delivers w.requests)

  pub ensure-Served :
      (id : String) (p : ProvenanceSeed) (w : World)
      → Served (ensure_task_provenance n id p w).0 w (ensure_task_provenance n id p w).1
        × IsKnown id (ensure_task_provenance n id p w).1.provenance
  unfolding ensure_task_provenance post_task_provenance
  ensure-Served id p w =
      let (t, made, found) = create_known (n.clock w.requests) id p w.provenance in
      rw (request_delivered _ (handle_provenance id p) w) (
        record {
          answered = rw made refl;
          advances =
              provenance-Advances (Operation.create (n.clock w.requests) id p) w _ refl
                (unfold step in refl);
        },
        (t, found),
      )

  pub append-Served :
      (id : String) (t : TaskLifecycleTransition) (s : String) (w : World)
      → s ≢ ""
      → IsKnown id w.provenance
      → Served (append_state_transition n id t s w).0 w (append_state_transition n id t s w).1
  unfolding append_state_transition create_state_transition
  append-Served id t s w named known =
      let (x, made) =
        transition_answered (n.clock w.requests) id s (transition_request t s) w.provenance refl
          named known in
      rw (request_delivered _ (handle_transition id t s) w) (record {
        answered = rw made refl;
        advances =
            provenance-Advances
              (Operation.transition (n.clock w.requests) id (transition_request t s)) w _ refl
              (unfold step in refl);
      })

  pub complete-Served :
      (id : String) (w : World)
      → IsReadable id w.context
      → Served (complete_event n id w).0 w (complete_event n id w).1
        × IsCompleted id (complete_event n id w).1.context
  unfolding complete_event post_complete complete_outbox_event change_event
  complete-Served id w (r, found, t) =
      let now = n.clock w.requests in
      let o = get_outbox_event id w.context in
      let (y, read) = completed-Parses now r t in
      rw (request_delivered _ (handle_complete id) w) (
        record {
          answered = rw (found, read) refl;
          advances = record {
            readable = complete-IsReadable now id w.context o;
            completed = complete-IsCompleted now id w.context o;
            known = λ j h. h;
          };
        },
        completes now id w.context r found,
      )

-- ===== src/Provenance/Sources.antt =====
-- State transitions that are sent again (services/provenance-service/src/provenance_service/
-- repository.py, add_state_transition).
use control_architecture.Base.{
  String, Option, none, some, List, [], ◌∷◌, ◌≡◌, ◌≢◌, refl, sym, ◌∙◌, arith, ok, Bool-cases, inl,
  inr, ap, find, find-append, or_else, string_eq,
}
use control_architecture.Contracts.Envelopes.{Time}
use control_architecture.Provenance.Models.{
  TaskProvenance, TaskStateTransition, ProvenanceDatabase, TaskStateTransitionCreateRequest,
}
use control_architecture.Provenance.Repository.{
  get_task_provenance, add_state_transition, transition_existing, transition_task,
  existing_transition, source_taken, has_source, new_transition,
  get_state_transition_by_source_event,
}
use control_architecture.Provenance.Calls.{Operation, run}
use control_architecture.Provenance.History.{history_appends}

existing_some :
    (s : String) (o : Option String) (d : ProvenanceDatabase)
    → o ≡ some s
    → s ≢ ""
    → existing_transition o d ≡ find (has_source s) d.state_history
unfolding existing_transition get_state_transition_by_source_event
existing_some s o d e ne = rw e (ground arith)

-- A transition that was answered for a source is found under it.
task_found :
    (now : Time) (id s : String) (p : TaskStateTransitionCreateRequest) (o : Option TaskProvenance)
    (d : ProvenanceDatabase) (t : TaskStateTransition)
    → p.source_event_id ≡ some s
    → find (has_source s) d.state_history ≡ none
    → (transition_task now id p o d).0 ≡ ok (some t)
    → find (has_source s) (transition_task now id p o d).1.state_history ≡ some t
unfolding transition_task new_transition find
task_found now id s p none d t src fresh h = cc
task_found now id s p (some q) d t src fresh h =
    elim (Bool-cases (source_taken p.source_event_id d)) [
      | inl taken ↦ ground (arith, h)
      | inr free ↦
          let made : new_transition now id p d ≡ t = ground (arith, h) in
          rw free (
            find-append (has_source s) d.state_history (new_transition now id p d ∷ [])
            ∙ ground (arith, fresh, src, made))
    ]

existing_found :
    (now : Time) (id s : String) (p : TaskStateTransitionCreateRequest)
    (o : Option TaskStateTransition) (d : ProvenanceDatabase) (t : TaskStateTransition)
    → p.source_event_id ≡ some s
    → find (has_source s) d.state_history ≡ o
    → (transition_existing now id p o d).0 ≡ ok (some t)
    → find (has_source s) (transition_existing now id p o d).1.state_history ≡ some t
unfolding transition_existing
existing_found now id s p none d t src e h =
    task_found now id s p (get_task_provenance id d) d t src e h
existing_found now id s p (some q) d t src e h = ground (arith, e, h)

transition_found :
    (now : Time) (id s : String) (p : TaskStateTransitionCreateRequest) (d : ProvenanceDatabase)
    (t : TaskStateTransition)
    → p.source_event_id ≡ some s
    → s ≢ ""
    → (add_state_transition now id p d).0 ≡ ok (some t)
    → find (has_source s) (add_state_transition now id p d).1.state_history ≡ some t
unfolding add_state_transition
transition_found now id s p d t src ne h =
    existing_found now id s p (existing_transition p.source_event_id d) d t src
      (sym (existing_some s p.source_event_id d src ne)) h

-- A transition that was recorded for a source event that is not empty is the answer to every later
-- request for that event, whatever operations come between, and the later request changes nothing.
pub transition_replays :
    (now later : Time) (id id' s : String) (p q : TaskStateTransitionCreateRequest)
    (d : ProvenanceDatabase) (ops : List Operation) (t : TaskStateTransition)
    → p.source_event_id ≡ some s
    → q.source_event_id ≡ some s
    → s ≢ ""
    → (add_state_transition now id p d).0 ≡ ok (some t)
    → let d' = run ops (add_state_transition now id p d).1 in
      add_state_transition later id' q d' ≡ (ok (some t), d')
unfolding add_state_transition transition_existing
transition_replays now later id id' s p q d ops t src src' ne h =
    let e = (add_state_transition now id p d).1 in
    let d' = run ops e in
    let (r, grown) = history_appends ops e in
    let found : existing_transition q.source_event_id d' ≡ some t =
      existing_some s q.source_event_id d' src' ne
      ∙ ap (find (has_source s)) grown
      ∙ find-append (has_source s) e.state_history r
      ∙ ap (λ o. or_else o (find (has_source s) r)) (transition_found now id s p d t src ne h) in
    rw found refl

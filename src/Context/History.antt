-- ===== src/Context/History.antt =====
-- The outbox read as the history of the tasks
-- (services/context-memory-service/src/context_memory_service/repository.py).
use control_architecture.Base.{
  String, Option, none, some, List, [], ◌∷◌, ◌≡◌, refl, arith, ◌==◌, if◌then◌else◌, string_eq, find,
  exists, find-append, exists-find, find-update, find-holds, inl, inr, Bool-cases, string_discrete,
  or_else, sym, ap, ◌∙◌,
}
use mathlib.Core.Path.{subst}
use control_architecture.Contracts.Envelopes.{Time}
use control_architecture.Context.Models.{
  Task, OutboxEvent, Database, empty_database, TaskCreateRequest, TaskStatePatchRequest,
}
use control_architecture.Context.Repository.{
  same_state, Tokens, has_task_id, has_event_id, create_task, new_task, created_event,
  violates_unique, get_task, patched, changed_event, patch_found, patch_lookup, update_task_state,
}
use control_architecture.Context.Outbox.{
  claim_outbox_events, complete_outbox_event, fail_outbox_event, change_found, get_outbox_event,
  claimed, completed, failed,
}
use control_architecture.Context.Calls.{Operation, step, run, run_induction}
use control_architecture.Context.Transitions.{
  payload_transition, apply, replay, position, IsReplayed, replay-append, KeepsHistory,
  update-IsReplayed, optional_status_eq,
}

-- The event of a new task moves its history from no task to the task's status.
create_position :
    (id : String) (t : Task) (e : OutboxEvent) (o : Option Task)
    → e.aggregate_id ≡ t.task_id
    → (payload_transition e.payload).from_status ≡ none
    → (payload_transition e.payload).to_status ≡ t.status
    → (t.task_id ≡ id → o ≡ none)
    → apply id e (position o) ≡ position (or_else o (if t.task_id == id then some t else none))
unfolding apply
create_position id t e o a b c fresh = elim (string_discrete t.task_id id) [
  | yes same ↦ ground (arith, fresh same)
  | no other ↦ ground arith
]

create-IsReplayed :
    (now : Time) (tokens : Tokens) (p : TaskCreateRequest) (d : Database)
    → IsReplayed d
    → IsReplayed (create_task now tokens p d).1
unfolding create_task created_event violates_unique get_task find
create-IsReplayed now tokens p d h =
    let t = new_task now tokens p in
    let e = created_event now tokens p t in
    elim (Bool-cases (violates_unique d t e)) [
      | inl taken ↦ rw taken h
      | inr free ↦ rw free (record {
        at_task = λ id.
            replay-append id (some none) d.outbox e
            ∙ ap (apply id e) (h.at_task id)
            ∙ create_position id t e (find (has_task_id id) d.tasks) refl refl refl
                (λ same. rw (← same) (exists-find (has_task_id t.task_id) d.tasks (ground arith)))
            ∙ ap position (sym (find-append (has_task_id id) d.tasks (t ∷ [])));
      })
    ]

-- The event of a patch moves the history of its task along, and no other.
patch_position :
    (id : String) (now : Time) (p : TaskStatePatchRequest) (t : Task) (e : OutboxEvent)
    (o : Option Task)
    → e.aggregate_id ≡ t.task_id
    → (payload_transition e.payload).from_status ≡ some t.status
    → (payload_transition e.payload).to_status ≡ p.status
    → (t.task_id ≡ id → o ≡ some t)
    → ((r : Task) → o ≡ some r → r.task_id ≡ id)
    → apply id e (position o)
      ≡ position (elim o [
        | none ↦ none
        | some r ↦ some (if r.task_id == t.task_id then patched now p r else r)
      ])
unfolding apply patched
patch_position id now p t e none a b c found named = elim (string_discrete t.task_id id) [
  | yes same ↦ cc (found same)
  | no other ↦ ground arith
]
patch_position id now p t e (some r) a b c found named = elim (string_discrete t.task_id id) [
  | yes same ↦ ground (arith, found same, named r refl)
  | no other ↦ ground (arith, named r refl)
]

patch-IsReplayed :
    (now : Time) (tokens : Tokens) (p : TaskStatePatchRequest) (t : Task) (d : Database)
    → get_task t.task_id d ≡ some t
    → IsReplayed d
    → IsReplayed (patch_found now tokens t.task_id p t d).1
unfolding patch_found get_task
patch-IsReplayed now tokens p t d found h =
    let e = changed_event now tokens p t in
    elim (Bool-cases (same_state p t)) [
      | inl same ↦ rw same h
      | inr other ↦ elim (Bool-cases (exists (has_event_id e.event_id) d.outbox)) [
        | inl taken ↦ rw (other, taken) h
        | inr free ↦
            rw (other, free)
              (record {
                at_task = λ id.
                    replay-append id (some none) d.outbox e
                    ∙ ap (apply id e) (h.at_task id)
                    ∙ patch_position id now p t e (find (has_task_id id) d.tasks) refl refl refl
                        (λ same. rw (← same) found)
                        (λ r k. ground (arith, find-holds (has_task_id id) d.tasks r k))
                    ∙ ap position (
                        sym (
                          find-update (has_task_id t.task_id) (has_task_id id) (patched now p)
                            d.tasks (λ x. refl)));
              })
      ]
    ]

lookup-IsReplayed :
    (now : Time) (tokens : Tokens) (id : String) (p : TaskStatePatchRequest) (d : Database)
    (o : Option Task)
    → get_task id d ≡ o
    → IsReplayed d
    → IsReplayed (patch_lookup now tokens id p o d).1
unfolding patch_lookup get_task
lookup-IsReplayed now tokens id p d none e h = h
lookup-IsReplayed now tokens id p d (some t) e h =
    let named : t.task_id ≡ id = ground (arith, find-holds (has_task_id id) d.tasks t e) in
    subst (λ k. IsReplayed (patch_found now tokens k p t d).1) named
      (patch-IsReplayed now tokens p t d (subst (λ k. get_task k d ≡ some t) (sym named) e) h)

change-IsReplayed :
    (id : String) (f : OutboxEvent → OutboxEvent) (o : Option OutboxEvent) (d : Database)
    → KeepsHistory f
    → IsReplayed d
    → IsReplayed (change_found id f o d).1
unfolding change_found
change-IsReplayed id f none d k h = h
change-IsReplayed id f (some e) d k h = update-IsReplayed d (has_event_id id) f k h

same_history :
    {f : OutboxEvent → OutboxEvent}
    → ((e : OutboxEvent) → (f e).aggregate_id ≡ e.aggregate_id)
    → ((e : OutboxEvent) → (f e).payload ≡ e.payload)
    → KeepsHistory f
same_history a b = record { same_task = a; same_payload = b }

-- Every operation, on each of its branches, leaves an outbox that replays to the task table.
pub step-IsReplayed : (o : Operation) (d : Database) → IsReplayed d → IsReplayed (step o d)
unfolding step update_task_state claim_outbox_events complete_outbox_event fail_outbox_event failed
step-IsReplayed (Operation.create now tokens p) d h = create-IsReplayed now tokens p d h
step-IsReplayed (Operation.patch now tokens id p) d h =
    lookup-IsReplayed now tokens id p d (get_task id d) refl h
step-IsReplayed (Operation.claim now limit lease) d h =
    update-IsReplayed d _ (claimed now) (same_history (λ e. refl) (λ e. refl)) h
step-IsReplayed (Operation.complete now id) d h =
    change-IsReplayed id (completed now) (get_outbox_event id d) d
      (same_history (λ e. refl) (λ e. refl)) h
step-IsReplayed (Operation.fail now id message) d h =
    change-IsReplayed id (failed now message) (get_outbox_event id d) d
      (same_history (λ e. refl) (λ e. refl)) h

empty-IsReplayed : IsReplayed empty_database
unfolding replay get_task find
empty-IsReplayed = record { at_task = λ id. refl }

-- After any operations on an empty database, failing ones included, the outbox replays to the task
-- table: the transitions of each task join up, the last ends at the status of its row, and an id
-- without a row has no transition.
pub run-IsReplayed : (ops : List Operation) → IsReplayed (run ops empty_database)
run-IsReplayed ops = run_induction IsReplayed step-IsReplayed ops empty_database empty-IsReplayed

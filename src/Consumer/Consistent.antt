-- ===== src/Consumer/Consistent.antt =====
-- An invariant that ties the outbox to the state history
-- (services/context-memory-service/src/context_memory_service/repository.py and
-- services/provenance-service/src/provenance_service/repository.py).
use control_architecture.Base.{
  ℕ, String, true, Option, none, some, [], ◌∷◌, ◌≡◌, refl, ◌∙◌, ap, arith, ok, Bool-cases, inl, inr,
  All, All-append, All-update, All-update_where, All-map, exists, exists-append, exists-append_last,
  find-exists, string_eq,
}
use control_architecture.Contracts.Literals.{OutboxStatus}
use control_architecture.Contracts.Envelopes.{Time}
use control_architecture.Context.Models.{
  Task, OutboxEvent, Database, empty_database, TaskCreateRequest, TaskStatePatchRequest,
}
use control_architecture.Context.Repository.{
  Tokens, create_task, update_task_state, patch_lookup, patch_found, changed_event, created_event,
  new_task, violates_unique, same_state, has_event_id, get_task,
}
use control_architecture.Context.Outbox.{
  claim_outbox_events, complete_outbox_event, fail_outbox_event, change_found, get_outbox_event,
  claimed, completed, failed,
}
use control_architecture.Provenance.Models.{
  TaskProvenance, TaskStateTransition, ProvenanceDatabase, empty_provenance,
  TaskStateTransitionCreateRequest,
}
use control_architecture.Provenance.Repository.{
  add_state_transition, transition_existing, transition_task, existing_transition, new_transition,
  has_source, source_taken, get_task_provenance, get_state_transition_by_source_event,
}
use control_architecture.Provenance.Calls.{Operation, step, run}
use control_architecture.Provenance.History.{
  IsUnique, step-IsUnique, empty-IsUnique, history_appends,
}

-- The state history has a transition of this event.
abbrev pub IsRecorded : ProvenanceDatabase → String → Type 0
IsRecorded d id = exists (has_source id) d.state_history ≡ true

abbrev pub IsProjected : ProvenanceDatabase → OutboxEvent → Type 0
IsProjected d e = e.status ≡ OutboxStatus.completed → IsRecorded d e.event_id

-- Every completed event has a transition, and no event has two.
pub record IsConsistent (c : Database) (d : ProvenanceDatabase) : Type 0 where
  pub projected : All (IsProjected d) c.outbox
  pub unique : IsUnique d

pub empty-IsConsistent : IsConsistent empty_database empty_provenance
empty-IsConsistent = record { projected = tt; unique = empty-IsUnique }

-- Operations of the provenance service keep it.
step-IsRecorded :
    (o : Operation) (d : ProvenanceDatabase) (id : String)
    → IsRecorded d id
    → IsRecorded (step o d) id
unfolding run
step-IsRecorded o d id h =
    let (r, grown) = history_appends (o ∷ []) d in
    ap (exists (has_source id)) grown ∙ exists-append (has_source id) d.state_history r h

pub provenance-IsConsistent :
    (o : Operation) (c : Database) (d : ProvenanceDatabase)
    → IsConsistent c d
    → IsConsistent c (step o d)
provenance-IsConsistent o c d h = record {
  projected =
      All-map (IsProjected d) (IsProjected (step o d)) c.outbox
        (λ e k done. step-IsRecorded o d e.event_id (k done)) h.projected;
  unique = step-IsUnique o d h.unique;
}

module _ (d : ProvenanceDatabase) where
  pub create-IsConsistent :
      (now : Time) (tokens : Tokens) (p : TaskCreateRequest) (c : Database)
      → IsConsistent c d
      → IsConsistent (create_task now tokens p c).1 d
  unfolding create_task created_event
  create-IsConsistent now tokens p c h =
      let t = new_task now tokens p in
      let e = created_event now tokens p t in
      elim (Bool-cases (violates_unique c t e)) [
        | inl taken ↦ rw taken h
        | inr free ↦ rw free (record {
          projected = All-append (IsProjected d) c.outbox (e ∷ []) h.projected (λ done. cc, tt);
          unique = h.unique;
        })
      ]

  lookup-IsConsistent :
      (now : Time) (tokens : Tokens) (id : String) (p : TaskStatePatchRequest) (o : Option Task)
      (c : Database)
      → IsConsistent c d
      → IsConsistent (patch_lookup now tokens id p o c).1 d
  unfolding patch_lookup patch_found changed_event
  lookup-IsConsistent now tokens id p none c h = h
  lookup-IsConsistent now tokens id p (some t) c h =
      let e = changed_event now tokens p t in
      elim (Bool-cases (same_state p t)) [
        | inl same ↦ rw same h
        | inr other ↦ elim (Bool-cases (exists (has_event_id e.event_id) c.outbox)) [
          | inl taken ↦ rw (other, taken) h
          | inr free ↦
              rw (other, free)
                (record {
                  projected =
                      All-append (IsProjected d) c.outbox (e ∷ []) h.projected (λ done. cc, tt);
                  unique = h.unique;
                })
        ]
      ]

  pub patch-IsConsistent :
      (now : Time) (tokens : Tokens) (id : String) (p : TaskStatePatchRequest) (c : Database)
      → IsConsistent c d
      → IsConsistent (update_task_state now tokens id p c).1 d
  unfolding update_task_state
  patch-IsConsistent now tokens id p c h = lookup-IsConsistent now tokens id p (get_task id c) c h

  pub claim-IsConsistent :
      (now : Time) (limit lease : ℕ) (c : Database)
      → IsConsistent c d
      → IsConsistent (claim_outbox_events now limit lease c).1 d
  unfolding claim_outbox_events
  claim-IsConsistent now limit lease c h = record {
    projected =
        All-update (IsProjected d) _ (claimed now) c.outbox (λ x k done. cc done) h.projected;
    unique = h.unique;
  }

  change-IsConsistent :
      (id : String) (f : OutboxEvent → OutboxEvent) (o : Option OutboxEvent) (c : Database)
      → ((x : OutboxEvent) → has_event_id id x ≡ true → IsProjected d (f x))
      → IsConsistent c d
      → IsConsistent (change_found id f o c).1 d
  unfolding change_found
  change-IsConsistent id f none c k h = h
  change-IsConsistent id f (some e) c k h = record {
    projected = All-update_where (IsProjected d) (has_event_id id) f c.outbox k h.projected;
    unique = h.unique;
  }

  -- A completion keeps it where the event was recorded.
  pub complete-IsConsistent :
      (now : Time) (id : String) (c : Database)
      → IsRecorded d id
      → IsConsistent c d
      → IsConsistent (complete_outbox_event now id c).1 d
  unfolding complete_outbox_event
  complete-IsConsistent now id c r h =
      change-IsConsistent id (completed now) (get_outbox_event id c) c
        (λ x e done. let named : x.event_id ≡ id = ground (arith, e) in rw named r) h

  pub fail-IsConsistent :
      (now : Time) (id message : String) (c : Database)
      → IsConsistent c d
      → IsConsistent (fail_outbox_event now id message c).1 d
  unfolding fail_outbox_event failed
  fail-IsConsistent now id message c h =
      change-IsConsistent id (failed now message) (get_outbox_event id c) c (λ x e done. cc done) h

-- A transition that is answered for a source is recorded under it.
task-IsRecorded :
    (now : Time) (id s : String) (p : TaskStateTransitionCreateRequest) (o : Option TaskProvenance)
    (d : ProvenanceDatabase) (t : TaskStateTransition)
    → p.source_event_id ≡ some s
    → (transition_task now id p o d).0 ≡ ok (some t)
    → IsRecorded (transition_task now id p o d).1 s
unfolding transition_task new_transition
task-IsRecorded now id s p none d t src h = cc
task-IsRecorded now id s p (some q) d t src h =
    elim (Bool-cases (source_taken p.source_event_id d)) [
      | inl taken ↦ ground (arith, h)
      | inr free ↦ rw free (
          exists-append_last (has_source s) d.state_history (new_transition now id p d)
            (ground (arith, src)))
    ]

existing-IsRecorded :
    (now : Time) (id s : String) (p : TaskStateTransitionCreateRequest)
    (o : Option TaskStateTransition) (d : ProvenanceDatabase) (t : TaskStateTransition)
    → p.source_event_id ≡ some s
    → existing_transition p.source_event_id d ≡ o
    → (transition_existing now id p o d).0 ≡ ok (some t)
    → IsRecorded (transition_existing now id p o d).1 s
unfolding transition_existing
existing-IsRecorded now id s p none d t src e h =
    task-IsRecorded now id s p (get_task_provenance id d) d t src h
existing-IsRecorded now id s p (some q) d t src e h =
    find-exists (has_source s) d.state_history q
      (unfold existing_transition get_state_transition_by_source_event in ground (arith, e, src))

pub transition-IsRecorded :
    (now : Time) (id s : String) (p : TaskStateTransitionCreateRequest) (d : ProvenanceDatabase)
    (t : TaskStateTransition)
    → p.source_event_id ≡ some s
    → (add_state_transition now id p d).0 ≡ ok (some t)
    → IsRecorded (add_state_transition now id p d).1 s
unfolding add_state_transition
transition-IsRecorded now id s p d t src h =
    existing-IsRecorded now id s p (existing_transition p.source_event_id d) d t src refl h

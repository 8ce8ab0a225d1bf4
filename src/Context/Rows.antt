-- ===== src/Context/Rows.antt =====
-- What holds of every row of the outbox (services/context-memory-service/src/context_memory_service/
-- repository.py): the new events have it, and claims, completions and failures keep it.
use control_architecture.Base.{
  ℕ, String, Option, none, some, List, [], ◌∷◌, Bool-cases, inl, inr, exists, All, All-append,
  All-update, All-map, All-update_map,
}
use control_architecture.Contracts.Envelopes.{Time}
use control_architecture.Context.Models.{
  Task, OutboxEvent, Database, empty_database, TaskCreateRequest, TaskStatePatchRequest,
}
use control_architecture.Context.Repository.{
  Tokens, create_task, new_task, created_event, violates_unique, same_state, has_event_id,
  changed_event, patch_found, patch_lookup, update_task_state, get_task,
}
use control_architecture.Context.Outbox.{
  claim_outbox_events, complete_outbox_event, fail_outbox_event, change_found, get_outbox_event,
  claimed, completed, failed,
}
use control_architecture.Context.Calls.{Operation, step, run, run_induction}

-- The new events have it, and completions and failures keep it.
pub record KeptRows (P : OutboxEvent → Type 0) : Type 0 where
  pub created :
      (now : Time) (tokens : Tokens) (p : TaskCreateRequest) (t : Task)
      → P (created_event now tokens p t)
  pub changed :
      (now : Time) (tokens : Tokens) (p : TaskStatePatchRequest) (t : Task)
      → P (changed_event now tokens p t)
  pub completed_keeps : (now : Time) (e : OutboxEvent) → P e → P (completed now e)
  pub failed_keeps :
      (now : Time) (message : String) (e : OutboxEvent) → P e → P (failed now message e)

-- Claims keep it too.
pub record RowInvariant (P : OutboxEvent → Type 0) : Type 0 where
  pub kept : KeptRows P
  pub claimed_keeps : (now : Time) (e : OutboxEvent) → P e → P (claimed now e)

module _ (P : OutboxEvent → Type 0) (i : KeptRows P) where
  change_keeps :
      (id : String) (f : OutboxEvent → OutboxEvent) (o : Option OutboxEvent) (d : Database)
      → ((e : OutboxEvent) → P e → P (f e))
      → All P d.outbox
      → All P (change_found id f o d).1.outbox
  unfolding change_found
  change_keeps id f none d k h = h
  change_keeps id f (some e) d k h = All-update P (has_event_id id) f d.outbox k h

  create_keeps :
      (now : Time) (tokens : Tokens) (p : TaskCreateRequest) (d : Database)
      → All P d.outbox
      → All P (create_task now tokens p d).1.outbox
  unfolding create_task
  create_keeps now tokens p d h =
      let t = new_task now tokens p in
      let e = created_event now tokens p t in
      elim (Bool-cases (violates_unique d t e)) [
        | inl taken ↦ rw taken h
        | inr free ↦ rw free (All-append P d.outbox (e ∷ []) h (i.created now tokens p t, tt))
      ]

  patch_keeps :
      (now : Time) (tokens : Tokens) (id : String) (p : TaskStatePatchRequest) (o : Option Task)
      (d : Database)
      → All P d.outbox
      → All P (patch_lookup now tokens id p o d).1.outbox
  unfolding patch_lookup patch_found
  patch_keeps now tokens id p none d h = h
  patch_keeps now tokens id p (some t) d h =
      let e = changed_event now tokens p t in
      elim (Bool-cases (same_state p t)) [
        | inl same ↦ rw same h
        | inr other ↦ elim (Bool-cases (exists (has_event_id e.event_id) d.outbox)) [
          | inl taken ↦ rw (other, taken) h
          | inr free ↦
              rw (other, free) (All-append P d.outbox (e ∷ []) h (i.changed now tokens p t, tt))
        ]
      ]

  -- After an operation every row has what the operation makes of it.
  pub step_rows :
      (Q : Operation → OutboxEvent → Type 0)
      → ((o : Operation) (e : OutboxEvent) → P e → Q o e)
      → ((now : Time) (limit lease : ℕ) (e : OutboxEvent)
          → P e
          → Q (Operation.claim now limit lease) (claimed now e))
      → (o : Operation) (d : Database) → All P d.outbox
      → All (Q o) (step o d).outbox
  unfolding step update_task_state claim_outbox_events complete_outbox_event fail_outbox_event
  step_rows Q k claim (Operation.create now tokens p) d h =
      All-map P (Q _) _ (k _) (create_keeps now tokens p d h)
  step_rows Q k claim (Operation.patch now tokens id p) d h =
      All-map P (Q _) _ (k _) (patch_keeps now tokens id p (get_task id d) d h)
  step_rows Q k claim (Operation.claim now limit lease) d h =
      All-update_map P (Q _) _ (claimed now) d.outbox (k _) (claim now limit lease) h
  step_rows Q k claim (Operation.complete now id) d h =
      All-map P (Q _) _ (k _)
        (change_keeps id (completed now) (get_outbox_event id d) d (i.completed_keeps now) h)
  step_rows Q k claim (Operation.fail now id message) d h = All-map P (Q _) _ (k _) (
      change_keeps id (failed now message) (get_outbox_event id d) d (i.failed_keeps now message) h)

module _ (P : OutboxEvent → Type 0) (i : RowInvariant P) where
  pub step-All : (o : Operation) (d : Database) → All P d.outbox → All P (step o d).outbox
  step-All o d h =
      step_rows P i.kept (λ o'. P) (λ o' e k. k) (λ now limit lease. i.claimed_keeps now) o d h

  -- After any operations every row has it.
  pub run-All : (ops : List Operation) → All P (run ops empty_database).outbox
  run-All ops = run_induction (λ d. All P d.outbox) step-All ops empty_database tt

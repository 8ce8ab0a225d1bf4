-- ===== src/Context/Patch.antt =====
-- What a patch of a task's state does, branch by branch (services/context-memory-service/src/
-- context_memory_service/repository.py, update_task_state).
use control_architecture.Base.{
  String, true, Option, none, some, [], ◌∷◌, ◌++◌, ◌≡◌, ◌≢◌, refl, arith, ◌==◌, if◌then◌else◌,
  string_eq, find, exists, update, find-update, find-holds, Result, ok, err, format,
  string_discrete, ◌∙◌, Bool-cases, inl, inr,
}
use control_architecture.Contracts.Envelopes.{Time}
use control_architecture.Contracts.Events.{EventPayload, TaskSnapshotState}
use control_architecture.Context.Models.{Task, OutboxEvent, Database, TaskStatePatchRequest}
use control_architecture.Context.Repository.{
  RepositoryError, Tokens, has_task_id, has_event_id, get_task, same_state, patched, changed_event,
  patch_found, patch_lookup, update_task_state,
}

abbrev pub unchanged_error : String → RepositoryError
unchanged_error id =
    RepositoryError.no_state_change
      (format ("Task " ∷ id ∷ " already reflects the requested state." ∷ []))

-- The snapshot that an event carries, and the one of a row.
abbrev pub snapshot_of : EventPayload → Option TaskSnapshotState
snapshot_of (EventPayload.created p) = none
snapshot_of (EventPayload.state_changed p) = some p.task_snapshot

abbrev pub row_snapshot : Task → Option TaskSnapshotState
row_snapshot t = some (record {
  status = t.status;
  approval_status = t.approval_status;
  beneficiary_status = t.beneficiary_status;
})

-- What a patch of the task with an id leaves: nothing has changed, or the row is patched, the other
-- rows are as they were, and one event is appended whose snapshot is that of the row.
pub data PatchEffect (id : String) (d d' : Database) (r : Result RepositoryError (Option Task))
    : Type 0 where
  unchanged : d' ≡ d → ((u : Task) → r ≢ ok (some u)) → PatchEffect id d d' r
  committed :
      (u : Task) (e : OutboxEvent)
      → r ≡ ok (some u)
      → ((j : String) → get_task j d' ≡ (if id == j then some u else get_task j d))
      → d'.outbox ≡ d.outbox ++ e ∷ []
      → (e.aggregate_id ≡ id) × (snapshot_of e.payload ≡ row_snapshot u)
      → PatchEffect id d d' r

module _ (now : Time) (tokens : Tokens) (id : String) (p : TaskStatePatchRequest)
    (d : Database) where
  -- The database that a patch of a found task commits.
  abbrev patched_database : Task → Database
  patched_database t = record {
    tasks = update (has_task_id id) (patched now p) d.tasks;
    outbox = d.outbox ++ changed_event now tokens p t ∷ [];
  }

  get-patched :
      (t : Task)
      → get_task id d ≡ some t
      → get_task id (patched_database t) ≡ some (patched now p t)
  unfolding get_task patched
  get-patched t found =
      find-update (has_task_id id) (has_task_id id) (patched now p) d.tasks (λ x. refl)
      ∙ rw found (ground (arith, find-holds (has_task_id id) d.tasks t found))

  get-patched_ne : (t : Task) (j : String) → id ≢ j → get_task j (patched_database t) ≡ get_task j d
  unfolding get_task patched
  get-patched_ne t j ne =
      find-update (has_task_id id) (has_task_id j) (patched now p) d.tasks (λ x. refl)
      ∙ same_row (find (has_task_id j) d.tasks) refl
    where
      same_row :
          (o : Option Task)
          → find (has_task_id j) d.tasks ≡ o
          → elim o [ none ↦ none | some r ↦ some (if r.task_id == id then patched now p r else r) ]
            ≡ o
      same_row none e = refl
      same_row (some r) e =
          let named : r.task_id ≡ j = ground (arith, find-holds (has_task_id j) d.tasks r e) in
          ground arith

  get-patched_any :
      (t : Task)
      → get_task id d ≡ some t
      → (j : String)
      → get_task j (patched_database t) ≡ (if id == j then some (patched now p t) else get_task j d)
  get-patched_any t found j = elim (string_discrete id j) [
    | yes same ↦ rw (← same) (ground (arith, get-patched t found))
    | no other ↦ ground (arith, get-patched_ne t j other)
  ]

  named : (t : Task) → get_task id d ≡ some t → t.task_id ≡ id
  unfolding get_task
  named t found = ground (arith, find-holds (has_task_id id) d.tasks t found)

  found_effect :
      (t : Task)
      → get_task id d ≡ some t
      → PatchEffect id d (patch_found now tokens id p t d).1 (patch_found now tokens id p t d).0
  unfolding patch_found
  found_effect t found = elim (Bool-cases (same_state p t)) [
    | inl same ↦ rw same (PatchEffect.unchanged refl (λ u h. cc))
    | inr other ↦
        elim (Bool-cases (exists (has_event_id (changed_event now tokens p t).event_id) d.outbox)) [
          | inl taken ↦ rw (other, taken) (PatchEffect.unchanged refl (λ u h. cc))
          | inr free ↦
              rw (other, free)
                (PatchEffect.committed (patched now p t) (changed_event now tokens p t) refl
                  (get-patched_any t found) refl (named t found, unfold changed_event in refl))
        ]
  ]

  lookup_effect :
      (o : Option Task)
      → get_task id d ≡ o
      → PatchEffect id d (patch_lookup now tokens id p o d).1 (patch_lookup now tokens id p o d).0
  unfolding patch_lookup
  lookup_effect none found = PatchEffect.unchanged refl (λ u h. cc)
  lookup_effect (some t) found = found_effect t found

  -- A patch either changes nothing and returns no task, or returns the new row and does three things
  -- together: the row under the id becomes it, every other row stays, and exactly one event, of this
  -- task and with the snapshot of the new row, is appended to the outbox.
  pub patch_effect :
      PatchEffect id d
        (update_task_state now tokens id p d).1
        (update_task_state now tokens id p d).0
  unfolding update_task_state
  patch_effect = lookup_effect (get_task id d) refl

  found_row :
      (t u : Task)
      → (patch_found now tokens id p t d).0 ≡ ok (some u)
      → (u ≡ patched now p t) × ((patch_found now tokens id p t d).1 ≡ patched_database t)
  unfolding patch_found
  found_row t u h = ground arith

module _ (now later : Time) (tokens tokens' : Tokens) (id : String) (p : TaskStatePatchRequest)
    (d : Database) where
  patched_same : (t : Task) → same_state p (patched now p t) ≡ true
  unfolding patched
  patched_same t = ground arith

  repeat_found :
      (o : Option Task) (u : Task)
      → get_task id d ≡ o
      → (patch_lookup now tokens id p o d).0 ≡ ok (some u)
      → update_task_state later tokens' id p (patch_lookup now tokens id p o d).1
        ≡ (err (unchanged_error id), (patch_lookup now tokens id p o d).1)
  unfolding patch_lookup
  repeat_found none u found h = cc
  repeat_found (some t) u found h =
      let (row, base) = found_row now tokens id p d t u h in
      rw base (
        unfold update_task_state patch_found in
        rw (get-patched now tokens id p d t found) (rw (patched_same t)))

  -- A patch that succeeded is refused when it is sent again: it would change nothing.
  pub patch_repeat :
      (u : Task)
      → (update_task_state now tokens id p d).0 ≡ ok (some u)
      → update_task_state later tokens' id p (update_task_state now tokens id p d).1
        ≡ (err (unchanged_error id), (update_task_state now tokens id p d).1)
  patch_repeat u h = unfold update_task_state in repeat_found (get_task id d) u refl h

-- ===== src/MemoryService/Agreement.antt =====
-- The tasks and the history of the older memory service beside those of the context memory service
-- (services/memory-service/src/memory_service/repository.py and services/context-memory-service/src/
-- context_memory_service/repository.py).
use control_architecture.Base.{
  String, false, Option, none, some, [], ◌∷◌, ◌++◌, ◌≡◌, refl, ◌∙◌, arith, ◌==◌, string_eq, Result,
  ok, err, find, exists, update, find-append, exists-find, find-update, find-holds, Bool-cases, inl,
  inr, Pairwise, Agree, Pairwise-append, Pairwise-exists, Pairwise-find, Pairwise-update,
}
use control_architecture.Contracts.Envelopes.{Time}
use control_architecture.Context.Models.{
  Task, OutboxEvent, Database, TaskCreateRequest, TaskStatePatchRequest,
}
use control_architecture.Context.Repository.{
  RepositoryError, Tokens, has_task_id, create_task, new_task, created_event, violates_unique,
  get_task, same_state, patched, changed_event, patch_found, patch_lookup, update_task_state,
}
use control_architecture.Context.Transitions.{payload_transition}
use control_architecture.MemoryService.Models.{MemoryTask, TaskStateHistory, MemoryDatabase}
use control_architecture.MemoryService.Repository.{
  has_memory_id, new_memory_task, created_history, get_memory_task, create_memory_task,
  patched_memory, patched_history, same_memory_state, patch_memory, update_memory_state,
}
use control_architecture.MemoryService.Evidence.{touched}
use control_architecture.MemoryService.Calls.{created_answer, IsNewEvent}

-- The rows of a task in the two services: all that they share but the time of the last change, which
-- evidence moves in the older service alone.
pub record SameTask (m : MemoryTask) (t : Task) : Type 0 where
  pub task_id : m.task_id ≡ t.task_id
  pub payment_id : m.payment_id ≡ t.payment_id
  pub customer_id : m.customer_id ≡ t.customer_id
  pub rail : m.rail ≡ t.rail
  pub amount_usd : m.amount_usd ≡ t.amount_usd
  pub status : m.status ≡ t.status
  pub beneficiary_status : m.beneficiary_status ≡ t.beneficiary_status
  pub approval_status : m.approval_status ≡ t.approval_status
  pub task_metadata : m.task_metadata ≡ t.task_metadata
  pub created_at : m.created_at ≡ t.created_at

-- An entry of the older service's history and the outbox event that publishes the same transition.
pub record SameEntry (h : TaskStateHistory) (e : OutboxEvent) : Type 0 where
  pub task_id : h.task_id ≡ e.aggregate_id
  pub from_status : h.from_status ≡ (payload_transition e.payload).from_status
  pub to_status : h.to_status ≡ (payload_transition e.payload).to_status
  pub changed_by : h.changed_by ≡ (payload_transition e.payload).changed_by
  pub reason : h.reason ≡ (payload_transition e.payload).reason
  pub created_at : h.created_at ≡ e.created_at

-- The two services agree: row by row, and entry by event.
pub record Simulates (c : Database) (m : MemoryDatabase) : Type 0 where
  pub tasks : Pairwise SameTask m.tasks c.tasks
  pub history : Pairwise SameEntry m.state_history c.outbox

abbrev pub SameAnswer :
    Result RepositoryError (Option MemoryTask) → Result RepositoryError (Option Task) → Type 0
SameAnswer (ok a) (ok b) = Agree SameTask a b
SameAnswer (ok a) (err e) = ⊥
SameAnswer (err x) (ok b) = ⊥
SameAnswer (err x) (err e) = x ≡ e

same_id :
    (id : String) (m : MemoryTask) (t : Task) → SameTask m t → has_memory_id id m ≡ has_task_id id t
same_id id m t h = rw h.task_id

pub touched-SameTask :
    (now : Time) (name : String) (m : MemoryTask) (t : Task)
    → SameTask m t
    → SameTask (touched now name m) t
touched-SameTask now name m t h = ground arith

-- A row that was just added is found.
find_added :
    (m : MemoryDatabase) (t : MemoryTask)
    → exists (has_memory_id t.task_id) m.tasks ≡ false
    → find (has_memory_id t.task_id) (m.tasks ++ t ∷ []) ≡ some t
unfolding find
find_added m t free =
    find-append (has_memory_id t.task_id) m.tasks (t ∷ [])
    ∙ rw (exists-find (has_memory_id t.task_id) m.tasks free) (ground arith)

new-SameTask :
    (now : Time) (tokens : Tokens) (p : TaskCreateRequest)
    → SameTask (new_memory_task now tokens p) (new_task now tokens p)
unfolding new_memory_task new_task
new-SameTask now tokens p = ground arith

patched-SameTask :
    (now : Time) (p : TaskStatePatchRequest) (m : MemoryTask) (t : Task)
    → SameTask m t
    → SameTask (patched_memory now p m) (patched now p t)
unfolding patched_memory patched
patched-SameTask now p m t h = ground arith

-- The unique keys of a new task are free in both services, or in neither.
same_keys :
    (c : Database) (m : MemoryDatabase) (u : MemoryTask) (t : Task)
    → Simulates c m
    → SameTask u t
    → (exists (has_memory_id u.task_id) m.tasks ≡ exists (has_task_id t.task_id) c.tasks)
      × (exists (λ a. a.payment_id == u.payment_id) m.tasks
          ≡ exists (λ b. b.payment_id == t.payment_id) c.tasks)
same_keys c m u t h same = (
  Pairwise-exists SameTask (has_memory_id u.task_id) (has_task_id t.task_id)
      (λ a b r. rw (r.task_id, same.task_id)) m.tasks c.tasks h.tasks,
  Pairwise-exists SameTask (λ a. a.payment_id == u.payment_id) (λ b. b.payment_id == t.payment_id)
      (λ a b r. rw (r.payment_id, same.payment_id)) m.tasks c.tasks h.tasks,
)

created-SameEntry :
    (now : Time) (tokens : Tokens) (p : TaskCreateRequest) (m : MemoryDatabase)
    → SameEntry
        (created_history now p (new_memory_task now tokens p) m)
        (created_event now tokens p (new_task now tokens p))
unfolding new_memory_task new_task created_event
created-SameEntry now tokens p m = ground arith

pub create_refines :
    (now : Time) (tokens : Tokens) (p : TaskCreateRequest) (c : Database) (m : MemoryDatabase)
    → Simulates c m
    → IsNewEvent tokens c
    → SameAnswer
        (create_memory_task now tokens p m).0
        (created_answer (create_task now tokens p c).0)
      × Simulates (create_task now tokens p c).1 (create_memory_task now tokens p m).1
unfolding create_task create_memory_task violates_unique get_memory_task created_event
create_refines now tokens p c m h fresh =
    let t = new_task now tokens p in
    let u = new_memory_task now tokens p in
    let same = new-SameTask now tokens p in
    let (ids, pays) = same_keys c m u t h same in
    elim (Bool-cases (exists (has_task_id t.task_id) c.tasks)) [
      | inl taken ↦ rw (ids, taken) (refl, h)
      | inr free ↦ elim (Bool-cases (exists (λ b. b.payment_id == t.payment_id) c.tasks)) [
        | inl taken ↦ rw (ids, free, pays, taken) (refl, h)
        | inr unpaid ↦
            rw (ids, free, pays, unpaid, fresh, find_added m u (ids ∙ free))
              (
                same,
                record {
                  tasks = Pairwise-append SameTask m.tasks c.tasks u t h.tasks same;
                  history =
                      Pairwise-append SameEntry m.state_history c.outbox (created_history now p u m)
                        (created_event now tokens p t) h.history (created-SameEntry now tokens p m);
                },
              )
      ]
    ]

patched-SameEntry :
    (now : Time) (tokens : Tokens) (p : TaskStatePatchRequest) (m : MemoryDatabase) (a : MemoryTask)
    (b : Task)
    → SameTask a b
    → SameEntry (patched_history now p a m) (changed_event now tokens p b)
unfolding changed_event
patched-SameEntry now tokens p m a b h = ground arith

same_test :
    (p : TaskStatePatchRequest) (a : MemoryTask) (b : Task)
    → SameTask a b
    → same_memory_state p a ≡ same_state p b
same_test p a b h = rw (h.status, h.approval_status, h.beneficiary_status)

-- The row of the older service that its patch reads back.
read_back :
    (now : Time) (id : String) (p : TaskStatePatchRequest) (m : MemoryDatabase) (a : MemoryTask)
    → get_memory_task id m ≡ some a
    → find (has_memory_id a.task_id) (update (has_memory_id id) (patched_memory now p) m.tasks)
      ≡ some (patched_memory now p a)
unfolding get_memory_task patched_memory
read_back now id p m a found =
    let named : a.task_id ≡ id = ground (arith, find-holds (has_memory_id id) m.tasks a found) in
    rw named (
      find-update (has_memory_id id) (has_memory_id id) (patched_memory now p) m.tasks (λ x. refl)
      ∙ rw found (ground arith))

module _ (now : Time) (tokens : Tokens) (id : String) (p : TaskStatePatchRequest) (c : Database)
    (m : MemoryDatabase) (h : Simulates c m) (fresh : IsNewEvent tokens c) where
  found_refines :
      (a : MemoryTask) (b : Task)
      → get_memory_task id m ≡ some a
      → SameTask a b
      → SameAnswer (patch_memory now id p (some a) m).0 (patch_found now tokens id p b c).0
        × Simulates (patch_found now tokens id p b c).1 (patch_memory now id p (some a) m).1
  unfolding patch_memory patch_found changed_event get_memory_task
  found_refines a b found same = elim (Bool-cases (same_state p b)) [
    | inl e ↦ rw (same_test p a b same, e) (refl, h)
    | inr e ↦
        rw (same_test p a b same, e, fresh, read_back now id p m a found)
          (
            patched-SameTask now p a b same,
            record {
              tasks =
                  Pairwise-update SameTask (has_memory_id id) (has_task_id id) (same_id id)
                    (patched_memory now p) (patched now p) m.tasks c.tasks (patched-SameTask now p)
                    h.tasks;
              history =
                  Pairwise-append SameEntry m.state_history c.outbox (patched_history now p a m)
                    (changed_event now tokens p b) h.history
                    (patched-SameEntry now tokens p m a b same);
            },
          )
  ]

  lookup_refines :
      (a : Option MemoryTask) (b : Option Task)
      → get_memory_task id m ≡ a
      → Agree SameTask a b
      → SameAnswer (patch_memory now id p a m).0 (patch_lookup now tokens id p b c).0
        × Simulates (patch_lookup now tokens id p b c).1 (patch_memory now id p a m).1
  unfolding patch_memory patch_lookup
  lookup_refines none none found same = (tt, h)
  lookup_refines none (some b) found same = absurd same
  lookup_refines (some a) none found same = absurd same
  lookup_refines (some a) (some b) found same = found_refines a b found same

  pub patch_refines :
      SameAnswer (update_memory_state now id p m).0 (update_task_state now tokens id p c).0
      × Simulates (update_task_state now tokens id p c).1 (update_memory_state now id p m).1
  unfolding update_memory_state update_task_state get_memory_task get_task
  patch_refines = lookup_refines (get_memory_task id m) (get_task id c) refl (
      Pairwise-find SameTask (has_memory_id id) (has_task_id id) (same_id id) m.tasks c.tasks
        h.tasks)

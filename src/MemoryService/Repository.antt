-- ===== src/MemoryService/Repository.antt =====
-- The tasks of the older memory service (services/memory-service/src/memory_service/repository.py).
-- An operation takes the time and the random parts of new identifiers; it returns its result, or what
-- it raises, with the database that its commit leaves.
use control_architecture.Base.{
  suc, String, Bool, ◌&&◌, ◌||◌, Option, none, some, [], ◌∷◌, ◌++◌, ◌==◌, if◌then◌else◌, string_eq,
  Result, ok, err, format, or_text, or_value, find, exists, update, length,
}
use control_architecture.Contracts.Literals.{
  task_status_eq, approval_status_eq, beneficiary_status_eq,
}
use control_architecture.Contracts.Envelopes.{Time}
use control_architecture.Context.Repository.{RepositoryError, Tokens}
use control_architecture.MemoryService.Models.{
  ProvenanceRecord, MemoryTask, TaskStateHistory, MemoryDatabase, MemoryTaskCreateRequest,
  MemoryTaskStatePatchRequest,
}

-- NoStateChangeError or an IntegrityError, as in the context memory service.
abbrev pub MemoryOutcome : Type 0 → Type 0
MemoryOutcome A = Result RepositoryError A × MemoryDatabase

abbrev pub has_memory_id : String → MemoryTask → Bool
has_memory_id id t = t.task_id == id

-- `provenance["last_updated_by"] = name`
abbrev pub updated_provenance : String → ProvenanceRecord → ProvenanceRecord
updated_provenance name r = record r { last_updated_by = some name }

-- The row and the history entry that `create_task` adds.
unfoldable pub new_memory_task : Time → Tokens → MemoryTaskCreateRequest → MemoryTask
new_memory_task now tokens p = record {
  task_id = or_text p.task_id (format ("task_" ∷ tokens.task ∷ []));
  payment_id = or_text p.payment_id (format ("pay_" ∷ tokens.payment ∷ []));
  customer_id = p.customer_id;
  rail = p.rail;
  amount_usd = p.amount_usd;
  status = p.status;
  beneficiary_status = p.beneficiary_status;
  approval_status = p.approval_status;
  task_metadata = p.task_metadata;
  provenance =
      updated_provenance (or_text p.provenance.last_updated_by p.provenance.initiated_by)
        p.provenance;
  created_at = now;
  updated_at = now;
}

abbrev pub created_history :
    Time → MemoryTaskCreateRequest → MemoryTask → MemoryDatabase → TaskStateHistory
created_history now p t d = record {
  id = suc (length d.state_history);
  task_id = t.task_id;
  from_status = none;
  to_status = p.status;
  changed_by = p.provenance.initiated_by;
  reason = some "task created";
  created_at = now;
}

unfoldable pub get_memory_task : String → MemoryDatabase → Option MemoryTask
get_memory_task id d = find (has_memory_id id) d.tasks

-- The primary key and the payment id are unique. The new row is read back after its commit.
unfoldable pub create_memory_task :
    Time → Tokens → MemoryTaskCreateRequest → MemoryDatabase → MemoryOutcome (Option MemoryTask)
unfolding get_memory_task
create_memory_task now tokens p d =
    let t = new_memory_task now tokens p in
    if exists (has_memory_id t.task_id) d.tasks
      || exists (λ u. u.payment_id == t.payment_id) d.tasks
    then (err RepositoryError.integrity_error, d)
    else let d' = record d {
      tasks = d.tasks ++ t ∷ [];
      state_history = d.state_history ++ created_history now p t d ∷ [];
    } in
      (ok (get_memory_task t.task_id d'), d')

-- The row after a patch. Its state differs from the one before, so `updated_at` is set.
unfoldable pub patched_memory : Time → MemoryTaskStatePatchRequest → MemoryTask → MemoryTask
patched_memory now p t = record t {
  status = p.status;
  approval_status = or_value p.approval_status t.approval_status;
  beneficiary_status = or_value p.beneficiary_status t.beneficiary_status;
  provenance = updated_provenance p.changed_by t.provenance;
  updated_at = now;
}

abbrev pub patched_history :
    Time → MemoryTaskStatePatchRequest → MemoryTask → MemoryDatabase → TaskStateHistory
patched_history now p t d = record {
  id = suc (length d.state_history);
  task_id = t.task_id;
  from_status = some t.status;
  to_status = p.status;
  changed_by = p.changed_by;
  reason = p.reason;
  created_at = now;
}

abbrev pub same_memory_state : MemoryTaskStatePatchRequest → MemoryTask → Bool
same_memory_state p t =
    (t.status == p.status)
    && (t.approval_status == or_value p.approval_status t.approval_status)
    && (t.beneficiary_status == or_value p.beneficiary_status t.beneficiary_status)

-- The patch of the task that was looked up.
unfoldable pub patch_memory :
    Time
    → String
    → MemoryTaskStatePatchRequest
    → Option MemoryTask
    → MemoryDatabase
    → MemoryOutcome (Option MemoryTask)
unfolding patched_memory get_memory_task
patch_memory now id p none d = (ok none, d)
patch_memory now id p (some t) d =
    if same_memory_state p t
    then (
      err (
          RepositoryError.no_state_change
            (format ("Task " ∷ id ∷ " already reflects the requested state." ∷ []))),
      d,
    )
    else let d' = record d {
      tasks = update (has_memory_id id) (patched_memory now p) d.tasks;
      state_history = d.state_history ++ patched_history now p t d ∷ [];
    } in
      (ok (get_memory_task t.task_id d'), d')

unfoldable pub update_memory_state :
    Time → String → MemoryTaskStatePatchRequest → MemoryDatabase → MemoryOutcome (Option MemoryTask)
unfolding patch_memory
update_memory_state now id p d = patch_memory now id p (get_memory_task id d) d

-- ===== src/Context/Repository.antt =====
-- The operations of the context memory service (services/context-memory-service/src/
-- context_memory_service/repository.py). An operation takes the time and the random parts of new
-- identifiers; it returns its result, or what it raises, with the database that its commit leaves.
use control_architecture.Base.{
  String, Bool, ◌&&◌, ◌||◌, Option, none, some, [], ◌∷◌, ◌++◌, ◌==◌, if◌then◌else◌, string_eq,
  Result, ok, err, format, or_text, or_value, find, exists, update,
}
use control_architecture.Contracts.Literals.{
  OutboxStatus, task_status_eq, approval_status_eq, beneficiary_status_eq,
}
use control_architecture.Contracts.Envelopes.{Time}
use control_architecture.Contracts.Events.{
  EventPayload, event_type_task_created, event_type_task_state_changed,
}
use control_architecture.Context.Models.{
  Task, OutboxEvent, Database, TaskCreateRequest, TaskStatePatchRequest,
}

-- What an operation raises: NoStateChangeError with its message, or the IntegrityError of a commit
-- that would repeat a unique key (which rolls the transaction back).
pub data RepositoryError : Type 0 where
  no_state_change : String → RepositoryError
  integrity_error : RepositoryError

abbrev pub Outcome : Type 0 → Type 0
Outcome A = Result RepositoryError A × Database

-- The random parts of the identifiers that a call may make.
pub record Tokens : Type 0 where
  pub task : String
  pub payment : String
  pub event : String

abbrev pub has_task_id : String → Task → Bool
has_task_id id t = t.task_id == id

abbrev pub has_event_id : String → OutboxEvent → Bool
has_event_id id e = e.event_id == id

-- The rows that `create_task` adds.
unfoldable pub new_task : Time → Tokens → TaskCreateRequest → Task
new_task now tokens p = record {
  task_id = or_text p.task_id (format ("task_" ∷ tokens.task ∷ []));
  payment_id = or_text p.payment_id (format ("pay_" ∷ tokens.payment ∷ []));
  customer_id = p.customer_id;
  rail = p.rail;
  amount_usd = p.amount_usd;
  status = p.status;
  beneficiary_status = p.beneficiary_status;
  approval_status = p.approval_status;
  task_metadata = p.task_metadata;
  created_at = now;
  updated_at = now;
}

abbrev pub pending_event : Time → Tokens → String → String → EventPayload → OutboxEvent
pending_event now tokens task_id event_type payload = record {
  event_id = format ("evt_" ∷ tokens.event ∷ []);
  aggregate_type = "task";
  aggregate_id = task_id;
  event_type = event_type;
  payload = payload;
  status = OutboxStatus.pending;
  attempt_count = 0;
  last_error = none;
  claimed_at = none;
  processed_at = none;
  created_at = now;
  updated_at = now;
}

unfoldable pub created_event : Time → Tokens → TaskCreateRequest → Task → OutboxEvent
created_event now tokens p t = pending_event now tokens t.task_id event_type_task_created (
    EventPayload.created (record {
      task_id = t.task_id;
      payment_id = t.payment_id;
      customer_id = t.customer_id;
      rail = t.rail;
      amount_usd = t.amount_usd;
      provenance = p.provenance;
      transition = record {
        from_status = none;
        to_status = t.status;
        changed_by = p.provenance.initiated_by;
        reason = some "task created";
      };
    }))

-- A commit of a new task and its event: the primary keys and the payment id are unique.
unfoldable pub violates_unique : Database → Task → OutboxEvent → Bool
violates_unique d t e =
    exists (has_task_id t.task_id) d.tasks
    || exists (λ u. u.payment_id == t.payment_id) d.tasks
    || exists (has_event_id e.event_id) d.outbox

unfoldable pub create_task : Time → Tokens → TaskCreateRequest → Database → Outcome Task
create_task now tokens p d =
    let t = new_task now tokens p in
    let e = created_event now tokens p t in
    if violates_unique d t e
    then (err RepositoryError.integrity_error, d)
    else (ok t, record { tasks = d.tasks ++ t ∷ []; outbox = d.outbox ++ e ∷ [] })

unfoldable pub get_task : String → Database → Option Task
get_task id d = find (has_task_id id) d.tasks

-- The row after a patch.
unfoldable pub patched : Time → TaskStatePatchRequest → Task → Task
patched now p t = record t {
  status = p.status;
  approval_status = or_value p.approval_status t.approval_status;
  beneficiary_status = or_value p.beneficiary_status t.beneficiary_status;
  updated_at = now;
}

unfoldable pub changed_event : Time → Tokens → TaskStatePatchRequest → Task → OutboxEvent
unfolding patched
changed_event now tokens p t =
    let u = patched now p t in
    pending_event now tokens t.task_id event_type_task_state_changed (
      EventPayload.state_changed (record {
        task_id = t.task_id;
        payment_id = t.payment_id;
        transition = record {
          from_status = some t.status;
          to_status = p.status;
          changed_by = p.changed_by;
          reason = p.reason;
        };
        task_snapshot = record {
          status = u.status;
          approval_status = u.approval_status;
          beneficiary_status = u.beneficiary_status;
        };
      }))

abbrev pub same_state : TaskStatePatchRequest → Task → Bool
same_state p t =
    (t.status == p.status)
    && (t.approval_status == or_value p.approval_status t.approval_status)
    && (t.beneficiary_status == or_value p.beneficiary_status t.beneficiary_status)

-- The patch of a task that was found.
unfoldable pub patch_found :
    Time → Tokens → String → TaskStatePatchRequest → Task → Database → Outcome (Option Task)
unfolding patched changed_event
patch_found now tokens id p t d =
    if same_state p t
    then (
      err (
          RepositoryError.no_state_change
            (format ("Task " ∷ id ∷ " already reflects the requested state." ∷ []))),
      d,
    )
    else if exists (has_event_id (changed_event now tokens p t).event_id) d.outbox
    then (err RepositoryError.integrity_error, d)
    else (
      ok (some (patched now p t)),
      record {
        tasks = update (has_task_id id) (patched now p) d.tasks;
        outbox = d.outbox ++ changed_event now tokens p t ∷ [];
      },
    )

unfoldable pub patch_lookup :
    Time → Tokens → String → TaskStatePatchRequest → Option Task → Database → Outcome (Option Task)
unfolding patch_found
patch_lookup now tokens id p none d = (ok none, d)
patch_lookup now tokens id p (some t) d = patch_found now tokens id p t d

unfoldable pub update_task_state :
    Time → Tokens → String → TaskStatePatchRequest → Database → Outcome (Option Task)
unfolding patch_lookup
update_task_state now tokens id p d = patch_lookup now tokens id p (get_task id d) d

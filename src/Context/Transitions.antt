-- ===== src/Context/Transitions.antt =====
-- The outbox read as the history of the tasks (services/context-memory-service/src/
-- context_memory_service/repository.py): the transitions of a task, replayed.
use control_architecture.Base.{
  String, Bool, true, false, Option, none, some, List, [], ◌∷◌, ◌++◌, ◌≡◌, refl, arith, ◌==◌,
  if◌then◌else◌, string_eq, HasEq, update, ap, ◌∙◌,
}
use control_architecture.Contracts.Literals.{TaskStatus, TaskStatus-discrete}
use control_architecture.Contracts.Events.{EventPayload, TaskLifecycleTransition}
use control_architecture.Context.Models.{Task, OutboxEvent, Database}
use control_architecture.Context.Repository.{get_task}

pub optional_status-discrete : Discrete (Option TaskStatus)
optional_status-discrete = hlevel TaskStatus-discrete

instance abbrev pub optional_status_eq : HasEq (Option TaskStatus)
optional_status_eq = record { dec_eq = optional_status-discrete }

abbrev pub payload_transition : EventPayload → TaskLifecycleTransition
payload_transition (EventPayload.created p) = p.transition
payload_transition (EventPayload.state_changed p) = p.transition

-- Where a task is: `some none` before it is there, and `none` once its history has broken off.
abbrev pub Position : Type 0
Position = Option (Option TaskStatus)

-- One event: a transition of the task with the id has to start where the task is.
unfoldable pub apply : String → OutboxEvent → Position → Position
apply id e none = none
apply id e (some cur) =
    if e.aggregate_id == id
    then (if (payload_transition e.payload).from_status == cur
        then some (some (payload_transition e.payload).to_status)
        else none)
    else some cur

-- The position that a list of events leaves the task in.
unfoldable pub replay : String → Position → List OutboxEvent → Position
replay id cur [] = cur
replay id cur (e ∷ r) = replay id (apply id e cur) r

abbrev pub position : Option Task → Position
position none = some none
position (some t) = some (some t.status)

-- The outbox replays to the task table: for every id the transitions join up, and end at the status
-- of the task's row, or there is neither row nor transition.
pub record IsReplayed (d : Database) : Type 0 where
  pub at_task : (id : String) → replay id (some none) d.outbox ≡ position (get_task id d)

pub replay-append :
    (id : String) (cur : Position) (xs : List OutboxEvent) (e : OutboxEvent)
    → replay id cur (xs ++ e ∷ []) ≡ apply id e (replay id cur xs)
unfolding replay
replay-append id cur [] e = refl
replay-append id cur (x ∷ xs) e = replay-append id (apply id x cur) xs e

-- A change of rows that leaves their task and payload alone leaves the history alone.
pub record KeepsHistory (f : OutboxEvent → OutboxEvent) : Type 0 where
  pub same_task : (e : OutboxEvent) → (f e).aggregate_id ≡ e.aggregate_id
  pub same_payload : (e : OutboxEvent) → (f e).payload ≡ e.payload

apply-update :
    (id : String) (cur : Position) (b : Bool) (f : OutboxEvent → OutboxEvent) (x : OutboxEvent)
    → KeepsHistory f
    → apply id (if b then f x else x) cur ≡ apply id x cur
unfolding apply
apply-update id cur true f x k = ground (arith, k.same_task x, k.same_payload x)
apply-update id cur false f x k = refl

replay-update :
    (id : String) (cur : Position) (p : OutboxEvent → Bool) (f : OutboxEvent → OutboxEvent)
    (xs : List OutboxEvent)
    → KeepsHistory f
    → replay id cur (update p f xs) ≡ replay id cur xs
unfolding replay update
replay-update id cur p f [] k = refl
replay-update id cur p f (x ∷ xs) k =
    ap (λ c. replay id c (update p f xs)) (apply-update id cur (p x) f x k)
    ∙ replay-update id (apply id x cur) p f xs k

pub update-IsReplayed :
    (d : Database) (p : OutboxEvent → Bool) (f : OutboxEvent → OutboxEvent)
    → KeepsHistory f
    → IsReplayed d
    → IsReplayed (record d { outbox = update p f d.outbox })
unfolding get_task
update-IsReplayed d p f k h = record {
  at_task = λ id. replay-update id (some none) p f d.outbox k ∙ h.at_task id;
}

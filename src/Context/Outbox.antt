-- ===== src/Context/Outbox.antt =====
-- The outbox of the context memory service: claims with a lease, completion and failure
-- (services/context-memory-service/src/context_memory_service/repository.py).
use control_architecture.Base.{
  ℕ, zero, suc, ◌+◌, String, Bool, true, false, ◌&&◌, Option, none, some, List, [], ◌∷◌, ◌==◌,
  if◌then◌else◌, string_eq, ltb, find, update, select, is_in, map, order_by,
}
use control_architecture.Contracts.Literals.{
  OutboxStatus, outbox_status_eq, task_status_eq, approval_status_eq, beneficiary_status_eq,
}
use control_architecture.Contracts.Envelopes.{Time, seconds}
use control_architecture.Context.Models.{OutboxEvent, Database}
use control_architecture.Context.Repository.{has_event_id}

-- Whether `claim_outbox_events` may take an event: it is pending or failed, or its lease has run out.
-- `claimed_at < now - lease` is written with a sum.
abbrev pub lease_expired : Time → ℕ → Option Time → Bool
lease_expired now lease none = false
lease_expired now lease (some at) = ltb (at + seconds lease) now

unfoldable pub claimable : Time → ℕ → OutboxEvent → Bool
claimable now lease e = elim e.status [
  | OutboxStatus.pending ↦ true
  | OutboxStatus.failed ↦ true
  | OutboxStatus.in_progress ↦ lease_expired now lease e.claimed_at
  | OutboxStatus.completed ↦ false
]

-- `order_by(created_at)`
unfoldable pub order_by_created_at : List OutboxEvent → List OutboxEvent
unfolding order_by
order_by_created_at = order_by (λ e. e.created_at)

unfoldable pub limited : ℕ → List OutboxEvent → List OutboxEvent
limited zero r = []
limited (suc n) [] = []
limited (suc n) (e ∷ r) = e ∷ limited n r

abbrev pub claimed : Time → OutboxEvent → OutboxEvent
claimed now e = record e {
  status = OutboxStatus.in_progress;
  attempt_count = e.attempt_count + 1;
  claimed_at = some now;
  updated_at = now;
}

-- The rows that a claim selects.
unfoldable pub selected : Time → ℕ → ℕ → Database → List OutboxEvent
unfolding claimable order_by_created_at limited
selected now limit lease d =
    limited limit (order_by_created_at (select (claimable now lease) d.outbox))

unfoldable pub event_ids : List OutboxEvent → List String
event_ids [] = []
event_ids (e ∷ r) = e.event_id ∷ event_ids r

unfoldable pub claim_outbox_events : Time → ℕ → ℕ → Database → List OutboxEvent × Database
unfolding selected event_ids
claim_outbox_events now limit lease d =
    let taken = selected now limit lease d in
    (
      map (claimed now) taken,
      record d { outbox = update (λ e. is_in e.event_id (event_ids taken)) (claimed now) d.outbox },
    )

unfoldable pub get_outbox_event : String → Database → Option OutboxEvent
get_outbox_event id d = find (has_event_id id) d.outbox

abbrev pub completed : Time → OutboxEvent → OutboxEvent
completed now e = record e {
  status = OutboxStatus.completed;
  last_error = none;
  processed_at = some now;
  updated_at = now;
}

abbrev same_error : Option String → String → Bool
same_error none message = false
same_error (some old) message = old == message

abbrev is_none {ℓ} : {A : Type ℓ} → Option A → Bool
is_none none = true
is_none (some a) = false

-- A row whose columns all keep their values is not updated, so its `updated_at` stays.
unfoldable pub failed : Time → String → OutboxEvent → OutboxEvent
failed now error_message e =
    let unchanged =
      (e.status == OutboxStatus.failed)
      && same_error e.last_error error_message
      && is_none e.claimed_at in
    record e {
      status = OutboxStatus.failed;
      last_error = some error_message;
      claimed_at = none;
      updated_at = if unchanged then e.updated_at else now;
    }

-- A change of the event with an id, if one was found.
unfoldable pub change_found :
    String
    → (OutboxEvent → OutboxEvent)
    → Option OutboxEvent
    → Database
    → Option OutboxEvent × Database
change_found id f none d = (none, d)
change_found id f (some e) d =
    (some (f e), record d { outbox = update (has_event_id id) f d.outbox })

unfoldable pub change_event :
    String → (OutboxEvent → OutboxEvent) → Database → Option OutboxEvent × Database
unfolding change_found
change_event id f d = change_found id f (get_outbox_event id d) d

unfoldable pub complete_outbox_event : Time → String → Database → Option OutboxEvent × Database
unfolding change_event
complete_outbox_event now id d = change_event id (completed now) d

unfoldable pub fail_outbox_event : Time → String → String → Database → Option OutboxEvent × Database
unfolding change_event failed
fail_outbox_event now id error_message d = change_event id (failed now error_message) d

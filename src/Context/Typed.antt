-- ===== src/Context/Typed.antt =====
-- Reading the stored events as the shared event types, as the claim endpoint does
-- (services/context-memory-service/src/context_memory_service/main.py and repository.py).
use Prim.Native.Nat.{min}
use control_architecture.Base.{
  suc, String, true, some, List, [], ◌∷◌, ◌≡◌, refl, arith, ok, All, length, map, string_discrete,
  ◌∙◌, ap,
}
use control_architecture.Contracts.Envelopes.{Time}
use control_architecture.Contracts.Events.{
  TaskLifecycleOutboxEvent, BaseTaskLifecycleOutboxEvent, EventPayload, validate_event,
}
use control_architecture.Context.Models.{
  Task, OutboxEvent, Database, empty_database, TaskCreateRequest, TaskStatePatchRequest,
  OutboxClaimRequest,
}
use control_architecture.Context.Repository.{Tokens, created_event, changed_event}
use control_architecture.Context.Outbox.{claim_outbox_events, claimed, completed, failed, selected}
use control_architecture.Context.Rows.{RowInvariant, run-All}
use control_architecture.Context.Calls.{Operation, run}
use control_architecture.Context.Api.{parse_event, parse_events, post_claim, in_bounds}
use control_architecture.Context.Leases.{claimable_count, length-selected, selected-All}

-- The row is an event of the shared contract.
abbrev pub Parses : OutboxEvent → Type 0
Parses e = (x : TaskLifecycleOutboxEvent) × (parse_event e ≡ some x)

abbrev pub IsTyped : Database → Type 0
IsTyped d = All Parses d.outbox

-- Whether an event is read depends on its type and its payload alone.
reads :
    (b c : BaseTaskLifecycleOutboxEvent) (t : String) (pl : EventPayload)
    (x : TaskLifecycleOutboxEvent)
    → validate_event b t pl ≡ some x
    → (y : TaskLifecycleOutboxEvent) × (validate_event c t pl ≡ some y)
unfolding validate_event
reads b c t (EventPayload.created q) x h = (TaskLifecycleOutboxEvent.created c q, ground arith)
reads b c t (EventPayload.state_changed q) x h =
    (TaskLifecycleOutboxEvent.state_changed c q, ground arith)

created-Parses :
    (now : Time) (tokens : Tokens) (p : TaskCreateRequest) (t : Task)
    → Parses (created_event now tokens p t)
unfolding created_event parse_event string_discrete
created-Parses now tokens p t = (TaskLifecycleOutboxEvent.created _ _, refl)

changed-Parses :
    (now : Time) (tokens : Tokens) (p : TaskStatePatchRequest) (t : Task)
    → Parses (changed_event now tokens p t)
unfolding changed_event parse_event string_discrete
changed-Parses now tokens p t = (TaskLifecycleOutboxEvent.state_changed _ _, refl)

pub claimed-Parses : (now : Time) (e : OutboxEvent) → Parses e → Parses (claimed now e)
unfolding parse_event
claimed-Parses now e (x, h) = reads _ _ e.event_type e.payload x h

pub completed-Parses : (now : Time) (e : OutboxEvent) → Parses e → Parses (completed now e)
unfolding parse_event
completed-Parses now e (x, h) = reads _ _ e.event_type e.payload x h

failed-Parses : (now : Time) (m : String) (e : OutboxEvent) → Parses e → Parses (failed now m e)
unfolding parse_event failed
failed-Parses now m e (x, h) = reads _ _ e.event_type e.payload x h

-- Every row is typed, from its creation on.
pub typed_rows : RowInvariant Parses
typed_rows = record {
  kept = record {
    created = created-Parses;
    changed = changed-Parses;
    completed_keeps = completed-Parses;
    failed_keeps = failed-Parses;
  };
  claimed_keeps = claimed-Parses;
}

-- After any operations every row of the outbox reads as an event of the shared contract: its payload
-- is the one that its event type asks for.
pub run-IsTyped : (ops : List Operation) → IsTyped (run ops empty_database)
run-IsTyped ops = run-All Parses typed_rows ops

-- A list of rows that can be read is read, row by row.
pub parse-All :
    (now : Time) (xs : List OutboxEvent)
    → All Parses xs
    → (r : List TaskLifecycleOutboxEvent) × (parse_events (map (claimed now) xs) ≡ some r)
      × (length r ≡ length xs)
unfolding parse_events
parse-All now [] h = ([], refl, refl)
parse-All now (x ∷ xs) h =
    let (e, read) = claimed-Parses now x h.0 in
    let (r, rest, len) = parse-All now xs h.1 in (e ∷ r, rw (read, rest) refl, ap suc len)

-- After any operations, a claim with a limit from 1 to 500 and a lease from 1 to 3600 seconds is
-- answered, with as many events as may be claimed, up to the limit.
pub post_claim_answers :
    (ops : List Operation) (now : Time) (p : OutboxClaimRequest)
    → in_bounds p ≡ true
    → (r : List TaskLifecycleOutboxEvent) × ((post_claim now p (run ops empty_database)).0 ≡ ok r)
      × (length r ≡ min p.limit (claimable_count now p.lease_seconds (run ops empty_database)))
unfolding post_claim claim_outbox_events
post_claim_answers ops now p h =
    let d = run ops empty_database in
    let taken = selected now p.limit p.lease_seconds d in
    let (r, read, len) =
      parse-All now taken (selected-All Parses now p.limit p.lease_seconds d (run-IsTyped ops)) in
    (r, rw (h, read) refl, len ∙ length-selected now p.limit p.lease_seconds d)

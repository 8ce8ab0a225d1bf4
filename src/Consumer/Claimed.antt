-- ===== src/Consumer/Claimed.antt =====
-- What a claim of the consumer returns: events whose rows are in the outbox
-- (services/context-memory-service/src/context_memory_service/main.py and repository.py).
use control_architecture.Base.{
  String, Bool, true, Option, none, some, List, [], ◌∷◌, ◌≡◌, ◌≢◌, refl, sym, ◌∙◌, ap, arith, ok,
  map, find, exists, update, All, All-find, Option-cases, Bool-cases, inl, inr, ◌==◌, string_eq,
  format-ne-empty, has_code,
}
use mathlib.Core.Path.{subst}
use mathlib.Core.Option.{some-injective}
use control_architecture.Contracts.Envelopes.{Time}
use control_architecture.Contracts.Events.{
  TaskLifecycleOutboxEvent, BaseTaskLifecycleOutboxEvent, EventPayload, validate_event, event_base,
  event_type_task_created, event_type_task_state_changed,
}
use control_architecture.Context.Models.{OutboxEvent, Database, empty_database, OutboxClaimRequest}
use control_architecture.Context.Repository.{has_event_id, created_event, changed_event}
use control_architecture.Context.Outbox.{
  claim_outbox_events, get_outbox_event, claimed, failed, selected,
}
use control_architecture.Context.Calls.{Operation, step, run}
use control_architecture.Context.Api.{parse_event, parse_events, cons_parsed, post_claim, in_bounds}
use control_architecture.Context.Leases.{All-present, selected-All}
use control_architecture.Context.Rows.{RowInvariant, run-All, step-All}
use control_architecture.Context.Typed.{Parses, typed_rows, IsTyped, run-IsTyped, parse-All}
use control_architecture.Consumer.Service.{event_id}
use control_architecture.Consumer.Standing.{IsReadable}
use control_architecture.Consumer.Reliable.{find_exists}

-- Every row has an identifier that is not empty.
abbrev IsNamed : OutboxEvent → Type 0
IsNamed e = e.event_id ≢ ""

rows-IsNamed : RowInvariant IsNamed
unfolding created_event changed_event failed
rows-IsNamed = record {
  kept = record {
    created = λ now tokens p t. format-ne-empty "evt_" (tokens.event ∷ []) (has_code "evt_" refl);
    changed = λ now tokens p t. format-ne-empty "evt_" (tokens.event ∷ []) (has_code "evt_" refl);
    completed_keeps = λ now e h. h;
    failed_keeps = λ now message e h. h;
  };
  claimed_keeps = λ now e h. h;
}

validate-base :
    (b : BaseTaskLifecycleOutboxEvent) (t : String) (q : EventPayload)
    (x : TaskLifecycleOutboxEvent)
    → validate_event b t q ≡ some x
    → event_base x ≡ b
unfolding validate_event
validate-base b t (EventPayload.created q) x h = elim (Bool-cases (t == event_type_task_created)) [
  | inl e ↦ cc (rw e at h)
  | inr e ↦ cc (rw e at h)
]
validate-base b t (EventPayload.state_changed q) x h =
    elim (Bool-cases (t == event_type_task_state_changed)) [
      | inl e ↦ cc (rw e at h)
      | inr e ↦ cc (rw e at h)
    ]

-- An event that is read has the identifier of its row.
parse-event_id :
    (e : OutboxEvent) (x : TaskLifecycleOutboxEvent)
    → parse_event e ≡ some x
    → event_id x ≡ e.event_id
unfolding parse_event
parse-event_id e x h = ap (λ b. b.event_id) (validate-base _ e.event_type e.payload x h)

-- A row that is there is readable, where every row is typed.
exists-IsReadable :
    (id : String) (c : Database)
    → IsTyped c
    → exists (has_event_id id) c.outbox ≡ true
    → IsReadable id c
unfolding get_outbox_event
exists-IsReadable id c typed h = elim (Option-cases (find (has_event_id id) c.outbox)) [
  | inl e ↦ cc (find_exists (has_event_id id) c.outbox e, h)
  | inr (r, e) ↦ (r, e, All-find Parses (has_event_id id) c.outbox r typed e)
]

-- Rows of a list are in it.
exists-claimed :
    (id : String) (q : OutboxEvent → Bool) (now : Time) (xs : List OutboxEvent)
    → exists (has_event_id id) (update q (claimed now) xs) ≡ exists (has_event_id id) xs
unfolding exists update
exists-claimed id q now [] = refl
exists-claimed id q now (x ∷ xs) = ground (arith, exists-claimed id q now xs)

-- A row that can be projected.
abbrev IsRow : Database → String → Type 0
IsRow c id = IsReadable id c × (id ≢ "")

cons_rows :
    (c : Database) (id : String) (o : Option TaskLifecycleOutboxEvent)
    (q : Option (List TaskLifecycleOutboxEvent)) (r : List TaskLifecycleOutboxEvent)
    → IsRow c id
    → ((x : TaskLifecycleOutboxEvent) → o ≡ some x → event_id x ≡ id)
    → ((xs : List TaskLifecycleOutboxEvent) → q ≡ some xs → All (λ x. IsRow c (event_id x)) xs)
    → cons_parsed o q ≡ some r
    → All (λ x. IsRow c (event_id x)) r
cons_rows c id none q r row named rest h = cc h
cons_rows c id (some x) none r row named rest h = cc h
cons_rows c id (some x) (some xs) r row named rest h =
    subst (All (λ x. IsRow c (event_id x))) (some-injective (x ∷ xs) r h)
      (subst (IsRow c) (sym (named x refl)) row, rest xs refl)

parsed_rows :
    (c : Database) (now : Time) (xs : List OutboxEvent) (r : List TaskLifecycleOutboxEvent)
    → All (λ e. IsRow c e.event_id) xs
    → parse_events (map (claimed now) xs) ≡ some r
    → All (λ x. IsRow c (event_id x)) r
unfolding parse_events
parsed_rows c now [] r h p = subst (All (λ x. IsRow c (event_id x))) (some-injective [] r p) tt
parsed_rows c now (e ∷ xs) r h p =
    cons_rows c e.event_id (parse_event (claimed now e)) (parse_events (map (claimed now) xs)) r h.0
      (λ x k. parse-event_id (claimed now e) x k) (λ ys k. parsed_rows c now xs ys h.1 k) p

module _ (ops : List Operation) (now : Time) (p : OutboxClaimRequest)
    (bounded : in_bounds p ≡ true) where
  -- The outbox before and after the claim.
  abbrev before : Database
  before = run ops empty_database

  abbrev pub after_claim : Database
  after_claim = (claim_outbox_events now p.limit p.lease_seconds before).1

  after-IsTyped : IsTyped after_claim
  unfolding step
  after-IsTyped =
      step-All Parses typed_rows (Operation.claim now p.limit p.lease_seconds) before
        (run-IsTyped ops)

  abbrev taken : List OutboxEvent
  taken = selected now p.limit p.lease_seconds before

  rows_after : All (λ e. IsRow after_claim e.event_id) taken
  unfolding claim_outbox_events
  rows_after =
      selected-All (λ e. IsRow after_claim e.event_id) now p.limit p.lease_seconds before
        (All-both before.outbox (All-present before.outbox) (run-All IsNamed rows-IsNamed ops))
    where
      All-both :
          (xs : List OutboxEvent)
          → All (λ e. exists (has_event_id e.event_id) before.outbox ≡ true) xs
          → All IsNamed xs
          → All (λ e. IsRow after_claim e.event_id) xs
      All-both [] h k = tt
      All-both (x ∷ xs) h k = (
        (
          exists-IsReadable x.event_id after_claim after-IsTyped
              (exists-claimed x.event_id _ now before.outbox ∙ h.0),
          k.0,
        ),
        All-both xs h.1 k.1,
      )

  -- A claim of 1 to 500 events answers, and each event that it returns has a row, with an identifier
  -- that is not empty.
  pub claim_rows :
      (r : List TaskLifecycleOutboxEvent) × ((post_claim now p before).0 ≡ ok r)
      × ((post_claim now p before).1 ≡ after_claim)
      × All (λ x. IsRow after_claim (event_id x)) r
  unfolding post_claim claim_outbox_events
  claim_rows =
      let (r, read, len) =
        parse-All now taken
          (selected-All Parses now p.limit p.lease_seconds before (run-IsTyped ops)) in
      (r, rw (bounded, read) refl, rw bounded, parsed_rows after_claim now taken r rows_after read)

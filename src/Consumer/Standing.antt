-- ===== src/Consumer/Standing.antt =====
-- What the services hold of an event and of a task, and that a completion undoes none of it
-- (services/context-memory-service/src/context_memory_service/repository.py).
use control_architecture.Base.{
  String, Option, none, some, ◌≡◌, refl, ◌∙◌, arith, find, find-update, find-holds, Bool-cases, inl,
  inr, ◌==◌, string_eq, if◌then◌else◌, update,
}
use control_architecture.Contracts.Literals.{OutboxStatus}
use control_architecture.Contracts.Envelopes.{Time}
use control_architecture.Context.Models.{OutboxEvent, Database}
use control_architecture.Context.Repository.{has_event_id}
use control_architecture.Context.Outbox.{get_outbox_event, change_found, completed}
use control_architecture.Context.Typed.{Parses, completed-Parses}
use control_architecture.Provenance.Models.{TaskProvenance, ProvenanceDatabase}
use control_architecture.Provenance.Repository.{get_task_provenance}
use control_architecture.Consumer.Network.{World}

-- The outbox has a row of the event, which reads as an event of the shared contract.
abbrev pub IsReadable : String → Database → Type 0
IsReadable id c = (r : OutboxEvent) × (get_outbox_event id c ≡ some r) × Parses r

-- The outbox has completed the event.
abbrev pub IsCompleted : String → Database → Type 0
IsCompleted id c =
    (r : OutboxEvent) × (get_outbox_event id c ≡ some r) × (r.status ≡ OutboxStatus.completed)

-- The task has a provenance record.
abbrev pub IsKnown : String → ProvenanceDatabase → Type 0
IsKnown id d = (t : TaskProvenance) × (get_task_provenance id d ≡ some t)

-- What a step of the dispatch does not undo.
pub record Advances (w w' : World) : Type 0 where
  pub readable : (id : String) → IsReadable id w.context → IsReadable id w'.context
  pub completed : (id : String) → IsCompleted id w.context → IsCompleted id w'.context
  pub known : (id : String) → IsKnown id w.provenance → IsKnown id w'.provenance

pub Advances-trans : {w w' w'' : World} → Advances w w' → Advances w' w'' → Advances w w''
Advances-trans a b = record {
  readable = λ id h. b.readable id (a.readable id h);
  completed = λ id h. b.completed id (a.completed id h);
  known = λ id h. b.known id (a.known id h);
}

-- A completion of an event.
module _ (now : Time) (id : String) (c : Database) where
  row_after :
      (j : String) (r : OutboxEvent)
      → get_outbox_event j c ≡ some r
      → find (has_event_id j) (update (has_event_id id) (completed now) c.outbox)
        ≡ some (if r.event_id == id then completed now r else r)
  unfolding get_outbox_event
  row_after j r h =
      find-update (has_event_id id) (has_event_id j) (completed now) c.outbox (λ x. refl) ∙ rw h

  pub complete-IsReadable :
      (o : Option OutboxEvent) (j : String)
      → IsReadable j c
      → IsReadable j (change_found id (completed now) o c).1
  unfolding change_found get_outbox_event
  complete-IsReadable none j h = h
  complete-IsReadable (some e) j (r, h, t) = elim (Bool-cases (r.event_id == id)) [
    | inl same ↦ (completed now r, row_after j r h ∙ rw same, completed-Parses now r t)
    | inr other ↦ (r, row_after j r h ∙ rw other, t)
  ]

  pub complete-IsCompleted :
      (o : Option OutboxEvent) (j : String)
      → IsCompleted j c
      → IsCompleted j (change_found id (completed now) o c).1
  unfolding change_found get_outbox_event
  complete-IsCompleted none j h = h
  complete-IsCompleted (some e) j (r, h, t) = elim (Bool-cases (r.event_id == id)) [
    | inl same ↦ (completed now r, row_after j r h ∙ rw same, refl)
    | inr other ↦ (r, row_after j r h ∙ rw other, t)
  ]

pub completes :
    (now : Time) (id : String) (c : Database) (r : OutboxEvent)
    → get_outbox_event id c ≡ some r
    → IsCompleted id (change_found id (completed now) (get_outbox_event id c) c).1
unfolding change_found
completes now id c r found =
    let named : r.event_id ≡ id =
      unfold get_outbox_event in ground (arith, find-holds (has_event_id id) c.outbox r found) in
    rw found (
      completed now r,
      unfold get_outbox_event in row_after now id c id r found ∙ ground (arith, named),
      refl,
    )

-- ===== src/MemoryService/Refinement.antt =====
-- The context memory service does what the older memory service does with tasks and their history
-- (services/memory-service/src/memory_service/repository.py and services/context-memory-service/src/
-- context_memory_service/repository.py).
use control_architecture.Base.{
  String, Bool, update, if_case, Option, none, some, List, [], ◌∷◌, arith, Pairwise,
  Pairwise-update_left, Pairwise-update_right,
}
use control_architecture.Contracts.Envelopes.{Time}
use control_architecture.Context.Models.{OutboxEvent, Database, empty_database}
use control_architecture.Context.Repository.{has_event_id}
use control_architecture.Context.Outbox.{
  claim_outbox_events, complete_outbox_event, fail_outbox_event, change_found, get_outbox_event,
  claimed, completed, failed,
}
use control_architecture.Context.Calls.{Operation, step}
use control_architecture.MemoryService.Models.{
  MemoryTask, TaskStateHistory, MemoryDatabase, empty_memory, MemoryArtifactCreateRequest,
  MemoryDelegation, MemoryDelegationCreateRequest, MemoryDelegationUpdateRequest,
}
use control_architecture.MemoryService.Repository.{MemoryOutcome, has_memory_id, get_memory_task}
use control_architecture.MemoryService.Evidence.{
  touched, add_memory_artifact, memory_artifact_task, create_memory_delegation,
  memory_delegation_task, update_memory_delegation, memory_delegation_found, get_memory_delegation,
}
use control_architecture.MemoryService.Calls.{
  Call, context_step, memory_step, context_answer, memory_answer, IsFresh, AreFresh,
}
use control_architecture.MemoryService.Agreement.{
  SameTask, SameEntry, Simulates, SameAnswer, touched-SameTask, create_refines, patch_refines,
}

-- The same calls are answered alike, and leave the services in agreement.
abbrev pub Refines : List Call → Database → MemoryDatabase → Type 0
Refines [] c m = Simulates c m
Refines (k ∷ r) c m =
    SameAnswer (memory_answer k m) (context_answer k c)
    × Refines r (context_step k c) (memory_step k m)

-- The outbox and the evidence leave the agreement alone.
module _ (c : Database) (m : MemoryDatabase) (h : Simulates c m) where
  outbox_keeps :
      (q : OutboxEvent → Bool) (f : OutboxEvent → OutboxEvent)
      → ((a : TaskStateHistory) (e : OutboxEvent) → SameEntry a e → SameEntry a (f e))
      → Simulates (record c { outbox = update q f c.outbox }) m
  outbox_keeps q f k = record {
    tasks = h.tasks;
    history = Pairwise-update_right SameEntry q f m.state_history c.outbox k h.history;
  }

  change_keeps :
      (id : String) (f : OutboxEvent → OutboxEvent) (o : Option OutboxEvent)
      → ((a : TaskStateHistory) (e : OutboxEvent) → SameEntry a e → SameEntry a (f e))
      → Simulates (change_found id f o c).1 m
  unfolding change_found
  change_keeps id f none k = h
  change_keeps id f (some e) k = outbox_keeps (has_event_id id) f k

  touch_keeps :
      (now : Time) (id name : String)
      → Pairwise SameTask (update (has_memory_id id) (touched now name) m.tasks) c.tasks
  touch_keeps now id name =
      Pairwise-update_left SameTask (has_memory_id id) (touched now name) m.tasks c.tasks
        (touched-SameTask now name) h.tasks

  artifact_keeps :
      (now : Time) (id : String) (p : MemoryArtifactCreateRequest) (o : Option MemoryTask)
      → Simulates c (memory_artifact_task now id p o m).1
  unfolding memory_artifact_task
  artifact_keeps now id p none = h
  artifact_keeps now id p (some t) = record {
    tasks = touch_keeps now id p.created_by;
    history = h.history;
  }

  delegation_keeps :
      (now : Time) (token id : String) (p : MemoryDelegationCreateRequest) (o : Option MemoryTask)
      → Simulates c (memory_delegation_task now token id p o m).1
  unfolding memory_delegation_task
  delegation_keeps now token id p none = h
  delegation_keeps now token id p (some t) =
      if_case (λ (r : MemoryOutcome (Option MemoryDelegation)). Simulates c r.1) _ h
        (record { tasks = touch_keeps now id p.parent_agent_id; history = h.history })

  update_keeps :
      (now : Time) (id : String) (p : MemoryDelegationUpdateRequest) (o : Option MemoryDelegation)
      → Simulates c (memory_delegation_found now id p o m).1
  unfolding memory_delegation_found
  update_keeps now id p none = h
  update_keeps now id p (some w) = record {
    tasks = touch_keeps now w.task_id p.updated_by;
    history = h.history;
  }

-- One call is answered alike by both, and leaves them in agreement.
step_refines :
    (k : Call) (c : Database) (m : MemoryDatabase)
    → IsFresh k c
    → Simulates c m
    → SameAnswer (memory_answer k m) (context_answer k c)
      × Simulates (context_step k c) (memory_step k m)
unfolding context_step step memory_step claim_outbox_events complete_outbox_event fail_outbox_event
    failed add_memory_artifact create_memory_delegation update_memory_delegation
step_refines (Call.operation (Operation.create now tokens p)) c m fresh h =
    create_refines now tokens p c m h fresh
step_refines (Call.operation (Operation.patch now tokens id p)) c m fresh h =
    patch_refines now tokens id p c m h fresh
step_refines (Call.operation (Operation.claim now limit lease)) c m fresh h =
    (tt, outbox_keeps c m h _ (claimed now) (λ a e r. ground arith))
step_refines (Call.operation (Operation.complete now id)) c m fresh h =
    (tt, change_keeps c m h id (completed now) (get_outbox_event id c) (λ a e r. ground arith))
step_refines (Call.operation (Operation.fail now id message)) c m fresh h =
    (tt, change_keeps c m h id (failed now message) (get_outbox_event id c) (λ a e r. ground arith))
step_refines (Call.artifact now id p) c m fresh h =
    (tt, artifact_keeps c m h now id p (get_memory_task id m))
step_refines (Call.delegate now token id p) c m fresh h =
    (tt, delegation_keeps c m h now token id p (get_memory_task id m))
step_refines (Call.update_delegation now id p) c m fresh h =
    (tt, update_keeps c m h now id p (get_memory_delegation id m))

run-Refines :
    (calls : List Call) (c : Database) (m : MemoryDatabase)
    → AreFresh calls c
    → Simulates c m
    → Refines calls c m
run-Refines [] c m fresh h = h
run-Refines (k ∷ r) c m fresh h =
    let (same, next) = step_refines k c m fresh.0 h in
    (same, run-Refines r (context_step k c) (memory_step k m) fresh.1 next)

-- Whatever calls are made from the empty start, if the identifiers of the published events are
-- new: the context memory service answers each create and each patch as the older memory service
-- does, with the same row but for its provenance and the time of its last change, or with the same
-- error; and at the end the two hold the same tasks, and the outbox publishes just the entries of
-- the older service's state history, in their order.
pub context-Refines :
    (calls : List Call) → AreFresh calls empty_database → Refines calls empty_database empty_memory
context-Refines calls fresh =
    run-Refines calls empty_database empty_memory fresh (record { tasks = tt; history = tt })

-- ===== src/MemoryService/Calls.antt =====
-- The same calls made of the older memory service (services/memory-service/src/memory_service/
-- repository.py) and of the context memory service, which keeps the tasks and publishes their
-- transitions. Evidence goes to the older service alone, and the outbox is the newer one's alone.
use control_architecture.Base.{
  String, Option, none, some, List, [], ◌∷◌, ◌≡◌, false, Result, ok, err, exists, format,
}
use control_architecture.Contracts.Envelopes.{Time}
use control_architecture.Context.Models.{Task, Database}
use control_architecture.Context.Repository.{
  RepositoryError, Tokens, has_event_id, create_task, update_task_state,
}
use control_architecture.Context.Calls.{Operation, step}
use control_architecture.MemoryService.Models.{
  MemoryTask, MemoryDatabase, MemoryArtifactCreateRequest, MemoryDelegationCreateRequest,
  MemoryDelegationUpdateRequest,
}
use control_architecture.MemoryService.Repository.{create_memory_task, update_memory_state}
use control_architecture.MemoryService.Evidence.{
  add_memory_artifact, create_memory_delegation, update_memory_delegation,
}

pub data Call : Type 0 where
  operation : Operation → Call
  artifact : Time → String → MemoryArtifactCreateRequest → Call
  delegate : Time → String → String → MemoryDelegationCreateRequest → Call
  update_delegation : Time → String → MemoryDelegationUpdateRequest → Call

unfoldable pub context_step : Call → Database → Database
unfolding step
context_step (Call.operation o) c = step o c
context_step (Call.artifact now id p) c = c
context_step (Call.delegate now token id p) c = c
context_step (Call.update_delegation now id p) c = c

unfoldable pub memory_step : Call → MemoryDatabase → MemoryDatabase
memory_step (Call.operation (Operation.create now tokens p)) m =
    (create_memory_task now tokens p m).1
memory_step (Call.operation (Operation.patch now tokens id p)) m =
    (update_memory_state now id p m).1
memory_step (Call.operation (Operation.claim now limit lease)) m = m
memory_step (Call.operation (Operation.complete now id)) m = m
memory_step (Call.operation (Operation.fail now id message)) m = m
memory_step (Call.artifact now id p) m = (add_memory_artifact now id p m).1
memory_step (Call.delegate now token id p) m = (create_memory_delegation now token id p m).1
memory_step (Call.update_delegation now id p) m = (update_memory_delegation now id p m).1

-- What a create or a patch answers; the other calls answer nothing here.
abbrev pub created_answer : Result RepositoryError Task → Result RepositoryError (Option Task)
created_answer (ok t) = ok (some t)
created_answer (err e) = err e

abbrev pub context_answer : Call → Database → Result RepositoryError (Option Task)
context_answer (Call.operation (Operation.create now tokens p)) c =
    created_answer (create_task now tokens p c).0
context_answer (Call.operation (Operation.patch now tokens id p)) c =
    (update_task_state now tokens id p c).0
context_answer _ c = ok none

abbrev pub memory_answer : Call → MemoryDatabase → Result RepositoryError (Option MemoryTask)
memory_answer (Call.operation (Operation.create now tokens p)) m =
    (create_memory_task now tokens p m).0
memory_answer (Call.operation (Operation.patch now tokens id p)) m =
    (update_memory_state now id p m).0
memory_answer _ m = ok none

-- The identifier of the event that a call may publish is new.
abbrev pub IsNewEvent : Tokens → Database → Type 0
IsNewEvent tokens c = exists (has_event_id (format ("evt_" ∷ tokens.event ∷ []))) c.outbox ≡ false

abbrev pub IsFresh : Call → Database → Type 0
IsFresh (Call.operation (Operation.create now tokens p)) c = IsNewEvent tokens c
IsFresh (Call.operation (Operation.patch now tokens id p)) c = IsNewEvent tokens c
IsFresh _ c = Unit

abbrev pub AreFresh : List Call → Database → Type 0
AreFresh [] c = Unit
AreFresh (k ∷ r) c = IsFresh k c × AreFresh r (context_step k c)

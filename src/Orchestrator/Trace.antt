-- ===== src/Orchestrator/Trace.antt =====
-- Clients of the orchestrator that keep a log of their calls
-- (apps/orchestrator-api/src/orchestrator_api/service.py).
use control_architecture.Base.{Bool, true, false, List, [], ◌∷◌, ◌++◌, if◌then◌else◌, Exec}
use control_architecture.Orchestrator.Models.{OrchestratorClients}

pub data Event : Type 0 where
  task_loaded artifact_created intake_evaluated release_evaluated : Event
  workflow_started workflow_resumed : Event

-- A call that is written to the log, whatever comes of it.
abbrev pub logged :
    {S : Type 0} {E : Type 0} {A : Type 0} → Event → Exec S E A → Exec (S × List Event) E A
logged e m (s, log) = let (r, s') = m s in (r, (s', log ++ e ∷ []))

abbrev pub logging : {S : Type 0} → OrchestratorClients S → OrchestratorClients (S × List Event)
logging c = record {
  get_task = λ id. logged Event.task_loaded (c.get_task id);
  create_artifact = λ id q. logged Event.artifact_created (c.create_artifact id q);
  evaluate_intake = λ q. logged Event.intake_evaluated (c.evaluate_intake q);
  evaluate_release = λ q. logged Event.release_evaluated (c.evaluate_release q);
  start_workflow = λ q. logged Event.workflow_started (c.start_workflow q);
  resume_workflow = λ id q. logged Event.workflow_resumed (c.resume_workflow id q);
}

abbrev is_worker_call : Event → Bool
is_worker_call Event.workflow_started = true
is_worker_call Event.workflow_resumed = true
is_worker_call _ = false

-- Whether the worker was called.
unfoldable pub reached_worker : List Event → Bool
reached_worker [] = false
reached_worker (e ∷ r) = let rest = reached_worker r in if is_worker_call e then true else rest

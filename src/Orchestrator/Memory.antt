-- ===== src/Orchestrator/Memory.antt =====
-- The orchestrator's client of the memory services, over the context memory, provenance and event
-- consumer services (apps/orchestrator-api/src/orchestrator_api/memory_client.py).
use control_architecture.Base.{
  ℕ, String, [], ◌∷◌, ◌==◌, nat_eq, if◌then◌else◌, Result, ok, err, format, Exec, ◌>>=◌, pure,
}
use control_architecture.Contracts.Http.{HttpError}
use control_architecture.Contracts.Tasks.{
  TaskRecordsView, TaskDetailView, ArtifactView, ArtifactCreateRequest, empty_task_records,
  merge_task_detail,
}
use control_architecture.Context.Models.{TaskCreateRequest}
use control_architecture.Context.Api
use control_architecture.Provenance.Api.{get_task_records, create_artifact}
use control_architecture.Consumer.Service.{DispatchResponse}
use control_architecture.Worker.System.{System, Services, send}
use control_architecture.Worker.Memory.{on_context, on_provenance, reading, dispatch_run_once}
use control_architecture.Orchestrator.Models.{MemoryServiceError}

abbrev memory_error : String → MemoryServiceError
memory_error message = record { message = message }

-- `raise_for_status`: an error response counts as a lost one.
abbrev pub status_checked : {A : Type 0} → String → Result HttpError A → Result MemoryServiceError A
status_checked message (ok a) = ok a
status_checked message (err e) = err (memory_error message)

abbrev pub load_failure : String → String
load_failure id =
    format
      ("Failed to load task " ∷ id ∷ " from context-memory-service or provenance-service." ∷ [])

-- A missing record counts as one without evidence.
abbrev pub records_checked :
    String → Result HttpError TaskRecordsView → Result MemoryServiceError TaskRecordsView
records_checked id (ok r) = ok r
records_checked id (err e) =
    if e.status_code == 404
    then ok (empty_task_records id)
    else err (memory_error (load_failure id))

module _ (v : Services) where
  unfoldable pub checked_request :
      {A : Type 0}
      → String
      → (ℕ → System → Result HttpError A × System)
      → Exec System MemoryServiceError A
  checked_request message handler =
      send v.network (status_checked message) (memory_error message) handler

  unfoldable pub load_records : String → Exec System MemoryServiceError TaskRecordsView
  load_records id =
      send v.network (records_checked id) (memory_error (load_failure id))
        (λ i. on_provenance (reading (get_task_records id)))

  unfoldable pub run_dispatch : Exec System MemoryServiceError DispatchResponse
  run_dispatch =
      checked_request "Failed to dispatch context outbox events through event-consumer."
        (λ i. dispatch_run_once v 100 30)

  unfoldable pub load_task : String → Exec System MemoryServiceError TaskDetailView
  load_task id =
      checked_request (load_failure id) (λ i. on_context (reading (Api.get_task_endpoint id)))
      >>= λ t. (load_records id >>= λ r. pure (merge_task_detail t r))

  unfoldable pub submit_task : TaskCreateRequest → Exec System MemoryServiceError TaskDetailView
  submit_task p =
      checked_request "Failed to create task in context-memory-service."
        (λ i. on_context (Api.post_task (v.network.clock i) (v.tokens i) p))
      >>= λ t. (run_dispatch >>= λ r. load_task t.task_id)

  unfoldable pub submit_artifact :
      String → ArtifactCreateRequest → Exec System MemoryServiceError ArtifactView
  submit_artifact id p =
      checked_request
        (format ("Failed to create artifact for task " ∷ id ∷ " in provenance-service." ∷ []))
        (λ i. on_provenance (create_artifact (v.network.clock i) id p))

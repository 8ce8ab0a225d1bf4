-- ===== src/Worker/Memory.antt =====
-- The worker's client of the memory services, over the context memory, provenance and event consumer
-- services (services/workflow-worker/src/workflow_worker/memory_client.py and
-- services/event-consumer/src/event_consumer/main.py).
use control_architecture.Base.{
  ℕ, String, [], ◌∷◌, ◌==◌, nat_eq, if◌then◌else◌, Result, ok, err, format, or_value, Exec, ◌>>=◌,
  pure,
}
use control_architecture.Contracts.Http.{HttpError, server_error}
use control_architecture.Contracts.Tasks.{
  TaskRecordsView, TaskDetailView, ArtifactView, DelegatedWorkView, ArtifactCreateRequest,
  DelegatedWorkCreateRequest, DelegatedWorkUpdateRequest, empty_task_records, merge_task_detail,
}
use control_architecture.Context.Models.{Database, TaskCreateRequest, TaskStatePatchRequest}
use control_architecture.Context.Api
use control_architecture.Provenance.Models.{ProvenanceDatabase}
use control_architecture.Provenance.Api.{
  get_task_records, create_artifact, post_delegation, patch_delegation,
}
use control_architecture.Consumer.Service.{ClientError, DispatchResponse, process_once}
use control_architecture.Consumer.Network.{clients}
use control_architecture.Worker.Service.{ClientFault}
use control_architecture.Worker.System.{System, Services, send}

-- How an answer is read: an error's detail where it is a text, and its status code.
abbrev pub memory_read : {A : Type 0} → String → Result HttpError A → Result ClientFault A
memory_read failure_message (ok a) = ok a
memory_read failure_message (err e) =
    err (ClientFault.memory_error (or_value e.detail failure_message) e.status_code)

-- A missing record counts as one without evidence.
abbrev pub records_read :
    String → String → Result HttpError TaskRecordsView → Result ClientFault TaskRecordsView
records_read id failure_message (ok r) = ok r
records_read id failure_message (err e) =
    if e.status_code == 404 then ok (empty_task_records id) else memory_read failure_message (err e)

-- The services' handlers on the whole system.
abbrev pub on_context :
    {A : Type 0} → (Database → Result HttpError A × Database) → System → Result HttpError A × System
on_context h y =
    let (r, d) = h y.world.context in (r, record y { world = record y.world { context = d } })

abbrev pub on_provenance :
    {A : Type 0}
    → (ProvenanceDatabase → Result HttpError A × ProvenanceDatabase)
    → System
    → Result HttpError A × System
on_provenance h y =
    let (r, d) = h y.world.provenance in (r, record y { world = record y.world { provenance = d } })

-- The endpoint of the event consumer: no handler takes what a claim or a failure raises.
abbrev pub dispatched : Result ClientError DispatchResponse → Result HttpError DispatchResponse
dispatched (ok r) = ok r
dispatched (err e) = err server_error

abbrev pub reading :
    {S : Type 0} {A : Type 0} → (S → Result HttpError A) → S → Result HttpError A × S
reading f s = (f s, s)

module _ (v : Services) where
  unfoldable pub dispatch_run_once : ℕ → ℕ → System → Result HttpError DispatchResponse × System
  unfolding process_once
  dispatch_run_once limit lease y =
      let (r, w) = process_once (clients v.network) limit lease y.world in
      (dispatched r, record y { world = w })

  unfoldable pub memory_request :
      {A : Type 0} → String → (ℕ → System → Result HttpError A × System) → Exec System ClientFault A
  memory_request failure_message handler =
      send v.network (memory_read failure_message) (ClientFault.memory_error failure_message 502)
        handler

  unfoldable pub provenance_records : String → Exec System ClientFault TaskRecordsView
  provenance_records id =
      let message = format ("Failed to load provenance for task " ∷ id ∷ "." ∷ []) in
      send v.network (records_read id message) (ClientFault.memory_error message 502)
        (λ i. on_provenance (reading (get_task_records id)))

  unfoldable pub dispatch_consistency : Exec System ClientFault DispatchResponse
  dispatch_consistency =
      memory_request "Failed to dispatch context outbox events through event-consumer."
        (λ i. dispatch_run_once 100 30)

  unfoldable pub get_task : String → Exec System ClientFault TaskDetailView
  get_task id =
      memory_request (format ("Failed to load task " ∷ id ∷ " from context-memory-service." ∷ []))
        (λ i. on_context (reading (Api.get_task_endpoint id)))
      >>= λ t. (provenance_records id >>= λ r. pure (merge_task_detail t r))

  unfoldable pub create_task : TaskCreateRequest → Exec System ClientFault TaskDetailView
  create_task p =
      memory_request "Failed to create task in context-memory-service."
        (λ i. on_context (Api.post_task (v.network.clock i) (v.tokens i) p))
      >>= λ t. (dispatch_consistency >>= λ r. get_task t.task_id)

  unfoldable pub patch_task_state :
      String → TaskStatePatchRequest → Exec System ClientFault TaskDetailView
  patch_task_state id p =
      memory_request
        (format ("Failed to update task " ∷ id ∷ " state in context-memory-service." ∷ []))
        (λ i. on_context (Api.patch_task_state (v.network.clock i) (v.tokens i) id p))
      >>= λ t. (dispatch_consistency >>= λ r. get_task id)

  unfoldable pub create_task_artifact :
      String → ArtifactCreateRequest → Exec System ClientFault ArtifactView
  create_task_artifact id p =
      memory_request
        (format ("Failed to create artifact for task " ∷ id ∷ " in provenance-service." ∷ []))
        (λ i. on_provenance (create_artifact (v.network.clock i) id p))

  unfoldable pub create_task_delegation :
      String → DelegatedWorkCreateRequest → Exec System ClientFault DelegatedWorkView
  create_task_delegation id p =
      memory_request
        (format ("Failed to create delegation for task " ∷ id ∷ " in provenance-service." ∷ []))
        (λ i. on_provenance (post_delegation (v.network.clock i) (v.delegation_token i) id p))

  unfoldable pub update_task_delegation :
      String → DelegatedWorkUpdateRequest → Exec System ClientFault DelegatedWorkView
  update_task_delegation id p =
      memory_request (format ("Failed to update delegation " ∷ id ∷ " in provenance-service." ∷ []))
        (λ i. on_provenance (patch_delegation (v.network.clock i) id p))

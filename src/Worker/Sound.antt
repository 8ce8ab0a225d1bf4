-- ===== src/Worker/Sound.antt =====
-- Workflows over the services that the worker's clients call: the context memory, provenance and
-- event consumer services and the capability gateway (services/workflow-worker/src/workflow_worker/
-- service.py, memory_client.py and capability_client.py).
use control_architecture.Base.{
  ℕ, String, refl, Result, string_eq, if_case, Keeps, still-Keeps, seq-Keeps,
}
use control_architecture.Contracts.Http.{HttpError, DetailedError}
use control_architecture.Context.Models.{Database, TaskCreateRequest, TaskStatePatchRequest}
use control_architecture.Context.Calls
use control_architecture.Context.Api
use control_architecture.Context.Transitions.{IsReplayed}
use control_architecture.Context.History.{step-IsReplayed}
use control_architecture.Provenance.Models.{ProvenanceDatabase}
use control_architecture.Provenance.Calls.{Operation, step}
use control_architecture.Provenance.Api.{create_artifact, post_delegation, patch_delegation}
use control_architecture.Gateway.Types.{
  ReleaseApprovedPaymentRequest, ReleaseApprovedPaymentResponse,
}
use control_architecture.Gateway.Store.{GatewayStore}
use control_architecture.Gateway.Calls.{Call, call}
use control_architecture.Gateway.Api.{
  GatewayResponse, post_instruction, post_validation, post_release, has_short_key,
}
use control_architecture.Gateway.Coherence.{IsCoherent, call-IsCoherent}
use control_architecture.Consumer.Network.{Network, Delivery}
use control_architecture.Consumer.Consistent.{
  IsConsistent, create-IsConsistent, patch-IsConsistent, provenance-IsConsistent,
}
use control_architecture.Consumer.Projection.{dispatch_keeps}
use control_architecture.Consumer.Invariant.{dispatch-Keeps}
use control_architecture.Worker.System.{System, Services, sent, deliver, send}
use control_architecture.Worker.Memory
use control_architecture.Worker.Capability
use control_architecture.Worker.Clients.{worker_clients}
use control_architecture.Worker.Invariant.{ClientsKeep}

-- What holds of the services' states together.
pub record IsSound (c : Database) (d : ProvenanceDatabase) (s : GatewayStore) : Type 0 where
  pub replayed : IsReplayed c
  pub consistent : IsConsistent c d
  pub coherent : IsCoherent s

abbrev pub Sound : System → Type 0
Sound y = IsSound y.world.context y.world.provenance y.store

deliver_keeps :
    {A : Type 0} {X : Type 0} {E : Type 0} (x : Delivery) (read : Result X A → Result E A)
    (lost : E) (handler : System → Result X A × System)
    → ((y : System) → Sound y → Sound (handler y).1)
    → (y : System) → Sound y
    → Sound (deliver x read lost handler y).1
deliver_keeps Delivery.delivered read lost handler k y h = k y h
deliver_keeps Delivery.lost_request read lost handler k y h = h
deliver_keeps Delivery.lost_response read lost handler k y h = k y h

-- A request whose handler keeps it.
pub send-Keeps :
    {A : Type 0} {X : Type 0} {E : Type 0} (n : Network) (read : Result X A → Result E A) (lost : E)
    (handler : ℕ → System → Result X A × System)
    → ((i : ℕ) (y : System) → Sound y → Sound (handler i y).1)
    → Keeps Sound (send n read lost handler)
unfolding send Keeps
send-Keeps n read lost handler k y h =
    deliver_keeps (n.delivery y.world.requests) read lost (handler y.world.requests)
      (k y.world.requests) (sent y) h

module _ (v : Services) where
  pub dispatch_step :
      (limit lease : ℕ) (y : System) → Sound y → Sound (Memory.dispatch_run_once v limit lease y).1
  unfolding Memory.dispatch_run_once Keeps
  dispatch_step limit lease y h = record {
    replayed = dispatch-Keeps IsReplayed step-IsReplayed v.network limit lease y.world h.replayed;
    consistent = dispatch_keeps v.network limit lease y.world h.consistent;
    coherent = h.coherent;
  }

  memory-Keeps :
      {A : Type 0} (m : String) (handler : ℕ → System → Result HttpError A × System)
      → ((i : ℕ) (y : System) → Sound y → Sound (handler i y).1)
      → Keeps Sound (Memory.memory_request v m handler)
  unfolding Memory.memory_request
  memory-Keeps m handler k = send-Keeps v.network _ _ handler k

  capability-Keeps :
      {A : Type 0} (m : String) (handler : ℕ → System → Result DetailedError A × System)
      → ((i : ℕ) (y : System) → Sound y → Sound (handler i y).1)
      → Keeps Sound (Capability.capability_request v m handler)
  unfolding Capability.capability_request
  capability-Keeps m handler k = send-Keeps v.network _ _ handler k

  records-Keeps : (id : String) → Keeps Sound (Memory.provenance_records v id)
  unfolding Memory.provenance_records
  records-Keeps id = send-Keeps v.network _ _ _ (λ i y h. h)

  dispatch_consistency-Keeps : Keeps Sound (Memory.dispatch_consistency v)
  unfolding Memory.dispatch_consistency
  dispatch_consistency-Keeps = memory-Keeps _ _ (λ i y h. dispatch_step 100 30 y h)

  get_task-Keeps : (id : String) → Keeps Sound (Memory.get_task v id)
  unfolding Memory.get_task
  get_task-Keeps id =
      seq-Keeps Sound _ _ (memory-Keeps _ _ (λ i y h. h))
        λ t. seq-Keeps Sound _ _ (records-Keeps id) λ r. still-Keeps Sound _ (λ y. refl)

  create_task-Keeps : (q : TaskCreateRequest) → Keeps Sound (Memory.create_task v q)
  unfolding Memory.create_task Api.post_task Calls.step
  create_task-Keeps q =
      seq-Keeps Sound _ _
        (memory-Keeps _ _ λ i y h. record {
          replayed =
              step-IsReplayed (Calls.Operation.create (v.network.clock i) (v.tokens i) q)
                y.world.context h.replayed;
          consistent =
              create-IsConsistent y.world.provenance (v.network.clock i) (v.tokens i) q
                y.world.context h.consistent;
          coherent = h.coherent;
        })
        λ t. seq-Keeps Sound _ _ dispatch_consistency-Keeps λ r. get_task-Keeps t.task_id

  patch_task-Keeps :
      (id : String) (q : TaskStatePatchRequest) → Keeps Sound (Memory.patch_task_state v id q)
  unfolding Memory.patch_task_state Api.patch_task_state Calls.step
  patch_task-Keeps id q =
      seq-Keeps Sound _ _
        (memory-Keeps _ _ λ i y h. record {
          replayed =
              step-IsReplayed (Calls.Operation.patch (v.network.clock i) (v.tokens i) id q)
                y.world.context h.replayed;
          consistent =
              patch-IsConsistent y.world.provenance (v.network.clock i) (v.tokens i) id q
                y.world.context h.consistent;
          coherent = h.coherent;
        })
        λ t. seq-Keeps Sound _ _ dispatch_consistency-Keeps λ r. get_task-Keeps id

  -- A step of the provenance service, or a call of the gateway.
  pub evidence_step :
      (o : Operation) (c : Database) (d : ProvenanceDatabase) (s : GatewayStore)
      → IsSound c d s
      → IsSound c (step o d) s
  evidence_step o c d s h = record {
    replayed = h.replayed;
    consistent = provenance-IsConsistent o c d h.consistent;
    coherent = h.coherent;
  }

  gateway_step :
      (k : Call) (c : Database) (d : ProvenanceDatabase) (s : GatewayStore)
      → IsSound c d s
      → IsSound c d (call v.gateway k s).1
  gateway_step k c d s h = record {
    replayed = h.replayed;
    consistent = h.consistent;
    coherent = call-IsCoherent v.gateway k s h.coherent;
  }

  release_step :
      (i : ℕ) (q : ReleaseApprovedPaymentRequest) (c : Database) (d : ProvenanceDatabase)
      (s : GatewayStore)
      → IsSound c d s
      → IsSound c d (post_release v.gateway (v.network.clock i) q s).1
  unfolding post_release call
  release_step i q c d s h =
      if_case (λ (r : GatewayResponse ReleaseApprovedPaymentResponse). IsSound c d r.1)
        (has_short_key q) h (gateway_step (Call.release (v.network.clock i) q) c d s h)

  pub clients-Keep : ClientsKeep Sound (worker_clients v)
  unfolding Memory.create_task_artifact Memory.create_task_delegation Memory.update_task_delegation
      create_artifact post_delegation patch_delegation step Capability.create_instruction
      Capability.validate_beneficiary Capability.release_payment post_instruction post_validation
      call
  clients-Keep = record {
    create_task = create_task-Keeps;
    get_task = get_task-Keeps;
    patch_task_state = patch_task-Keeps;
    create_artifact = λ id q.
        memory-Keeps _ _
          λ i y h. evidence_step (Operation.artifact (v.network.clock i) id q) _ _ _ h;
    create_delegation = λ id q. memory-Keeps _ _ λ i y h.
        evidence_step (Operation.delegate (v.network.clock i) (v.delegation_token i) id q) _ _ _ h;
    update_delegation = λ id q.
        memory-Keeps _ _ λ i y h. evidence_step (Operation.update (v.network.clock i) id q) _ _ _ h;
    create_instruction = λ q.
        capability-Keeps _ _ λ i y h.
          gateway_step (Call.create (v.network.clock i) (v.instruction_tokens i) q) _ _ _ h;
    validate_beneficiary = λ q.
        capability-Keeps _ _ λ i y h. gateway_step (Call.validate (v.network.clock i) q) _ _ _ h;
    release_payment = λ q.
        capability-Keeps _ _ λ i y h. release_step i q y.world.context y.world.provenance y.store h;
  }

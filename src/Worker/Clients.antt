-- ===== src/Worker/Clients.antt =====
-- The two clients of the worker, over the services behind them
-- (services/workflow-worker/src/workflow_worker/memory_client.py and capability_client.py).
use control_architecture.Worker.Service.{WorkerClients}
use control_architecture.Worker.System.{System, Services}
use control_architecture.Worker.Memory
use control_architecture.Worker.Capability

abbrev pub worker_clients : Services → WorkerClients System
worker_clients v = record {
  create_task = Memory.create_task v;
  get_task = Memory.get_task v;
  patch_task_state = Memory.patch_task_state v;
  create_artifact = Memory.create_task_artifact v;
  create_delegation = Memory.create_task_delegation v;
  update_delegation = Memory.update_task_delegation v;
  create_instruction = Capability.create_instruction v;
  validate_beneficiary = Capability.validate_beneficiary v;
  release_payment = Capability.release_payment v;
}

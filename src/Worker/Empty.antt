-- ===== src/Worker/Empty.antt =====
-- The services behind the worker before any workflow
-- (services/workflow-worker/src/workflow_worker/service.py).
use control_architecture.Base.{[]}
use control_architecture.Context.Calls.{run}
use control_architecture.Context.History.{run-IsReplayed}
use control_architecture.Gateway.Calls.{run as run_calls}
use control_architecture.Gateway.Store.{empty_store}
use control_architecture.Gateway.Coherence.{run-IsCoherent}
use control_architecture.Consumer.Network.{empty_world}
use control_architecture.Consumer.Consistent.{empty-IsConsistent}
use control_architecture.Worker.System.{System, Services}
use control_architecture.Worker.Sound.{Sound}

abbrev pub empty_system : System
empty_system = record { world = empty_world; store = empty_store }

pub empty-Sound : (v : Services) → Sound empty_system
unfolding run run_calls
empty-Sound v = record {
  replayed = run-IsReplayed [];
  consistent = empty-IsConsistent;
  coherent = run-IsCoherent v.gateway [];
}

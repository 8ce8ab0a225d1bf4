-- ===== src/Worker/System.antt =====
-- The services behind the worker's clients: the context memory, provenance and event consumer
-- services and the capability gateway, and the network between them and the worker
-- (services/workflow-worker/src/workflow_worker/memory_client.py and capability_client.py).
use control_architecture.Base.{ℕ, suc, String, Result, err, Exec}
use control_architecture.Context.Repository.{Tokens}
use control_architecture.Gateway.Store.{GatewayService, GatewayStore}
use control_architecture.Gateway.Service.{InstructionTokens}
use control_architecture.Consumer.Network.{World, Network, Delivery}

pub record System : Type 0 where
  pub world : World
  pub store : GatewayStore

-- The network, the gateway, and the random parts of the identifiers that each request may make.
pub record Services : Type 0 where
  pub network : Network
  pub gateway : GatewayService
  pub tokens : ℕ → Tokens
  pub delegation_token : ℕ → String
  pub instruction_tokens : ℕ → InstructionTokens

-- A request that is sent.
abbrev pub sent : System → System
sent y = record y { world = record y.world { requests = suc y.world.requests } }

-- What becomes of a request: `read` is how the client reads an answer, `lost` what it raises without
-- one. The handler has the number of the request.
abbrev pub deliver :
    {A : Type 0} {X : Type 0} {E : Type 0}
    → Delivery
    → (Result X A → Result E A)
    → E
    → (System → Result X A × System)
    → Exec System E A
deliver Delivery.delivered read lost handler y = let (r, y') = handler y in (read r, y')
deliver Delivery.lost_request read lost handler y = (err lost, y)
deliver Delivery.lost_response read lost handler y = (err lost, (handler y).1)

unfoldable pub send :
    {A : Type 0} {X : Type 0} {E : Type 0}
    → Network
    → (Result X A → Result E A)
    → E
    → (ℕ → System → Result X A × System)
    → Exec System E A
send n read lost handler y =
    deliver (n.delivery y.world.requests) read lost (handler y.world.requests) (sent y)

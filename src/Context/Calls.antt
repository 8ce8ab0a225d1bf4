-- ===== src/Context/Calls.antt =====
-- Sequences of operations on the context database (services/context-memory-service/src/
-- context_memory_service/repository.py).
use control_architecture.Base.{ℕ, String, List, [], ◌∷◌}
use control_architecture.Contracts.Envelopes.{Time}
use control_architecture.Context.Models.{Database, TaskCreateRequest, TaskStatePatchRequest}
use control_architecture.Context.Repository.{Tokens, create_task, update_task_state}
use control_architecture.Context.Outbox.{
  claim_outbox_events, complete_outbox_event, fail_outbox_event,
}

-- The operations that write, with the time and the tokens that they meet.
pub data Operation : Type 0 where
  create : Time → Tokens → TaskCreateRequest → Operation
  patch : Time → Tokens → String → TaskStatePatchRequest → Operation
  claim : Time → ℕ → ℕ → Operation
  complete : Time → String → Operation
  fail : Time → String → String → Operation

unfoldable pub step : Operation → Database → Database
step (Operation.create now tokens p) d = (create_task now tokens p d).1
step (Operation.patch now tokens id p) d = (update_task_state now tokens id p d).1
step (Operation.claim now limit lease) d = (claim_outbox_events now limit lease d).1
step (Operation.complete now id) d = (complete_outbox_event now id d).1
step (Operation.fail now id message) d = (fail_outbox_event now id message d).1

unfoldable pub run : List Operation → Database → Database
run [] d = d
run (o ∷ r) d = run r (step o d)

pub run_induction {ℓ} :
    (P : Database → Type ℓ)
    → ((o : Operation) (d : Database) → P d → P (step o d))
    → (ops : List Operation) (d : Database) → P d
    → P (run ops d)
unfolding run
run_induction P keep [] d h = h
run_induction P keep (o ∷ r) d h = run_induction P keep r (step o d) (keep o d h)

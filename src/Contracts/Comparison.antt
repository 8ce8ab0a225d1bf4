-- ===== src/Contracts/Comparison.antt =====
-- Equality of the envelopes that the evidence holds
-- (packages/shared-contracts/src/shared_contracts/tasks.py). Dumped envelopes are equal JSON dicts just
-- where the envelopes are equal.
use control_architecture.Base.{HasEq, string_discrete, ℕ_discrete}
use control_architecture.Contracts.Envelopes.{DelegationResponseEnvelope}

unfoldable pub DelegationResponseEnvelope-discrete : Discrete DelegationResponseEnvelope
DelegationResponseEnvelope-discrete = hlevel (string_discrete, ℕ_discrete)

instance abbrev pub response_envelope_eq : HasEq DelegationResponseEnvelope
response_envelope_eq = record { dec_eq = DelegationResponseEnvelope-discrete }

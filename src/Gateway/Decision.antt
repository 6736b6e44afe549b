-- ===== src/Gateway/Decision.antt =====
-- The decision of the gate: it always comes back, and it accepts exactly the authorised calls.
use mini_agent.Prelude.{◌≡◌, ok, arith}
use mini_agent.Gateway.Laws.{IsTyped, resolved-is_tool_name, registration_valid-is_some}
use mini_agent.Gateway.{GatewayCall, first_failure, decide, evaluate_control_gateway}
use mini_agent.Tools.Gate.{validate_gate_decision}

-- For arguments of their field types the gate never raises: it returns the decision that it composes,
-- which passes the validator of `GateDecision` whatever the checks say.
pub evaluate-total : (c : GatewayCall) → IsTyped c → evaluate_control_gateway c ≡ ok (decide c)
unfolding evaluate_control_gateway validate_gate_decision first_failure
evaluate-total c t = ground (arith, resolved-is_tool_name c t, registration_valid-is_some c)

-- ===== src/Gateway/Resolution.antt =====
-- `resolve_validated_get_order_registration` of src/mini_agent/core/control_gateway.py, which resolves
-- the tool once more after the gate.
use mini_agent.Gateway.Acceptance.{IsAuthorized-AllPass, evaluate-accept_iff}
use mini_agent.Gateway.Laws.{IsTyped}
use mini_agent.Tools.Gate.{GateDecision, GateDecisionValue}
use mini_agent.Prelude.Texts.{text_iff, codes}
use mini_agent.Tools.Spec.{ToolRegistration, is_read}
use mini_agent.Prelude.{◌≡◌, true, some, Option-cases, inl, arith, inr, ok, ◌∙◌}
use mini_agent.Gateway.{
  resolve_validated_get_order_registration, action_boundary_valid, registration_valid, GatewayCall,
  schema_valid, closed_get_order_schema_is_valid, resolved, evaluate_control_gateway,
}

resolves :
    (c : GatewayCall)
    → registration_valid c ≡ true
    → schema_valid c ≡ true
    → resolve_validated_get_order_registration c.registry_snapshot
        c.revalidated_move.requested_provider_tool_name
      ≡ (resolved c).1
unfolding resolve_validated_get_order_registration registration_valid schema_valid
    closed_get_order_schema_is_valid resolved
resolves c h k =
    let name = text_iff c.revalidated_move.requested_provider_tool_name (codes "get_order") in
    ground (arith, name)

reads :
    (c : GatewayCall)
    → action_boundary_valid c ≡ true
    → (r : ToolRegistration) × ((resolved c).1 ≡ some r) × (is_read r.effect ≡ true)
unfolding action_boundary_valid
reads c h = elim (Option-cases (resolved c).1) [
  | inl none' ↦ absurd (ground arith)
  | inr (r, e) ↦ (r, e, ground arith)
]

-- For field types that hold, if the gate returns an acceptance then resolving the tool once more gives
-- a registration, the one that the gate looked at, and its effect is a read.
pub accepted-resolves :
    (c : GatewayCall) (d : GateDecision)
    → IsTyped c
    → evaluate_control_gateway c ≡ ok d
    → d.decision ≡ GateDecisionValue.accept
    → (r : ToolRegistration) × (resolve_validated_get_order_registration c.registry_snapshot
          c.revalidated_move.requested_provider_tool_name
        ≡ some r)
      × ((resolved c).1 ≡ some r)
      × (is_read r.effect ≡ true)
accepted-resolves c d t e a =
    let h = IsAuthorized-AllPass c ((evaluate-accept_iff c t).0 (d, e, a)) in
    let (snapshot, registration, schema, trusted, argument, budget, progress, state, action) = h in
    let (r, is_r, is_reading) = reads c action in
    (r, resolves c registration schema ∙ is_r, is_r, is_reading)

-- ===== src/Examples/Gate.antt =====
-- A call that the gate accepts.
use mini_agent.Gateway.Resolution.{accepted-resolves}
use mini_agent.Order.Number.{capitalized, is_order_id}
use mini_agent.Json.{
  json_eq, count_fields, find_field, find_trusted_argument_field, is_trusted, scalar_eq,
}
use mini_agent.Tools.Spec.{spec_eq, ToolRegistration, is_read}
use mini_agent.Tools.Spec.GetOrder.{get_order_tool_spec}
use mini_agent.Gateway.Acceptance.{IsAuthorized, evaluate-accept_iff}
use mini_agent.Gateway.Decision.{evaluate-total}
use mini_agent.Gateway.Laws.{IsTyped}
use mini_agent.Prelude.Texts.{
  is_tool_name, casefold, fold_code, fold_special, is_digit, is_space, is_upper, lstrip, rstrip,
  strip, codes,
}
use mini_agent.Tools.Gate.{GateDecision, GateDecisionValue}
use mini_agent.Clock.{is_utc}
use mini_agent.Examples.Data.{call, snapshot}
use mini_agent.Gateway.{
  decide, resolved, registration_valid, snapshot_match, schema_valid, trusted_field_valid,
  argument_binding_valid, graph_binding_valid, state_version_valid, action_boundary_valid,
  budget_valid, evaluate_control_gateway, resolve_registration, binding_for, registration_for,
  resolve_visible_spec, closed_get_order_schema_is_valid, is_get_order,
  registration_matches_visible_spec, first_failure, keys, normalized_raw, only,
  resolve_validated_get_order_registration,
}
use mini_agent.Prelude.{
  refl, ◌≡◌, ok, ◌↔◌, list_beq, option_beq, same_set, contains, subset, some, true,
}

call-IsTyped : IsTyped call
unfolding is_utc is_tool_name
call-IsTyped = record {
  requested = refl;
  provider_id = refl;
  refs = refl;
  proposed = refl;
  validated = refl;
  names = refl;
  decided = refl;
}

evaluate-total_example : evaluate_control_gateway call ≡ ok (decide call)
evaluate-total_example = evaluate-total call call-IsTyped

evaluate-accept_iff_example :
    ((d : GateDecision) × (evaluate_control_gateway call ≡ ok d)
      × (d.decision ≡ GateDecisionValue.accept))
    ↔ IsAuthorized call
evaluate-accept_iff_example = evaluate-accept_iff call call-IsTyped

call-accepted : (decide call).decision ≡ GateDecisionValue.accept
unfolding decide snapshot_match list_beq registration_valid option_beq resolved resolve_registration
    binding_for registration_for get_order_tool_spec resolve_visible_spec schema_valid
    closed_get_order_schema_is_valid is_get_order spec_eq json_eq registration_matches_visible_spec
    same_set action_boundary_valid argument_binding_valid budget_valid first_failure
    graph_binding_valid keys normalized_raw only state_version_valid trusted_field_valid
    count_fields find_field find_trusted_argument_field is_trusted scalar_eq capitalized is_order_id
    contains subset casefold fold_code fold_special is_digit is_space is_upper lstrip rstrip strip
call-accepted = refl

accepted-resolves_example :
    (r : ToolRegistration) × (resolve_validated_get_order_registration snapshot (codes "get_order")
      ≡ some r)
    × ((resolved call).1 ≡ some r)
    × (is_read r.effect ≡ true)
accepted-resolves_example =
    accepted-resolves call (decide call) call-IsTyped (evaluate-total call call-IsTyped)
      call-accepted

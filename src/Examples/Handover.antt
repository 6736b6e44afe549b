-- ===== src/Examples/Handover.antt =====
-- The move of a decision on the customer's request goes to the gate, with the records of its graph.
use mini_agent.Order.Number.{is_order_id, normalize_order_id, normalize_text, capitalized}
use mini_agent.Clock.{is_utc}
use mini_agent.Tasks.{validate_task, validate_request_unit, validate_binding}
use mini_agent.Understanding.Graph.{initial_graph}
use mini_agent.Json.{is_trusted, find_trusted_argument_field, all_finite, find_field}
use mini_agent.Prelude.Texts.{
  fold_special, fold_code, casefold, is_space, rstrip, lstrip, strip, codes, is_digit,
}
use mini_agent.Understanding.Revalidation.Handover.{now_of, state_left, revalidated-passes}
use mini_agent.Understanding.Reducer.{decided}
use mini_agent.Understanding.Decision.{InitialDecision, routable}
use mini_agent.Understanding.Closure.{UnderstandingClosure}
use mini_agent.Understanding.Revalidation.{
  check_current, revalidate_call, call_of, construct_move, move_for, move_fields_valid,
  candidate_order_id_or_none, value_or_none, task_matches, unit_matches, binding_matches,
  revalidate_next_move,
}
use mini_agent.Gateway.{
  keys, GatewayCall, graph_binding_valid, trusted_field_valid, state_version_valid,
}
use mini_agent.Prelude.{
  nat_eq, list_eq, [], ◌∷◌, some, none, ok, refl, true, ◌≡◌, list_beq, option_beq, contains, subset,
  same_set,
}
use mini_agent.Examples.Data.{moment, arguments, call}
use mini_agent.Examples.Requests.{graph, query, durable, output, quote, customer, candidate}

abbrev pub closure : UnderstandingClosure
closure = record {
  record_ = record {
    request_understanding_record_id = 30;
    run_id = 1;
    message_ref = 6;
    contextualization = record {
      text = query;
      resolved_reference_candidates = [];
      uncertainties = [];
      source_message_refs = 6 ∷ [];
    };
    task_delta_candidates = durable ∷ [];
    candidate_validation = decided candidate none ∷ [];
    accepted_delta_refs = 21 ∷ [];
    proposed_base_task_state_version = none;
    validated_task_state_version = some 1;
    next_move_candidate_ref = some 31;
    created_at = moment 5;
  };
  accepted_task_deltas = graph.accepted_delta ∷ [];
}

abbrev decision : InitialDecision
decision = routable closure graph 31 output.next_move_candidate

-- The gate is called with the records of the graph.
abbrev call_now : GatewayCall
call_now = record {
  revalidated_move = record {
    run_id = 1;
    task_id = 22;
    request_unit_id = 23;
    next_move_candidate_ref = 31;
    requested_provider_tool_name = codes "get_order";
    candidate_arguments = arguments;
    normalized_candidate_order_id = some quote;
    binding_normalized_value = quote;
    argument_binding_refs = 24 ∷ [];
    proposed_base_task_state_version = none;
    validated_task_state_version = 1;
  };
  customer_context = customer;
  current_task = graph.task;
  current_request_unit = graph.request_unit;
  current_input_binding = graph.input_binding;
  registry_snapshot = call.registry_snapshot;
  context_manifest = call.context_manifest;
  gate_decision_id = 9;
  model_call_id = 8;
  provider_tool_call_id = none;
  decided_at = moment 6;
  tool_calls_used = call.tool_calls_used;
  max_tool_calls = call.max_tool_calls;
  progress_valid = true;
}

revalidated : revalidate_next_move decision (now_of call_now) ≡ ok call_now.revalidated_move
unfolding revalidate_next_move check_current revalidate_call call_of construct_move move_for
    move_fields_valid candidate_order_id_or_none value_or_none task_matches unit_matches
    binding_matches keys find_field initial_graph validate_task validate_request_unit
    validate_binding is_utc list_beq option_beq contains subset same_set is_order_id is_digit
    normalize_order_id normalize_text capitalized strip lstrip rstrip is_space casefold fold_code
    fold_special all_finite find_trusted_argument_field is_trusted
revalidated = refl

revalidated-passes_example :
    (graph_binding_valid call_now ≡ true)
    × (trusted_field_valid call_now ≡ true)
    × (state_version_valid call_now ≡ state_left call_now)
revalidated-passes_example = revalidated-passes decision call_now revalidated

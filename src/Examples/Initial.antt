-- ===== src/Examples/Initial.antt =====
-- The first graph of a task as it is written, with the records around it.
use mini_agent.Understanding.Contracts.{is_confidence}
use mini_agent.Understanding.Durable.{
  validate_accepted, validate_record, record_fields_valid, validate_durable_contextualization,
  validate_durable_delta, validate_durable_input, validate_validation,
}
use mini_agent.Recovery.{validate_link}
use mini_agent.Order.Number.{is_order_id, normalize_text}
use mini_agent.Tasks.{validate_task, validate_request_unit, validate_binding}
use mini_agent.Lifecycle.Initial.{
  validate_create_task, validate_create_unit, validate_save_binding, validate_create_link,
  validate_accepted_command, validate_roots,
}
use mini_agent.Runs.{validate_run}
use mini_agent.Clock.{is_utc, is_utc_or_none}
use mini_agent.Recovery.Aggregates.{validate_conversation_link, validate_conversation}
use mini_agent.Lifecycle.Agrees.{validate_initial_graph-agrees}
use mini_agent.Prelude.Texts.{codes, digest_after, is_space}
use mini_agent.Understanding.Graph.{validate_graph, initial_graph}
use mini_agent.Lifecycle.InitialGraph.{CreateInitialGraph, validate_initial_graph}
use mini_agent.Prelude.{
  option_beq, contains, none, refl, [], ◌∷◌, ok, ◌≡◌, nat_eq, list_eq, option_eq, distinct,
  list_beq, same_set, subset,
}
use mini_agent.Examples.Data.{moment}
use mini_agent.Examples.Requests.{graph, query}
use mini_agent.Examples.Closures
use mini_agent.Examples.Handover
use mini_agent.Lifecycle.{user_message, validate_message}

abbrev command : CreateInitialGraph
command = record {
  owner_scope = codes "c1";
  expected_conversation_record = Closures.closure.conversation_record;
  expected_message_records =
      record {
        schema_version = codes "v1";
        message_id = 6;
        conversation_id = 9;
        direction = user_message;
        content = query;
        received_at = moment 0;
      }
      ∷ [];
  expected_active_run_record = Closures.closure.active_run_record;
  understanding_record = Handover.closure.record_;
  graph = graph;
  binding_request_unit_id = 23;
  conversation_task_link = record {
    schema_version = codes "v1";
    conversation_id = 9;
    task_id = 22;
    link_reason = codes "CURRENT_MESSAGE_ACCEPTED_DELTA";
    linked_at = moment 5;
    ended_at = none;
  };
  run_task_link = record {
    schema_version = codes "v1";
    run_id = 1;
    task_id = 22;
    base_task_state_version = none;
    result_task_state_version = none;
  };
}

command_valid : validate_initial_graph command ≡ ok command
unfolding validate_initial_graph validate_conversation is_utc validate_message validate_run
    is_utc_or_none validate_create_task validate_task initial_graph validate_create_unit
    validate_request_unit validate_save_binding validate_binding is_order_id distinct contains
    validate_conversation_link validate_create_link validate_link validate_accepted_command
    validate_record record_fields_valid validate_durable_contextualization validate_durable_delta
    validate_durable_input digest_after list_beq is_confidence validate_validation same_set subset
    validate_accepted option_beq validate_roots normalize_text is_space
command_valid = refl

validate_initial_graph-agrees_example : validate_graph graph ≡ ok graph
validate_initial_graph-agrees_example = validate_initial_graph-agrees command command command_valid

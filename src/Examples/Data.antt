-- ===== src/Examples/Data.antt =====
-- A customer with one active task that asks for one order, and the registry with `get_order`.
use mini_agent.Prelude.Texts.{codes}
use mini_agent.Tools.Spec.GetOrder.{get_order_tool_spec}
use mini_agent.Gateway.{GatewayCall}
use mini_agent.Tools.Registry.{RegistrySnapshot}
use mini_agent.Tools.Spec.{ToolRegistration, ToolEffect}
use mini_agent.Prelude.{ℕ, ◌∷◌, some, none, [], true}
use mini_agent.Prelude.Int.{pos}
use mini_agent.Clock.{offset, DateTime}
use mini_agent.Tasks.{active}
use mini_agent.Json.{field, end, int, Fields, scalar, str}

abbrev pub moment : ℕ → DateTime
moment n = record { clock = n; zone = offset (pos 0) }

abbrev pub get_order_registration : ToolRegistration
get_order_registration = record {
  tool_spec = get_order_tool_spec;
  provider_visible_name = codes "get_order";
  effect = ToolEffect.read;
  risk = codes "LOW";
  idempotency = codes "IDEMPOTENT";
  unknown_result_recovery = none;
  handler_ref = codes "get_order";
  execution_policy = record {
    timeout_ms = 800;
    max_attempts = 1;
    retryable_failure_codes = [];
    interrupt_behavior = codes "MARK_INTERRUPTED";
  };
}

abbrev pub snapshot : RegistrySnapshot
snapshot = record {
  tool_registry_version = codes "r1";
  canonical_registrations = get_order_registration ∷ [];
  provider_visible_toolset = get_order_tool_spec ∷ [];
  provider_name_to_canonical_name =
      record { provider_visible_name = codes "get_order"; canonical_tool_name = codes "get_order" }
      ∷ [];
  model_visible_toolset_hash = codes "sha256:00";
}

abbrev pub arguments : Fields
arguments = field (codes "order_id") (scalar (str (codes "O-20260001"))) end

abbrev pub call : GatewayCall
call = record {
  revalidated_move = record {
    run_id = 1;
    task_id = 2;
    request_unit_id = 3;
    next_move_candidate_ref = 4;
    requested_provider_tool_name = codes "get_order";
    candidate_arguments = arguments;
    normalized_candidate_order_id = some (codes "O-20260001");
    binding_normalized_value = codes "O-20260001";
    argument_binding_refs = 5 ∷ [];
    proposed_base_task_state_version = none;
    validated_task_state_version = 1;
  };
  customer_context = record {
    subject_ref = codes "s";
    customer_id = codes "c1";
    auth_scopes = [];
    authenticated_at = moment 0;
    session_ref_hash = codes "h";
  };
  current_task = record {
    task_id = 2;
    owner_customer_id = codes "c1";
    status = active;
    state_version = 1;
    created_at = moment 0;
    updated_at = moment 0;
    last_outcome_ref = none;
  };
  current_request_unit = record {
    request_unit_id = 3;
    task_id = 2;
    goal_text = codes "g";
    goal_source_refs = 6 ∷ [];
    contextualization_ref = none;
    constraint_refs = [];
    dependency_refs = [];
    input_binding_refs = 5 ∷ [];
    open_questions = [];
    observation_refs = [];
    evidence_binding_refs = [];
    pending_action_ref = none;
    result_refs = [];
    status = active;
    state_version = 1;
    created_at = moment 0;
    updated_at = moment 0;
  };
  current_input_binding = record {
    binding_id = 5;
    normalized_value = codes "O-20260001";
    source_refs = 6 ∷ [];
    created_at = moment 0;
    updated_at = moment 0;
    supersedes = none;
  };
  registry_snapshot = snapshot;
  context_manifest = record {
    context_manifest_id = 7;
    run_id = 1;
    model_call_id = 8;
    tool_registry_version = codes "r1";
    model_visible_toolset_hash = codes "sha256:00";
    selected_message_refs = 6 ∷ [];
    task_state_ref_and_version = none;
    observation_refs_and_versions = [];
    evidence_refs_and_versions = [];
    action_record_refs = [];
    redaction_policy_version = codes "p1";
    truncation_decisions = [];
    input_tokens = none;
    output_tokens = none;
    assembled_at = moment 0;
  };
  gate_decision_id = 9;
  model_call_id = 8;
  provider_tool_call_id = none;
  decided_at = moment 1;
  tool_calls_used = int (pos 0);
  max_tool_calls = int (pos 1);
  progress_valid = true;
}

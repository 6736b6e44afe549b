-- ===== src/Gateway.antt =====
-- src/mini_agent/core/control_gateway.py: the gate in front of the one tool.
pub mod Laws
pub mod Decision
pub mod Authority
pub mod Acceptance
pub mod Resolution
use mini_agent.Prelude.{
  List, Option, Bool, some, Result, ℕ, ◌∷◌, select, none, false, [], ◌&&◌, if◌then◌else◌, ◌==◌,
  is_none, contains, true, nat_eq, list_eq, option_eq, same_set, not, is_some, ltb,
}
use mini_agent.Prelude.Texts.{Uuid, Text, strip, codes}
use mini_agent.Clock.{DateTime}
use mini_agent.Json.{
  Scalar, int, scalar, str, Json, obj, Fields, end, field, find_field, find_trusted_argument_field,
}
use mini_agent.Prelude.Int.{pos}
use mini_agent.Tasks.{
  task_status_eq, CustomerContext, ContextManifest, TaskRecord, RequestUnitRecord, InputBinding,
  TaskStateRefAndVersion, active,
}
use mini_agent.Order.Number.{is_order_id, capitalized}
use mini_agent.Tools.Spec.{ToolSpec, ToolRegistration, spec_eq, is_read}
use mini_agent.Tools.Spec.GetOrder.{get_order_tool_spec}
use mini_agent.Tools.Registry.{RegistrySnapshot, ProviderToolNameBinding, project_spec}
use mini_agent.Tools.Gate.{
  GateDecision, GateDecisionValue, GateReasonCode, GateError, validate_gate_decision,
}

-- `RevalidatedNextMove` of core/request_processing.py. Its `kind` and `binding_name` are literals
-- with one value each, and are left out; so is the name of an `InputBinding`, which it is compared with.
pub record RevalidatedNextMove : Type 0 where
  pub run_id : Uuid
  pub task_id : Uuid
  pub request_unit_id : Uuid
  pub next_move_candidate_ref : Uuid
  pub requested_provider_tool_name : Text
  pub candidate_arguments : Fields
  pub normalized_candidate_order_id : Option Text
  pub binding_normalized_value : Text
  pub argument_binding_refs : List Uuid
  pub proposed_base_task_state_version : Option ℕ
  pub validated_task_state_version : ℕ

-- The keyword arguments of `evaluate_control_gateway`. The two counts are whatever Python value the
-- caller gives, since the code tests their type.
pub record GatewayCall : Type 0 where
  pub revalidated_move : RevalidatedNextMove
  pub customer_context : CustomerContext
  pub current_task : TaskRecord
  pub current_request_unit : RequestUnitRecord
  pub current_input_binding : InputBinding
  pub registry_snapshot : RegistrySnapshot
  pub context_manifest : ContextManifest
  pub gate_decision_id : Uuid
  pub model_call_id : Uuid
  pub provider_tool_call_id : Option Text
  pub decided_at : DateTime
  pub tool_calls_used : Scalar
  pub max_tool_calls : Scalar
  pub progress_valid : Bool

-- `matches[0] if len(matches) == 1 else None`
unfoldable pub only {ℓ} : {A : Type ℓ} → List A → Option A
only (x ∷ []) = some x
only xs = none

unfoldable pub binding_for : RegistrySnapshot → Text → Option ProviderToolNameBinding
unfolding only
binding_for s name =
    only (select (λ b. b.provider_visible_name == name) s.provider_name_to_canonical_name)

unfoldable pub registration_for : RegistrySnapshot → Text → Option ToolRegistration
unfolding only
registration_for s name = only (select (λ r. r.tool_spec.name == name) s.canonical_registrations)

unfoldable pub resolve_registration :
    RegistrySnapshot → Text → Option Text × Option ToolRegistration
resolve_registration s name = elim (binding_for s name) [
  | none ↦ (none, none)
  | some b ↦ (some b.canonical_tool_name, registration_for s b.canonical_tool_name)
]

unfoldable pub resolve_visible_spec : RegistrySnapshot → Text → Option ToolSpec
unfolding only
resolve_visible_spec s name = only (select (λ t. t.name == name) s.provider_visible_toolset)

unfoldable pub registration_matches_visible_spec : Option ToolRegistration → Option ToolSpec → Bool
registration_matches_visible_spec (some r) (some t) = spec_eq t (project_spec r)
registration_matches_visible_spec _ _ = false

unfoldable pub keys : Fields → List Text
keys end = []
keys (field k v fs) = k ∷ keys fs

-- The value under `order_id`, if it is a `str`, stripped and with the letter in upper case.
unfoldable pub normalized_raw : Option Json → Option Text
normalized_raw (some (scalar (str s))) = some (capitalized (strip s))
normalized_raw v = none

abbrev pub holds_order : Option Text → Option Text → Bool
holds_order none candidate = false
holds_order (some raw) candidate = is_order_id raw && some raw == candidate

unfoldable pub is_get_order : Option ToolRegistration → Bool
is_get_order none = false
is_get_order (some r) = spec_eq r.tool_spec get_order_tool_spec

unfoldable pub closed_get_order_schema_is_valid :
    Fields → Option Text → Option ToolRegistration → Option ToolSpec → Bool
unfolding keys normalized_raw
closed_get_order_schema_is_valid arguments candidate registration visible =
    is_get_order registration
    && registration_matches_visible_spec registration visible
    && same_set (keys arguments) (codes "order_id" ∷ [])
    && holds_order (normalized_raw (find_field (codes "order_id") arguments)) candidate

abbrev pub visible_name_is : Text → Option ToolRegistration → Bool
visible_name_is name none = false
visible_name_is name (some r) = r.provider_visible_name == name

unfoldable pub resolve_validated_get_order_registration :
    RegistrySnapshot → Text → Option ToolRegistration
unfolding resolve_registration
resolve_validated_get_order_registration s name =
    let (resolved, registration) = resolve_registration s name in
    if resolved == some (codes "get_order")
      && name == codes "get_order"
      && visible_name_is name registration
      && is_get_order registration
      && registration_matches_visible_spec registration (resolve_visible_spec s name)
    then registration
    else none

module _ (c : GatewayCall) where
  open c use {
    revalidated_move as move, customer_context as customer, current_task as task,
    current_request_unit as unit, current_input_binding as binding, registry_snapshot as snapshot,
    context_manifest as manifest,
  }

  unfoldable pub resolved : Option Text × Option ToolRegistration
  resolved = resolve_registration snapshot move.requested_provider_tool_name

  unfoldable pub snapshot_match : Bool
  snapshot_match =
      manifest.tool_registry_version == snapshot.tool_registry_version
      && manifest.model_visible_toolset_hash == snapshot.model_visible_toolset_hash

  unfoldable pub registration_valid : Bool
  registration_valid =
      resolved.0 == some (codes "get_order")
      && move.requested_provider_tool_name == codes "get_order"
      && visible_name_is (codes "get_order") resolved.1
      && is_some (resolve_visible_spec snapshot move.requested_provider_tool_name)

  unfoldable pub trusted_field_valid : Bool
  trusted_field_valid = is_none (find_trusted_argument_field (obj move.candidate_arguments))

  unfoldable pub schema_valid : Bool
  schema_valid =
      closed_get_order_schema_is_valid move.candidate_arguments move.normalized_candidate_order_id
        resolved.1 (resolve_visible_spec snapshot move.requested_provider_tool_name)

  unfoldable pub graph_binding_valid : Bool
  graph_binding_valid =
      contains binding.binding_id unit.input_binding_refs
      && unit.input_binding_refs == binding.binding_id ∷ []
      && move.argument_binding_refs == binding.binding_id ∷ []
      && move.binding_normalized_value == binding.normalized_value

  unfoldable pub argument_binding_valid : Bool
  argument_binding_valid =
      graph_binding_valid && move.normalized_candidate_order_id == some binding.normalized_value

  unfoldable pub state_version_valid : Bool
  state_version_valid =
      task.owner_customer_id == customer.customer_id
      && task.task_id == move.task_id
      && unit.task_id == task.task_id
      && unit.request_unit_id == move.request_unit_id
      && task.status == active
      && unit.status == active
      && task.state_version == unit.state_version
      && task.state_version == move.validated_task_state_version
      && is_none move.proposed_base_task_state_version
      && is_none manifest.task_state_ref_and_version
      && manifest.run_id == move.run_id
      && manifest.model_call_id == c.model_call_id

  unfoldable pub action_boundary_valid : Bool
  action_boundary_valid = elim resolved.1 [ none ↦ false | some r ↦ is_read r.effect ]

-- `type(used) is int and type(most) is int and most == 1 and 0 <= used < most`
unfoldable pub budget_valid : Scalar → Scalar → Bool
budget_valid (int (pos used)) (int (pos most)) = most == 1 && ltb used most
budget_valid used most = false

-- The ladder that picks the reason of a rejection: the first failed check in this order.
unfoldable pub first_failure :
    (argument snapshot registration trusted schema budget progress state action : Bool)
    → Option GateReasonCode
first_failure argument snapshot registration trusted schema budget progress state action =
    if not argument
    then some GateReasonCode.argument_binding_mismatch
    else if not snapshot
    then some GateReasonCode.snapshot_mismatch
    else if not registration
    then some GateReasonCode.tool_not_registered
    else if not trusted
    then some GateReasonCode.trusted_field_injection
    else if not schema
    then some GateReasonCode.schema_invalid
    else if not budget
    then some GateReasonCode.budget_exceeded
    else if not progress
    then some GateReasonCode.no_progress
    else if not state
    then some GateReasonCode.state_version_mismatch
    else if not action
    then some GateReasonCode.action_requires_proposal
    else none

abbrev value_of : Bool → GateDecisionValue
value_of true = GateDecisionValue.accept
value_of false = GateDecisionValue.reject

module _ (c : GatewayCall) where
  open c use {revalidated_move as move, context_manifest as manifest}

  -- The arguments of the `GateDecision(...)` call.
  unfoldable pub decide : GateDecision
  decide =
      let snapshot = snapshot_match c in
      let registration = registration_valid c in
      let schema = schema_valid c in
      let trusted = trusted_field_valid c in
      let argument = argument_binding_valid c in
      let budget = budget_valid c.tool_calls_used c.max_tool_calls in
      let state = state_version_valid c in
      let action = action_boundary_valid c in
      record {
        gate_decision_id = c.gate_decision_id;
        model_call_id = c.model_call_id;
        context_manifest_id = manifest.context_manifest_id;
        provider_tool_call_id = c.provider_tool_call_id;
        requested_provider_tool_name = move.requested_provider_tool_name;
        resolved_canonical_tool_name = (resolved c).0;
        snapshot_match = snapshot;
        registration_valid = registration;
        schema_valid = schema;
        trusted_field_valid = trusted;
        argument_binding_valid = argument;
        argument_binding_refs = move.argument_binding_refs;
        budget_valid = budget;
        progress_valid = c.progress_valid;
        proposed_base_task_state_version = move.proposed_base_task_state_version;
        validated_task_state_version = some move.validated_task_state_version;
        state_version_valid = state;
        action_boundary_valid = action;
        decision = value_of (
            snapshot && registration && schema && trusted && argument && budget && c.progress_valid
            && state && action);
        reason_code =
            first_failure argument snapshot registration trusted schema budget c.progress_valid
              state action;
        decided_at = c.decided_at;
      }

  unfoldable pub evaluate_control_gateway : Result GateError GateDecision
  unfolding decide
  evaluate_control_gateway = validate_gate_decision decide

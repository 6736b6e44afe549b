-- ===== src/Gateway/Authority.antt =====
-- What an accepted call is authorised to do, check by check.
use mini_agent.Prelude.Texts.{text_iff, option_text_iff, codes, Text, strip}
use mini_agent.Prelude.Int.{pos}
use mini_agent.Prelude.{
  list_eq, nat_eq, option_eq, ◌≡◌, contains, none, true, ◌∷◌, ◌↔◌, [], some, arith, same_set,
  Option, ok, Option-cases, inl, inr,
}
use mini_agent.Gateway.{
  GatewayCall, resolved, registration_valid, schema_valid, argument_binding_valid,
  graph_binding_valid, budget_valid, state_version_valid, action_boundary_valid,
  closed_get_order_schema_is_valid, normalized_raw, keys, is_get_order,
  registration_matches_visible_spec, resolve_visible_spec, holds_order,
}
use mini_agent.Json.{find_field, obj, Scalar, int, Json, scalar, str, arr}
use mini_agent.Tasks.{active, task_status_eq}
use mini_agent.Tools.Spec.{ToolRegistration, ToolSpec, spec_eq, read}
use mini_agent.Tools.Spec.GetOrder.{get_order_tool_spec}
use mini_agent.Tools.Registry.{project_spec}
use mini_agent.Order.Number.{normalize_order_id, normalize_text, capitalized}

-- The task, its unit and the trusted customer belong together, are active, and stand at the version
-- that the move was validated against.
pub record IsCurrent (c : GatewayCall) : Type 0 where
  pub owner : c.current_task.owner_customer_id ≡ c.customer_context.customer_id
  pub task : c.current_task.task_id ≡ c.revalidated_move.task_id
  pub unit_task : c.current_request_unit.task_id ≡ c.current_task.task_id
  pub unit : c.current_request_unit.request_unit_id ≡ c.revalidated_move.request_unit_id
  pub task_active : c.current_task.status ≡ active
  pub unit_active : c.current_request_unit.status ≡ active
  pub same_version : c.current_task.state_version ≡ c.current_request_unit.state_version
  pub validated : c.current_task.state_version ≡ c.revalidated_move.validated_task_state_version
  pub no_base : c.revalidated_move.proposed_base_task_state_version ≡ none
  pub no_task_ref : c.context_manifest.task_state_ref_and_version ≡ none
  pub run : c.context_manifest.run_id ≡ c.revalidated_move.run_id
  pub model_call : c.context_manifest.model_call_id ≡ c.model_call_id

pub state_version_valid_iff : (c : GatewayCall) → (state_version_valid c ≡ true) ↔ IsCurrent c
unfolding state_version_valid
state_version_valid_iff c =
    let owner = text_iff c.current_task.owner_customer_id c.customer_context.customer_id in
    (λ h. ground (arith, owner), λ h. ground (arith, owner))

-- The one argument is the order number of the current binding, which the move names.
pub record IsBound (c : GatewayCall) : Type 0 where
  pub unit_refs :
      c.current_request_unit.input_binding_refs ≡ c.current_input_binding.binding_id ∷ []
  pub move_refs : c.revalidated_move.argument_binding_refs ≡ c.current_input_binding.binding_id ∷ []
  pub value : c.revalidated_move.binding_normalized_value ≡ c.current_input_binding.normalized_value
  pub candidate :
      c.revalidated_move.normalized_candidate_order_id
      ≡ some c.current_input_binding.normalized_value

pub argument_binding_valid_iff : (c : GatewayCall) → (argument_binding_valid c ≡ true) ↔ IsBound c
unfolding argument_binding_valid graph_binding_valid contains
argument_binding_valid_iff c =
    let own : contains c.current_input_binding.binding_id (c.current_input_binding.binding_id ∷ [])
        ≡ true =
      ground arith in
    let refs =
      text_iff c.current_request_unit.input_binding_refs
        (c.current_input_binding.binding_id ∷ []) in
    let moved =
      text_iff c.revalidated_move.argument_binding_refs (c.current_input_binding.binding_id ∷ []) in
    let value =
      text_iff c.revalidated_move.binding_normalized_value
        c.current_input_binding.normalized_value in
    let candidate =
      option_text_iff c.revalidated_move.normalized_candidate_order_id
        (some c.current_input_binding.normalized_value) in
    (
      λ h. ground (arith, refs, moved, value, candidate),
      λ h. ground (arith, refs, moved, value, candidate, own),
    )

pub budget_valid_iff :
    (used most : Scalar)
    → (budget_valid used most ≡ true) ↔ ((used ≡ int (pos 0)) × (most ≡ int (pos 1)))
unfolding budget_valid
budget_valid_iff used most = (λ h. ground arith, λ h. ground arith)

-- The registered tool is `get_order` itself, read only, and the provider saw the same definition.
pub record IsGetOrder (c : GatewayCall) : Type 0 where
  pub requested : c.revalidated_move.requested_provider_tool_name ≡ codes "get_order"
  pub canonical : (resolved c).0 ≡ some (codes "get_order")
  pub registration : ToolRegistration
  pub found : (resolved c).1 ≡ some registration
  pub registered : spec_eq registration.tool_spec get_order_tool_spec ≡ true
  pub visible_name : registration.provider_visible_name ≡ codes "get_order"
  pub read_only : registration.effect ≡ read
  pub visible : ToolSpec
  pub shown :
      resolve_visible_spec c.registry_snapshot c.revalidated_move.requested_provider_tool_name
      ≡ some visible
  pub same_spec : spec_eq visible (project_spec registration) ≡ true

-- The arguments are one order number under the key `order_id`, and nothing else.
pub record HasOneOrder (c : GatewayCall) : Type 0 where
  pub only_key :
      same_set (keys c.revalidated_move.candidate_arguments) (codes "order_id" ∷ []) ≡ true
  pub argument : Json
  pub given : find_field (codes "order_id") c.revalidated_move.candidate_arguments ≡ some argument
  pub order : Text
  pub normal : normalize_order_id argument ≡ ok order
  pub candidate : c.revalidated_move.normalized_candidate_order_id ≡ some order

holds_order_normal :
    (v : Json) (candidate : Option Text)
    → holds_order (normalized_raw (some v)) candidate ≡ true
    → (n : Text) × (normalize_order_id v ≡ ok n) × (candidate ≡ some n)
unfolding normalized_raw normalize_order_id normalize_text
holds_order_normal (scalar (str s)) candidate h = (
  capitalized (strip s),
  ground arith,
  ground (arith, option_text_iff (some (capitalized (strip s))) candidate),
)
holds_order_normal (scalar s) candidate h = absurd (ground arith)
holds_order_normal (arr xs) candidate h = cc
holds_order_normal (obj fs) candidate h = cc

normal_holds_order :
    (v : Json) (n : Text)
    → normalize_order_id v ≡ ok n
    → holds_order (normalized_raw (some v)) (some n) ≡ true
unfolding normalized_raw normalize_order_id normalize_text
normal_holds_order (scalar (str s)) n h =
    ground (arith, option_text_iff (some (capitalized (strip s))) (some n))
normal_holds_order (scalar s) n h = absurd (ground arith)
normal_holds_order (arr xs) n h = cc
normal_holds_order (obj fs) n h = cc

-- The registered tool and the arguments pass their checks exactly for one `get_order` call.
pub tool_checks-IsGetOrder :
    (c : GatewayCall)
    → registration_valid c ≡ true
    → schema_valid c ≡ true
    → action_boundary_valid c ≡ true
    → IsGetOrder c
unfolding registration_valid schema_valid closed_get_order_schema_is_valid action_boundary_valid
    registration_matches_visible_spec is_get_order
tool_checks-IsGetOrder c r s a = elim (Option-cases (resolved c).1) [
  | inl missing ↦ absurd (ground arith)
  | inr (registration, e) ↦
      elim (Option-cases (
        resolve_visible_spec c.registry_snapshot c.revalidated_move.requested_provider_tool_name)) [
          | inl unseen ↦ absurd (ground arith)
          | inr (visible, f) ↦ record {
            requested = ground (
              arith,
              text_iff c.revalidated_move.requested_provider_tool_name (codes "get_order"),
            );
            canonical = ground (arith, option_text_iff (resolved c).0 (some (codes "get_order")));
            registration = registration;
            found = e;
            registered = ground arith;
            visible_name =
                ground (arith, text_iff registration.provider_visible_name (codes "get_order"));
            read_only = ground arith;
            visible = visible;
            shown = f;
            same_spec = ground arith;
          }
        ]
]

pub schema_valid-HasOneOrder : (c : GatewayCall) → schema_valid c ≡ true → HasOneOrder c
unfolding schema_valid closed_get_order_schema_is_valid
schema_valid-HasOneOrder c h =
    elim (Option-cases (find_field (codes "order_id") c.revalidated_move.candidate_arguments)) [
      | inl missing ↦ absurd (unfold normalized_raw in ground arith)
      | inr (v, e) ↦
          let (n, p, q) =
            holds_order_normal v c.revalidated_move.normalized_candidate_order_id (ground arith) in
          record {
            only_key = ground arith;
            argument = v;
            given = e;
            order = n;
            normal = p;
            candidate = q;
          }
    ]

pub IsGetOrder-registration_valid : (c : GatewayCall) → IsGetOrder c → registration_valid c ≡ true
unfolding registration_valid
IsGetOrder-registration_valid c h = ground (
  arith,
  text_iff c.revalidated_move.requested_provider_tool_name (codes "get_order"),
  option_text_iff (resolved c).0 (some (codes "get_order")),
  text_iff h.registration.provider_visible_name (codes "get_order"),
)

pub IsGetOrder-action_boundary_valid :
    (c : GatewayCall) → IsGetOrder c → action_boundary_valid c ≡ true
unfolding action_boundary_valid
IsGetOrder-action_boundary_valid c h = ground arith

pub IsGetOrder-schema_valid :
    (c : GatewayCall) → IsGetOrder c → HasOneOrder c → schema_valid c ≡ true
unfolding schema_valid closed_get_order_schema_is_valid registration_matches_visible_spec
    is_get_order
IsGetOrder-schema_valid c g h = ground (arith, normal_holds_order h.argument h.order h.normal)

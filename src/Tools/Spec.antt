-- ===== src/Tools/Spec.antt =====
-- `ToolSpec`, `ExecutionPolicy` and `ToolRegistration` of core/tool_system.py.
pub mod GetOrder
use mini_agent.Prelude.{
  Option, Result, Bool, ℕ, some, ◌>>◌, ◌>>=◌, ◌==◌, List, leb, true, false, raise_if, ◌&&◌, not,
  nat_eq, list_eq, all, is_some, ok, is_none, err, none,
}
use mini_agent.Prelude.Texts.{Text, is_tool_name, codes, non_empty, none_or}
use mini_agent.Json.{
  Json, scalar, arr, obj, Fields, str, bool, find_field, find_trusted_argument_field, all_finite,
  json_eq,
}

pub data ToolEffect : Type 0 where
  read retrieval action : ToolEffect

-- The fields that are constant text in every instance are left out.
pub record ToolSpec : Type 0 where
  pub name : Text
  pub description : Text
  pub input_schema : Json
  pub output_schema : Json

pub data SpecError : Type 0 where
  field not_finite not_object open_object trusted_field no_recovery action_retry : SpecError

-- `copied.get("type") != "object"`
declares_object : Option Json → Bool
declares_object (some v) = json_eq v (scalar (str (codes "object")))
declares_object none = false

-- `copied.get("additionalProperties") is not False`
is_closed : Option Json → Bool
is_closed (some (scalar (bool false))) = true
is_closed v = false

-- The three validators of a schema, in their order. A value that is no mapping is refused by its type.
unfoldable pub validate_schema : Json → Result SpecError Json
unfolding declares_object is_closed
validate_schema (obj fs) = do
  raise_if (not (all_finite (obj fs))) not_finite
  raise_if (not (declares_object (find_field (codes "type") fs))) not_object
  raise_if (not (is_closed (find_field (codes "additionalProperties") fs))) open_object
  raise_if (is_some (find_trusted_argument_field (obj fs))) trusted_field
  ok (obj fs)
validate_schema v = err field

unfoldable pub validate_spec : ToolSpec → Result SpecError ToolSpec
unfolding validate_schema
validate_spec t = do
  raise_if (not (is_tool_name t.name && non_empty t.description)) field
  validate_schema t.input_schema
  validate_schema t.output_schema
  ok t

-- `==` of two specs
unfoldable pub spec_eq : ToolSpec → ToolSpec → Bool
spec_eq a b =
    a.name == b.name
    && a.description == b.description
    && json_eq a.input_schema b.input_schema
    && json_eq a.output_schema b.output_schema

pub record ExecutionPolicy : Type 0 where
  pub timeout_ms : ℕ
  pub max_attempts : ℕ
  pub retryable_failure_codes : List Text
  pub interrupt_behavior : Text

policy_valid : ExecutionPolicy → Bool
policy_valid p =
    leb 1 p.timeout_ms
    && leb 1 p.max_attempts
    && all non_empty p.retryable_failure_codes
    && non_empty p.interrupt_behavior

pub record ToolRegistration : Type 0 where
  pub tool_spec : ToolSpec
  pub provider_visible_name : Text
  pub effect : ToolEffect
  pub risk : Text
  pub idempotency : Text
  pub unknown_result_recovery : Option Text
  pub handler_ref : Text
  pub execution_policy : ExecutionPolicy

abbrev pub is_action : ToolEffect → Bool
is_action action = true
is_action e = false

abbrev pub is_read : ToolEffect → Bool
is_read read = true
is_read e = false

registration_fields_valid : ToolRegistration → Bool
unfolding policy_valid
registration_fields_valid r =
    is_tool_name r.provider_visible_name
    && non_empty r.risk
    && non_empty r.idempotency
    && none_or non_empty r.unknown_result_recovery
    && non_empty r.handler_ref
    && policy_valid r.execution_policy

-- `action_has_explicit_recovery`
unfoldable pub validate_registration : ToolRegistration → Result SpecError ToolRegistration
unfolding registration_fields_valid
validate_registration r = do
  validate_spec r.tool_spec
  raise_if (not (registration_fields_valid r)) field
  raise_if (is_action r.effect && is_none r.unknown_result_recovery) no_recovery
  raise_if (is_action r.effect && not (r.execution_policy.max_attempts == 1)) action_retry
  ok r

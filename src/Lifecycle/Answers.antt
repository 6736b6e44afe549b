-- ===== src/Lifecycle/Answers.antt =====
-- How the results of `map_result` in src/mini_agent/application/deterministic_renderer.py fit the table of
-- endings in src/mini_agent/application/records.py.
use mini_agent.Lifecycle.Service.{ends_alone}
use mini_agent.Lifecycle.Command.{is_terminal_row}
use mini_agent.Lifecycle.Task.{target_of}
use mini_agent.Tasks.{TaskStatus}
use mini_agent.Lifecycle.{is_content}
use mini_agent.Prelude.Texts.{Uuid, Text}
use mini_agent.Presentation.{map_result, AgentRunResult}
use mini_agent.Prelude.{none, some, ◌≡◌, ok, true, Option, arith, false, is_ok}
use mini_agent.Runs.{
  goal_completed, not_found_or_not_accessible, input_invalid, gate_rejected,
  provider_protocol_error, order_service_unavailable, presentation_plan_rejected,
  renderer_invariant_failed, process_restart_detected, StopReason,
}

-- A result belongs to its run and its message can be sent.
pub map_result-valid :
    (i : Uuid) (r : StopReason) (m : Option Text) (x : AgentRunResult)
    → map_result i r m ≡ ok x
    → (x.run_id ≡ i) × (is_content x.message ≡ true)
unfolding map_result
map_result-valid i goal_completed none x h = absurd (ground arith)
map_result-valid i goal_completed (some s) x h = (ground arith, ground arith)
map_result-valid i not_found_or_not_accessible m x h = (ground arith, ground arith)
map_result-valid i input_invalid m x h = (ground arith, ground arith)
map_result-valid i gate_rejected m x h = (ground arith, ground arith)
map_result-valid i provider_protocol_error m x h = (ground arith, ground arith)
map_result-valid i order_service_unavailable m x h = (ground arith, ground arith)
map_result-valid i presentation_plan_rejected m x h = (ground arith, ground arith)
map_result-valid i renderer_invariant_failed m x h = (ground arith, ground arith)
map_result-valid i process_restart_detected m x h = (ground arith, ground arith)

pub joint_row :
    (i : Uuid) (r : StopReason) (m : Option Text) (x : AgentRunResult) (s : TaskStatus)
    → map_result i r m ≡ ok x
    → target_of r ≡ some s
    → is_terminal_row (some r) true x.outcome (some s) ≡ true
unfolding map_result
joint_row i goal_completed none x s h t = absurd (ground arith)
joint_row i goal_completed (some n) x s h t = ground arith
joint_row i not_found_or_not_accessible m x s h t = ground arith
joint_row i input_invalid m x s h t = absurd (ground arith)
joint_row i gate_rejected m x s h t = ground arith
joint_row i provider_protocol_error m x s h t = ground arith
joint_row i order_service_unavailable m x s h t = ground arith
joint_row i presentation_plan_rejected m x s h t = ground arith
joint_row i renderer_invariant_failed m x s h t = ground arith
joint_row i process_restart_detected m x s h t = absurd (ground arith)

pub alone_row :
    (i : Uuid) (r : StopReason) (m : Option Text) (x : AgentRunResult)
    → map_result i r m ≡ ok x
    → ends_alone r ≡ true
    → is_terminal_row (some r) false x.outcome none ≡ true
unfolding map_result
alone_row i goal_completed m x h t = absurd (ground arith)
alone_row i not_found_or_not_accessible m x h t = absurd (ground arith)
alone_row i input_invalid m x h t = ground arith
alone_row i gate_rejected m x h t = absurd (ground arith)
alone_row i provider_protocol_error m x h t = ground arith
alone_row i order_service_unavailable m x h t = absurd (ground arith)
alone_row i presentation_plan_rejected m x h t = absurd (ground arith)
alone_row i renderer_invariant_failed m x h t = absurd (ground arith)
alone_row i process_restart_detected m x h t = absurd (ground arith)

pub alone_result :
    (i : Uuid) (r : StopReason) → ends_alone r ≡ true → is_ok (map_result i r none) ≡ true
unfolding map_result
alone_result i r h = ground arith

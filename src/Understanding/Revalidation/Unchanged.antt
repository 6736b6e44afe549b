-- ===== src/Understanding/Revalidation/Unchanged.antt =====
-- What a successful `revalidate_next_move_v2` of src/mini_agent/core/request_processing.py says of the records
-- that the store holds.
use mini_agent.Json.{find_trusted_argument_field, obj}
use mini_agent.Gateway.{RevalidatedNextMove}
use mini_agent.Prelude.Texts.{Uuid}
use mini_agent.Understanding.Contracts.{NextMove, call_tool}
use mini_agent.Understanding.Closure.{UnderstandingClosure}
use mini_agent.Understanding.Graph.{TaskGraph}
use mini_agent.Understanding.Revalidation.{CurrentGraph}
use mini_agent.Tasks.{task_status_eq, active}
use mini_agent.Clock.{time_eq}
use mini_agent.Prelude.{nat_eq, list_eq, option_eq, ◌≡◌, some, none, [], ◌∷◌}

-- The stored records are those of the graph, unchanged since it was made: active, in their first version,
-- with the one binding of the graph.
abbrev pub IsUnchanged : TaskGraph → CurrentGraph → Type 0
IsUnchanged g now =
    (now.current_task ≡ g.task)
    × (now.current_request_unit ≡ g.request_unit)
    × (now.current_input_binding ≡ g.input_binding)
    × (now.current_task.status ≡ active)
    × (now.current_task.state_version ≡ 1)
    × (g.request_unit.input_binding_refs ≡ g.input_binding.binding_id ∷ [])

-- The move that is handed over: the tool and the arguments of the proposal, for the records of the graph.
abbrev pub IsCallFor :
    UnderstandingClosure → TaskGraph → Uuid → NextMove → RevalidatedNextMove → Type 0
IsCallFor closure g ref move m =
    (move.kind ≡ call_tool)
    × (move.requested_tool_name ≡ some m.requested_provider_tool_name)
    × (move.arguments ≡ some m.candidate_arguments)
    × (find_trusted_argument_field (obj m.candidate_arguments) ≡ none)
    × (m.next_move_candidate_ref ≡ ref)
    × (m.run_id ≡ closure.record_.run_id)
    × (m.task_id ≡ g.task.task_id)
    × (m.request_unit_id ≡ g.request_unit.request_unit_id)
    × (m.binding_normalized_value ≡ g.input_binding.normalized_value)
    × (m.argument_binding_refs ≡ g.input_binding.binding_id ∷ [])
    × (m.proposed_base_task_state_version ≡ move.base_task_state_version)
    × (m.validated_task_state_version ≡ 1)

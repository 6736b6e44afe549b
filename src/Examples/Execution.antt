-- ===== src/Examples/Execution.antt =====
-- A run in which every port does its part, and one that is cancelled while the order is looked up.
use mini_agent.Tools.Commands.Chain.{SameCall, chain-SameCall}
use mini_agent.Executor.Canonical.{IsValid, canonical-IsValid}
use mini_agent.Order.Lookup.{GetOrderResult, GetOrderOutcome, OrderStatus}
use mini_agent.Tools.Commands.{
  validate_finalize, StartCommand, validate_create, validate_start, terminal_outcomes,
  same_immutable,
}
use mini_agent.Executor.Finalize.{IsOpen, finalize_command, finalize-ok, IsEnding, fits}
use mini_agent.Clock.{is_utc, earlier, is_utc_or_none}
use mini_agent.Tools.Call.{
  ToolCallRecord, ToolAttemptRecord, validate_call, ToolCallStatus, validate_attempt,
}
use mini_agent.Executor.Fence.{dispatches, fences, execute_get_order-single_dispatch}
use mini_agent.Executor.Conforms.{execute_get_order-Legal}
use mini_agent.Prelude.Texts.{codes, is_tool_name}
use mini_agent.Executor.{execute_get_order}
use mini_agent.Executor.Protocol.{Legal}
use mini_agent.Executor.Records.{
  Request, created_record, terminal_of, timed_out_ending, finalized_of, canonical_or_unavailable,
}
use mini_agent.Examples.Data.{moment, arguments, get_order_registration}
use mini_agent.Executor.Effects.{
  returned, inserted, fence_applied, write_applied, observation_inserted, answered, Lookup, State,
  Ports,
}
use mini_agent.Prelude.{
  refl, ℕ, none, suc, ◌∷◌, [], ◌≤◌, ◌≡◌, true, false, ok, some, is_some, option_beq, list_beq,
}

abbrev ports : Lookup → Ports ℕ
ports reply = record {
  clock = λ w. (moment w, suc w);
  uuid_factory = λ w. (w, suc w);
  insert_tool_call = λ r w. (returned inserted, w);
  start_tool_call_if_created = λ c w. (returned fence_applied, w);
  get_order = λ t q w. (returned reply, w);
  finalize_tool_call_attempt_if_running = λ c w. (returned write_applied, w);
  save_observation = λ c w. (returned observation_inserted, w);
  append_trace_event = λ e w. (returned tt, w);
}

abbrev request : Request
request = record {
  customer_id = codes "c1";
  authorized_command = record {
    gate_decision_id = 9;
    canonical_tool_name = codes "get_order";
    validated_arguments = arguments;
    argument_binding_refs = 5 ∷ [];
    validated_task_state_version = 1;
    registry_snapshot_ref = codes "r1";
    trusted_context_ref = codes "x";
  };
  run_id = 1;
  task_id = 2;
  request_unit_id = 3;
  model_call_id = 8;
  context_manifest_id = 7;
  provider_tool_call_id = none;
  tool_registry_version = codes "r1";
  execution_policy = get_order_registration.execution_policy;
  remaining_run_time_budget_ms = 500;
}

abbrev start : State ℕ
start = record { world = 0; log = [] }

execute_get_order-Legal_example :
    Legal request (execute_get_order (ports (answered none)) request start).1.log
execute_get_order-Legal_example = execute_get_order-Legal (ports (answered none)) request 0

execute_get_order-single_dispatch_example :
    let l = (execute_get_order (ports (answered none)) request start).1.log in
    (dispatches l ≤ fences l) × (fences l ≤ 1)
execute_get_order-single_dispatch_example =
    execute_get_order-single_dispatch (ports (answered none)) request 0

abbrev running_call : ToolCallRecord
running_call = record (created_record request 1 (moment 0)) {
  status = ToolCallStatus.running;
  attempt_count = 1;
}

abbrev open_attempt : ToolAttemptRecord
open_attempt = record {
  tool_call_id = 1;
  attempt_no = 1;
  started_at = moment 2;
  finished_at = none;
  outcome = none;
  failure_code = none;
}

running_call-IsOpen : IsOpen running_call open_attempt
unfolding validate_call validate_attempt created_record is_tool_name is_utc is_utc_or_none
running_call-IsOpen = record {
  call_ok = refl;
  attempt_ok = refl;
  is_running = refl;
  attempted = refl;
  first = refl;
  same_call = refl;
  clean = refl;
  unfinished = refl;
}

moment-is_utc : is_utc (moment 3) ≡ true
unfolding is_utc
moment-is_utc = refl

started : earlier (moment 3) running_call.started_at ≡ false
unfolding created_record
started = refl

finalize-ok_example :
    (validate_call (terminal_of running_call timed_out_ending (moment 3))
      ≡ ok (terminal_of running_call timed_out_ending (moment 3)))
    × (validate_attempt (finalized_of running_call open_attempt timed_out_ending (moment 3))
        ≡ ok (finalized_of running_call open_attempt timed_out_ending (moment 3)))
    × (validate_finalize (finalize_command running_call open_attempt timed_out_ending (moment 3))
        ≡ ok (finalize_command running_call open_attempt timed_out_ending (moment 3)))
finalize-ok_example =
    finalize-ok running_call open_attempt timed_out_ending (moment 3) running_call-IsOpen
      IsEnding.out_of_time moment-is_utc started refl

-- A summary whose last change lies before the order.
abbrev stale : GetOrderResult
stale = record {
  outcome = GetOrderOutcome.found;
  order_summary = some (record {
    order_number = codes "O-20260001";
    status = OrderStatus.shipped;
    line_items = [];
    ordered_at = moment 9;
    status_updated_at = moment 3;
  });
  source_version = none;
  failure_code = none;
}

canonical-IsValid_example : IsValid (canonical_or_unavailable (some stale))
canonical-IsValid_example = canonical-IsValid (some stale)

abbrev dispatch_writes : StartCommand
dispatch_writes = record {
  expected_created_record = created_record request 1 (moment 0);
  running_record = running_call;
  started_attempt = open_attempt;
}

create-ok :
    validate_create (created_record request 1 (moment 0)) ≡ ok (created_record request 1 (moment 0))
unfolding validate_create created_record
create-ok = refl

dispatch-ok : validate_start dispatch_writes ≡ ok dispatch_writes
unfolding validate_start created_record same_immutable option_beq list_beq
dispatch-ok = refl

chain-SameCall_example :
    ((created_record request 1 (moment 0)).status ≡ ToolCallStatus.created)
    × (running_call.status ≡ ToolCallStatus.running)
    × (is_some (terminal_outcomes (terminal_of running_call timed_out_ending (moment 3)).status)
        ≡ true)
    × ((finalized_of running_call open_attempt timed_out_ending (moment 3)).tool_call_id
        ≡ (terminal_of running_call timed_out_ending (moment 3)).tool_call_id)
    × SameCall
        (created_record request 1 (moment 0))
        (terminal_of running_call timed_out_ending (moment 3))
chain-SameCall_example =
    chain-SameCall dispatch_writes
      (finalize_command running_call open_attempt timed_out_ending (moment 3)) create-ok dispatch-ok
      (fits running_call open_attempt timed_out_ending (moment 3) running_call-IsOpen
        IsEnding.out_of_time)
      refl

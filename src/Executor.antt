-- ===== src/Executor.antt =====
-- src/mini_agent/application/read_tool_executor.py: the execution of one `get_order` call. The ports,
-- the clock and the source of UUIDs act on a world `W` of which the program sees only their replies.
pub mod Effects
pub mod Records
pub mod Protocol
pub mod Rules
pub mod Conforms
pub mod Fence
pub mod Finalize
pub mod Canonical
use mini_agent.Runs.{validate_event}
use mini_agent.Executor.Records.{
  Ending, Request, cancelled_ending, ReadToolExecution, timed_out_ending, unstarted, terminal_of,
  observation_of, execution_of, created_record, finalized_of, is_saved, canonical_or_unavailable,
  is_inserted, is_applied, is_found, ending_of, interrupted_event,
}
use mini_agent.Prelude.{
  Option, some, Bool, none, true, ok, if◌then◌else◌, ℕ, false, err, ◌&&◌, ◌==◌, ltb, not, same_set,
  ◌∷◌, is_none, [], nat_eq, list_eq,
}
use mini_agent.Prelude.Texts.{Text, Uuid, codes}
use mini_agent.Clock.{DateTime}
use mini_agent.Executor.Effects.{
  ◌>>=◌, ◌>>◌, out_of_time, answered, Exec, Reply, Failure, conflict, invalid, refused, pure, raise,
  Ports, ToolDispatchFenceWriteResult, ask, Lookup, check, await, on_cancel, trace_interrupted,
  dispatch, fence_applied, require, save_call, answered, insert_call, finalize_call, start_call,
  out_of_time,
}
use mini_agent.Json.{Fields, find_field, Json, scalar, str}
use mini_agent.Gateway.{keys}
use mini_agent.Observation.{OrderObservation, validate_observation, model_visible}
use mini_agent.Order.Lookup.{
  GetOrderQuery, GetOrderResult, GetOrderOutcome, validate_query, validate_result,
  is_source_version, OrderSummaryProjection,
}
use mini_agent.Tools.Commands.{
  StartCommand, FinalizeCommand, ObservationCommand, validate_create, validate_start,
  validate_finalize, validate_observation_command,
}
use mini_agent.Tools.Spec.{ToolEffect, ExecutionPolicy}
use mini_agent.Tools.Call.{
  ToolCallRecord, ToolCallStatus, ToolAttemptRecord, ToolResultOutcome, ToolTimeoutPhase,
  AuthorizedToolCommand, validate_call, validate_attempt,
}
use Prim.Native.Nat.{min}

module _ {W : Type 0} (p : Ports W) where
  -- `_finalize_running_attempt`
  unfoldable pub finalize_running_attempt :
      ToolCallRecord → ToolAttemptRecord → Ending → Exec W (ToolCallRecord × ToolAttemptRecord)
  finalize_running_attempt running attempt e = do
    finished_at ← ask p.clock
    terminal ← check (validate_call (terminal_of running e finished_at))
    finalized ← check (validate_attempt (finalized_of running attempt e finished_at))
    command ← check (
        validate_finalize (record {
          expected_running_record = running;
          expected_started_attempt = attempt;
          terminal_record = terminal;
          finalized_attempt = finalized;
        }))
    result ← await (p.finalize_tool_call_attempt_if_running command) (finalize_call terminal)
    require (is_applied result) conflict
    pure (terminal, finalized)

  -- `_append_interrupted_trace`, given the new id and the finish of the record.
  unfoldable pub append_interrupted_trace :
      ToolCallRecord → Uuid → Option DateTime → Exec W (Unit {0})
  append_interrupted_trace terminal id none = raise invalid
  append_interrupted_trace terminal id (some end) = do
    event ← check (validate_event (interrupted_event id end terminal))
    await (p.append_trace_event event) (trace_interrupted event)

  -- `except asyncio.CancelledError`: what goes wrong here is noted on the cancellation, no more.
  unfoldable pub handle_cancellation : ToolCallRecord → ToolAttemptRecord → Exec W (Unit {0})
  handle_cancellation running attempt = do
    (terminal, finalized) ← finalize_running_attempt running attempt cancelled_ending
    id ← ask p.uuid_factory
    append_interrupted_trace terminal id terminal.finished_at

  -- The observation of an order that was found, saved against its call.
  unfoldable pub observe :
      Request → GetOrderResult → ToolCallRecord → DateTime → Exec W (Option OrderObservation)
  observe q result terminal finished_at = elim result.order_summary [
    | none ↦ raise refused
    | some summary ↦ do
      id ← ask p.uuid_factory
      observation ←
          check (validate_observation (observation_of summary result.source_version finished_at id))
      command ← check (
          validate_observation_command (record {
            customer_id = q.customer_id;
            observation_record = observation;
            source_tool_call_record = terminal;
          }))
      saved ← await (p.save_observation command) (save_call observation)
      require (is_saved saved) conflict
      pure (some observation)
  ]

  -- `self._uuid_factory()` for the result of an order that was found.
  unfoldable pub fresh_ref : GetOrderOutcome → Exec W (Option Uuid)
  fresh_ref GetOrderOutcome.found = do id ← ask p.uuid_factory; pure (some id)
  fresh_ref outcome = pure none

  unfoldable pub observe_if_found :
      Request → GetOrderResult → ToolCallRecord → GetOrderOutcome → Exec W (Option OrderObservation)
  unfolding observe
  observe_if_found q result terminal GetOrderOutcome.found = elim terminal.finished_at [
    | none ↦ raise refused
    | some end ↦ observe q result terminal end
  ]
  observe_if_found q result terminal outcome = pure none

  -- What follows the reply of the order service.
  unfoldable pub settle :
      Request
      → ToolCallRecord
      → ToolCallRecord
      → ToolAttemptRecord
      → ℕ
      → Lookup
      → Exec W ReadToolExecution
  settle q created running attempt timeout out_of_time = do
    (terminal, finalized) ← finalize_running_attempt running attempt timed_out_ending
    pure (
        execution_of created (some (terminal, finalized)) (some GetOrderOutcome.system_failure) none
          timeout)
  settle q created running attempt timeout (answered candidate) = do
    let result = canonical_or_unavailable candidate
    require (not (is_found result.outcome && is_none result.order_summary)) refused
    ref ← fresh_ref result.outcome
    (terminal, finalized) ← finalize_running_attempt running attempt (ending_of result.outcome ref)
    observation ← observe_if_found q result terminal result.outcome
    pure (
        execution_of created (some (terminal, finalized)) (some result.outcome) observation timeout)

  -- The `try` block that follows an applied fence.
  unfoldable pub dispatched :
      Request
      → Text
      → ToolCallRecord
      → ToolCallRecord
      → ToolAttemptRecord
      → ℕ
      → Exec W ReadToolExecution
  dispatched q order_id created running attempt timeout =
      on_cancel
        (do
          query ←
              check (validate_query (record { customer_id = q.customer_id; order_id = order_id }))
          reply ← await (p.get_order timeout query) (dispatch timeout query)
          settle q created running attempt timeout reply)
        (handle_cancellation running attempt)

  -- `if fence_result is not APPLIED: return ...`
  unfoldable pub after_fence :
      ToolDispatchFenceWriteResult
      → Request
      → Text
      → ToolCallRecord
      → ToolCallRecord
      → ToolAttemptRecord
      → ℕ
      → Exec W ReadToolExecution
  after_fence fence_applied q order_id created running attempt timeout =
      dispatched q order_id created running attempt timeout
  after_fence fence q order_id created running attempt timeout =
      pure (unstarted created fence timeout)

  -- Insert the call, put up the fence and, if it stands, dispatch.
  unfoldable pub run_call : Request → Text → ℕ → Exec W ReadToolExecution
  run_call q order_id timeout = do
    started_at ← ask p.clock
    id ← ask p.uuid_factory
    created ← check (validate_call (created_record q id started_at))
    new ← check (validate_create created)
    insert_result ← await (p.insert_tool_call new) (insert_call new)
    require (is_inserted insert_result) conflict
    attempt_started ← ask p.clock
    attempt ← check (
        validate_attempt (record {
          tool_call_id = new.tool_call_id;
          attempt_no = 1;
          started_at = attempt_started;
          finished_at = none;
          outcome = none;
          failure_code = none;
        }))
    running ←
        check (validate_call (record new { status = ToolCallStatus.running; attempt_count = 1 }))
    command ← check (
        validate_start (record {
          expected_created_record = new;
          running_record = running;
          started_attempt = attempt;
        }))
    fence ← await (p.start_tool_call_if_created command) (start_call running)
    after_fence fence q order_id new running attempt timeout

  -- `if type(order_id) is not str: raise ValueError`, and the effective timeout.
  unfoldable pub run_with : Request → Option Json → Exec W ReadToolExecution
  run_with q (some (scalar (str order_id))) =
      run_call q order_id (min q.execution_policy.timeout_ms q.remaining_run_time_budget_ms)
  run_with q order_id = raise refused

  -- `execute_get_order`: the guards, in their order, then the call. The types of the arguments hold
  -- by the record `Request`.
  unfoldable pub execute_get_order : Request → Exec W ReadToolExecution
  execute_get_order q = do
    require
        (q.execution_policy.max_attempts == 1
          && q.execution_policy.interrupt_behavior == codes "MARK_INTERRUPTED")
        refused
    require (ltb 0 q.remaining_run_time_budget_ms) refused
    require
        (q.authorized_command.canonical_tool_name == codes "get_order"
          && q.authorized_command.registry_snapshot_ref == q.tool_registry_version
          && same_set (keys q.authorized_command.validated_arguments) (codes "order_id" ∷ []))
        refused
    run_with q (find_field (codes "order_id") q.authorized_command.validated_arguments)

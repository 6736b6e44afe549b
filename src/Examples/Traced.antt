-- ===== src/Examples/Traced.antt =====
-- The trace of a first decision, and of a tool call that a restart interrupted.
use mini_agent.Json.{all_finite, find_trusted_argument_field, is_trusted}
use mini_agent.Prelude.Texts.{is_tool_name, is_reason_code, casefold}
use mini_agent.Lifecycle.Traces.{TracesCall, append_tool_trace-TracesCall}
use mini_agent.Lifecycle.Decided.{RecordsDecision, append_initial_decision_trace-RecordsDecision}
use mini_agent.Runs.{TraceEvent, validate_event}
use mini_agent.Lifecycle.Finishes.{InUtc}
use mini_agent.Recovery.Plan.{interrupted_of}
use mini_agent.Tools.Call.{ToolAttemptRecord, validate_call, validate_attempt}
use mini_agent.Lifecycle.Trace.{append_initial_decision_trace, append_tool_trace}
use mini_agent.Understanding.Contracts.{validate_next_move}
use mini_agent.Clock.{is_utc, DateTime, is_utc_or_none}
use mini_agent.Prelude.{
  none, some, refl, ok, true, ◌≡◌, ◌+◌, nat_eq, list_eq, option_eq, ℕ, is_ok, List, contains,
  list_beq, all,
}
use mini_agent.Examples.Data.{moment}
use mini_agent.Examples.Handover.{closure}
use mini_agent.Examples.Restart.{running_call}
use mini_agent.Examples.Requests.{graph, output}

abbrev clock : ℕ → DateTime
clock n = moment (5 + n)

in_utc : InUtc clock
unfolding is_utc
in_utc n = refl

valid_move : is_ok (validate_next_move output.next_move_candidate) ≡ true
unfolding validate_next_move all_finite find_trusted_argument_field is_trusted contains list_beq
    casefold
valid_move = refl

append_initial_decision_trace-RecordsDecision_example :
    (es : List TraceEvent) × (append_initial_decision_trace clock
        (λ n. 100 + n)
        1
        8
        7
        closure
        graph
        output.next_move_candidate
      ≡ ok es)
    × (all (λ e. is_ok (validate_event e)) es ≡ true)
    × RecordsDecision clock (λ n. 100 + n) 1 8 7 in_utc closure graph output.next_move_candidate es
append_initial_decision_trace-RecordsDecision_example =
    append_initial_decision_trace-RecordsDecision clock (λ n. 100 + n) 1 8 7 in_utc closure graph
      output.next_move_candidate valid_move

abbrev attempt : ToolAttemptRecord
attempt = record {
  tool_call_id = 60;
  attempt_no = 1;
  started_at = moment 1;
  finished_at = none;
  outcome = none;
  failure_code = none;
}

call_valid : is_ok (validate_call running_call) ≡ true
unfolding validate_call is_tool_name is_utc is_utc_or_none
call_valid = refl

ended_valid : is_ok (validate_call (interrupted_of (moment 5) running_call)) ≡ true
unfolding validate_call interrupted_of is_tool_name is_utc is_utc_or_none is_reason_code
ended_valid = refl

attempt_valid : is_ok (validate_attempt attempt) ≡ true
unfolding validate_attempt is_utc is_utc_or_none
attempt_valid = refl

append_tool_trace-TracesCall_example :
    (es : List TraceEvent) × (append_tool_trace
        (moment 9)
        (λ n. 100 + n)
        running_call
        (some (interrupted_of (moment 5) running_call))
        (some attempt)
      ≡ ok es)
    × TracesCall running_call (interrupted_of (moment 5) running_call) es
unfolding interrupted_of
append_tool_trace-TracesCall_example =
    append_tool_trace-TracesCall (moment 9) (λ n. 100 + n) running_call
      (interrupted_of (moment 5) running_call) attempt call_valid ended_valid refl attempt_valid
      (in_utc 4)

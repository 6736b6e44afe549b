-- ===== src/Lifecycle/Traces.antt =====
-- The events of a tool call that src/mini_agent/application/agent_run_service.py appends are those of its life.
use mini_agent.Lifecycle.Trace.{
  created_event, call_event, normalized_event, at_or, terminal_event_type, append_tool_trace,
  ended_call_trace,
}
use mini_agent.Prelude.Texts.{Uuid}
use mini_agent.Clock.{DateTime, is_utc, is_utc_or_none}
use mini_agent.Prelude.{
  none, some, nat_eq, list_eq, option_eq, [], ◌∷◌, Option, ℕ, List, option_beq, is_ok, ◌≡◌, true,
  ok, arith, beq_refl, all, refl, map,
}
use mini_agent.Tools.Call.{
  status_eq, created, running, succeeded, failed, timed_out, interrupted, ToolCallStatus,
  ToolCallRecord, validate_call, call_fields_valid, ToolResultOutcome, ToolAttemptRecord,
  is_terminal, validate_attempt,
}
use mini_agent.Runs.{
  tool_call_created, tool_call_started, tool_call_succeeded, tool_call_failed, tool_call_timed_out,
  tool_call_interrupted, tool_result_normalized, TraceEventType, validate_event, event_fields_valid,
  TraceEvent, tool_trace_status,
}

-- The types of the four events.
abbrev pub call_types : TraceEventType → List TraceEventType
call_types type = tool_call_created ∷ tool_call_started ∷ type ∷ tool_result_normalized ∷ []

created_event-ok :
    (c : ToolCallRecord) (id : Uuid)
    → is_ok (validate_call c) ≡ true
    → validate_event (created_event c id) ≡ ok (created_event c id)
unfolding validate_call call_fields_valid validate_event event_fields_valid option_beq
created_event-ok c id h = ground arith

call_event-ok :
    (c : ToolCallRecord) (type : TraceEventType) (s : ToolCallStatus) (at : DateTime) (id : Uuid)
    → tool_trace_status type ≡ some s
    → is_utc at ≡ true
    → validate_event (call_event c type s at id) ≡ ok (call_event c type s at id)
unfolding validate_event event_fields_valid
call_event-ok c type s at id fits utc = ground (arith, beq_refl (some s))

normalized_event-ok :
    (c : ToolCallRecord) (o : Option ToolResultOutcome) (at : DateTime) (id : Uuid)
    → is_utc at ≡ true
    → validate_event (normalized_event c o at id) ≡ ok (normalized_event c o at id)
unfolding validate_event event_fields_valid
normalized_event-ok c o at id utc = ground arith

utc-at_or :
    (now : DateTime) (o : Option DateTime)
    → is_utc now ≡ true
    → is_utc_or_none o ≡ true
    → is_utc (at_or now o) ≡ true
unfolding is_utc_or_none
utc-at_or now none utc h = utc
utc-at_or now (some t) utc h = h

type-status :
    (s : ToolCallStatus)
    → is_terminal s ≡ true
    → (type : TraceEventType) × (terminal_event_type s ≡ some type)
      × (tool_trace_status type ≡ some s)
type-status created h = absurd (ground arith)
type-status running h = absurd (ground arith)
type-status succeeded h = (tool_call_succeeded, refl, refl)
type-status failed h = (tool_call_failed, refl, refl)
type-status timed_out h = (tool_call_timed_out, refl, refl)
type-status interrupted h = (tool_call_interrupted, refl, refl)

call_times :
    (c : ToolCallRecord) → is_ok (validate_call c) ≡ true → is_utc_or_none c.finished_at ≡ true
unfolding validate_call call_fields_valid
call_times c h = ground arith

attempt_times :
    (a : ToolAttemptRecord) → is_ok (validate_attempt a) ≡ true → is_utc a.started_at ≡ true
unfolding validate_attempt
attempt_times a h = ground arith

-- The events of a tool call are four, valid and of its run: created, started, the event of the terminal
-- status, and the normalized result.
abbrev pub TracesCall : ToolCallRecord → ToolCallRecord → List TraceEvent → Type 0
TracesCall c terminal es =
    (all (λ e. is_ok (validate_event e)) es ≡ true)
    × (map (λ e. e.run_id) es ≡ c.run_id ∷ c.run_id ∷ c.run_id ∷ c.run_id ∷ [])
    × (type : TraceEventType) × (tool_trace_status type ≡ some terminal.status)
    × (map (λ e. e.event_type) es ≡ call_types type)

-- If the first record of a call, its terminal record and its attempt are valid, the terminal record is in a
-- terminal status and the clock is in UTC, the whole trace of the call is appended.
pub append_tool_trace-TracesCall :
    (clock : DateTime) (f : ℕ → Uuid) (c terminal : ToolCallRecord) (attempt : ToolAttemptRecord)
    → is_ok (validate_call c) ≡ true
    → is_ok (validate_call terminal) ≡ true
    → is_terminal terminal.status ≡ true
    → is_ok (validate_attempt attempt) ≡ true
    → is_utc clock ≡ true
    → (es : List TraceEvent) × (append_tool_trace clock f c (some terminal) (some attempt) ≡ ok es)
      × TracesCall c terminal es
unfolding append_tool_trace ended_call_trace
append_tool_trace-TracesCall clock f c terminal attempt valid ended_valid ends attempted utc =
    let (type, made, fits) = type-status terminal.status ends in
    let finish = at_or clock terminal.finished_at in
    let at = utc-at_or clock terminal.finished_at utc (call_times terminal ended_valid) in
    let first = created_event-ok c (f 0) valid in
    let second =
      call_event-ok c tool_call_started running attempt.started_at (f 1) refl
        (attempt_times attempt attempted) in
    let third = call_event-ok c type terminal.status finish (f 2) fits at in
    let fourth = normalized_event-ok c attempt.outcome finish (f 3) at in
    (
      created_event c (f 0)
          ∷ call_event c tool_call_started running attempt.started_at (f 1)
          ∷ call_event c type terminal.status finish (f 2)
          ∷ normalized_event c attempt.outcome finish (f 3)
          ∷ [],
      rw (first, second, made, third, fourth) refl,
      (rw (first, second, third, fourth) refl, refl, type, fits, refl),
    )

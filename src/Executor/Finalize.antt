-- ===== src/Executor/Finalize.antt =====
-- src/mini_agent/application/read_tool_executor.py, `_finalize_running_attempt`: the records that it
-- builds against the validators of core/tool_system.py and application/records.py.
use mini_agent.Prelude.Texts.{Uuid, is_reason_code}
use mini_agent.Clock.{DateTime, is_utc_or_none, time_beq_iff, is_utc, earlier}
use mini_agent.Order.Lookup.{GetOrderOutcome}
use mini_agent.Tools.Commands.{
  same_immutable, FinalizeCommand, is_clean, is_unfinished, validate_finalize,
}
use mini_agent.Tools.Call.{
  ToolCallRecord, call_fields_valid, ToolAttemptRecord, validate_call, validate_attempt, running,
  lifecycle, attempt_lifecycle,
}
use mini_agent.Executor.Records.{
  Ending, terminal_of, ending_of, timed_out_ending, cancelled_ending, finalized_of,
}
use mini_agent.Clock.{time_eq}
use mini_agent.Prelude.{
  refl, Option, ◌≡◌, ok, true, arith, beq_refl, nat_eq, list_eq, option_eq, false, Bool-cases, inl,
  inr, option_beq, list_beq,
}

-- The endings that the executor uses.
pub data IsEnding : Ending → Type 0 where
  answer : (o : GetOrderOutcome) (ref : Option Uuid) → IsEnding (ending_of o ref)
  out_of_time : IsEnding timed_out_ending
  cancellation : IsEnding cancelled_ending

-- A running call and its open attempt.
pub record IsOpen (r : ToolCallRecord) (a : ToolAttemptRecord) : Type 0 where
  pub call_ok : validate_call r ≡ ok r
  pub attempt_ok : validate_attempt a ≡ ok a
  pub is_running : r.status ≡ running
  pub attempted : r.attempt_count ≡ 1
  pub first : a.attempt_no ≡ 1
  pub same_call : a.tool_call_id ≡ r.tool_call_id
  pub clean : is_clean r ≡ true
  pub unfinished : is_unfinished a ≡ true

abbrev pub finalize_command :
    ToolCallRecord → ToolAttemptRecord → Ending → DateTime → FinalizeCommand
finalize_command r a e end = record {
  expected_running_record = r;
  expected_started_attempt = a;
  terminal_record = terminal_of r e end;
  finalized_attempt = finalized_of r a e end;
}

same_immutable-terminal_of :
    (r : ToolCallRecord) (e : Ending) (end : DateTime)
    → same_immutable r (terminal_of r e end) ≡ true
unfolding same_immutable terminal_of
same_immutable-terminal_of r e end = ground (
  arith,
  time_beq_iff r.started_at r.started_at,
  beq_refl r.canonical_tool_name,
  beq_refl r.tool_registry_version,
  beq_refl r.provider_tool_call_id,
  beq_refl r.argument_binding_refs,
)

call_fields-terminal_of :
    (r : ToolCallRecord) (e : Ending) (end : DateTime)
    → call_fields_valid r ≡ true
    → is_utc end ≡ true
    → IsEnding e
    → call_fields_valid (terminal_of r e end) ≡ true
unfolding call_fields_valid terminal_of ending_of timed_out_ending cancelled_ending is_utc_or_none
    is_reason_code
call_fields-terminal_of r e end h u (answer o ref) = ground arith
call_fields-terminal_of r e end h u out_of_time = ground arith
call_fields-terminal_of r e end h u cancellation = ground arith

call_fields-of_ok : (r : ToolCallRecord) → validate_call r ≡ ok r → call_fields_valid r ≡ true
unfolding validate_call
call_fields-of_ok r h = elim (Bool-cases (call_fields_valid r)) [
  | inl e ↦ e
  | inr e ↦ absurd (ground arith)
]

ok-of_lifecycle :
    (r : ToolCallRecord) → call_fields_valid r ≡ true → lifecycle r ≡ ok r → validate_call r ≡ ok r
unfolding validate_call
ok-of_lifecycle r f l = rw (f, l) refl

lifecycle-terminal_of :
    (r : ToolCallRecord) (e : Ending) (end : DateTime)
    → IsEnding e
    → r.attempt_count ≡ 1
    → earlier end r.started_at ≡ false
    → lifecycle (terminal_of r e end) ≡ ok (terminal_of r e end)
unfolding lifecycle terminal_of ending_of timed_out_ending cancelled_ending
lifecycle-terminal_of r e end (answer o ref) c l = ground arith
lifecycle-terminal_of r e end out_of_time c l = ground arith
lifecycle-terminal_of r e end cancellation c l = ground arith

terminal-ok :
    (r : ToolCallRecord) (a : ToolAttemptRecord) (e : Ending) (end : DateTime)
    → IsOpen r a
    → IsEnding e
    → is_utc end ≡ true
    → earlier end r.started_at ≡ false
    → validate_call (terminal_of r e end) ≡ ok (terminal_of r e end)
terminal-ok r a e end h i u l =
    ok-of_lifecycle (terminal_of r e end)
      (call_fields-terminal_of r e end (call_fields-of_ok r h.call_ok) u i)
      (lifecycle-terminal_of r e end i h.attempted l)

finalized-ok :
    (r : ToolCallRecord) (a : ToolAttemptRecord) (e : Ending) (end : DateTime)
    → IsOpen r a
    → IsEnding e
    → is_utc end ≡ true
    → earlier end a.started_at ≡ false
    → validate_attempt (finalized_of r a e end) ≡ ok (finalized_of r a e end)
unfolding validate_attempt attempt_lifecycle finalized_of ending_of timed_out_ending
    cancelled_ending is_utc_or_none
finalized-ok r a e end h (answer o ref) u l = ground (arith, h.attempt_ok)
finalized-ok r a e end h out_of_time u l = ground (arith, h.attempt_ok)
finalized-ok r a e end h cancellation u l = ground (arith, h.attempt_ok)

pub fits :
    (r : ToolCallRecord) (a : ToolAttemptRecord) (e : Ending) (end : DateTime)
    → IsOpen r a
    → IsEnding e
    → validate_finalize (finalize_command r a e end) ≡ ok (finalize_command r a e end)
unfolding validate_finalize finalized_of terminal_of ending_of timed_out_ending cancelled_ending
    option_beq list_beq
fits r a e end h i =
    let started = beq_refl a.started_at in
    let ended = beq_refl end in
    elim i
        as (λ e i.
          same_immutable r (terminal_of r e end) ≡ true
          → validate_finalize (finalize_command r a e end) ≡ ok (finalize_command r a e end)) [
            | answer o ref ↦ λ same. ground (arith, h, started, ended)
            | out_of_time ↦ λ same. ground (arith, h, started, ended)
            | cancellation ↦ λ same. ground (arith, h, started, ended)
          ]
      (same_immutable-terminal_of r e end)

-- For a running call and its open attempt, which pass their validators, and a finish in UTC that is
-- not before the start of either, every ending that the executor uses gives a terminal record, a
-- finalized attempt and a finalize command that pass their validators too.
pub finalize-ok :
    (r : ToolCallRecord) (a : ToolAttemptRecord) (e : Ending) (end : DateTime)
    → IsOpen r a
    → IsEnding e
    → is_utc end ≡ true
    → earlier end r.started_at ≡ false
    → earlier end a.started_at ≡ false
    → (validate_call (terminal_of r e end) ≡ ok (terminal_of r e end))
      × (validate_attempt (finalized_of r a e end) ≡ ok (finalized_of r a e end))
      × (validate_finalize (finalize_command r a e end) ≡ ok (finalize_command r a e end))
finalize-ok r a e end h i u l m =
    (terminal-ok r a e end h i u l, finalized-ok r a e end h i u m, fits r a e end h i)

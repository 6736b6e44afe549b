-- ===== src/Executor/Protocol.antt =====
-- The protocol of one execution: which port may be called when, as a state machine over the log.
use mini_agent.Runs.{TraceEvent, tool_call_interrupted}
use mini_agent.Prelude.Texts.{codes}
use mini_agent.Prelude.{Bool, ◌≡◌, List, ◌==◌, ℕ, [], ◌||◌, ◌++◌, some, ◌∷◌, ◌≤◌, true}
use mini_agent.Executor.Effects.{
  Event, insert_call, start_call, dispatch, finalize_call, save_call, trace_interrupted, Reply,
  returned, failed_call, cancelled_call, InsertOnlyWriteResult, inserted,
  ToolDispatchFenceWriteResult, fence_applied, ConditionalWriteResult, write_applied,
  ObservationWriteResult, Lookup,
}
use mini_agent.Executor.Records.{Request}
use mini_agent.Json.{find_field, scalar, str}
use mini_agent.Order.Lookup.{GetOrderQuery}
use mini_agent.Observation.{OrderObservation}
use mini_agent.Tools.Call.{
  ToolCallRecord, ToolCallStatus, created, running, succeeded, failed, timed_out, interrupted,
  status_eq,
}
use mini_agent.Tools.Spec.{read}

pub data Phase : Type 0 where
  idle recorded fenced asked closed cancelling stopped over : Phase

abbrev pub after_insert : Reply InsertOnlyWriteResult → Phase
after_insert (returned inserted) = recorded
after_insert r = over

abbrev pub after_start : Reply ToolDispatchFenceWriteResult → Phase
after_start (returned fence_applied) = fenced
after_start r = over

abbrev pub after_dispatch : Reply Lookup → Phase
after_dispatch (returned r) = asked
after_dispatch cancelled_call = cancelling
after_dispatch failed_call = over

abbrev pub after_finalize : Reply ConditionalWriteResult → Phase
after_finalize (returned write_applied) = closed
after_finalize cancelled_call = cancelling
after_finalize r = over

abbrev pub after_save : Reply ObservationWriteResult → Phase
after_save cancelled_call = cancelling
after_save r = over

abbrev pub after_interrupt : Reply ConditionalWriteResult → Phase
after_interrupt (returned write_applied) = stopped
after_interrupt r = over

-- The statuses in which the executor ends a call that was not cancelled.
abbrev pub is_answer : ToolCallStatus → Bool
is_answer s = s == succeeded || s == failed || s == timed_out

pub data Step (q : Request) : Phase → Event → Phase → Type 0 where
  insert :
      {b : Phase} (r : ToolCallRecord) (reply : Reply InsertOnlyWriteResult)
      → r.status ≡ created
      → r.effect ≡ read
      → after_insert reply ≡ b
      → Step q idle (insert_call r reply) b
  start :
      {b : Phase} (r : ToolCallRecord) (reply : Reply ToolDispatchFenceWriteResult)
      → r.status ≡ running
      → after_start reply ≡ b
      → Step q recorded (start_call r reply) b
  ask :
      {b : Phase} (t : ℕ) (query : GetOrderQuery) (reply : Reply Lookup)
      → query.customer_id ≡ q.customer_id
      → find_field (codes "order_id") q.authorized_command.validated_arguments
        ≡ some (scalar (str query.order_id))
      → t ≤ q.execution_policy.timeout_ms
      → t ≤ q.remaining_run_time_budget_ms
      → after_dispatch reply ≡ b
      → Step q fenced (dispatch t query reply) b
  close :
      {b : Phase} (r : ToolCallRecord) (reply : Reply ConditionalWriteResult)
      → is_answer r.status ≡ true
      → after_finalize reply ≡ b
      → Step q asked (finalize_call r reply) b
  save :
      {b : Phase} (o : OrderObservation) (reply : Reply ObservationWriteResult)
      → after_save reply ≡ b
      → Step q closed (save_call o reply) b
  interrupt :
      {b : Phase} (r : ToolCallRecord) (reply : Reply ConditionalWriteResult)
      → r.status ≡ interrupted
      → after_interrupt reply ≡ b
      → Step q cancelling (finalize_call r reply) b
  trace :
      (e : TraceEvent) (reply : Reply (Unit {0}))
      → e.event_type ≡ tool_call_interrupted
      → Step q stopped (trace_interrupted e reply) over

-- `Runs q l a`: the calls of `l`, from the oldest on, lead from `idle` to `a`.
pub data Runs (q : Request) : List Event → Phase → Type 0 where
  here : Runs q [] idle
  next :
      {l : List Event} {a b : Phase} (e : Event)
      → Runs q l a
      → Step q a e b
      → Runs q (l ++ e ∷ []) b

abbrev pub Legal : Request → List Event → Type 0
Legal q l = (a : Phase) × Runs q l a

-- ===== src/Executor/Effects.antt =====
-- Asynchronous methods that call ports: they return, raise or are cancelled, and a log keeps the
-- calls that were made, with their replies.
use mini_agent.Runs.{TraceEvent}
use mini_agent.Prelude.Texts.{Uuid}
use mini_agent.Prelude.{Option, ℕ, List, Result, ◌++◌, Bool, ok, ◌∷◌, true, err, [], false}
use mini_agent.Clock.{DateTime}
use mini_agent.Order.Lookup.{GetOrderQuery, GetOrderResult}
use mini_agent.Observation.{OrderObservation}
use mini_agent.Tools.Commands.{StartCommand, FinalizeCommand, ObservationCommand}
use mini_agent.Tools.Call.{ToolCallRecord}

-- What an awaited call does.
pub data Reply {ℓ} (A : Type ℓ) : Type ℓ where
  returned : A → Reply A
  failed_call : Reply A
  cancelled_call : Reply A

pub data InsertOnlyWriteResult : Type 0 where
  inserted already_exists : InsertOnlyWriteResult

pub data ToolDispatchFenceWriteResult : Type 0 where
  fence_applied status_conflict fence_not_applicable action_ledger_required :
      ToolDispatchFenceWriteResult

pub data ConditionalWriteResult : Type 0 where
  write_applied projection_conflict write_not_applicable : ConditionalWriteResult

pub data ObservationWriteResult : Type 0 where
  observation_inserted already_applied source_projection_conflict : ObservationWriteResult

-- The order service within the timeout: what it gives, `none` if that is no exact `GetOrderResult`.
pub data Lookup : Type 0 where
  answered : Option GetOrderResult → Lookup
  out_of_time : Lookup

-- A call that was awaited, with its reply.
pub data Event : Type 0 where
  insert_call : ToolCallRecord → Reply InsertOnlyWriteResult → Event
  start_call : ToolCallRecord → Reply ToolDispatchFenceWriteResult → Event
  dispatch : ℕ → GetOrderQuery → Reply Lookup → Event
  finalize_call : ToolCallRecord → Reply ConditionalWriteResult → Event
  save_call : OrderObservation → Reply ObservationWriteResult → Event
  trace_interrupted : TraceEvent → Reply (Unit {0}) → Event

-- The ports, the clock and the source of UUIDs, as functions of the world they change.
pub record Ports (W : Type 0) : Type 0 where
  pub clock : W → DateTime × W
  pub uuid_factory : W → Uuid × W
  pub insert_tool_call : ToolCallRecord → W → Reply InsertOnlyWriteResult × W
  pub start_tool_call_if_created : StartCommand → W → Reply ToolDispatchFenceWriteResult × W
  pub get_order : ℕ → GetOrderQuery → W → Reply Lookup × W
  pub finalize_tool_call_attempt_if_running : FinalizeCommand → W → Reply ConditionalWriteResult × W
  pub save_observation : ObservationCommand → W → Reply ObservationWriteResult × W
  pub append_trace_event : TraceEvent → W → Reply (Unit {0}) × W

pub data Failure : Type 0 where
  refused conflict invalid port_failure : Failure

pub data Outcome {ℓ} (A : Type ℓ) : Type ℓ where
  done : A → Outcome A
  raised : Failure → Outcome A
  cancelled : Outcome A

pub record State (W : Type 0) : Type 0 where
  pub world : W
  pub log : List Event

abbrev pub Exec : Type 0 → Type 0 → Type 0
Exec W A = State W → Outcome A × State W

abbrev pub outcome_of : {A : Type 0} → Reply A → Outcome A
outcome_of (returned a) = done a
outcome_of failed_call = raised port_failure
outcome_of cancelled_call = cancelled

module _ {W : Type 0} where
  unfoldable pub pure : {A : Type 0} → A → Exec W A
  pure a s = (done a, s)

  unfoldable pub raise : {A : Type 0} → Failure → Exec W A
  raise f s = (raised f, s)

  unfoldable pub check : {E A : Type 0} → Result E A → Exec W A
  check (ok a) s = (done a, s)
  check (err e) s = (raised invalid, s)

  -- A call of the clock or of the source of UUIDs, which is not awaited.
  unfoldable pub ask : {A : Type 0} → (W → A × W) → Exec W A
  ask f s = (done (f s.world).0, record s { world = (f s.world).1 })

  unfoldable pub await : {A : Type 0} → (W → Reply A × W) → (Reply A → Event) → Exec W A
  await f event s = (
    outcome_of (f s.world).0,
    record { world = (f s.world).1; log = s.log ++ event (f s.world).0 ∷ [] },
  )

  infixl 5 ◌>>=◌ ◌>>◌
  abbrev pub continue : {A B : Type 0} → Outcome A → (A → Exec W B) → Exec W B
  continue (done a) f s = f a s
  continue (raised e) f s = (raised e, s)
  continue cancelled f s = (cancelled, s)

  unfoldable pub ◌>>=◌ : {A B : Type 0} → Exec W A → (A → Exec W B) → Exec W B
  ◌>>=◌ m f s = continue (m s).0 f (m s).1

  abbrev pub ◌>>◌ : {A B : Type 0} → Exec W A → Exec W B → Exec W B
  m >> n = m >>= λ _. n

  -- `if broken: raise ...`
  unfoldable pub require : Bool → Failure → Exec W (Unit {0})
  require true f s = (done tt, s)
  require false f s = (raised f, s)

  -- `try: body except CancelledError: handler; raise`
  abbrev pub resume : {A : Type 0} → Outcome A → Exec W (Unit {0}) → State W → Outcome A × State W
  resume (done a) handler s = (done a, s)
  resume (raised e) handler s = (raised e, s)
  resume cancelled handler s = (cancelled, (handler s).1)

  unfoldable pub on_cancel : {A : Type 0} → Exec W A → Exec W (Unit {0}) → Exec W A
  on_cancel body handler s = resume (body s).0 handler (body s).1

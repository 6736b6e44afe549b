-- ===== src/Executor/Conforms.antt =====
-- src/mini_agent/application/read_tool_executor.py, `execute_get_order`: the calls of the ports
-- follow the protocol, whatever the ports reply.
use mini_agent.Runs.{validate_event, matches_tool, TraceEvent}
use mini_agent.Json.{find_field, scalar, str, Json}
use mini_agent.Clock.{DateTime}
use mini_agent.Executor.Rules.{
  Pred, Ensures, then_ask, then_check, then_await, then_require, Ensures-pure, Ensures-bind,
  Ensures-Legal, Ensures-await, Ensures-raise, by_option, Ensures-on_cancel, Ensures-at, Legal-post,
}
use mini_agent.Prelude.Texts.{Uuid, Text, codes}
use mini_agent.Executor.{
  finalize_running_attempt, handle_cancellation, observe, fresh_ref, observe_if_found, settle,
  dispatched, run_call, execute_get_order, after_fence, run_with, append_interrupted_trace,
}
use mini_agent.Executor.Records.{
  ending_of, Request, terminal_of, Ending, is_applied, cancelled_ending, timed_out_ending, is_saved,
  is_inserted, created_record, interrupted_event,
}
use mini_agent.Tools.Commands.{validate_create}
use mini_agent.Order.Lookup.{validate_query, GetOrderQuery, GetOrderOutcome, GetOrderResult}
use mini_agent.Tools.Call.{
  validate_call, ToolCallRecord, lifecycle, created, ToolAttemptRecord, status_beq_iff,
}
use mini_agent.Executor.Effects.{
  fence_applied, returned, cancelled_call, conflict, Ports, Reply, ConditionalWriteResult,
  finalize_call, returned, Event, trace_interrupted, refused, Lookup, answered, save_call,
  out_of_time, dispatch, InsertOnlyWriteResult, insert_call, ToolDispatchFenceWriteResult,
  status_conflict, start_call, fence_not_applicable, action_ledger_required, invalid,
}
use mini_agent.Executor.Protocol.{
  after_dispatch, insert, start, ask, close, save, interrupt, trace, fenced, Phase, is_answer, Runs,
  Step, after_finalize, after_interrupt, asked, closed, stopped, cancelling, Legal, over,
  after_save, after_insert, idle, recorded, after_start, here,
}
use mini_agent.Prelude.{refl, ℕ, ◌≤◌, ◌≡◌, arith, ok, Option, true, List, ap, ◌∙◌, none, some, []}
use cubical.Cubical.Foundations.Prelude.{subst, sym}
use Prim.Native.Nat.{min}

validate_call-ok : (r t : ToolCallRecord) → validate_call r ≡ ok t → t ≡ r
unfolding validate_call lifecycle
validate_call-ok r t e = ground arith

validate_event-ok : (e f : TraceEvent) → validate_event e ≡ ok f → f ≡ e
unfolding validate_event matches_tool
validate_event-ok e f h = ground arith

validate_query-ok : (r t : GetOrderQuery) → validate_query r ≡ ok t → t ≡ r
unfolding validate_query
validate_query-ok r t e = ground arith

validate_create-ok : (r t : ToolCallRecord) → validate_create r ≡ ok t → (t ≡ r)
unfolding validate_create
validate_create-ok r t e = ground arith

min-left : (m n : ℕ) → min m n ≤ m
min-left m n = omega arith

min-right : (m n : ℕ) → min m n ≤ n
min-right m n = omega arith

validate_create-created : (r t : ToolCallRecord) → validate_create r ≡ ok t → t.status ≡ created
unfolding validate_create
validate_create-created r t e = ground (arith, status_beq_iff t.status created)

is_answer-ending_of :
    (o : GetOrderOutcome) (ref : Option Uuid) → is_answer (ending_of o ref).terminal_status ≡ true
unfolding ending_of
is_answer-ending_of o ref = ground arith

module _ {W : Type 0} (p : Ports W) (q : Request) where
  abbrev At : Phase → Pred
  At a l = Runs q l a

  finalize-Finishes :
      (running : ToolCallRecord) (attempt : ToolAttemptRecord) (e : Ending) (a b : Phase) (C : Pred)
      (after : Reply ConditionalWriteResult → Phase)
      → ((t : ToolCallRecord) (r : Reply ConditionalWriteResult)
          → t.status ≡ e.terminal_status
          → Step q a (finalize_call t r) (after r))
      → ((r : ConditionalWriteResult) → is_applied r ≡ true → after (returned r) ≡ b)
      → ((l : List Event) → Runs q l (after cancelled_call) → C l)
      → Ensures q (At a) (finalize_running_attempt p running attempt e) (λ x l. At b l) C
  unfolding finalize_running_attempt terminal_of
  finalize-Finishes running attempt e a b C after step is_b c = then_ask q p.clock _ λ finished.
      then_check q a _ _ λ t is_t. then_check q a _ _ λ f is_f.
        then_check q a _ _ λ command is_command.
          then_await q a after (p.finalize_tool_call_attempt_if_running command) (finalize_call t) _
            (λ r. step t r (ap (λ u. u.status) (validate_call-ok _ t is_t))) c
            λ r.
              then_require q (after (returned r)) (is_applied r) conflict _
                λ applied. Ensures-pure q (t, f) C (λ l h. subst (Runs q l) (is_b r applied) h)

  applied-closed :
      (r : ConditionalWriteResult) → is_applied r ≡ true → after_finalize (returned r) ≡ closed
  applied-closed r h = ground arith

  applied-stopped :
      (r : ConditionalWriteResult) → is_applied r ≡ true → after_interrupt (returned r) ≡ stopped
  applied-stopped r h = ground arith

  -- A call that was answered is finalized from `asked`; a cancellation leads to the handler.
  answer-Ensures :
      (running : ToolCallRecord) (attempt : ToolAttemptRecord) (e : Ending)
      → is_answer e.terminal_status ≡ true
      → Ensures q
          (At asked)
          (finalize_running_attempt p running attempt e)
          (λ x. At closed)
          (At cancelling)
  answer-Ensures running attempt e h =
      finalize-Finishes running attempt e asked closed (At cancelling) after_finalize
        (λ t r is. close t r (ap is_answer is ∙ h) refl) applied-closed λ l r. r

  append_trace-Ensures :
      (t : ToolCallRecord) (id : Uuid) (end : Option DateTime)
      → Ensures q (At stopped) (append_interrupted_trace p t id end) (λ x. Legal q) (Legal q)
  unfolding append_interrupted_trace interrupted_event
  append_trace-Ensures t id none = Ensures-raise q stopped invalid (Legal q)
  append_trace-Ensures t id (some end) = then_check q stopped _ _ λ event is_event.
      Ensures-Legal q over (
        Ensures-await q stopped (λ r. over) (p.append_trace_event event) (trace_interrupted event)
          (Legal q)
          (λ r. trace event r (ap (λ e. e.event_type) (validate_event-ok _ event is_event)))
          λ l r. (over, r))

  handle_cancellation-Ensures :
      (running : ToolCallRecord) (attempt : ToolAttemptRecord)
      → Ensures q (At cancelling) (handle_cancellation p running attempt) (λ x. Legal q) (Legal q)
  unfolding handle_cancellation cancelled_ending
  handle_cancellation-Ensures running attempt =
      Ensures-bind q _ _
        (finalize-Finishes running attempt cancelled_ending cancelling stopped (Legal q)
          after_interrupt (λ t r is. interrupt t r is refl) applied-stopped λ l r. (over, r))
        λ t. then_ask q p.uuid_factory _ λ id. append_trace-Ensures t.0 id t.0.finished_at

  observe-Ensures :
      (result : GetOrderResult) (terminal : ToolCallRecord) (end : DateTime)
      → Ensures q (At closed) (observe p q result terminal end) (λ x. Legal q) (At cancelling)
  unfolding observe
  observe-Ensures result terminal end =
      by_option q result.order_summary _ _ (Ensures-raise q closed refused (At cancelling))
        λ summary is_summary. then_ask q p.uuid_factory _ λ id. then_check q closed _ _ λ o is_o.
          then_check q closed _ _ λ command is_command.
            then_await q closed after_save (p.save_observation command) (save_call o) _
              (λ r. save o r refl) (λ l r. r)
              λ r.
                then_require q over (is_saved r) conflict _
                  λ saved. Ensures-pure q (some o) (At cancelling) λ l h. (over, h)

  fresh_ref-Ensures :
      (o : GetOrderOutcome) (C : Pred) → Ensures q (At asked) (fresh_ref p o) (λ x. At asked) C
  unfolding fresh_ref
  fresh_ref-Ensures GetOrderOutcome.found C =
      then_ask q p.uuid_factory _ λ id. Ensures-pure q (some id) C λ l h. h
  fresh_ref-Ensures GetOrderOutcome.not_found_or_not_accessible C = Ensures-pure q none C λ l h. h
  fresh_ref-Ensures GetOrderOutcome.system_failure C = Ensures-pure q none C λ l h. h

  observe_if_found-Ensures :
      (result : GetOrderResult) (terminal : ToolCallRecord) (o : GetOrderOutcome)
      → Ensures q
          (At closed)
          (observe_if_found p q result terminal o)
          (λ x. Legal q)
          (At cancelling)
  unfolding observe_if_found
  observe_if_found-Ensures result terminal GetOrderOutcome.found =
      by_option q terminal.finished_at _ _ (Ensures-raise q closed refused (At cancelling))
        λ end is_end. observe-Ensures result terminal end
  observe_if_found-Ensures result terminal GetOrderOutcome.not_found_or_not_accessible =
      Ensures-pure q none (At cancelling) λ l h. (closed, h)
  observe_if_found-Ensures result terminal GetOrderOutcome.system_failure =
      Ensures-pure q none (At cancelling) λ l h. (closed, h)

  settle-Ensures :
      (new ongoing : ToolCallRecord) (attempt : ToolAttemptRecord) (timeout : ℕ) (r : Lookup)
      → Ensures q
          (At asked)
          (settle p q new ongoing attempt timeout r)
          (λ x. Legal q)
          (At cancelling)
  unfolding settle timed_out_ending
  settle-Ensures new ongoing attempt timeout out_of_time =
      Ensures-bind q _ _ (answer-Ensures ongoing attempt timed_out_ending refl)
        λ t. Ensures-pure q _ (At cancelling) λ l h. (closed, h)
  settle-Ensures new ongoing attempt timeout (answered c) =
      then_require q asked _ refused _ λ summary.
        Ensures-bind q _ _ (fresh_ref-Ensures _ (At cancelling)) λ ref.
          Ensures-bind q _ _
            (answer-Ensures ongoing attempt (ending_of _ ref) (is_answer-ending_of _ ref))
            λ t.
              Ensures-bind q _ _ (observe_if_found-Ensures _ t.0 _)
                λ o. Ensures-pure q _ (At cancelling) λ l a. a

  -- The fence stands: the guard on the arguments made `order_id` the one of the command.
  dispatched-Ensures :
      (order_id : Text) (new ongoing : ToolCallRecord) (attempt : ToolAttemptRecord) (timeout : ℕ)
      → find_field (codes "order_id") q.authorized_command.validated_arguments
        ≡ some (scalar (str order_id))
      → timeout ≤ q.execution_policy.timeout_ms
      → timeout ≤ q.remaining_run_time_budget_ms
      → Ensures q
          (At fenced)
          (dispatched p q order_id new ongoing attempt timeout)
          (λ x. Legal q)
          (Legal q)
  unfolding dispatched
  dispatched-Ensures order_id new ongoing attempt timeout is_id h k =
      Ensures-on_cancel q _ _
        (then_check q fenced _ _ λ query is_query.
          then_await q fenced after_dispatch (p.get_order timeout query) (dispatch timeout query) _
            (λ r.
              ask timeout query r (ap (λ u. u.customer_id) (validate_query-ok _ query is_query))
                (is_id
                  ∙ ap (λ (u : GetOrderQuery). some (scalar (str u.order_id)))
                      (sym (validate_query-ok _ query is_query)))
                h k refl)
            (λ l r. r) λ r. settle-Ensures new ongoing attempt timeout r)
        (handle_cancellation-Ensures ongoing attempt)

  fenced-Ensures :
      (fence : ToolDispatchFenceWriteResult) (order_id : Text) (new ongoing : ToolCallRecord)
      (attempt : ToolAttemptRecord) (timeout : ℕ)
      → find_field (codes "order_id") q.authorized_command.validated_arguments
        ≡ some (scalar (str order_id))
      → timeout ≤ q.execution_policy.timeout_ms
      → timeout ≤ q.remaining_run_time_budget_ms
      → Ensures q
          (At (after_start (returned fence)))
          (after_fence p fence q order_id new ongoing attempt timeout)
          (λ x. Legal q)
          (Legal q)
  unfolding after_fence
  fenced-Ensures fence_applied order_id new ongoing attempt timeout is_id h k =
      dispatched-Ensures order_id new ongoing attempt timeout is_id h k
  fenced-Ensures status_conflict order_id new ongoing attempt timeout is_id h k =
      Ensures-pure q _ (Legal q) λ l a. (over, a)
  fenced-Ensures fence_not_applicable order_id new ongoing attempt timeout is_id h k =
      Ensures-pure q _ (Legal q) λ l a. (over, a)
  fenced-Ensures action_ledger_required order_id new ongoing attempt timeout is_id h k =
      Ensures-pure q _ (Legal q) λ l a. (over, a)

  inserted-recorded :
      (r : InsertOnlyWriteResult) → is_inserted r ≡ true → after_insert (returned r) ≡ recorded
  inserted-recorded r h = ground arith

  run_call-Ensures :
      (order_id : Text) (timeout : ℕ)
      → find_field (codes "order_id") q.authorized_command.validated_arguments
        ≡ some (scalar (str order_id))
      → timeout ≤ q.execution_policy.timeout_ms
      → timeout ≤ q.remaining_run_time_budget_ms
      → Ensures q (At idle) (run_call p q order_id timeout) (λ x. Legal q) (Legal q)
  unfolding run_call created_record
  run_call-Ensures order_id timeout is_id h k = then_ask q p.clock _ λ started_at.
      then_ask q p.uuid_factory _ λ id. then_check q idle _ _ λ made is_made.
        then_check q idle _ _ λ new is_new.
          then_await q idle after_insert (p.insert_tool_call new) (insert_call new) _
            (λ r.
              insert new r (validate_create-created _ new is_new)
                (ap (λ u. u.effect)
                  (validate_create-ok _ new is_new ∙ validate_call-ok _ made is_made))
                refl)
            (λ l r. (over, r))
            λ r. then_require q (after_insert (returned r)) (is_inserted r) conflict _ λ stored.
              Ensures-at q (inserted-recorded r stored) (
                then_ask q p.clock _ λ started. then_check q recorded _ _ λ attempt is_attempt.
                  then_check q recorded _ _ λ ongoing is_ongoing.
                    then_check q recorded _ _ λ command is_command.
                      then_await q recorded after_start (p.start_tool_call_if_created command)
                        (start_call ongoing) _
                        (λ r.
                          start ongoing r
                            (ap (λ u. u.status) (validate_call-ok _ ongoing is_ongoing)) refl)
                        (λ l r. (over, r))
                        λ fence.
                          fenced-Ensures fence order_id new ongoing attempt timeout is_id h k)

  run_with-Ensures :
      (j : Option Json)
      → find_field (codes "order_id") q.authorized_command.validated_arguments ≡ j
      → Ensures q (At idle) (run_with p q j) (λ x. Legal q) (Legal q)
  unfolding run_with
  run_with-Ensures none e = Ensures-raise q idle refused (Legal q)
  run_with-Ensures (some (scalar (str order_id))) e =
      run_call-Ensures order_id _ e (min-left _ _) (min-right _ _)
  run_with-Ensures (some j) e = Ensures-raise q idle refused (Legal q)

  execute_get_order-Ensures : Ensures q (At idle) (execute_get_order p q) (λ x. Legal q) (Legal q)
  unfolding execute_get_order
  execute_get_order-Ensures = then_require q idle _ refused _ λ policy.
      then_require q idle _ refused _
        λ budget. then_require q idle _ refused _ λ command. run_with-Ensures _ refl

  -- Whatever the ports, the clock, the source of UUIDs and the world are, the calls that
  -- `execute_get_order` makes, from an empty log, follow the protocol: an insert of a created read
  -- call; a start of it as running; behind an applied fence one dispatch, with the customer of the
  -- request, the order number of the command and a timeout within both bounds; a terminal record of
  -- an answer, then the observation; and after a cancellation an interrupted record and its trace.
  pub execute_get_order-Legal :
      (world : W) → Legal q (execute_get_order p q (record { world = world; log = [] })).1.log
  execute_get_order-Legal world =
      Legal-post (execute_get_order p q (record { world = world; log = [] })).0
        (execute_get_order-Ensures.at (record { world = world; log = [] }) here)

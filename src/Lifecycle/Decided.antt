-- ===== src/Lifecycle/Decided.antt =====
-- The events of the first decision that src/mini_agent/application/agent_run_service.py appends.
use mini_agent.Understanding.Graph.{TaskGraph}
use mini_agent.Understanding.Closure.{UnderstandingClosure}
use mini_agent.Lifecycle.Trace.{kind_text, append_initial_decision_trace, decision_events}
use mini_agent.Recovery.Service.{bare_event}
use mini_agent.Recovery.Audit.{is_stop}
use mini_agent.Tools.Gate.{is_version}
use mini_agent.Lifecycle.Finishes.{InUtc}
use mini_agent.Prelude.Texts.{Uuid, none_or, non_empty}
use mini_agent.Clock.{DateTime}
use mini_agent.Understanding.Contracts.{validate_next_move, NextMove, NextMoveKind}
use mini_agent.Prelude.{
  none, some, refl, ok, true, ◌≡◌, nat_eq, list_eq, option_eq, ◌∷◌, [], ℕ, is_ok, arith, Option,
  false, traverse, map, List, all,
}
use mini_agent.Runs.{
  next_move_proposed, task_delta_validated, task_delta_accepted, input_binding_recorded,
  task_state_changed, validate_event, event_fields_valid, TraceEventType, tool_trace_status,
  TraceEvent,
}

move-fields :
    (m : NextMove)
    → is_ok (validate_next_move m) ≡ true
    → (none_or non_empty m.requested_tool_name ≡ true)
      × (is_version m.base_task_state_version ≡ true)
unfolding validate_next_move
move-fields m h = (ground arith, ground arith)

kind_named : (k : NextMoveKind) → non_empty (kind_text k) ≡ true
kind_named k = ground arith

module _ (clock : ℕ → DateTime) (f : ℕ → Uuid) (run_id model_call_id manifest_id : Uuid)
    (utc : InUtc clock) where
  quiet-ok :
      (type : TraceEventType) (n : ℕ) (message delta task unit binding : Option Uuid)
      → tool_trace_status type ≡ none
      → is_stop (bare_event (f n) type (clock n) run_id) ≡ false
      → validate_event record (bare_event (f n) type (clock n) run_id) {
        message_ref = message;
        accepted_delta_ref = delta;
        task_id = task;
        request_unit_id = unit;
        input_binding_ref = binding;
      }
        ≡ ok record (bare_event (f n) type (clock n) run_id) {
          message_ref = message;
          accepted_delta_ref = delta;
          task_id = task;
          request_unit_id = unit;
          input_binding_ref = binding;
        }
  unfolding validate_event event_fields_valid
  quiet-ok type n message delta task unit binding quiet other = let now = utc n in ground arith

  proposal-ok :
      (n : ℕ) (message : Option Uuid) (m : NextMove)
      → is_ok (validate_next_move m) ≡ true
      → validate_event record (bare_event (f n) next_move_proposed (clock n) run_id) {
        message_ref = message;
        model_call_id = some model_call_id;
        context_manifest_id = some manifest_id;
        next_move_kind = some (kind_text m.kind);
        requested_tool_name = m.requested_tool_name;
        proposed_base_task_state_version = m.base_task_state_version;
      }
        ≡ ok record (bare_event (f n) next_move_proposed (clock n) run_id) {
          message_ref = message;
          model_call_id = some model_call_id;
          context_manifest_id = some manifest_id;
          next_move_kind = some (kind_text m.kind);
          requested_tool_name = m.requested_tool_name;
          proposed_base_task_state_version = m.base_task_state_version;
        }
  unfolding validate_event event_fields_valid
  proposal-ok n message m valid =
      let (named, version) = move-fields m valid in
      let kind = kind_named m.kind in rw (utc n, named, version, kind) refl

  -- The five events, in order, with all that they refer to.
  abbrev pub RecordsDecision :
      UnderstandingClosure → TaskGraph → NextMove → List TraceEvent → Type 0
  RecordsDecision c g m es =
      let message = some c.record_.message_ref in
      let delta = some g.accepted_delta.accepted_delta_id in
      let task = some g.task.task_id in
      let unit = some g.request_unit.request_unit_id in
      let binding = some g.input_binding.binding_id in
      (map (λ e. e.event_type) es
        ≡ next_move_proposed ∷ task_delta_validated ∷ task_delta_accepted ∷ input_binding_recorded
          ∷ task_state_changed ∷ [])
      × (map (λ e. e.trace_event_id) es ≡ f 0 ∷ f 1 ∷ f 2 ∷ f 3 ∷ f 4 ∷ [])
      × (map (λ e. e.occurred_at) es ≡ clock 0 ∷ clock 1 ∷ clock 2 ∷ clock 3 ∷ clock 4 ∷ [])
      × (map (λ e. e.run_id) es ≡ run_id ∷ run_id ∷ run_id ∷ run_id ∷ run_id ∷ [])
      × (map (λ e. e.message_ref) es ≡ message ∷ message ∷ message ∷ none ∷ none ∷ [])
      × (map (λ e. e.accepted_delta_ref) es ≡ none ∷ delta ∷ delta ∷ none ∷ none ∷ [])
      × (map (λ e. e.task_id) es ≡ none ∷ none ∷ task ∷ task ∷ task ∷ [])
      × (map (λ e. e.request_unit_id) es ≡ none ∷ none ∷ unit ∷ unit ∷ unit ∷ [])
      × (map (λ e. e.input_binding_ref) es ≡ none ∷ none ∷ none ∷ binding ∷ none ∷ [])
      × (map (λ e. e.model_call_id) es ≡ some model_call_id ∷ none ∷ none ∷ none ∷ none ∷ [])
      × (map (λ e. e.context_manifest_id) es ≡ some manifest_id ∷ none ∷ none ∷ none ∷ none ∷ [])
      × (map (λ e. e.requested_tool_name) es
          ≡ m.requested_tool_name ∷ none ∷ none ∷ none ∷ none ∷ [])

  -- For a next move that passes its validation and a clock in UTC five events are appended, and each of them
  -- is valid: the proposal of the next move, with the model call, the manifest and the tool; the validation
  -- of the delta and its acceptance; the binding of the input; and the change of the task. Each is of the
  -- run, has its own reading of the clock and its own identity from the factory, and refers to the message,
  -- delta, task, request unit and binding that it is about and to no other.
  pub append_initial_decision_trace-RecordsDecision :
      (c : UnderstandingClosure) (g : TaskGraph) (m : NextMove)
      → is_ok (validate_next_move m) ≡ true
      → (es : List TraceEvent) × (append_initial_decision_trace clock f run_id model_call_id
            manifest_id c g m
          ≡ ok es)
        × (all (λ e. is_ok (validate_event e)) es ≡ true)
        × RecordsDecision c g m es
  unfolding append_initial_decision_trace traverse
  append_initial_decision_trace-RecordsDecision c g m valid =
      let message = some c.record_.message_ref in
      let delta = some g.accepted_delta.accepted_delta_id in
      let task = some g.task.task_id in
      let unit = some g.request_unit.request_unit_id in
      let binding = some g.input_binding.binding_id in
      let proposal = proposal-ok 0 message m valid in
      let checked = quiet-ok task_delta_validated 1 message delta none none none refl refl in
      let accepted = quiet-ok task_delta_accepted 2 message delta task unit none refl refl in
      let bound = quiet-ok input_binding_recorded 3 none none task unit binding refl refl in
      let changed = quiet-ok task_state_changed 4 none none task unit none refl refl in
      (
        decision_events clock f run_id model_call_id manifest_id c g m,
        rw (proposal, checked, accepted, bound, changed) refl,
        rw (proposal, checked, accepted, bound, changed) refl,
        (refl, refl, refl, refl, refl, refl, refl, refl, refl, refl, refl, refl),
      )

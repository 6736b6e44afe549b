-- ===== src/Examples/Finishes.antt =====
-- A run that is started, and that ends with its task, without one, and after an error.
use mini_agent.Lifecycle.Parts.{IsUnderWay}
use mini_agent.Lifecycle.Starts.{
  Carries, EndsFailed, start_run-IsUnderWay, finalize_failed_run-EndsFailed,
}
use mini_agent.Lifecycle.Joint.{IsLinked}
use mini_agent.Prelude.Texts.{codes}
use mini_agent.Lifecycle.Finishes.{
  InUtc, Finishes, finish_without_task-Finishes, finish_with_task-Finishes,
}
use mini_agent.Lifecycle.Command.{FinalizeRun}
use mini_agent.Presentation.{map_result}
use mini_agent.Lifecycle.Service.{Finished, start_run, finish_without_task}
use mini_agent.Recovery.{validate_link}
use mini_agent.Lifecycle.Task.{Turn, finish_with_task, finalize_failed_run}
use mini_agent.Clock.{is_utc, DateTime, is_utc_or_none}
use mini_agent.Prelude.{none, some, refl, ok, true, ◌≡◌, ◌+◌, ℕ, is_ok}
use mini_agent.Examples.Data.{moment, call}
use mini_agent.Examples.Closures.{closure, fresh}
use mini_agent.Tasks.{blocked, validate_task, validate_request_unit}
use mini_agent.Runs.{gate_rejected, input_invalid, validate_run, AgentRunRecord}

abbrev clock : ℕ → DateTime
clock n = moment (5 + n)

in_utc : InUtc clock
unfolding is_utc
in_utc n = refl

abbrev turn : Turn
turn = record {
  running_run = closure.active_run_record;
  conversation = closure.conversation_record;
  current_task = call.current_task;
  current_unit = call.current_request_unit;
  active_link = record {
    schema_version = codes "v1";
    run_id = 1;
    task_id = 2;
    base_task_state_version = none;
    result_task_state_version = none;
  };
  stop_reason = gate_rejected;
  target_status = blocked;
  reason_ref = 50;
  observation_ref = none;
  presentation_plan_ref = none;
  rendered_message = none;
}

under_way : IsUnderWay turn.running_run turn.conversation.conversation_id
unfolding validate_run is_utc is_utc_or_none
under_way = (refl, refl, refl, refl)

linked : IsLinked turn.running_run.run_id turn.active_link turn.current_task
unfolding validate_link
linked = (refl, refl, refl, refl, refl)

valid_task : is_ok (validate_task call.current_task) ≡ true
unfolding validate_task is_utc
valid_task = refl

valid_unit : is_ok (validate_request_unit call.current_request_unit) ≡ true
unfolding validate_request_unit is_utc
valid_unit = refl

start_run-IsUnderWay_example :
    (r : AgentRunRecord) × (start_run (λ r. true) (λ c. true) 1 9 (codes "p") (moment 5) ≡ ok r)
    × IsUnderWay r 9
    × (r.run_id ≡ 1)
    × (r.started_at ≡ moment 5)
unfolding is_utc
start_run-IsUnderWay_example =
    start_run-IsUnderWay (λ r. true) (λ c. true) 1 9 (codes "p") (moment 5) (λ r. refl) (λ c. refl)
      refl refl

finish_without_task-Finishes_example :
    (x : Finished) × Finishes
      (λ c. true)
      turn.running_run
      input_invalid
      none
      (finish_without_task clock
        (λ n. 100 + n)
        (λ c. true)
        turn.running_run
        turn.conversation
        input_invalid)
      x
finish_without_task-Finishes_example =
    finish_without_task-Finishes clock (λ n. 100 + n) (λ c. true) turn.running_run turn.conversation
      input_invalid under_way refl in_utc refl

returned : is_ok (map_result turn.running_run.run_id turn.stop_reason turn.rendered_message) ≡ true
unfolding map_result
returned = refl

finish_with_task-Finishes_example :
    (x : Finished) × Finishes
      (λ c. true)
      turn.running_run
      gate_rejected
      none
      (finish_with_task clock (λ n. 100 + n) (λ c. true) turn)
      x
finish_with_task-Finishes_example =
    finish_with_task-Finishes clock (λ n. 100 + n) (λ c. true) turn under_way linked refl returned
      (valid_task, valid_unit, refl, refl, refl, refl, in_utc 1, refl, refl) in_utc refl refl fresh

finalize_failed_run-EndsFailed_example :
    (c : FinalizeRun) × EndsFailed
      (λ c. true)
      (moment 5)
      turn.running_run
      (finalize_failed_run
        (moment 5)
        none
        (λ c. true)
        (some turn.running_run)
        (some turn.active_link)
        (some call.current_task))
      c
    × Carries (some turn.active_link) (some call.current_task) none c
finalize_failed_run-EndsFailed_example =
    finalize_failed_run-EndsFailed (moment 5) none (λ c. true) turn.running_run 9
      (some turn.active_link) (some call.current_task) under_way (linked, valid_task) (in_utc 0)
      refl

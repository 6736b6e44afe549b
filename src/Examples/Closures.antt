-- ===== src/Examples/Closures.antt =====
-- A closure of one run with its task and its running tool call, and what a restart makes of it.
use mini_agent.Recovery.Shape.{Shaped, validate_recovery_closure-Shaped}
use mini_agent.Recovery.Traced.{IsFresh}
use mini_agent.Recovery.Total.{not_before, Recovers, recover_pending-Recovers}
use mini_agent.Recovery.Aggregates.{
  validate_conversation, validate_conversation_link, validate_task_aggregate,
  validate_call_aggregate,
}
use mini_agent.Recovery.{validate_link}
use mini_agent.Tasks.{validate_request_unit, validate_task}
use mini_agent.Tools.Call.{validate_call, validate_attempt}
use mini_agent.Clock.{is_utc, is_utc_or_none}
use mini_agent.Runs.{validate_run}
use mini_agent.Recovery.Command.{RecoveryCommand}
use mini_agent.Prelude.{
  none, some, refl, [], ◌∷◌, ok, ◌≡◌, ◌+◌, is_ok, true, option_beq, list_beq, distinct, contains,
  same_set, subset, arith,
}
use mini_agent.Prelude.Texts.{codes, is_tool_name}
use mini_agent.Recovery.Closure.{
  unit_by_id, task_by_id, RestartRecoveryClosure, validate_recovery_closure,
}
use mini_agent.Recovery.Service.{recover_pending, applied}
use mini_agent.Examples.Data.{moment, call}
use mini_agent.Examples.Restart.{run, running_call}

abbrev pub closure : RestartRecoveryClosure
closure = record {
  closure_fence = 1;
  conversation_record = record {
    schema_version = codes "v1";
    conversation_id = 9;
    owner_customer_id = call.current_task.owner_customer_id;
    created_at = moment 0;
  };
  active_run_record = record run { conversation_id = some 9 };
  conversation_task_links =
      record {
        schema_version = codes "v1";
        conversation_id = 9;
        task_id = 2;
        link_reason = codes "r";
        linked_at = moment 0;
        ended_at = none;
      }
      ∷ [];
  run_task_links =
      record {
        schema_version = codes "v1";
        run_id = 1;
        task_id = 2;
        base_task_state_version = none;
        result_task_state_version = none;
      }
      ∷ [];
  task_aggregates = record { task_record = call.current_task; task_state_transitions = [] } ∷ [];
  request_unit_records = call.current_request_unit ∷ [];
  tool_call_aggregates =
      record {
        tool_call_record = running_call;
        tool_attempt_records =
            record {
              tool_call_id = 60;
              attempt_no = 1;
              started_at = moment 0;
              finished_at = none;
              outcome = none;
              failure_code = none;
            }
            ∷ [];
      }
      ∷ [];
}

closure_valid : is_ok (validate_recovery_closure closure) ≡ true
unfolding validate_recovery_closure validate_conversation is_utc validate_run is_utc_or_none
    validate_conversation_link validate_link validate_task_aggregate validate_task
    validate_request_unit validate_call_aggregate validate_call is_tool_name validate_attempt
    list_beq option_beq distinct contains same_set subset task_by_id unit_by_id
closure_valid = refl

in_time : not_before (moment 5) closure ≡ true
unfolding not_before is_utc
in_time = refl

pub fresh : IsFresh (λ n. 100 + n)
fresh i j e = omega arith

validate_recovery_closure-Shaped_example : Shaped closure
validate_recovery_closure-Shaped_example = validate_recovery_closure-Shaped closure closure_valid

recover_pending-Recovers_example :
    (d : RecoveryCommand) × Recovers (moment 5) closure d
    × (recover_pending (λ d. applied) (λ n. 100 + n) (moment 5) (some closure)
        ≡ ok record { ready = true; closure_found = true; write_result = some applied })
recover_pending-Recovers_example =
    recover_pending-Recovers (λ n. 100 + n) (moment 5) closure (λ d. applied) fresh closure_valid
      in_time

-- ===== src/Examples/Restart.antt =====
-- A session, and a run with one active task that a restart left behind.
use mini_agent.Tools.Spec.{ToolEffect}
use mini_agent.Recovery.Interrupts.{Interruptible, interrupt_of-ok_iff}
use mini_agent.Tools.Call.{ToolCallRecord, running}
use mini_agent.Session.Lookup.{IsLive, authenticate-some_iff}
use mini_agent.Recovery.Applies.{Stoppable, Blockable, run_transition-ok_iff, block-ok_iff}
use mini_agent.Clock.{is_utc}
use mini_agent.Recovery.Covers.{expected_of, active_in, AllBlocking, block_tasks-covers}
use mini_agent.Recovery.{TaskTransition}
use mini_agent.Recovery.Plan.{
  run_transition, block, block_tasks, marking, blocking, interrupt_of, interruption,
}
use mini_agent.Runs.{AgentRunRecord, running_run}
use mini_agent.Session.{
  P0SessionFixture, hash_fixtures, authenticate, fixture_valid, context_of, Fixtures,
}
use mini_agent.Prelude.Texts.{Text, codes}
use mini_agent.Prelude.{
  nat_eq, list_eq, [], ◌∷◌, some, none, ok, refl, false, List, map, ◌≡◌, ◌+◌, select, lookup, ◌↔◌,
  is_empty, ap, drop,
}
use mini_agent.Examples.Data.{moment, call}
use mini_agent.Tasks.{validate_task, validate_request_unit, validate_transition}
use mini_agent.Recovery.Plan.{blocked_task, blocked_unit}
use mini_agent.Prelude.{list_beq, option_beq}

-- A digest that is never empty and tells texts apart.
abbrev marked : Text → Text
marked s = 120 ∷ s

marked_apart : (s t : Text) → marked s ≡ marked t → s ≡ t
marked_apart s t h = ap (drop 1) h

abbrev session : P0SessionFixture
session = record {
  subject_ref = codes "s";
  customer_id = codes "c1";
  auth_scopes = [];
  expires_at = moment 9;
  disabled = false;
}

abbrev sessions : Fixtures
sessions = (codes "xk1", session) ∷ []

hashed : hash_fixtures marked [] ((codes "k1", session) ∷ []) ≡ ok sessions
unfolding hash_fixtures fixture_valid is_utc lookup
hashed = refl

authenticate-some_iff_example :
    (authenticate marked sessions (codes "k1") (moment 5)
      ≡ ok (some (context_of session (moment 5) (codes "xk1"))))
    ↔ ((is_empty (codes "k1") ≡ false)
        × (f : P0SessionFixture) × (lookup (codes "k1") ((codes "k1", session) ∷ []) ≡ some f)
        × IsLive f (moment 5) (codes "xk1") (context_of session (moment 5) (codes "xk1")))
authenticate-some_iff_example =
    authenticate-some_iff marked marked_apart (λ s. refl) ((codes "k1", session) ∷ []) sessions
      (codes "k1") (moment 5) (context_of session (moment 5) (codes "xk1")) hashed

abbrev pub run : AgentRunRecord
run = record {
  run_id = 1;
  conversation_id = none;
  status = running_run;
  provider_lane = codes "p";
  started_at = moment 0;
  completed_at = none;
  stop_reason = none;
  incomplete_reason = none;
}

run_transition-ok_iff_example :
    (run_transition (moment 5) run ≡ ok (marking (moment 5) run))
    ↔ ((marking (moment 5) run ≡ marking (moment 5) run) × Stoppable (moment 5) run)
run_transition-ok_iff_example = run_transition-ok_iff (moment 5) run (marking (moment 5) run)

block-ok_iff_example :
    (block (moment 5) 40 call.current_task (some call.current_request_unit)
      ≡ ok (blocking (moment 5) 40 call.current_task call.current_request_unit))
    ↔ ((blocking (moment 5) 40 call.current_task call.current_request_unit
          ≡ blocking (moment 5) 40 call.current_task call.current_request_unit)
        × Blockable (moment 5) call.current_task call.current_request_unit)
block-ok_iff_example =
    block-ok_iff (moment 5) 40 call.current_task call.current_request_unit
      (blocking (moment 5) 40 call.current_task call.current_request_unit)

abbrev transitions : List TaskTransition
transitions = blocking (moment 5) 40 call.current_task call.current_request_unit ∷ []

planned :
    block_tasks (moment 5) (call.current_request_unit ∷ []) (λ n. 40 + n) 0 (call.current_task ∷ [])
    ≡ ok transitions
unfolding block_tasks validate_task is_utc blocked_task validate_request_unit blocked_unit
    validate_transition list_beq option_beq
planned = refl

block_tasks-covers_example :
    (map expected_of transitions ≡ select active_in (call.current_task ∷ []))
    × AllBlocking (moment 5) transitions
block_tasks-covers_example =
    block_tasks-covers (moment 5) (call.current_request_unit ∷ []) (λ n. 40 + n) 0
      (call.current_task ∷ []) transitions planned

abbrev pub running_call : ToolCallRecord
running_call = record {
  tool_call_id = 60;
  run_id = 1;
  task_id = 2;
  request_unit_id = 3;
  model_call_id = 8;
  context_manifest_id = 7;
  gate_decision_id = 9;
  provider_tool_call_id = none;
  canonical_tool_name = codes "get_order";
  tool_registry_version = codes "r1";
  validated_task_state_version = 1;
  argument_binding_refs = 5 ∷ [];
  effect = ToolEffect.read;
  attempt_count = 1;
  status = running;
  started_at = moment 0;
  finished_at = none;
  failure_code = none;
  timeout_phase = none;
  interruption_reason = none;
  result_ref = none;
}

interrupt_of-ok_iff_example :
    (interrupt_of (moment 5) running_call ≡ ok (interruption (moment 5) running_call)) ↔ (
      (interruption (moment 5) running_call ≡ interruption (moment 5) running_call)
      × Interruptible (moment 5) running_call)
interrupt_of-ok_iff_example =
    interrupt_of-ok_iff (moment 5) running_call (interruption (moment 5) running_call)

-- ===== src/Recovery/Projected.antt =====
-- The records that `recover_pending` of src/mini_agent/application/restart_recovery_service.py writes pass the
-- tests of src/mini_agent/application/records.py next to their closure.
use mini_agent.Recovery.Service.{end_links}
use mini_agent.Prelude.Texts.{Uuid}
use mini_agent.Recovery.Exact.{call_beq_refl, task_beq_refl, unit_beq_refl}
use mini_agent.Recovery.Closure.{task_by_id, exceeds}
use mini_agent.Tools.Call.{ToolCallRecord}
use mini_agent.Recovery.Plan.{
  interruption, blocking, blocked_task, blocked_unit, unit_by_task, is_active_task,
}
use mini_agent.Recovery.{RunTaskLink, validate_link, regresses, TaskTransition}
use mini_agent.Recovery.Command.{
  check_call_transitions, check_task_transitions, check_terminal_links, link_by_task,
  transition_by_task,
}
use mini_agent.Prelude.{
  some, nat_eq, list_eq, option_eq, pair_eq, [], ◌∷◌, refl, ◌≡◌, beq_refl, distinct, ℕ, same_set,
  contains, is_ok, subset, true, ok, false, leb, arith, nat_beq_iff, ◌==◌, List, sym, traverse, ◌+◌,
  option_beq, Option, ◌≤◌, none,
}
use mini_agent.Clock.{time_eq, DateTime}
use mini_agent.Tasks.{task_status_eq, TaskRecord, RequestUnitRecord, validate_task}

pub no_calls : check_call_transitions [] [] ≡ ok tt
unfolding check_call_transitions distinct same_set subset
no_calls = refl

pub one_call :
    (now : DateTime) (r : ToolCallRecord)
    → check_call_transitions (r ∷ []) (interruption now r ∷ []) ≡ ok tt
unfolding check_call_transitions interruption contains distinct same_set subset
one_call now r = rw (beq_refl r.tool_call_id, call_beq_refl r) refl

pub no_tasks : check_task_transitions [] [] [] ≡ ok tt
unfolding check_task_transitions distinct same_set subset
no_tasks = refl

pub idle_task :
    (t : TaskRecord) (u : RequestUnitRecord)
    → is_active_task t.status ≡ false
    → check_task_transitions (t ∷ []) (u ∷ []) [] ≡ ok tt
unfolding check_task_transitions distinct same_set subset
idle_task t u e = rw e refl

pub blocked_one :
    (now : DateTime) (ref : Uuid) (t : TaskRecord) (u : RequestUnitRecord)
    → is_active_task t.status ≡ true
    → u.task_id ≡ t.task_id
    → check_task_transitions (t ∷ []) (u ∷ []) (blocking now ref t u ∷ []) ≡ ok tt
unfolding check_task_transitions blocking blocked_task blocked_unit unit_by_task task_by_id contains
    distinct same_set subset
blocked_one now ref t u e same =
    let owned = (nat_beq_iff u.task_id t.task_id).1 same in
    rw (e, owned, beq_refl t.task_id, task_beq_refl t, unit_beq_refl u) refl

abbrev pub ended : RunTaskLink → ℕ → RunTaskLink
ended l v = record l { result_task_state_version = some v }

pub ended-valid :
    (l : RunTaskLink) (v : ℕ)
    → is_ok (validate_link l) ≡ true
    → regresses l.base_task_state_version (some v) ≡ false
    → leb 1 v ≡ true
    → validate_link (ended l v) ≡ ok (ended l v)
unfolding validate_link
ended-valid l v h base one = ground arith

pub no_links :
    (ts : List TaskRecord) (cs : List TaskTransition) → check_terminal_links [] ts cs [] ≡ ok tt
unfolding check_terminal_links distinct same_set subset
no_links ts cs = refl

-- The link of the one task ends at the version that the task has in the end.
module _ (l : RunTaskLink) (t : TaskRecord) (same : l.task_id ≡ t.task_id) where
  of_task : (t.task_id == l.task_id) ≡ true
  of_task = (nat_beq_iff t.task_id l.task_id).1 (sym same)

  pub idle_link : check_terminal_links (l ∷ []) (t ∷ []) [] (ended l t.state_version ∷ []) ≡ ok tt
  unfolding check_terminal_links link_by_task task_by_id transition_by_task contains distinct
      same_set subset option_beq
  idle_link =
      rw
        (
          of_task,
          beq_refl l.task_id,
          beq_refl l.run_id,
          beq_refl l.schema_version,
          beq_refl l.base_task_state_version,
          beq_refl t.state_version,
        )
        refl

  pub idle_end :
      validate_link (ended l t.state_version) ≡ ok (ended l t.state_version)
      → end_links [] (t ∷ []) (l ∷ []) ≡ ok (ended l t.state_version ∷ [])
  unfolding end_links task_by_id traverse
  idle_end h = rw (of_task, h) refl

  module _ (now : DateTime) (ref : Uuid) (u : RequestUnitRecord) where
    pub blocked_link :
        check_terminal_links
          (l ∷ [])
          (t ∷ [])
          (blocking now ref t u ∷ [])
          (ended l (t.state_version + 1) ∷ [])
        ≡ ok tt
    unfolding check_terminal_links link_by_task transition_by_task contains distinct same_set subset
        option_beq blocking blocked_task
    blocked_link =
        rw
          (
            of_task,
            beq_refl l.task_id,
            beq_refl l.run_id,
            beq_refl l.schema_version,
            beq_refl l.base_task_state_version,
            beq_refl (t.state_version + 1),
          )
          refl

    pub blocked_end :
        validate_link (ended l (t.state_version + 1)) ≡ ok (ended l (t.state_version + 1))
        → end_links (blocking now ref t u ∷ []) (t ∷ []) (l ∷ [])
          ≡ ok (ended l (t.state_version + 1) ∷ [])
    unfolding end_links traverse blocking blocked_task
    blocked_end h = rw (of_task, h) refl

-- A version that the task has reached, and that no link exceeds.
pub reached-regresses :
    (o : Option ℕ) (t : TaskRecord) (v : ℕ)
    → exceeds o (some t) ≡ false
    → t.state_version ≤ v
    → regresses o (some v) ≡ false
reached-regresses none t v h le = refl
reached-regresses (some b) t v h le = ground arith

pub valid-version : (t : TaskRecord) → is_ok (validate_task t) ≡ true → 1 ≤ t.state_version
unfolding validate_task
valid-version t h = ground arith

-- ===== src/Lifecycle/Starts.antt =====
-- How src/mini_agent/application/agent_run_service.py starts a run, and how it ends one after an error.
use mini_agent.Recovery.Projected.{ended, ended-valid, reached-regresses, valid-version}
use mini_agent.Lifecycle.Parts.{IsUnderWay, failed_run-ok, no_links-ok, failed_runs-ok, one_link-ok}
use mini_agent.Lifecycle.Task.{reloaded, failed_command, Failed}
use mini_agent.Lifecycle.Joint.{IsLinked}
use mini_agent.Recovery.{RunTaskLink, validate_link, same_run}
use mini_agent.Lifecycle.Command.{finish_fields_valid, check_links, FinalizeRun}
use mini_agent.Lifecycle.Ending.{validate_finish, check_ending, check_failed}
use mini_agent.Prelude.Texts.{Uuid, Text, non_empty}
use mini_agent.Lifecycle.Service.{start_run, created_of, running_of, terminal_run, RunFailure}
use mini_agent.Lifecycle.{validate_create_run, TransitionRun, validate_transition_run}
use mini_agent.Prelude.{
  none, some, nat_eq, list_eq, option_eq, [], ◌∷◌, refl, ◌≡◌, ok, true, false, Option, Bool, List,
  is_ok, leb, length, all, Result, arith,
}
use mini_agent.Clock.{time_eq, is_utc_or_none, DateTime, is_utc, earlier}
use mini_agent.Lifecycle.Task.{
  failed_command, finalize_failed_run, reloaded, end_failed, not_applied, ended_run,
}
use mini_agent.Prelude.{beq_refl, if◌then◌else◌}
use mini_agent.Tasks.{task_status_eq, TaskRecord, validate_task}
use mini_agent.Runs.{failed_run, validate_run, AgentRunRecord}

created-ok :
    (run_id conversation_id : Uuid) (lane : Text) (now : DateTime)
    → non_empty lane ≡ true
    → is_utc now ≡ true
    → validate_create_run (created_of run_id conversation_id lane now)
      ≡ ok (created_of run_id conversation_id lane now)
unfolding validate_create_run validate_run is_utc_or_none
created-ok run_id conversation_id lane now named utc = rw (named, utc) refl

running-ok :
    (run_id conversation_id : Uuid) (lane : Text) (now : DateTime)
    → non_empty lane ≡ true
    → is_utc now ≡ true
    → is_ok (validate_run (running_of (created_of run_id conversation_id lane now))) ≡ true
unfolding validate_run is_utc_or_none
running-ok run_id conversation_id lane now named utc = rw (named, utc) refl

abbrev starting : AgentRunRecord → TransitionRun
starting r = record { expected_active_record = r; next_record = running_of r }

started-ok :
    (run_id conversation_id : Uuid) (lane : Text) (now : DateTime)
    → non_empty lane ≡ true
    → is_utc now ≡ true
    → validate_transition_run (starting (created_of run_id conversation_id lane now))
      ≡ ok (starting (created_of run_id conversation_id lane now))
unfolding validate_transition_run validate_run is_utc_or_none same_run
started-ok run_id conversation_id lane now named utc =
    rw (named, utc, beq_refl run_id, beq_refl (some conversation_id), beq_refl lane, beq_refl now)
      refl

-- If the ports insert and start the run, for a lane with a name and at a time in UTC, the run that is
-- started has the given identity and start, and is under way in its conversation: valid, running and without
-- a reason for being incomplete.
pub start_run-IsUnderWay :
    (inserted : AgentRunRecord → Bool) (started : TransitionRun → Bool)
    (run_id conversation_id : Uuid) (lane : Text) (now : DateTime)
    → ((r : AgentRunRecord) → inserted r ≡ true)
    → ((c : TransitionRun) → started c ≡ true)
    → non_empty lane ≡ true
    → is_utc now ≡ true
    → (r : AgentRunRecord) × (start_run inserted started run_id conversation_id lane now ≡ ok r)
      × IsUnderWay r conversation_id
      × (r.run_id ≡ run_id)
      × (r.started_at ≡ now)
unfolding start_run
start_run-IsUnderWay inserted started run_id conversation_id lane now inserts starts named utc =
    let r = created_of run_id conversation_id lane now in
    (
      running_of r,
      rw
          (
            created-ok run_id conversation_id lane now named utc,
            inserts r,
            started-ok run_id conversation_id lane now named utc,
            starts (starting r),
          )
          refl,
      (running-ok run_id conversation_id lane now named utc, refl, refl, refl),
      refl,
      refl,
    )

-- What is known of the task when an error ends the run: nothing, or a task with its link.
abbrev pub Cursor : Uuid → Option TaskRecord → Option RunTaskLink → Option TaskRecord → Type 0
Cursor run_id load none none = Unit {0}
Cursor run_id load (some l) (some t) =
    IsLinked run_id l (reloaded load t) × (is_ok (validate_task (reloaded load t)) ≡ true)
Cursor run_id load _ _ = false ≡ true

failed-ok :
    (r : AgentRunRecord) (cid : Uuid) (at : DateTime) (active ends : List RunTaskLink)
    (tasks : List TaskRecord)
    → IsUnderWay r cid
    → is_utc at ≡ true
    → earlier at r.started_at ≡ false
    → leb (length active) 1 ≡ true
    → all (λ l. is_ok (validate_link l)) active ≡ true
    → leb (length ends) 1 ≡ true
    → all (λ l. is_ok (validate_link l)) ends ≡ true
    → leb (length tasks) 1 ≡ true
    → all (λ t. is_ok (validate_task t)) tasks ≡ true
    → check_links r.run_id active ends tasks ≡ ok tt
    → validate_finish (failed_command r (terminal_run failed_run none at r) active ends tasks)
      ≡ ok (failed_command r (terminal_run failed_run none at r) active ends tasks)
unfolding validate_finish finish_fields_valid check_ending check_failed
failed-ok r cid at active ends tasks (valid, running, no_reason, _) utc after few_a ok_a few_e ok_e
      few_t ok_t links =
    rw
      (
        valid,
        failed_run-ok r at valid utc after,
        failed_runs-ok r at running no_reason,
        few_a,
        ok_a,
        few_e,
        ok_e,
        few_t,
        ok_t,
        links,
      )
      refl

-- The command has the link `l` as it was, its end at the version of the task `t`, and the task itself.
abbrev Holds : RunTaskLink → TaskRecord → FinalizeRun → Type 0
Holds l t c =
    (c.expected_active_links ≡ l ∷ [])
    × (c.terminal_links ≡ record l { result_task_state_version = some t.state_version } ∷ [])
    × (c.result_task_records ≡ t ∷ [])

abbrev Bare : FinalizeRun → Type 0
Bare c = (c.expected_active_links ≡ []) × (c.terminal_links ≡ []) × (c.result_task_records ≡ [])

-- What the command has of a task that is known with its link, as it was loaded again, if it was.
abbrev pub Carries :
    Option RunTaskLink → Option TaskRecord → Option TaskRecord → FinalizeRun → Type 0
Carries none t load c = Bare c
Carries (some l) none load c = Bare c
Carries (some l) (some t) none c = Holds l t c
Carries (some l) (some t) (some u) c = Holds l u c

Carries-reloaded :
    (load : Option TaskRecord) (l : RunTaskLink) (t : TaskRecord) (c : FinalizeRun)
    → Holds l (reloaded load t) c
    → Carries (some l) (some t) load c
Carries-reloaded none l t c h = h
Carries-reloaded (some u) l t c h = h

-- What an error makes of a run: its end as failed at the given time, which passes its validation, or a note
-- that the port did not apply it.
abbrev pub EndsFailed :
    (FinalizeRun → Bool)
    → DateTime
    → AgentRunRecord
    → Result RunFailure Failed
    → FinalizeRun
    → Type 0
EndsFailed applied at r outcome c =
    (validate_finish c ≡ ok c)
    × (c.expected_active_record ≡ r)
    × (c.terminal_record.run_id ≡ r.run_id)
    × (c.terminal_record.status ≡ failed_run)
    × (c.terminal_record.completed_at ≡ some at)
    × (outcome ≡ ok (if applied c then ended_run c else not_applied))

-- At a time in UTC that is not before its start, an error ends a run that is under way as failed, by a command
-- that passes its validation, if both task and link are known and fit, the task as it was loaded again, or
-- neither is known. A known link is then in the command, ended at the version of the task that was loaded
-- again, with that task; otherwise the command has neither links nor tasks. If the port does not apply the
-- command, that is noted.
pub finalize_failed_run-EndsFailed :
    (clock : DateTime) (load : Option TaskRecord) (applied : FinalizeRun → Bool)
    (r : AgentRunRecord) (cid : Uuid) (active_link : Option RunTaskLink)
    (result_task : Option TaskRecord)
    → IsUnderWay r cid
    → Cursor r.run_id load active_link result_task
    → is_utc clock ≡ true
    → earlier clock r.started_at ≡ false
    → (c : FinalizeRun) × EndsFailed applied clock r
        (finalize_failed_run clock load applied (some r) active_link result_task)
        c
      × Carries active_link result_task load c
unfolding finalize_failed_run end_failed
finalize_failed_run-EndsFailed clock load applied r cid none none run known utc after =
    let (valid, _, _, _) = run in
    let c = failed_command r (terminal_run failed_run none clock r) [] [] [] in
    let passed =
      failed-ok r cid clock [] [] [] run utc after refl refl refl refl refl refl
        (no_links-ok r.run_id) in
    (
      c,
      (passed, refl, refl, refl, refl, rw (failed_run-ok r clock valid utc after) (rw passed refl)),
      (refl, refl, refl),
    )
finalize_failed_run-EndsFailed clock load applied r cid (some l) (some t) run known utc after =
    let (valid, _, _, _) = run in
    let ((valid_link, of_run, of_task, open_still, base), valid_task) = known in
    let u = reloaded load t in
    let end = ended l u.state_version in
    let end_valid =
      ended-valid l u.state_version valid_link
        (reached-regresses l.base_task_state_version u u.state_version base (omega arith))
        (let one = valid-version u valid_task in ground arith) in
    let c = failed_command r (terminal_run failed_run none clock r) (l ∷ []) (end ∷ []) (u ∷ []) in
    let passed =
      failed-ok r cid clock (l ∷ []) (end ∷ []) (u ∷ []) run utc after refl (rw valid_link refl)
        refl (rw end_valid refl) refl (rw valid_task refl)
        (one_link-ok r.run_id l u of_run open_still of_task) in
    (
      c,
      (
        passed,
        refl,
        refl,
        refl,
        refl,
        rw (end_valid, failed_run-ok r clock valid utc after) (rw passed refl),
      ),
      Carries-reloaded load l t c (refl, refl, refl),
    )
finalize_failed_run-EndsFailed clock load applied r cid none (some t) run known utc after =
    absurd (ground arith)
finalize_failed_run-EndsFailed clock load applied r cid (some l) none run known utc after =
    absurd (ground arith)

-- ===== src/Recovery/Total.antt =====
-- `recover_pending` of src/mini_agent/application/restart_recovery_service.py makes a command that passes
-- its validation for each closure that passes its own.
use mini_agent.Recovery.Audit.{validate_recovery}
use mini_agent.Recovery.Covers.{expected_of, active_in, block_tasks-covers, AllBlocking}
use mini_agent.Recovery.Projected.{ended}
use mini_agent.Recovery.Service.{recover_pending, RecoveryWriteResult, is_applied}
use mini_agent.Recovery.Command.{RecoveryCommand}
use mini_agent.Recovery.Applies.{run_transition-ok_iff, Blockable}
use mini_agent.Recovery.Stages.{
  TaskStage, CallStage, quiet_tasks, quiet_calls, ready_call, finish_mark, blocked_stage, staged,
  idle_stage, command,
}
use mini_agent.Recovery.{TaskTransition, RunTaskLink, InterruptCall}
use mini_agent.Recovery.Shape.{Calls, run_of_closure, validate_recovery_closure-Shaped, Shaped}
use mini_agent.Recovery.Traced.{
  IsFresh, Traced, Traced-stop, Traced-change, Traced-call, Traced-both,
}
use mini_agent.Prelude.Texts.{Uuid}
use mini_agent.Recovery.Closure.{
  RestartRecoveryClosure, validate_recovery_closure, call_of, task_of,
}
use mini_agent.Recovery.Plan.{
  is_active_task, run_transition, interruption, interrupted_of, marking, blocking,
}
use mini_agent.Prelude.{
  some, nat_eq, list_eq, option_eq, pair_eq, [], ◌∷◌, ◌+◌, refl, ◌⊎◌, ◌≡◌, inl, inr, ◌&&◌, ℕ, Bool,
  true, ◌≢◌, is_ok, not, arith, List, all, ok, map, Bool-cases, select,
}
use mini_agent.Clock.{time_eq, DateTime, is_utc, earlier}
use mini_agent.Tasks.{blocked, task_status_eq, TaskStatus}
use cubical.Cubical.Foundations.Prelude.{subst}

-- The recovery is at a time in UTC that is not before what the closure's records say of their last change
-- or, for the run and the calls, of their start.
unfoldable pub not_before : DateTime → RestartRecoveryClosure → Bool
not_before now c =
    is_utc now
    && not (earlier now c.active_run_record.started_at)
    && all (λ a. not (earlier now a.task_record.updated_at)) c.task_aggregates
    && all (λ u. not (earlier now u.updated_at)) c.request_unit_records
    && all (λ k. not (earlier now k.tool_call_record.started_at)) c.tool_call_aggregates

active-unblocked : (s : TaskStatus) → is_active_task s ≡ true → s ≢ blocked
unfolding is_active_task
active-unblocked s h e = ground arith

module _ (f : ℕ → Uuid) (fresh : IsFresh f) (now : DateTime) (c : RestartRecoveryClosure)
    (valid : is_ok (validate_recovery_closure c) ≡ true) (late : not_before now c ≡ true) where
  utc : is_utc now ≡ true
  unfolding not_before
  utc = ground arith

  marked : run_transition now c.active_run_record ≡ ok (marking now c.active_run_record)
  unfolding not_before
  marked =
      let (run, active, no_reason) = run_of_closure c valid in
      (run_transition-ok_iff now c.active_run_record (marking now c.active_run_record)).1
        (refl, (run, active, no_reason, utc, ground arith))

  call_stage :
      Calls c.tool_call_aggregates
      → (ks : List InterruptCall) × CallStage f fresh now c ks
        × ((ks ≡ [])
            ⊎ ((k : InterruptCall) × (ks ≡ k ∷ []) × (k.interrupted_record.finished_at ≡ some now)))
  unfolding not_before interruption interrupted_of
  call_stage (inl e) = ([], quiet_calls f fresh now c e, inl refl)
  call_stage (inr (k, e, (call, active, one, failure, result))) =
      let started =
        subst (λ ks. all (λ a. not (earlier now a.tool_call_record.started_at)) ks ≡ true) e
          (ground arith) in
      (
        interruption now k.tool_call_record ∷ [],
        ready_call f fresh now c k e (call, active, one, failure, result, utc, ground arith),
        inr (interruption now k.tool_call_record, refl, refl),
      )

  abbrev Found : List TaskTransition → Type 0
  Found ts =
      (ts ≡ [])
      ⊎ ((t : TaskTransition) × (ts ≡ t ∷ []) × (t.task_state_transition.changed_at ≡ now))

  task_stage :
      Shaped c
      → (ts : List TaskTransition) × (ls : List RunTaskLink) × TaskStage f fresh now c ts ls
        × Found ts
  unfolding not_before blocking
  task_stage (inl (el, ea, eu, _)) = ([], [], quiet_tasks f fresh now c ea eu el, inl refl)
  task_stage (inr (l, a, u, el, ea, eu, together, _)) =
      elim (Bool-cases (is_active_task a.task_record.status)) [
        | inl active ↦ (
          blocking now (f 0) a.task_record u ∷ [],
          ended l (a.task_record.state_version + 1) ∷ [],
          blocked_stage f fresh now c l a u el ea eu together active (able active),
          inr (blocking now (f 0) a.task_record u, refl, changed),
        )
        | inr idle ↦ (
          [],
          ended l a.task_record.state_version ∷ [],
          idle_stage f fresh now c l a u el ea eu together idle,
          inl refl,
        )
      ]
    where
      changed : (blocking now (f 0) a.task_record u).task_state_transition.changed_at ≡ now
      changed = refl

      able : is_active_task a.task_record.status ≡ true → Blockable now a.task_record u
      able active =
          let (of_task, of_unit, _, owned, version, status, _, _) = together in
          let after_task =
            subst (λ ts. all (λ b. not (earlier now b.task_record.updated_at)) ts ≡ true) ea
              (ground arith) in
          let after_unit =
            subst (λ us. all (λ b. not (earlier now b.updated_at)) us ≡ true) eu (ground arith) in
          (
            of_task,
            of_unit,
            owned,
            version,
            status,
            active-unblocked a.task_record.status active,
            utc,
            ground arith,
            ground arith,
          )

  trace_stage :
      (ts : List TaskTransition) (ks : List InterruptCall) (ls : List RunTaskLink)
      → Found ts
      → ((ks ≡ [])
          ⊎ ((k : InterruptCall) × (ks ≡ k ∷ []) × (k.interrupted_record.finished_at ≡ some now)))
      → Traced f fresh now c
          (marking now c.active_run_record)
          ls
          (finish_mark f fresh now c)
          utc
          ts
          ks
  trace_stage ts ks ls (inl et) (inl ek) =
      rw (et, ek)
        (Traced-stop f fresh now c (marking now c.active_run_record) ls (finish_mark f fresh now c)
          utc)
  trace_stage ts ks ls (inr (t, et, at)) (inl ek) =
      rw (et, ek)
        (Traced-change f fresh now c (marking now c.active_run_record) ls
          (finish_mark f fresh now c) utc t at)
  trace_stage ts ks ls (inl et) (inr (k, ek, end)) =
      rw (et, ek)
        (Traced-call f fresh now c (marking now c.active_run_record) ls (finish_mark f fresh now c)
          utc k end)
  trace_stage ts ks ls (inr (t, et, at)) (inr (k, ek, end)) =
      rw (et, ek)
        (Traced-both f fresh now c (marking now c.active_run_record) ls (finish_mark f fresh now c)
          utc k end t at)

  found_of : Shaped c → Calls c.tool_call_aggregates
  found_of (inl (_, _, _, none_left)) = inl none_left
  found_of (inr (_, _, _, _, _, _, _, calls)) = calls

-- What the command of a recovery does to its closure: the run is marked at the time of the recovery, and
-- exactly the closure's calls and active tasks are taken up, the tasks one version on and blocked.
abbrev pub Recovers : DateTime → RestartRecoveryClosure → RecoveryCommand → Type 0
Recovers now c d =
    (d.expected_closure ≡ c)
    × (d.run_transition ≡ marking now c.active_run_record)
    × (map (λ k. k.active_record) d.tool_call_transitions ≡ map call_of c.tool_call_aggregates)
    × (map expected_of d.task_transitions ≡ select active_in (map task_of c.task_aggregates))
    × AllBlocking now d.task_transitions
    × (validate_recovery d ≡ ok d)

-- For a closure that passes its validation, a factory that never repeats a UUID and a time in UTC that is
-- not before those of its records, `recover_pending` makes a command that passes its own validation and
-- recovers the closure, gives it to the port, and is ready exactly if the port applied it.
pub recover_pending-Recovers :
    (f : ℕ → Uuid) (now : DateTime) (c : RestartRecoveryClosure)
    (claim_and_apply : RecoveryCommand → RecoveryWriteResult)
    → IsFresh f
    → is_ok (validate_recovery_closure c) ≡ true
    → not_before now c ≡ true
    → (d : RecoveryCommand) × Recovers now c d
      × (recover_pending claim_and_apply f now (some c)
          ≡ ok record {
            ready = is_applied (claim_and_apply d);
            closure_found = true;
            write_result = some (claim_and_apply d);
          })
unfolding recover_pending
recover_pending-Recovers f now c claim_and_apply fresh valid late =
    let shape = validate_recovery_closure-Shaped c valid in
    let (ks, calls, found_calls) =
      call_stage f fresh now c valid late (found_of f fresh now c valid late shape) in
    let (ts, ls, tasks, found) = task_stage f fresh now c valid late shape in
    let traced = trace_stage f fresh now c valid late ts ks ls found found_calls in
    let (_, _, _, _, same_calls) = calls in
    let (tasks_made, _, _, _, _, _, _, _) = tasks in
    let (es, made, passed) =
      staged f fresh now c valid (utc f fresh now c valid late) (marked f fresh now c valid late) ts
        ks ls calls tasks traced in
    let (taken_up, all_blocking) =
      block_tasks-covers now c.request_unit_records f 0 (map task_of c.task_aggregates) ts
        tasks_made in
    (
      command f fresh now c ts ks ls es,
      (refl, refl, same_calls, taken_up, all_blocking, passed),
      rw made refl,
    )

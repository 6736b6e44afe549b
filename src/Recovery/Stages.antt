-- ===== src/Recovery/Stages.antt =====
-- The stages of `recover_pending` in src/mini_agent/application/restart_recovery_service.py, each by what it
-- makes and by the tests of src/mini_agent/application/records.py that its result passes.
use mini_agent.Recovery.Applies.{Blockable, block-ok_iff}
use mini_agent.Recovery.Facts.{Together}
use mini_agent.Recovery.Projected.{
  no_calls, one_call, no_tasks, no_links, ended, ended-valid, idle_task, idle_end, idle_link,
  blocked_one, blocked_end, blocked_link, reached-regresses, valid-version,
}
use mini_agent.Recovery.Interrupts.{Interruptible, interrupt_of-ok_iff}
use mini_agent.Recovery.Aggregates.{ToolCallRecoveryAggregate, TaskRecoveryAggregate}
use mini_agent.Recovery.Audit.{validate_recovery, check_trace}
use mini_agent.Recovery.{validate_link}
use mini_agent.Recovery.Service.{recovery_of, trace_events, end_links, admit}
use mini_agent.Recovery.Exact.{run_beq_refl}
use mini_agent.Runs.{TraceEvent, validate_event}
use mini_agent.Recovery.Plan.{
  marking, interrupt_of, block_tasks, run_transition, interruption, is_active_task, unit_by_task,
  block, blocking, incomplete_of,
}
use mini_agent.Recovery.{
  InterruptCall, TaskTransition, RunTaskLink, validate_mark, validate_interrupt, validate_apply,
  validate_link,
}
use mini_agent.Tools.Call.{ToolCallRecord}
use mini_agent.Recovery.Command.{
  command_fields_valid, check_projections, RecoveryCommand, check_call_transitions,
  check_task_transitions, check_terminal_links,
}
use mini_agent.Recovery.Traced.{IsFresh, Traced}
use mini_agent.Prelude.Texts.{Uuid}
use mini_agent.Recovery.Closure.{
  RestartRecoveryClosure, validate_recovery_closure, call_of, task_of,
}
use mini_agent.Prelude.{
  some, nat_eq, list_eq, option_eq, pair_eq, [], ◌∷◌, ◌+◌, refl, ◌≡◌, ℕ, List, is_ok, map, traverse,
  true, all, ok, leb, length, false, nat_beq_iff, arith,
}
use mini_agent.Clock.{time_eq, DateTime, is_utc}
use mini_agent.Tasks.{task_status_eq, TaskRecord, RequestUnitRecord}

module _ (f : ℕ → Uuid) (fresh : IsFresh f) (now : DateTime) (c : RestartRecoveryClosure) where
  abbrev pub calls : List ToolCallRecord
  calls = map call_of c.tool_call_aggregates

  abbrev pub tasks : List TaskRecord
  tasks = map task_of c.task_aggregates

  abbrev pub CallStage : List InterruptCall → Type 0
  CallStage ks =
      (traverse (interrupt_of now) calls ≡ ok ks)
      × (leb (length ks) 1 ≡ true)
      × (all (λ k. is_ok (validate_interrupt k)) ks ≡ true)
      × (check_call_transitions calls ks ≡ ok tt)
      × (map (λ k. k.active_record) ks ≡ calls)

  abbrev pub TaskStage : List TaskTransition → List RunTaskLink → Type 0
  TaskStage ts ls =
      (block_tasks now c.request_unit_records f 0 tasks ≡ ok ts)
      × (leb (length ts) 1 ≡ true)
      × (all (λ t. is_ok (validate_apply t)) ts ≡ true)
      × (check_task_transitions tasks c.request_unit_records ts ≡ ok tt)
      × (end_links ts tasks c.run_task_links ≡ ok ls)
      × (leb (length ls) 1 ≡ true)
      × (all (λ l. is_ok (validate_link l)) ls ≡ true)
      × (check_terminal_links c.run_task_links tasks ts ls ≡ ok tt)

  abbrev pub command :
      List TaskTransition
      → List InterruptCall
      → List RunTaskLink
      → List TraceEvent
      → RecoveryCommand
  command ts ks ls es = record {
    expected_closure = c;
    run_transition = marking now c.active_run_record;
    tool_call_transitions = ks;
    task_transitions = ts;
    terminal_run_task_links = ls;
    recovery_trace_events = es;
  }

  fields_hold :
      (ts : List TaskTransition) (ks : List InterruptCall) (ls : List RunTaskLink)
      (es : List TraceEvent)
      → is_ok (validate_recovery_closure c) ≡ true
      → is_ok (validate_mark (marking now c.active_run_record)) ≡ true
      → CallStage ks
      → TaskStage ts ls
      → leb 1 (length es) ≡ true
      → leb (length es) 3 ≡ true
      → all (λ e. is_ok (validate_event e)) es ≡ true
      → command_fields_valid (command ts ks ls es) ≡ true
  unfolding command_fields_valid
  fields_hold ts ks ls es valid marked (_, few_k, valid_k, _, _)
        (_, few_t, valid_t, _, _, few_l, valid_l, _) some_e few_e valid_e =
      rw (valid, marked, few_k, valid_k, few_t, valid_t, few_l, valid_l, some_e, few_e, valid_e)
        refl

  projections_hold :
      (ts : List TaskTransition) (ks : List InterruptCall) (ls : List RunTaskLink)
      (es : List TraceEvent)
      → CallStage ks
      → TaskStage ts ls
      → check_projections (command ts ks ls es) ≡ ok tt
  unfolding check_projections marking
  projections_hold ts ks ls es (_, _, _, calls_hold, _) (_, _, _, tasks_hold, _, _, _, links_hold) =
      rw (run_beq_refl c.active_run_record, calls_hold, tasks_hold, links_hold) refl

  accepted :
      (d : RecoveryCommand)
      → command_fields_valid d ≡ true
      → check_projections d ≡ ok tt
      → check_trace d ≡ ok tt
      → validate_recovery d ≡ ok d
  unfolding validate_recovery
  accepted d fields projections trace = rw (fields, projections, trace) refl

  admitted : (d : RecoveryCommand) → validate_recovery d ≡ ok d → admit d ≡ ok d
  unfolding admit
  admitted d h = rw (admit, h) refl

  module _
      (marked : run_transition now c.active_run_record ≡ ok (marking now c.active_run_record)) where
    whole :
        (ts : List TaskTransition) (ks : List InterruptCall) (ls : List RunTaskLink)
        (es : List TraceEvent)
        → CallStage ks
        → TaskStage ts ls
        → trace_events f c.active_run_record.run_id now ts ks ≡ ok es
        → validate_recovery (command ts ks ls es) ≡ ok (command ts ks ls es)
        → recovery_of f now c ≡ ok (command ts ks ls es)
    unfolding recovery_of
    whole ts ks ls es k t traced passed =
        let (calls_made, _, _, _, _) = k in
        let (tasks_made, _, _, _, links_made, _, _, _) = t in
        rw (marked, calls_made, tasks_made, links_made, traced)
          (admitted (command ts ks ls es) passed)

  -- The stages of a closure, by its shape.
  pub quiet_calls : c.tool_call_aggregates ≡ [] → CallStage []
  unfolding traverse
  quiet_calls e = rw e (refl, refl, refl, no_calls, refl)

  pub ready_call :
      (k : ToolCallRecoveryAggregate)
      → c.tool_call_aggregates ≡ k ∷ []
      → Interruptible now k.tool_call_record
      → CallStage (interruption now k.tool_call_record ∷ [])
  unfolding traverse interrupt_of
  ready_call k e h =
      let made =
        (interrupt_of-ok_iff now k.tool_call_record (interruption now k.tool_call_record)).1
          (refl, h) in
      rw e (rw made refl, refl, rw made refl, one_call now k.tool_call_record, refl)

  pub quiet_tasks :
      c.task_aggregates ≡ [] → c.request_unit_records ≡ [] → c.run_task_links ≡ [] → TaskStage [] []
  unfolding block_tasks end_links traverse
  quiet_tasks ea eu el =
      rw (ea, eu, el) (refl, refl, refl, no_tasks, refl, refl, refl, no_links [] [])

  module _ (l : RunTaskLink) (a : TaskRecoveryAggregate) (u : RequestUnitRecord)
      (el : c.run_task_links ≡ l ∷ []) (ea : c.task_aggregates ≡ a ∷ [])
      (eu : c.request_unit_records ≡ u ∷ []) (together : Together a.task_record u l) where
    pub idle_stage :
        is_active_task a.task_record.status ≡ false
        → TaskStage [] (ended l a.task_record.state_version ∷ [])
    unfolding block_tasks
    idle_stage idle =
        let (valid, _, valid_link, _, _, _, same, base) = together in
        let link =
          ended-valid l a.task_record.state_version valid_link
            (reached-regresses l.base_task_state_version a.task_record a.task_record.state_version
              base (omega arith))
            (let one = valid-version a.task_record valid in ground arith) in
        rw (ea, eu, el)
          (
            rw idle refl,
            refl,
            refl,
            idle_task a.task_record u idle,
            idle_end l a.task_record same link,
            refl,
            rw link refl,
            idle_link l a.task_record same,
          )

    pub blocked_stage :
        is_active_task a.task_record.status ≡ true
        → Blockable now a.task_record u
        → TaskStage
            (blocking now (f 0) a.task_record u ∷ [])
            (ended l (a.task_record.state_version + 1) ∷ [])
    unfolding block_tasks unit_by_task block
    blocked_stage active able =
        let (valid, _, valid_link, owned, _, _, same, base) = together in
        let link =
          ended-valid l (a.task_record.state_version + 1) valid_link
            (reached-regresses l.base_task_state_version a.task_record
              (a.task_record.state_version + 1) base (omega arith))
            (ground arith) in
        let made =
          (block-ok_iff now (f 0) a.task_record u (blocking now (f 0) a.task_record u)).1
            (refl, able) in
        let found = (nat_beq_iff u.task_id a.task_record.task_id).1 owned in
        rw (ea, eu, el)
          (
            rw (active, found, made) refl,
            refl,
            rw made refl,
            blocked_one now (f 0) a.task_record u active owned,
            blocked_end l a.task_record same now (f 0) u link,
            refl,
            rw link refl,
            blocked_link l a.task_record same now (f 0) u,
          )

  mark_valid :
      run_transition now c.active_run_record ≡ ok (marking now c.active_run_record)
      → is_ok (validate_mark (marking now c.active_run_record)) ≡ true
  unfolding run_transition
  mark_valid h = rw h refl

  pub finish_mark : (marking now c.active_run_record).incomplete_record.completed_at ≡ some now
  unfolding marking incomplete_of
  finish_mark = refl

  module _ (valid : is_ok (validate_recovery_closure c) ≡ true) (utc : is_utc now ≡ true)
      (marked : run_transition now c.active_run_record ≡ ok (marking now c.active_run_record))
      (ts : List TaskTransition) (ks : List InterruptCall) (ls : List RunTaskLink) where
    pub staged :
        CallStage ks
        → TaskStage ts ls
        → Traced f fresh now c (marking now c.active_run_record) ls finish_mark utc ts ks
        → (es : List TraceEvent) × (recovery_of f now c ≡ ok (command ts ks ls es))
          × (validate_recovery (command ts ks ls es) ≡ ok (command ts ks ls es))
    staged k t (es, recorded, checked, some_e, few_e, valid_e) =
        let fields = fields_hold ts ks ls es valid (mark_valid marked) k t some_e few_e valid_e in
        let passed =
          accepted (command ts ks ls es) fields (projections_hold ts ks ls es k t) checked in
        (es, whole marked ts ks ls es k t recorded passed, passed)

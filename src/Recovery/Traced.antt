-- ===== src/Recovery/Traced.antt =====
-- The trace events of `recover_pending` in src/mini_agent/application/restart_recovery_service.py pass the
-- tests of src/mini_agent/application/records.py.
use mini_agent.Recovery.Command.{RecoveryCommand}
use mini_agent.Prelude.{
  refl, beq_refl, some, ◌∷◌, [], ℕ, ◌≢◌, Bool-cases, inl, eq_of_beq, inr, leb, length, all,
}
use mini_agent.Recovery.Closure.{RestartRecoveryClosure}
use mini_agent.Recovery.Exact.{other_fields_blank, rest_is_blank}
use mini_agent.Recovery.Audit.{
  check_trace, check_stop, check_changes, check_interruptions, transition_key,
}
use mini_agent.Recovery.{TaskTransition, MarkIncomplete, InterruptCall, RunTaskLink}
use mini_agent.Prelude.Texts.{Uuid}
use mini_agent.Recovery.Service.{
  stop_event, change_event, interruption_event, trace_events, events_from, record_interruption,
  record_change,
}
use mini_agent.Runs.{validate_event, event_fields_valid, TraceEvent}
use mini_agent.Prelude.{
  List, nat_eq, list_eq, option_eq, pair_eq, ◌≡◌, true, ok, arith, option_beq, ◌==◌, false,
  contains, distinct, subset, same_set, lookup, List, some, is_ok, ◌∷◌, [],
}
use mini_agent.Clock.{time_eq, DateTime, is_utc}
use mini_agent.Tools.Call.{status_eq}

stop_event-ok :
    (run_id : Uuid) (now : DateTime) (id : Uuid)
    → is_utc now ≡ true
    → validate_event (stop_event run_id now id) ≡ ok (stop_event run_id now id)
unfolding validate_event event_fields_valid stop_event
stop_event-ok run_id now id h = ground arith

change_event-ok :
    (run_id : Uuid) (t : TaskTransition) (id : Uuid)
    → is_utc t.task_state_transition.changed_at ≡ true
    → validate_event (change_event run_id t id) ≡ ok (change_event run_id t id)
unfolding validate_event event_fields_valid change_event
change_event-ok run_id t id h = ground arith

interruption_event-ok :
    (run_id call_id id : Uuid) (now : DateTime)
    → is_utc now ≡ true
    → validate_event (interruption_event run_id call_id id now)
      ≡ ok (interruption_event run_id call_id id now)
unfolding validate_event event_fields_valid interruption_event option_beq
interruption_event-ok run_id call_id id now h = ground arith

stop-ok :
    (run_id : Uuid) (now : DateTime) (id : Uuid)
    → check_stop (some now) (stop_event run_id now id ∷ []) ≡ ok tt
unfolding check_stop stop_event option_beq
stop-ok run_id now id = rw (beq_refl now) refl

change-ok :
    (run_id : Uuid) (t : TaskTransition) (id : Uuid)
    → check_changes (t ∷ []) (change_event run_id t id ∷ []) ≡ ok tt
unfolding check_changes change_event contains distinct subset same_set lookup
change-ok run_id t id =
    rw (beq_refl (transition_key t), beq_refl (some t.task_state_transition.changed_at)) refl

interruption-ok :
    (run_id : Uuid) (k : InterruptCall) (id : Uuid) (now : DateTime)
    → k.interrupted_record.finished_at ≡ some now
    → check_interruptions
        (k ∷ [])
        (interruption_event run_id k.interrupted_record.tool_call_id id now ∷ [])
      ≡ ok tt
unfolding check_interruptions interruption_event contains distinct subset same_set lookup option_beq
interruption-ok run_id k id now e =
    rw (e, beq_refl k.interrupted_record.tool_call_id, beq_refl now) refl

-- The UUIDs of the factory from number `n` on are distinct.
abbrev pub IsFresh : (ℕ → Uuid) → Type 0
IsFresh f = (i j : ℕ) → f i ≡ f j → i ≡ j

pub fresh-apart : (f : ℕ → Uuid) (i j : ℕ) → IsFresh f → i ≢ j → (f i == f j) ≡ false
fresh-apart f i j fresh other = elim (Bool-cases (f i == f j)) [
  | inl same ↦ absurd (other (fresh i j (eq_of_beq (f i) (f j) same)))
  | inr b ↦ b
]

module _ (f : ℕ → Uuid) (fresh : IsFresh f) (now : DateTime) (closure : RestartRecoveryClosure)
    (m : MarkIncomplete) (links : List RunTaskLink)
    (done : m.incomplete_record.completed_at ≡ some now) (utc : is_utc now ≡ true) where
  abbrev run_id : Uuid
  run_id = closure.active_run_record.run_id

  abbrev with_trace : List TaskTransition → List InterruptCall → List TraceEvent → RecoveryCommand
  with_trace ts ks es = record {
    expected_closure = closure;
    run_transition = m;
    tool_call_transitions = ks;
    task_transitions = ts;
    terminal_run_task_links = links;
    recovery_trace_events = es;
  }

  trace_of_both :
      (t : TaskTransition) (k : InterruptCall)
      → k.interrupted_record.finished_at ≡ some now
      → check_trace (
          with_trace (t ∷ []) (k ∷ []) (
            stop_event run_id now (f 1)
            ∷ change_event run_id t (f 2)
            ∷ interruption_event run_id k.interrupted_record.tool_call_id (f 3) now
            ∷ []))
        ≡ ok tt
  unfolding check_trace other_fields_blank rest_is_blank stop_event change_event interruption_event
      contains distinct option_beq
  trace_of_both t k e =
      rw
        (
          fresh-apart f 2 1 fresh (omega arith),
          fresh-apart f 3 1 fresh (omega arith),
          fresh-apart f 3 2 fresh (omega arith),
          beq_refl run_id,
          done,
          stop-ok run_id now (f 1),
          change-ok run_id t (f 2),
          interruption-ok run_id k (f 3) now e,
        )
        refl

  trace_of_change :
      (t : TaskTransition)
      → check_trace
          (with_trace (t ∷ []) [] (stop_event run_id now (f 1) ∷ change_event run_id t (f 2) ∷ []))
        ≡ ok tt
  unfolding check_trace other_fields_blank rest_is_blank stop_event change_event contains distinct
      option_beq check_interruptions same_set subset
  trace_of_change t =
      rw
        (
          fresh-apart f 2 1 fresh (omega arith),
          beq_refl run_id,
          done,
          stop-ok run_id now (f 1),
          change-ok run_id t (f 2),
        )
        refl

  trace_of_call :
      (k : InterruptCall)
      → k.interrupted_record.finished_at ≡ some now
      → check_trace (
          with_trace [] (k ∷ []) (
            stop_event run_id now (f 0)
            ∷ interruption_event run_id k.interrupted_record.tool_call_id (f 1) now
            ∷ []))
        ≡ ok tt
  unfolding check_trace other_fields_blank rest_is_blank stop_event interruption_event contains
      distinct option_beq check_changes same_set subset
  trace_of_call k e =
      rw
        (
          fresh-apart f 1 0 fresh (omega arith),
          beq_refl run_id,
          done,
          stop-ok run_id now (f 0),
          interruption-ok run_id k (f 1) now e,
        )
        refl

  trace_of_stop : check_trace (with_trace [] [] (stop_event run_id now (f 0) ∷ [])) ≡ ok tt
  unfolding check_trace other_fields_blank rest_is_blank stop_event contains distinct option_beq
      check_changes check_interruptions same_set subset
  trace_of_stop = rw (beq_refl run_id, done, stop-ok run_id now (f 0)) refl

  -- The events are recorded, pass the tests next to the command, and are one to three.
  abbrev pub Traced : List TaskTransition → List InterruptCall → Type 0
  Traced ts ks =
      (es : List TraceEvent) × (trace_events f run_id now ts ks ≡ ok es)
      × (check_trace (with_trace ts ks es) ≡ ok tt)
      × (leb 1 (length es) ≡ true)
      × (leb (length es) 3 ≡ true)
      × (all (λ e. is_ok (validate_event e)) es ≡ true)

  pub Traced-stop : Traced [] []
  unfolding trace_events events_from
  Traced-stop = (
    _,
    rw (stop_event-ok run_id now (f 0) utc) refl,
    trace_of_stop,
    refl,
    refl,
    rw (stop_event-ok run_id now (f 0) utc) refl,
  )

  module _ (k : InterruptCall) (end : k.interrupted_record.finished_at ≡ some now) where
    pub Traced-call : Traced [] (k ∷ [])
    unfolding trace_events events_from record_interruption
    Traced-call =
        let recorded =
          interruption_event-ok run_id k.interrupted_record.tool_call_id (f 1) now utc in
        (
          _,
          rw (stop_event-ok run_id now (f 0) utc, end, recorded) refl,
          trace_of_call k end,
          refl,
          refl,
          rw (stop_event-ok run_id now (f 0) utc, recorded) refl,
        )

    module _ (t : TaskTransition) (at : t.task_state_transition.changed_at ≡ now) where
      pub Traced-both : Traced (t ∷ []) (k ∷ [])
      unfolding trace_events events_from record_interruption record_change
      Traced-both =
          let changed = change_event-ok run_id t (f 2) (rw at utc) in
          let recorded =
            interruption_event-ok run_id k.interrupted_record.tool_call_id (f 3) now utc in
          (
            _,
            rw (stop_event-ok run_id now (f 1) utc, changed, end, recorded) refl,
            trace_of_both t k end,
            refl,
            refl,
            rw (stop_event-ok run_id now (f 1) utc, changed, recorded) refl,
          )

  pub Traced-change :
      (t : TaskTransition) → t.task_state_transition.changed_at ≡ now → Traced (t ∷ []) []
  unfolding trace_events events_from record_change
  Traced-change t at =
      let changed = change_event-ok run_id t (f 2) (rw at utc) in
      (
        _,
        rw (stop_event-ok run_id now (f 1) utc, changed) refl,
        trace_of_change t,
        refl,
        refl,
        rw (stop_event-ok run_id now (f 1) utc, changed) refl,
      )

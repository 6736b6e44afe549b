-- ===== src/Recovery/Facts.antt =====
-- What the tests of `RestartRecoveryClosure` in src/mini_agent/application/records.py leave of lists with at
-- most one entry.
use mini_agent.Recovery.{RunTaskLink, validate_link}
use mini_agent.Recovery.Aggregates.{
  validate_call_aggregate, validate_task_aggregate, ToolCallRecoveryAggregate,
  TaskRecoveryAggregate,
}
use mini_agent.Tools.Call.{ToolCallRecord, validate_call, is_terminal}
use mini_agent.Recovery.Closure.{
  RestartRecoveryClosure, validate_recovery_closure, closure_fields_valid, check_run,
  check_run_links, task_of, check_conversation_links, check_units, check_calls, call_of, task_by_id,
  exceeds, GraphError,
}
use mini_agent.Prelude.Texts.{Uuid}
use mini_agent.Prelude.{
  nat_eq, list_eq, option_eq, pair_eq, [], ◌∷◌, refl, ◌⊎◌, ◌≡◌, inl, inr, List, same_set, leb,
  subset, length, contains, true, map, arith, is_ok, >>-is_ok, nat_beq_iff, false, none, some, Bool,
  raise_if, not,
}
use mini_agent.Tasks.{
  task_status_eq, TaskRecord, RequestUnitRecord, validate_task, validate_request_unit,
}

module _ {ℓ} {A : Type ℓ} (key : A → Uuid) where
  pub emptied : (xs : List A) → same_set (map key xs) [] ≡ true → xs ≡ []
  unfolding same_set subset contains
  emptied [] h = refl
  emptied (x ∷ xs) h = absurd (ground arith)

  pub paired :
      (xs : List A) (i : Uuid)
      → leb (length xs) 1 ≡ true
      → same_set (map key xs) (i ∷ []) ≡ true
      → (x : A) × (xs ≡ x ∷ []) × (key x ≡ i)
  unfolding same_set subset contains
  paired [] i h s = absurd (ground arith)
  paired (x ∷ []) i h s = (x, refl, ground arith)
  paired (x ∷ y ∷ xs) i h s = absurd (ground arith)

pub one_at_most {ℓ} :
    {A : Type ℓ} (xs : List A) → leb (length xs) 1 ≡ true → (xs ≡ []) ⊎ ((x : A) × (xs ≡ x ∷ []))
one_at_most [] h = inl refl
one_at_most (x ∷ []) h = inr (x, refl)
one_at_most (x ∷ y ∷ xs) h = absurd (ground arith)

-- What the stages of the validation found.
abbrev pub Checked : RestartRecoveryClosure → Type 0
Checked c =
    (closure_fields_valid c ≡ true)
    × (is_ok (check_run c) ≡ true)
    × (is_ok (
          check_run_links c.active_run_record.run_id (map task_of c.task_aggregates)
            c.run_task_links)
        ≡ true)
    × (is_ok (
          check_conversation_links c.conversation_record.conversation_id
            (map task_of c.task_aggregates) c.conversation_task_links)
        ≡ true)
    × (is_ok (check_units (map task_of c.task_aggregates) c.request_unit_records) ≡ true)
    × (is_ok (
          check_calls c.active_run_record.run_id (map task_of c.task_aggregates)
            c.request_unit_records (map call_of c.tool_call_aggregates))
        ≡ true)

unbroken : (b : Bool) → is_ok {E = GraphError} (raise_if (not b) GraphError.field) ≡ true → b ≡ true
unbroken true h = refl
unbroken false h = h

pub stages : (c : RestartRecoveryClosure) → is_ok (validate_recovery_closure c) ≡ true → Checked c
unfolding validate_recovery_closure
stages c h =
    let (fields, h1) = >>-is_ok _ _ h in
    let (of_run, h2) = >>-is_ok _ _ h1 in
    let (_, h3) = >>-is_ok _ _ h2 in
    let (links, h4) = >>-is_ok _ _ h3 in
    let (conversation, h5) = >>-is_ok _ _ h4 in
    let (units, h6) = >>-is_ok _ _ h5 in
    let (_, h7) = >>-is_ok _ _ h6 in
    let (calls, _) = >>-is_ok _ _ h7 in
    (unbroken (closure_fields_valid c) fields, of_run, links, conversation, units, calls)

-- A call that is valid and active, with no failure, no result and no second attempt.
abbrev pub IsReady : ToolCallRecord → Type 0
IsReady r =
    (is_ok (validate_call r) ≡ true)
    × (is_terminal r.status ≡ false)
    × (leb r.attempt_count 1 ≡ true)
    × (r.failure_code ≡ none)
    × (r.result_ref ≡ none)

pub aggregate-IsReady :
    (a : ToolCallRecoveryAggregate)
    → is_ok (validate_call_aggregate a) ≡ true
    → is_terminal a.tool_call_record.status ≡ false
    → IsReady a.tool_call_record
unfolding validate_call_aggregate
aggregate-IsReady a h active = (ground arith, active, ground arith, ground arith, ground arith)

pub task_aggregate-valid :
    (a : TaskRecoveryAggregate)
    → is_ok (validate_task_aggregate a) ≡ true
    → is_ok (validate_task a.task_record) ≡ true
unfolding validate_task_aggregate
task_aggregate-valid a h = ground arith

-- What holds of the one task of a closure, its unit and the link of its run.
abbrev pub Together : TaskRecord → RequestUnitRecord → RunTaskLink → Type 0
Together t u l =
    (is_ok (validate_task t) ≡ true)
    × (is_ok (validate_request_unit u) ≡ true)
    × (is_ok (validate_link l) ≡ true)
    × (u.task_id ≡ t.task_id)
    × (u.state_version ≡ t.state_version)
    × (u.status ≡ t.status)
    × (l.task_id ≡ t.task_id)
    × (exceeds l.base_task_state_version (some t) ≡ false)

pub one_link :
    (run_id : Uuid) (t : TaskRecord) (l : RunTaskLink)
    → is_ok (check_run_links run_id (t ∷ []) (l ∷ [])) ≡ true
    → l.task_id ≡ t.task_id
    → exceeds l.base_task_state_version (some t) ≡ false
unfolding check_run_links task_by_id
one_link run_id t l h e = ground (arith, nat_beq_iff t.task_id l.task_id)

pub one_unit :
    (t : TaskRecord) (u : RequestUnitRecord)
    → is_ok (check_units (t ∷ []) (u ∷ [])) ≡ true
    → u.task_id ≡ t.task_id
    → (u.state_version ≡ t.state_version) × (u.status ≡ t.status)
unfolding check_units task_by_id
one_unit t u h e =
    ground (arith, nat_beq_iff t.task_id u.task_id, task_status_eq.beq_iff u.status t.status)

pub active_call :
    (run_id : Uuid) (ts : List TaskRecord) (us : List RequestUnitRecord) (r : ToolCallRecord)
    → is_ok (check_calls run_id ts us (r ∷ [])) ≡ true
    → is_terminal r.status ≡ false
unfolding check_calls
active_call run_id ts us r h = ground arith

pub no_call_alone :
    (run_id : Uuid) (us : List RequestUnitRecord) (r : ToolCallRecord)
    → is_ok (check_calls run_id [] us (r ∷ [])) ≡ false
unfolding check_calls task_by_id
no_call_alone run_id us r = ground arith

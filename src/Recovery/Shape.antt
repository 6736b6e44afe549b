-- ===== src/Recovery/Shape.antt =====
-- The two shapes of a closure that `RestartRecoveryClosure` of src/mini_agent/application/records.py accepts:
-- a run alone, or a run with one task, its unit and its links, and at most one tool call.
use mini_agent.Recovery.Facts.{
  IsReady, Together, no_call_alone, aggregate-IsReady, Checked, stages, active_call, emptied,
  paired, one_at_most, one_link, one_unit, task_aggregate-valid,
}
use mini_agent.Runs.{validate_run, is_active_run}
use mini_agent.Recovery.{RunTaskLink, validate_link}
use mini_agent.Recovery.Aggregates.{
  validate_call_aggregate, validate_task_aggregate, ToolCallRecoveryAggregate,
  TaskRecoveryAggregate,
}
use cubical.Cubical.Foundations.Prelude.{subst}
use mini_agent.Recovery.Closure.{
  RestartRecoveryClosure, validate_recovery_closure, closure_fields_valid, check_run,
  check_run_links, task_of, check_units, check_calls, call_of, task_id_of,
}
use mini_agent.Prelude.Texts.{Uuid}
use mini_agent.Prelude.{
  nat_eq, list_eq, option_eq, pair_eq, [], ◌∷◌, refl, ◌⊎◌, ◌≡◌, inl, inr, List, same_set, leb,
  length, true, map, arith, is_ok, none, all,
}
use mini_agent.Tasks.{task_status_eq, TaskRecord, RequestUnitRecord, validate_request_unit}

-- No call, or one that is ready.
abbrev pub Calls : List ToolCallRecoveryAggregate → Type 0
Calls ks =
    (ks ≡ []) ⊎ ((k : ToolCallRecoveryAggregate) × (ks ≡ k ∷ []) × IsReady k.tool_call_record)

abbrev pub Quiet : RestartRecoveryClosure → Type 0
Quiet c =
    (c.run_task_links ≡ [])
    × (c.task_aggregates ≡ [])
    × (c.request_unit_records ≡ [])
    × (c.tool_call_aggregates ≡ [])

abbrev pub Single : RestartRecoveryClosure → Type 0
Single c =
    (l : RunTaskLink) × (a : TaskRecoveryAggregate) × (u : RequestUnitRecord) × (c.run_task_links
      ≡ l ∷ [])
    × (c.task_aggregates ≡ a ∷ [])
    × (c.request_unit_records ≡ u ∷ [])
    × Together a.task_record u l
    × Calls c.tool_call_aggregates

links_set :
    (run_id : Uuid) (ts : List TaskRecord) (ls : List RunTaskLink)
    → is_ok (check_run_links run_id ts ls) ≡ true
    → same_set (map (λ l. l.task_id) ls) (map task_id_of ts) ≡ true
unfolding check_run_links
links_set run_id ts ls h = ground arith

units_set :
    (ts : List TaskRecord) (us : List RequestUnitRecord)
    → is_ok (check_units ts us) ≡ true
    → same_set (map (λ u. u.task_id) us) (map task_id_of ts) ≡ true
unfolding check_units
units_set ts us h = ground arith

calls_alone :
    (run_id : Uuid) (us : List RequestUnitRecord) (ks : List ToolCallRecoveryAggregate)
    → leb (length ks) 1 ≡ true
    → is_ok (check_calls run_id [] us (map call_of ks)) ≡ true
    → ks ≡ []
calls_alone run_id us [] few h = refl
calls_alone run_id us (k ∷ []) few h =
    absurd (let no = no_call_alone run_id us k.tool_call_record in cc)
calls_alone run_id us (k ∷ l ∷ ks) few h = absurd (ground arith)

ready_one :
    (run_id : Uuid) (ts : List TaskRecord) (us : List RequestUnitRecord)
    (ks : List ToolCallRecoveryAggregate)
    → leb (length ks) 1 ≡ true
    → all (λ a. is_ok (validate_call_aggregate a)) ks ≡ true
    → is_ok (check_calls run_id ts us (map call_of ks)) ≡ true
    → Calls ks
ready_one run_id ts us [] few valid h = inl refl
ready_one run_id ts us (k ∷ []) few valid h =
    inr
      (k, refl, aggregate-IsReady k (ground arith) (active_call run_id ts us k.tool_call_record h))
ready_one run_id ts us (k ∷ l ∷ ks) few valid h = absurd (ground arith)

-- What `closure_fields_valid` says of the lists that the recovery reads.
fields_lists :
    (c : RestartRecoveryClosure)
    → closure_fields_valid c ≡ true
    → (leb (length c.run_task_links) 1 ≡ true)
      × (all (λ l. is_ok (validate_link l)) c.run_task_links ≡ true)
      × (leb (length c.task_aggregates) 1 ≡ true)
      × (all (λ a. is_ok (validate_task_aggregate a)) c.task_aggregates ≡ true)
      × (leb (length c.request_unit_records) 1 ≡ true)
      × (all (λ u. is_ok (validate_request_unit u)) c.request_unit_records ≡ true)
      × (leb (length c.tool_call_aggregates) 1 ≡ true)
      × (all (λ a. is_ok (validate_call_aggregate a)) c.tool_call_aggregates ≡ true)
unfolding closure_fields_valid
fields_lists c h = ground arith

alone : (c : RestartRecoveryClosure) → Checked c → c.task_aggregates ≡ [] → Quiet c
alone c (fields, _, links, _, units, calls) e =
    let (_, _, _, _, _, _, few, _) = fields_lists c fields in
    (
      emptied (λ l. l.task_id) c.run_task_links
          (subst
            (λ ts.
              same_set (map (λ l. l.task_id) c.run_task_links) (map task_id_of (map task_of ts))
              ≡ true)
            e
            (links_set c.active_run_record.run_id (map task_of c.task_aggregates) c.run_task_links
              links)),
      e,
      emptied (λ u. u.task_id) c.request_unit_records
          (subst
            (λ ts.
              same_set (map (λ u. u.task_id) c.request_unit_records)
                (map task_id_of (map task_of ts))
              ≡ true)
            e (units_set (map task_of c.task_aggregates) c.request_unit_records units)),
      calls_alone c.active_run_record.run_id c.request_unit_records c.tool_call_aggregates few (
          subst
            (λ ts.
              is_ok (
                check_calls c.active_run_record.run_id (map task_of ts) c.request_unit_records
                  (map call_of c.tool_call_aggregates))
              ≡ true)
            e calls),
    )

accompanied :
    (c : RestartRecoveryClosure) (a : TaskRecoveryAggregate)
    → Checked c
    → c.task_aggregates ≡ a ∷ []
    → Single c
accompanied c a (fields, _, links, _, units, calls) e =
    let (few_links, valid_links, _, valid_task, few_units, valid_units, few_calls, valid_calls) =
      fields_lists c fields in
    let links_one =
      subst
        (λ ts.
          is_ok (check_run_links c.active_run_record.run_id (map task_of ts) c.run_task_links)
          ≡ true)
        e links in
    let units_one =
      subst (λ ts. is_ok (check_units (map task_of ts) c.request_unit_records) ≡ true) e units in
    let (l, el, kl) =
      paired (λ l. l.task_id) c.run_task_links a.task_record.task_id few_links
        (links_set c.active_run_record.run_id (a.task_record ∷ []) c.run_task_links links_one) in
    let (u, eu, ku) =
      paired (λ u. u.task_id) c.request_unit_records a.task_record.task_id few_units
        (units_set (a.task_record ∷ []) c.request_unit_records units_one) in
    let base =
      one_link c.active_run_record.run_id a.task_record l
        (subst
          (λ ls. is_ok (check_run_links c.active_run_record.run_id (a.task_record ∷ []) ls) ≡ true)
          el links_one)
        kl in
    let (version, status) =
      one_unit a.task_record u
        (subst (λ us. is_ok (check_units (a.task_record ∷ []) us) ≡ true) eu units_one) ku in
    let valid_a =
      subst (λ ts. all (λ b. is_ok (validate_task_aggregate b)) ts ≡ true) e valid_task in
    let valid_l = subst (λ ls. all (λ b. is_ok (validate_link b)) ls ≡ true) el valid_links in
    let valid_u =
      subst (λ us. all (λ b. is_ok (validate_request_unit b)) us ≡ true) eu valid_units in
    (
      l,
      a,
      u,
      el,
      e,
      eu,
      (
        task_aggregate-valid a (ground arith),
        ground arith,
        ground arith,
        ku,
        version,
        status,
        kl,
        base,
      ),
      ready_one c.active_run_record.run_id (map task_of c.task_aggregates) c.request_unit_records
          c.tool_call_aggregates few_calls valid_calls calls,
    )

-- A run alone, or with one task.
abbrev pub Shaped : RestartRecoveryClosure → Type 0
Shaped c = Quiet c ⊎ Single c

-- A closure that passes its validation is a run alone, or a run with one task, a unit and a link of that
-- task, all valid and at one version and in one status, and at most one call, which is active and has no
-- failure, no result and no second attempt.
pub validate_recovery_closure-Shaped :
    (c : RestartRecoveryClosure) → is_ok (validate_recovery_closure c) ≡ true → Shaped c
validate_recovery_closure-Shaped c h =
    let checked = stages c h in
    let (_, _, few, _, _, _, _, _) = fields_lists c checked.0 in
    elim (one_at_most c.task_aggregates few) [
      | inl none_left ↦ inl (alone c checked none_left)
      | inr (a, one) ↦ inr (accompanied c a checked one)
    ]

fields_run :
    (c : RestartRecoveryClosure)
    → closure_fields_valid c ≡ true
    → is_ok (validate_run c.active_run_record) ≡ true
unfolding closure_fields_valid
fields_run c h = ground arith

active_run :
    (c : RestartRecoveryClosure)
    → is_ok (check_run c) ≡ true
    → (is_active_run c.active_run_record.status ≡ true)
      × (c.active_run_record.incomplete_reason ≡ none)
unfolding check_run
active_run c h = (ground arith, ground arith)

-- The run of a closure is valid, active and without a reason for being incomplete.
pub run_of_closure :
    (c : RestartRecoveryClosure)
    → is_ok (validate_recovery_closure c) ≡ true
    → (is_ok (validate_run c.active_run_record) ≡ true)
      × (is_active_run c.active_run_record.status ≡ true)
      × (c.active_run_record.incomplete_reason ≡ none)
run_of_closure c h =
    let (fields, run, _, _, _, _) = stages c h in
    let (active, no_reason) = active_run c run in (fields_run c fields, active, no_reason)

-- ===== src/Recovery/Covers.antt =====
-- Which tasks `recover_pending` of src/mini_agent/application/restart_recovery_service.py blocks.
use mini_agent.Recovery.Applies.{block-ok_iff}
use mini_agent.Prelude.Texts.{Uuid}
use mini_agent.Recovery.Plan.{
  is_active_task, block, block_tasks, blocking, blocked_task, unit_by_task, blocked_unit, take_up,
  Transitions,
}
use mini_agent.Clock.{DateTime}
use mini_agent.Recovery.{TaskTransition, RecoveryError}
use mini_agent.Prelude.{
  ◌⊎◌, ◌≡◌, inl, inr, nat_eq, list_eq, option_eq, ◌∷◌, [], refl, ap, sym, ◌∙◌, Bool, ◌≡◌, List, ◌+◌,
  ℕ, true, false, ok, map, suc, select, Option, ok_injective, some, inl, none, >>=-eq-ok, inr,
  Result,
}
use mini_agent.Tasks.{blocked, task_status_eq, TaskRecord, RequestUnitRecord}
use cubical.Cubical.Foundations.Prelude.{subst}

abbrev pub expected_of : TaskTransition → TaskRecord
expected_of c = c.expected_task_record

abbrev pub active_in : TaskRecord → Bool
active_in t = is_active_task t.status

-- The next task and unit are blocked, one version on, at the time of the recovery.
abbrev pub IsBlocking : DateTime → TaskTransition → Type 0
IsBlocking now c =
    (c.next_task_record.status ≡ blocked)
    × (c.next_request_unit_record.status ≡ blocked)
    × (c.next_task_record.state_version ≡ c.expected_task_record.state_version + 1)
    × (c.next_request_unit_record.state_version ≡ c.next_task_record.state_version)
    × (c.next_task_record.updated_at ≡ now)

abbrev pub AllBlocking : DateTime → List TaskTransition → Type 0
AllBlocking now [] = Unit {0}
AllBlocking now (c ∷ cs) = IsBlocking now c × AllBlocking now cs

take_up-ok :
    (b : Bool) (x : Result RecoveryError TaskTransition) (y z : Transitions)
    (cs : List TaskTransition)
    → take_up b x y z ≡ ok cs
    → ((b ≡ true)
        × (c : TaskTransition) × (rest : List TaskTransition) × (x ≡ ok c)
        × (y ≡ ok rest)
        × (c ∷ rest ≡ cs))
      ⊎ ((b ≡ false) × (z ≡ ok cs))
unfolding take_up
take_up-ok true x y z cs h =
    let (c, e, h1) = >>=-eq-ok x _ h in
    let (rest, k, h2) = >>=-eq-ok y _ h1 in inl (refl, c, rest, e, k, ok_injective _ _ h2)
take_up-ok false x y z cs h = inr (refl, h)

module _ (now : DateTime) (units : List RequestUnitRecord) (uuid_factory : ℕ → Uuid) where
  block-Blocking :
      (ref : Uuid) (t : TaskRecord) (o : Option RequestUnitRecord) (c : TaskTransition)
      → block now ref t o ≡ ok c
      → (c.expected_task_record ≡ t) × IsBlocking now c
  unfolding block blocking blocked_task blocked_unit
  block-Blocking ref t none c h = absurd (cc)
  block-Blocking ref t (some u) c h =
      let (e, (_, _, _, version, _, _, _, _, _)) = (block-ok_iff now ref t u c).0 h in
      (
        sym (ap (λ b. b.expected_task_record) e),
        subst (IsBlocking now) e (refl, refl, refl, ap (λ v. v + 1) version, refl),
      )

  covers :
      (n : ℕ) (ts : List TaskRecord) (cs : List TaskTransition)
      → block_tasks now units uuid_factory n ts ≡ ok cs
      → (map expected_of cs ≡ select active_in ts) × AllBlocking now cs
  unfolding block_tasks
  covers n [] cs h =
      subst (λ ds. (map expected_of ds ≡ []) × AllBlocking now ds) (ok_injective _ _ h) (refl, tt)
  covers n (t ∷ ts) cs h =
      elim (take_up-ok (is_active_task t.status)
        (block now (uuid_factory n) t (unit_by_task units t.task_id))
        (block_tasks now units uuid_factory (suc n) ts) (block_tasks now units uuid_factory n ts) cs
        h) [
          | inl (a, c, rest, e, k, whole) ↦
              let (same, one) =
                block-Blocking (uuid_factory n) t (unit_by_task units t.task_id) c e in
              let (more, others) = covers (suc n) ts rest k in
              rw a (
                subst (λ ds. (map expected_of ds ≡ t ∷ select active_in ts) × AllBlocking now ds)
                  whole
                  (ap (λ s. s ∷ map expected_of rest) same ∙ ap (λ r. t ∷ r) more, (one, others)))
          | inr (a, k) ↦ rw a (covers n ts cs k)
        ]

-- If the plan is made, it takes up exactly the active tasks of the closure, in their order, and leaves
-- each of them and its unit blocked, together one version on, at the time of the recovery.
pub block_tasks-covers :
    (now : DateTime) (units : List RequestUnitRecord) (uuid_factory : ℕ → Uuid) (n : ℕ)
    (ts : List TaskRecord) (cs : List TaskTransition)
    → block_tasks now units uuid_factory n ts ≡ ok cs
    → (map expected_of cs ≡ select active_in ts) × AllBlocking now cs
block_tasks-covers now units uuid_factory n ts cs h = covers now units uuid_factory n ts cs h

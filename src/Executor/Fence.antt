-- ===== src/Executor/Fence.antt =====
-- src/mini_agent/application/read_tool_executor.py: the dispatch and the durable fence before it.
use mini_agent.Executor.Conforms.{execute_get_order-Legal}
use mini_agent.Executor.{execute_get_order}
use mini_agent.Tools.Call.{ToolCallRecord}
use mini_agent.Executor.Records.{Request}
use mini_agent.Executor.Effects.{
  returned, fence_applied, Event, dispatch, start_call, Reply, Ports, InsertOnlyWriteResult, Lookup,
  ConditionalWriteResult, ObservationWriteResult, ToolDispatchFenceWriteResult,
}
use cubical.Cubical.Foundations.Prelude.{subst}
use mini_agent.Executor.Protocol.{
  after_dispatch, idle, recorded, fenced, Phase, Step, Runs, after_insert, after_finalize,
  after_save, after_interrupt, after_start,
}
use mini_agent.Executor.Protocol.{insert, start, ask, close, save, interrupt, trace, here, next}
use mini_agent.Prelude.{refl, List, ℕ, ◌∷◌, ◌++◌, ◌≡◌, ◌+◌, [], ◌≤◌, arith}

-- 1 for a call of the order service, 0 for any other call.
abbrev pub dispatch_of : Event → ℕ
dispatch_of (dispatch t query r) = 1
dispatch_of e = 0

-- 1 for a start of the attempt that was applied, 0 for any other call.
abbrev pub fence_of : Event → ℕ
fence_of (start_call r (returned fence_applied)) = 1
fence_of e = 0

abbrev pub total : (Event → ℕ) → List Event → ℕ
total f [] = 0
total f (e ∷ l) = f e + total f l

abbrev pub dispatches : List Event → ℕ
dispatches l = total dispatch_of l

abbrev pub fences : List Event → ℕ
fences l = total fence_of l

total-snoc : (f : Event → ℕ) (l : List Event) (e : Event) → total f (l ++ e ∷ []) ≡ total f l + f e
total-snoc f [] e = omega arith
total-snoc f (x ∷ l) e = let h = total-snoc f l e in omega arith

-- How often either has happened in a phase.
abbrev Counts : Phase → ℕ → ℕ → Type 0
Counts idle d f = (d ≡ 0) × (f ≡ 0)
Counts recorded d f = (d ≡ 0) × (f ≡ 0)
Counts fenced d f = (d ≡ 0) × (f ≡ 1)
Counts a d f = (d ≤ f) × (f ≤ 1)

insert-Counts :
    (r : Reply InsertOnlyWriteResult) (d f : ℕ)
    → (d ≡ 0) × (f ≡ 0)
    → Counts (after_insert r) (d + 0) (f + 0)
insert-Counts r d f h = ground arith

dispatch-Counts :
    (r : Reply Lookup) (d f : ℕ) → (d ≡ 0) × (f ≡ 1) → Counts (after_dispatch r) (d + 1) (f + 0)
dispatch-Counts r d f h = ground arith

finalize-Counts :
    (r : Reply ConditionalWriteResult) (d f : ℕ)
    → (d ≤ f) × (f ≤ 1)
    → Counts (after_finalize r) (d + 0) (f + 0)
finalize-Counts r d f h = ground arith

save-Counts :
    (r : Reply ObservationWriteResult) (d f : ℕ)
    → (d ≤ f) × (f ≤ 1)
    → Counts (after_save r) (d + 0) (f + 0)
save-Counts r d f h = ground arith

interrupt-Counts :
    (r : Reply ConditionalWriteResult) (d f : ℕ)
    → (d ≤ f) × (f ≤ 1)
    → Counts (after_interrupt r) (d + 0) (f + 0)
interrupt-Counts r d f h = ground arith

start-Counts :
    (t : ToolCallRecord) (r : Reply ToolDispatchFenceWriteResult) (d f : ℕ)
    → (d ≡ 0) × (f ≡ 0)
    → Counts (after_start r) (d + 0) (f + fence_of (start_call t r))
start-Counts t r d f h = ground arith

step-Counts :
    {q : Request} {a b : Phase} {e : Event} (d f : ℕ)
    → Step q a e b
    → Counts a d f
    → Counts b (d + dispatch_of e) (f + fence_of e)
step-Counts d f (insert r reply s k is_b) c =
    subst (λ b. Counts b (d + 0) (f + 0)) is_b (insert-Counts reply d f c)
step-Counts d f (start r reply s is_b) c =
    subst (λ b. Counts b (d + 0) (f + fence_of (start_call r reply))) is_b
      (start-Counts r reply d f c)
step-Counts d f (ask t query reply i j k l is_b) c =
    subst (λ b. Counts b (d + 1) (f + 0)) is_b (dispatch-Counts reply d f c)
step-Counts d f (close r reply s is_b) c =
    subst (λ b. Counts b (d + 0) (f + 0)) is_b (finalize-Counts reply d f c)
step-Counts d f (save o reply is_b) c =
    subst (λ b. Counts b (d + 0) (f + 0)) is_b (save-Counts reply d f c)
step-Counts d f (interrupt r reply s is_b) c =
    subst (λ b. Counts b (d + 0) (f + 0)) is_b (interrupt-Counts reply d f c)
step-Counts d f (trace e reply is) c = omega arith

Runs-Counts :
    {q : Request} {l : List Event} {a : Phase} → Runs q l a → Counts a (dispatches l) (fences l)
Runs-Counts here = (refl, refl)
Runs-Counts (next {l} {b} e h s) =
    rw (total-snoc dispatch_of l e, total-snoc fence_of l e)
      (step-Counts (dispatches l) (fences l) s (Runs-Counts h))

within : (a : Phase) (d f : ℕ) → Counts a d f → (d ≤ f) × (f ≤ 1)
within a d f h = ground arith

-- In every execution, from an empty log, the order service is called at most as often as a start of
-- the attempt was applied, and that is at most once.
pub execute_get_order-single_dispatch :
    {W : Type 0} (p : Ports W) (q : Request) (world : W)
    → let l = (execute_get_order p q (record { world = world; log = [] })).1.log in
      (dispatches l ≤ fences l) × (fences l ≤ 1)
execute_get_order-single_dispatch p q world =
    let h = execute_get_order-Legal p q world in within h.0 _ _ (Runs-Counts h.1)

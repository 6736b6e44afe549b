-- ===== src/Json/Heap.antt =====
-- src/mini_agent/core/common.py: `freeze_json_value`. A Python value that holds containers by
-- reference is an address of a heap, so that containers may be shared, or hold themselves.
pub mod Total
pub mod Unfolding
use mini_agent.Prelude.{
  ℕ, zero, suc, ◌+◌, Bool, true, false, not, Option, none, some, List, [], ◌∷◌, nat_eq, contains,
  length, get_elem?, if◌then◌else◌, Result, ok, err, ◌>>=◌, ◌>>◌, raise_if,
}
use mini_agent.Prelude.Texts.{Text}
use mini_agent.Json.{
  Float, finite, Scalar, float, Json, scalar, arr, obj, Items, nil, cons, Fields, end, field,
}

pub data Value : Type 0 where
  atom : Scalar → Value
  container : ℕ → Value

-- The containers that `isinstance` tells apart as `Mapping` and `Sequence`.
pub data Cell : Type 0 where
  mapping : List (Text × Value) → Cell
  sequence : List Value → Cell

abbrev pub Heap : Type 0
Heap = List Cell

-- `out_of_fuel` and `dangling` are the model's own: the first never comes back (`Heap.Total`), and
-- Python has no reference without an object.
pub data FreezeError : Type 0 where
  cyclic not_finite out_of_fuel dangling : FreezeError

unfoldable pub is_finite : Scalar → Bool
is_finite (float (finite u)) = true
is_finite (float f) = false
is_finite s = true

unfoldable pub freeze_items :
    (Value → Result FreezeError Json) → List Value → Result FreezeError Items
freeze_items go [] = ok nil
freeze_items go (v ∷ vs) = do x ← go v; xs ← freeze_items go vs; ok (cons x xs)

unfoldable pub freeze_fields :
    (Value → Result FreezeError Json) → List (Text × Value) → Result FreezeError Fields
freeze_fields go [] = ok end
freeze_fields go ((key, v) ∷ kvs) = do x ← go v; xs ← freeze_fields go kvs; ok (field key x xs)

unfoldable pub freeze_cell :
    (Value → Result FreezeError Json) → Option Cell → Result FreezeError Json
unfolding freeze_items freeze_fields
freeze_cell go none = err dangling
freeze_cell go (some (mapping kvs)) = do fs ← freeze_fields go kvs; ok (obj fs)
freeze_cell go (some (sequence vs)) = do xs ← freeze_items go vs; ok (arr xs)

-- `active` is `active_container_ids`: an address is added for the time in which its items are
-- frozen, so the calls on the items take it as an argument.
unfoldable pub freeze_value : ℕ → Heap → List ℕ → Value → Result FreezeError Json
unfolding is_finite freeze_cell
freeze_value zero h active v = err out_of_fuel
freeze_value (suc fuel) h active (atom s) = do
  raise_if (not (is_finite s)) not_finite
  ok (scalar s)
freeze_value (suc fuel) h active (container a) =
    let frozen = freeze_cell (freeze_value fuel h (a ∷ active)) (get_elem? h a) in
    if contains a active then err cyclic else frozen

-- Each nested call has one more address of the heap in `active`, so one round for each address, and
-- one for the call itself, are enough.
unfoldable pub freeze_json_value : Heap → Value → Result FreezeError Json
unfolding freeze_value
freeze_json_value h v = freeze_value (length h + 1) h [] v

-- ===== src/Examples/Values.antt =====
-- JSON values, order numbers and times.
use mini_agent.Json.Heap.Total.{freeze-ne-out_of_fuel}
use mini_agent.Order.Number.Laws.{normalize_order_id_idempotent, normalize_order_id-ok_iff}
use mini_agent.Order.Number.{normalize_order_id, is_order_id}
use mini_agent.Prelude.Texts.{casefold, Text, codes, strip, is_space}
use mini_agent.Prelude.{
  refl, ◌≡◌, ok, ◌≢◌, some, none, ◌∷◌, ◌↔◌, err, true, [], false, ◌⊎◌, contains, list_beq,
}
use mini_agent.Json.Heap.{
  cyclic, mapping, sequence, container, atom, Heap, freeze_json_value, out_of_fuel,
}
use mini_agent.Json.Heap.Unfolding.{freeze_iff, Unfolds}
use mini_agent.Json.Trusted.{find_trusted-some, find_trusted-none_iff, HasKey}
use mini_agent.Json.{
  field, end, cons, nil, find_trusted_argument_field, is_trusted, null, Json, arr, scalar, obj, str,
}

-- One container that two keys share, and one that holds itself.
abbrev heap : Heap
heap =
    mapping ((codes "a", container 1) ∷ (codes "b", container 1) ∷ [])
    ∷ sequence (atom null ∷ [])
    ∷ sequence (container 2 ∷ [])
    ∷ []

abbrev shared : Json
shared =
    let list = arr (cons (scalar null) nil) in
    obj (field (codes "a") list (field (codes "b") list end))

freeze_iff_example :
    (freeze_json_value heap (container 0) ≡ ok shared) ↔ Unfolds heap (container 0) shared
freeze_iff_example = freeze_iff heap (container 0) shared

freeze-shared : freeze_json_value heap (container 0) ≡ ok shared
unfolding freeze_json_value contains
freeze-shared = refl

freeze-cyclic : freeze_json_value heap (container 2) ≡ err cyclic
unfolding freeze_json_value contains
freeze-cyclic = refl

freeze-ne-out_of_fuel_example : freeze_json_value heap (container 2) ≢ err out_of_fuel
freeze-ne-out_of_fuel_example = freeze-ne-out_of_fuel heap (container 2)

abbrev nested_key : Json
nested_key = arr (
    cons
      (obj (field (codes "order_id") (scalar null) (field (codes "Customer_ID") (scalar null) end)))
      nil)

nested_key-found : find_trusted_argument_field nested_key ≡ some (codes "customer_id")
unfolding find_trusted_argument_field is_trusted casefold contains list_beq
nested_key-found = refl

find_trusted-some_example :
    (k : Text) × HasKey k nested_key
    × (casefold k ≡ codes "customer_id")
    × (is_trusted (codes "customer_id") ≡ true)
find_trusted-some_example = find_trusted-some nested_key (codes "customer_id") nested_key-found

find_trusted-none_iff_example :
    (find_trusted_argument_field nested_key ≡ none)
    ↔ ((k : Text) → HasKey k nested_key → is_trusted (casefold k) ≡ false)
find_trusted-none_iff_example = find_trusted-none_iff nested_key

normalize_order_id-ok_iff_example :
    (normalize_order_id (scalar (str (codes " o-20260001 "))) ≡ ok (codes "O-20260001")) ↔ (
      (is_order_id (codes "O-20260001") ≡ true)
      × ((strip (codes " o-20260001 ") ≡ codes "O-20260001")
          ⊎ (strip (codes " o-20260001 ") ≡ codes "o-20260001")))
normalize_order_id-ok_iff_example =
    normalize_order_id-ok_iff (codes " o-20260001 ") (codes "O-20260001")

spaced_number : normalize_order_id (scalar (str (codes " o-20260001 "))) ≡ ok (codes "O-20260001")
unfolding normalize_order_id list_beq is_space
spaced_number = refl

normalize_order_id_idempotent_example :
    normalize_order_id (scalar (str (codes "O-20260001"))) ≡ ok (codes "O-20260001")
normalize_order_id_idempotent_example =
    normalize_order_id_idempotent (scalar (str (codes " o-20260001 "))) (codes "O-20260001")
      spaced_number

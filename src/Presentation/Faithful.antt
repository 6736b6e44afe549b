-- ===== src/Presentation/Faithful.antt =====
-- The answer of `render_order_summary` in src/mini_agent/application/deterministic_renderer.py holds every
-- fact that the code asks for.
use mini_agent.Runs.{
  goal_completed, not_found_or_not_accessible, input_invalid, gate_rejected,
  provider_protocol_error, order_service_unavailable, presentation_plan_rejected,
  renderer_invariant_failed, process_restart_detected, completed_outcome, StopReason,
}
use mini_agent.Observation.{OrderObservation}
use mini_agent.Presentation.Inside.{
  Inside, Inside-join_first, Inside-trans, is_in-Inside, Inside-join_later, Inside-left,
  Inside-same, Inside-right,
}
use mini_agent.Order.Lookup.{OrderSummaryProjection, OrderLineSummary}
use mini_agent.Prelude.Texts.{Text, codes, Uuid}
use mini_agent.Clock.{DateTime}
use mini_agent.Presentation.{
  is_in, opening, product_of, plan_valid, status_label, render_order_summary, closing,
  order_number_field, validate_presentation_plan, all_fields, status_field, is_model_visible,
  items_field, completed_result, map_result, AgentRunResult,
}
use mini_agent.Prelude.{
  Bool-cases, inl, inr, nat_eq, list_eq, ◌++◌, [], ◌∷◌, refl, ℕ, contains, List, ◌≡◌, true, map,
  eq_of_beq, arith, any, not, Bool-cases, ◌==◌, false, same_set, subset, ok, Option, some, ◌↔◌,
  none,
}
use mini_agent.Presentation.{
  field_eq, PresentationField, message_of, field_value, PresentationPlan, join, newline, item_text,
  is_in,
}

module _ (strftime : DateTime → Text) (decimal : ℕ → Text) (s : OrderSummaryProjection) where
  abbrev value : PresentationField → Text
  value = field_value strftime decimal s

  -- The text of a field stands in the joined parts.
  field-Inside :
      (f : PresentationField) (fs : List PresentationField) (rest : List Text)
      → contains f fs ≡ true
      → Inside (value f) (join newline (map value fs ++ rest))
  unfolding contains
  field-Inside f [] rest h = absurd (cc)
  field-Inside f (g ∷ []) rest h =
      rw (eq_of_beq g f (ground arith)) (Inside-join_first newline (value f) rest)
  field-Inside f (g ∷ k ∷ fs) rest h = elim (Bool-cases (g == f)) [
    | inl e ↦
        rw (eq_of_beq g f e) (Inside-join_first newline (value f) (map value (k ∷ fs) ++ rest))
    | inr e ↦
        Inside-trans (value f) (join newline (map value (k ∷ fs) ++ rest))
          (join newline (map value (g ∷ k ∷ fs) ++ rest))
          (field-Inside f (k ∷ fs) rest (ground arith))
          (Inside-join_later newline (value g) (value k) (map value fs ++ rest))
  ]

  behind-Inside :
      (f : PresentationField) (fs : List PresentationField) (start : Text) (rest : List Text)
      → contains f fs ≡ true
      → Inside (value f) (join newline (start ∷ (map value fs ++ rest)))
  unfolding contains
  behind-Inside f [] start rest h = absurd (cc)
  behind-Inside f (k ∷ fs) start rest h =
      Inside-trans (value f) (join newline (map value (k ∷ fs) ++ rest))
        (join newline (start ∷ (map value (k ∷ fs) ++ rest))) (field-Inside f (k ∷ fs) rest h)
        (Inside-join_later newline start (value k) (map value fs ++ rest))

  field-Inside_message :
      (f : PresentationField) (plan : PresentationPlan)
      → contains f plan.field_order ≡ true
      → Inside (value f) (message_of strftime decimal s plan)
  unfolding message_of
  field-Inside_message f plan h =
      behind-Inside f plan.field_order (opening plan.opening_variant) (closing plan.closing_variant)
        h

  product-In :
      (item : OrderLineSummary) (m : Text)
      → Inside (item_text strftime decimal item) m
      → is_in item.product_name m ≡ true
  product-In item m i = is_in-Inside item.product_name m (
      Inside-trans item.product_name (item_text strftime decimal item) m
        (Inside-left item.product_name item.product_name (codes " × " ++ decimal item.quantity)
          (Inside-same item.product_name))
        i)

  abbrev item_texts : List OrderLineSummary → List Text
  item_texts items = map (item_text strftime decimal) items

  products-In :
      (items : List OrderLineSummary) (m : Text)
      → Inside (join (codes "、") (item_texts items)) m
      → any (λ fact. not (is_in fact m)) (map product_of items) ≡ false
  unfolding join
  products-In [] m i = refl
  products-In (item ∷ []) m i = rw (product-In item m i) refl
  products-In (item ∷ next ∷ items) m i =
      let here =
        Inside-join_first (codes "、") (item_text strftime decimal item)
          (item_texts (next ∷ items)) in
      let later =
        Inside-join_later (codes "、") (item_text strftime decimal item)
          (item_text strftime decimal next) (item_texts items) in
      rw (product-In item m (Inside-trans _ _ m here i))
        (products-In (next ∷ items) m (Inside-trans _ _ m later i))

covered :
    (plan : PresentationPlan)
    → plan_valid plan ≡ true
    → (same_set plan.field_order all_fields ≡ true)
      × (contains order_number_field plan.field_order ≡ true)
      × (contains status_field plan.field_order ≡ true)
      × (contains items_field plan.field_order ≡ true)
unfolding plan_valid same_set subset
covered plan h = ground arith

module _ (strftime : DateTime → Text) (decimal : ℕ → Text) (s : OrderSummaryProjection)
    (plan : PresentationPlan) where
  -- The facts stand in the message.
  abbrev pub Tells : Type 0
  Tells =
      Inside s.order_number (message_of strftime decimal s plan)
      × Inside (status_label s.status) (message_of strftime decimal s plan)
      × (any (λ fact. not (is_in fact (message_of strftime decimal s plan)))
            (map product_of s.line_items)
          ≡ false)

  message-Tells : plan_valid plan ≡ true → Tells
  unfolding field_value
  message-Tells v =
      let (_, number, status, items) = covered plan v in
      let m = message_of strftime decimal s plan in
      (
        Inside-trans s.order_number (field_value strftime decimal s order_number_field) m
            (Inside-right s.order_number s.order_number (codes "订单号：") (Inside-same s.order_number))
            (field-Inside_message strftime decimal s order_number_field plan number),
        Inside-trans (status_label s.status) (field_value strftime decimal s status_field) m
            (Inside-right (status_label s.status) (status_label s.status) (codes "状态：")
              (Inside-same (status_label s.status)))
            (field-Inside_message strftime decimal s status_field plan status),
        products-In strftime decimal s s.line_items m (
            Inside-trans (join (codes "、") (map (item_text strftime decimal) s.line_items))
              (field_value strftime decimal s items_field) m
              (Inside-right _ _ (codes "商品：") (Inside-same _))
              (field-Inside_message strftime decimal s items_field plan items)),
      )

-- For a valid plan and an observation that the model may see, rendering never fails: the two checks after
-- the policy always hold, and the message tells the order number, the status and every product.
pub render-Tells :
    (strftime : DateTime → Text) (decimal : ℕ → Text) (o : OrderObservation)
    (plan : PresentationPlan)
    → plan_valid plan ≡ true
    → is_model_visible o.visibility ≡ true
    → (render_order_summary strftime decimal o plan
        ≡ ok (message_of strftime decimal o.normalized_value plan))
      × Tells strftime decimal o.normalized_value plan
unfolding render_order_summary validate_presentation_plan
render-Tells strftime decimal o plan v seen =
    let tells = message-Tells strftime decimal o.normalized_value plan v in
    let (number, status, products) = tells in
    let (same, _, _, _) = covered plan v in
    (rw (v, seen, same, is_in-Inside _ _ number, is_in-Inside _ _ status, products) refl, tells)

outcome_completed :
    (i : Uuid) (m : Option Text) (x : AgentRunResult)
    → completed_result i m ≡ ok x
    → x.outcome ≡ completed_outcome
unfolding completed_result
outcome_completed i none x h = cc
outcome_completed i (some s) x h = ground arith

-- A result is a completed one exactly if the run stopped because its goal was reached.
pub map_result-completed_iff :
    (i : Uuid) (r : StopReason) (m : Option Text) (x : AgentRunResult)
    → map_result i r m ≡ ok x
    → (x.outcome ≡ completed_outcome) ↔ (r ≡ goal_completed)
unfolding map_result
map_result-completed_iff i goal_completed m x h = (λ e. refl, λ e. outcome_completed i m x h)
map_result-completed_iff i not_found_or_not_accessible m x h = ground arith
map_result-completed_iff i input_invalid m x h = ground arith
map_result-completed_iff i gate_rejected m x h = ground arith
map_result-completed_iff i provider_protocol_error m x h = ground arith
map_result-completed_iff i order_service_unavailable m x h = ground arith
map_result-completed_iff i presentation_plan_rejected m x h = ground arith
map_result-completed_iff i renderer_invariant_failed m x h = ground arith
map_result-completed_iff i process_restart_detected m x h = ground arith

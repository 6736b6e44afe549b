-- ===== src/Presentation.antt =====
-- src/mini_agent/core/presentation.py, presentation_policy.py and src/mini_agent/application/deterministic_renderer.py:
-- the plan for an answer and the answer itself. `strftime` stands for the date in the format of the code,
-- `decimal` for the digits of a number.
pub mod Inside
pub mod Faithful
use mini_agent.Understanding.Span.{index_of}
use mini_agent.Runs.{
  AgentOutcome, StopReason, not_found_outcome, completed_outcome, blocked_outcome, goal_completed,
}
use mini_agent.Clock.{DateTime}
use mini_agent.Prelude.Texts.{Text, Uuid, codes}
use mini_agent.Observation.{ObservationVisibility, OrderObservation, model_visible}
use mini_agent.Prelude.{
  nat_eq, list_eq, ◌>>=◌, ◌>>◌, ◌&&◌, ◌||◌, ◌++◌, [], ◌∷◌, true, false, if◌then◌else◌, List, Bool,
  ◌≡◌, Eq, ◌↔◌, length, Result, is_empty, map, ℕ, Option, arith, ◌==◌, raise_if, is_some, err, ok,
  same_set, not, some, any, none, leb,
}
use mini_agent.Runs.{
  goal_completed, not_found_or_not_accessible, order_service_unavailable, completed_outcome,
  not_found_outcome, blocked_outcome,
}
use mini_agent.Order.Lookup.{
  OrderStatus, created_order, paid, fulfilling, shipped, delivered, cancelled_order,
  OrderLineSummary, OrderSummaryProjection,
}

pub data PresentationTone : Type 0 where
  neutral warm : PresentationTone

pub data OpeningVariant : Type 0 where
  direct acknowledge : OpeningVariant

pub data PresentationField : Type 0 where
  order_number_field status_field items_field ordered_at_field status_updated_at_field :
      PresentationField

pub data ClosingVariant : Type 0 where
  no_closing offer_follow_up : ClosingVariant

-- `schema_version` and `template_id` are literals with one value each, and are left out.
pub record PresentationPlan : Type 0 where
  pub tone : PresentationTone
  pub opening_variant : OpeningVariant
  pub field_order : List PresentationField
  pub closing_variant : ClosingVariant

abbrev pub field_beq : PresentationField → PresentationField → Bool
field_beq order_number_field order_number_field = true
field_beq status_field status_field = true
field_beq items_field items_field = true
field_beq ordered_at_field ordered_at_field = true
field_beq status_updated_at_field status_updated_at_field = true
field_beq _ _ = false

pub field_beq_iff : (a b : PresentationField) → (field_beq a b ≡ true) ↔ (a ≡ b)
field_beq_iff a b = ground arith

instance abbrev pub field_eq : Eq PresentationField
field_eq = record { beq = field_beq; beq_iff = field_beq_iff }

-- `set(PresentationField)`
abbrev pub all_fields : List PresentationField
all_fields =
    order_number_field ∷ status_field ∷ items_field ∷ ordered_at_field ∷ status_updated_at_field
    ∷ []

pub data PresentationError : Type 0 where
  plan_not_canonical unsafe_observation field_set_mismatch fact_missing message_required
        message_too_long :
      PresentationError

-- The field types and `field_order_contains_each_approved_field_once`
unfoldable pub plan_valid : PresentationPlan → Bool
plan_valid p = length p.field_order == 5 && same_set p.field_order all_fields

abbrev pub is_model_visible : ObservationVisibility → Bool
is_model_visible model_visible = true
is_model_visible v = false

unfoldable pub validate_presentation_plan :
    PresentationPlan → OrderObservation → Result PresentationError PresentationPlan
unfolding plan_valid
validate_presentation_plan plan observation = do
  raise_if (not (plan_valid plan)) plan_not_canonical
  raise_if (not (is_model_visible observation.visibility)) unsafe_observation
  ok plan

-- `_STATUS_LABELS`
abbrev pub status_label : OrderStatus → Text
status_label created_order = codes "已创建"
status_label paid = codes "已支付"
status_label fulfilling = codes "履约中"
status_label shipped = codes "已发货"
status_label delivered = codes "已送达"
status_label cancelled_order = codes "已取消"

-- `"\n"`
abbrev pub newline : Text
newline = 10 ∷ []

-- `separator.join(parts)`
unfoldable pub join : Text → List Text → Text
join separator [] = []
join separator (s ∷ []) = s
join separator (s ∷ t ∷ ts) = s ++ (separator ++ join separator (t ∷ ts))

-- `fact in message`
unfoldable pub is_in : Text → Text → Bool
is_in fact message = is_empty fact || is_some (index_of fact message)

abbrev pub product_of : OrderLineSummary → Text
product_of item = item.product_name

-- `required_facts`
abbrev pub required_facts : OrderSummaryProjection → List Text
required_facts s = s.order_number ∷ status_label s.status ∷ map product_of s.line_items

abbrev pub opening : OpeningVariant → Text
opening acknowledge = codes "已为你查到订单信息："
opening direct = codes "订单信息如下："

abbrev pub closing : ClosingVariant → List Text
closing offer_follow_up = codes "如需继续查询配送信息，请告诉我。" ∷ []
closing no_closing = []

module _ (strftime : DateTime → Text) (decimal : ℕ → Text) where
  abbrev pub item_text : OrderLineSummary → Text
  item_text item = item.product_name ++ (codes " × " ++ decimal item.quantity)

  -- `field_values`
  unfoldable pub field_value : OrderSummaryProjection → PresentationField → Text
  unfolding join
  field_value s order_number_field = codes "订单号：" ++ s.order_number
  field_value s status_field = codes "状态：" ++ status_label s.status
  field_value s items_field = codes "商品：" ++ join (codes "、") (map item_text s.line_items)
  field_value s ordered_at_field = codes "下单时间：" ++ strftime s.ordered_at
  field_value s status_updated_at_field = codes "状态更新时间：" ++ strftime s.status_updated_at

  unfoldable pub message_of : OrderSummaryProjection → PresentationPlan → Text
  unfolding field_value join
  message_of s plan = join newline (
      opening plan.opening_variant
      ∷ (map (field_value s) plan.field_order ++ closing plan.closing_variant))

  unfoldable pub render_order_summary :
      OrderObservation → PresentationPlan → Result PresentationError Text
  unfolding validate_presentation_plan message_of is_in
  render_order_summary observation plan = do
    validate_presentation_plan plan observation
    raise_if (not (same_set plan.field_order all_fields)) field_set_mismatch
    raise_if
        (any (λ fact. not (is_in fact (message_of observation.normalized_value plan)))
          (required_facts observation.normalized_value))
        fact_missing
    ok (message_of observation.normalized_value plan)

-- `AgentRunResult`, whose message has at most 4000 characters.
pub record AgentRunResult : Type 0 where
  pub run_id : Uuid
  pub outcome : AgentOutcome
  pub message : Text

unfoldable pub completed_result : Uuid → Option Text → Result PresentationError AgentRunResult
completed_result run_id none = err message_required
completed_result run_id (some message) = do
  raise_if (is_empty message) message_required
  raise_if (not (leb (length message) 4000)) message_too_long
  ok (record { run_id = run_id; outcome = completed_outcome; message = message })

unfoldable pub map_result :
    Uuid → StopReason → Option Text → Result PresentationError AgentRunResult
unfolding completed_result
map_result run_id goal_completed rendered_message = completed_result run_id rendered_message
map_result run_id not_found_or_not_accessible rendered_message = ok (record {
  run_id = run_id;
  outcome = not_found_outcome;
  message = codes "未找到可访问的订单，请核对订单号后重试。";
})
map_result run_id order_service_unavailable rendered_message =
    ok (record { run_id = run_id; outcome = blocked_outcome; message = codes "订单服务暂时不可用，请稍后重试。" })
map_result run_id stop_reason rendered_message =
    ok (record { run_id = run_id; outcome = blocked_outcome; message = codes "当前无法安全处理该请求，请稍后重试。" })

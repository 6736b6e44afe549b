-- ===== src/Order/Lookup.antt =====
-- src/mini_agent/core/order.py: the summary of an order, the query and its result.
use mini_agent.Prelude.{
  Bool, Result, Option, ℕ, List, not, ◌&&◌, is_empty, all, ◌||◌, leb, nat_eq, list_eq, ◌>>◌,
  raise_if, ok, is_some,
}
use mini_agent.Prelude.Texts.{Text, codes, digest_after, none_or, non_empty}
use mini_agent.Order.Number.{is_order_id}
use mini_agent.Clock.{DateTime, is_utc, earlier}

pub data OrderStatus : Type 0 where
  created_order paid fulfilling shipped delivered cancelled_order : OrderStatus

pub record OrderLineSummary : Type 0 where
  pub product_name : Text
  pub quantity : ℕ

pub record OrderSummaryProjection : Type 0 where
  pub order_number : Text
  pub status : OrderStatus
  pub line_items : List OrderLineSummary
  pub ordered_at : DateTime
  pub status_updated_at : DateTime

-- What a validator of this file raises; `field` stands for the constraints of single fields.
pub data OrderError : Type 0 where
  field update_before_order found_without_summary found_with_failure found_without_version :
      OrderError
  summary_not_found version_not_found disclosed_failure : OrderError

line_valid : OrderLineSummary → Bool
line_valid item = not (is_empty item.product_name) && leb 1 item.quantity

unfoldable pub summary_fields_valid : OrderSummaryProjection → Bool
unfolding line_valid
summary_fields_valid s =
    is_order_id s.order_number
    && all line_valid s.line_items
    && not (is_empty s.line_items)
    && is_utc s.ordered_at
    && is_utc s.status_updated_at

unfoldable pub validate_summary : OrderSummaryProjection → Result OrderError OrderSummaryProjection
unfolding summary_fields_valid
validate_summary s = do
  raise_if (not (summary_fields_valid s)) field
  raise_if (earlier s.status_updated_at s.ordered_at) update_before_order
  ok s

pub record GetOrderQuery : Type 0 where
  pub customer_id : Text
  pub order_id : Text

unfoldable pub validate_query : GetOrderQuery → Result OrderError GetOrderQuery
validate_query q = do raise_if (is_empty q.customer_id || not (is_order_id q.order_id)) field; ok q

pub data GetOrderOutcome : Type 0 where
  found not_found_or_not_accessible system_failure : GetOrderOutcome

pub record GetOrderResult : Type 0 where
  pub outcome : GetOrderOutcome
  pub order_summary : Option OrderSummaryProjection
  pub source_version : Option Text
  pub failure_code : Option Text

unfoldable pub is_source_version : Text → Bool
unfolding digest_after
is_source_version s = digest_after (codes "mock-order-source-version.p0.v1:sha256:") s

result_fields_valid : GetOrderResult → Bool
unfolding is_source_version
result_fields_valid r =
    none_or is_source_version r.source_version && none_or non_empty r.failure_code

-- `result_shape_matches_outcome`
shape_of : GetOrderOutcome → GetOrderResult → Result OrderError GetOrderResult
shape_of found r = do
  raise_if (not (is_some r.order_summary)) found_without_summary
  raise_if (is_some r.failure_code) found_with_failure
  raise_if (not (is_some r.source_version)) found_without_version
  ok r
shape_of not_found_or_not_accessible r = do
  raise_if (is_some r.order_summary) summary_not_found
  raise_if (is_some r.source_version) version_not_found
  raise_if (is_some r.failure_code) disclosed_failure
  ok r
shape_of system_failure r = do
  raise_if (is_some r.order_summary) summary_not_found
  raise_if (is_some r.source_version) version_not_found
  ok r

unfoldable pub validate_result : GetOrderResult → Result OrderError GetOrderResult
unfolding result_fields_valid shape_of
validate_result r = do raise_if (not (result_fields_valid r)) field; shape_of r.outcome r

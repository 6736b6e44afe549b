-- ===== src/Executor/Canonical.antt =====
-- src/mini_agent/application/read_tool_executor.py, `_canonical_get_order_result`: what the executor
-- makes of the object that the order service returns.
use mini_agent.Prelude.{
  Option, ◌≡◌, ok, true, arith, refl, some, Bool-cases, inl, inr, none, ok-of_is_ok,
}
use mini_agent.Executor.Records.{is_canonical, canonical_or_unavailable, unavailable}
use mini_agent.Order.Lookup.{
  validate_result, GetOrderResult, OrderSummaryProjection, validate_summary,
}

validate_result-ok : (r v : GetOrderResult) → validate_result r ≡ ok v → v ≡ r
unfolding validate_result
validate_result-ok r v h = ground arith

unavailable-ok : validate_result unavailable ≡ ok unavailable
unfolding validate_result unavailable
unavailable-ok = refl

unavailable-summary :
    (s : OrderSummaryProjection) → unavailable.order_summary ≡ some s → validate_summary s ≡ ok s
unfolding unavailable
unavailable-summary s h = cc

summary_of-ok : (s v : OrderSummaryProjection) → validate_summary s ≡ ok v → v ≡ s
unfolding validate_summary
summary_of-ok s v h = ground arith

-- A result that passes its validator, with a summary that passes its own.
abbrev pub IsValid : GetOrderResult → Type 0
IsValid r =
    (validate_result r ≡ ok r)
    × ((s : OrderSummaryProjection) → r.order_summary ≡ some s → validate_summary s ≡ ok s)

is_canonical-result : (r : GetOrderResult) → is_canonical r ≡ true → validate_result r ≡ ok r
unfolding is_canonical
is_canonical-result r h = ok-of_is_ok (validate_result r) r (validate_result-ok r) (ground arith)

is_canonical-summary :
    (r : GetOrderResult) (s : OrderSummaryProjection)
    → is_canonical r ≡ true
    → r.order_summary ≡ some s
    → validate_summary s ≡ ok s
unfolding is_canonical
is_canonical-summary r s h e = ok-of_is_ok (validate_summary s) s (summary_of-ok s) (ground arith)

-- Whatever the order service returns, the result that the executor goes on with passes its
-- validator, and so does the summary in it.
pub canonical-IsValid : (o : Option GetOrderResult) → IsValid (canonical_or_unavailable o)
unfolding canonical_or_unavailable
canonical-IsValid none = (unavailable-ok, unavailable-summary)
canonical-IsValid (some r) = elim (Bool-cases (is_canonical r)) [
  | inl e ↦ rw e (is_canonical-result r e, λ s. is_canonical-summary r s e)
  | inr e ↦ rw e (unavailable-ok, unavailable-summary)
]

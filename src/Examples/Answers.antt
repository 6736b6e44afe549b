-- ===== src/Examples/Answers.antt =====
-- An answer on one order with two products.
use mini_agent.Presentation.Faithful.{Tells, map_result-completed_iff, render-Tells}
use mini_agent.Order.Lookup.{shipped}
use mini_agent.Prelude.Texts.{Text, codes}
use mini_agent.Presentation.{
  PresentationPlan, plan_valid, render_order_summary, map_result, neutral, message_of,
  completed_result, direct, status_field, order_number_field, items_field, ordered_at_field,
  status_updated_at_field, no_closing,
}
use mini_agent.Observation.{OrderObservation, model_visible}
use mini_agent.Clock.{DateTime}
use mini_agent.Prelude.{
  nat_eq, list_eq, [], ◌∷◌, some, none, ok, refl, true, ℕ, ◌≡◌, same_set, ◌↔◌, subset, contains,
}
use mini_agent.Examples.Data.{moment}
use mini_agent.Runs.{goal_completed, completed_outcome}

abbrev date : DateTime → Text
date t = codes "2026-01-01 00:00 UTC"

abbrev digits : ℕ → Text
digits n = codes "1"

abbrev observation : OrderObservation
observation = record {
  observation_id = 50;
  source_resource_ref = codes "r";
  source_version = none;
  normalized_value = record {
    order_number = codes "O-20260001";
    status = shipped;
    line_items =
        record { product_name = codes "tea"; quantity = 1 }
        ∷ record { product_name = codes "cup"; quantity = 1 }
        ∷ [];
    ordered_at = moment 0;
    status_updated_at = moment 1;
  };
  observed_at = moment 2;
  recorded_at = moment 2;
  valid_until = none;
  supersedes = none;
  raw_result_ref = none;
  visibility = model_visible;
}

abbrev plan : PresentationPlan
plan = record {
  tone = neutral;
  opening_variant = direct;
  field_order =
      status_field ∷ order_number_field ∷ items_field ∷ ordered_at_field ∷ status_updated_at_field
      ∷ [];
  closing_variant = no_closing;
}

plan_canonical : plan_valid plan ≡ true
unfolding plan_valid same_set subset contains
plan_canonical = refl

render-Tells_example :
    (render_order_summary date digits observation plan
      ≡ ok (message_of date digits observation.normalized_value plan))
    × Tells date digits observation.normalized_value plan
render-Tells_example = render-Tells date digits observation plan plan_canonical refl

answered_result :
    map_result 1 goal_completed (some (codes "hi"))
    ≡ ok (record { run_id = 1; outcome = completed_outcome; message = codes "hi" })
unfolding map_result completed_result
answered_result = refl

map_result-completed_iff_example :
    (completed_outcome ≡ completed_outcome) ↔ (goal_completed ≡ goal_completed)
map_result-completed_iff_example =
    map_result-completed_iff 1 goal_completed (some (codes "hi"))
      (record { run_id = 1; outcome = completed_outcome; message = codes "hi" }) answered_result

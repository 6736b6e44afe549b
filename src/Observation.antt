-- ===== src/Observation.antt =====
-- src/mini_agent/core/memory.py: the observation of an order that a tool call leaves behind.
use mini_agent.Prelude.{Option, Result, Bool, ◌>>◌, false, raise_if, some, not, none, ◌&&◌, ok}
use mini_agent.Prelude.Texts.{Uuid, Text, non_empty, none_or}
use mini_agent.Clock.{DateTime, is_utc, is_utc_or_none, earlier}
use mini_agent.Order.Lookup.{OrderSummaryProjection}

pub data ObservationVisibility : Type 0 where
  model_visible audit_only user_visible : ObservationVisibility

-- `source_tool` and `normalized_type` are literals with one value each, and are left out.
pub record OrderObservation : Type 0 where
  pub observation_id : Uuid
  pub source_resource_ref : Text
  pub source_version : Option Text
  pub normalized_value : OrderSummaryProjection
  pub observed_at : DateTime
  pub recorded_at : DateTime
  pub valid_until : Option DateTime
  pub supersedes : Option Uuid
  pub raw_result_ref : Option Text
  pub visibility : ObservationVisibility

pub data ObservationError : Type 0 where
  field recorded_before_observed invalid_before_observed : ObservationError

abbrev ends_before : Option DateTime → DateTime → Bool
ends_before none start = false
ends_before (some end) start = earlier end start

unfoldable pub validate_observation : OrderObservation → Result ObservationError OrderObservation
validate_observation o = do
  raise_if
      (not (
        non_empty o.source_resource_ref
        && none_or non_empty o.source_version
        && is_utc o.observed_at
        && is_utc o.recorded_at
        && is_utc_or_none o.valid_until
        && none_or non_empty o.raw_result_ref))
      field
  raise_if (earlier o.recorded_at o.observed_at) recorded_before_observed
  raise_if (ends_before o.valid_until o.observed_at) invalid_before_observed
  ok o

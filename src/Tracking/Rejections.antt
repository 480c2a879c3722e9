-- ===== src/Tracking/Rejections.antt =====
-- internal/tracking/summary.go and errors.go: why a frame was refused, and how often.
use vrcft_go.Base.{ℕ, ◌+◌, ◌-◌, Bool, Bytes, ltb, if◌then◌else◌, max_uint64}
use vrcft_go.Tracking.Routing.{RoutingConfig}

pub data RejectionReason : Type 0 where
  none_yet generation_unset generation_zero stale_generation future_generation : RejectionReason
  invalid_plugin_id invalid_frame sequence_not_increasing timestamp_regression : RejectionReason
  source_clock_regression : RejectionReason

-- The errors that `Submit` and `SetGeneration` return.
pub data TrackingError : Type 0 where
  generation_unset generation_zero generation_regression stale_generation : TrackingError
  future_generation invalid_plugin_id invalid_frame sequence_not_increasing : TrackingError
  timestamp_regression source_clock_regression : TrackingError

pub record RejectionCounts : Type 0 where
  pub generation_unset : ℕ
  pub generation_zero : ℕ
  pub stale_generation : ℕ
  pub future_generation : ℕ
  pub invalid_plugin_id : ℕ
  pub invalid_frame : ℕ
  pub sequence_not_increasing : ℕ
  pub timestamp_regression : ℕ
  pub source_clock_regression : ℕ

pub record Rejection : Type 0 where
  pub plugin_id : Bytes
  pub generation : ℕ
  pub reason : RejectionReason

pub record Summary : Type 0 where
  pub generation : ℕ
  pub routing : RoutingConfig
  pub source_count : ℕ
  pub eye_source_id : Bytes
  pub eye_available : Bool
  pub expression_source_id : Bytes
  pub expression_available : Bool
  pub lip_source_id : Bytes
  pub lip_available : Bool
  pub accepted_frames : ℕ
  pub rejected_frames : ℕ
  pub rejected : RejectionCounts
  pub last_rejection : Rejection

unfoldable pub saturating_add : ℕ → ℕ → ℕ
saturating_add left right = if ltb (max_uint64 - left) right then max_uint64 else left + right

unfoldable pub increment : RejectionCounts → RejectionReason → RejectionCounts
unfolding saturating_add
increment c RejectionReason.none_yet = c
increment c RejectionReason.generation_unset = record c {
  generation_unset = saturating_add c.generation_unset 1;
}
increment c RejectionReason.generation_zero = record c {
  generation_zero = saturating_add c.generation_zero 1;
}
increment c RejectionReason.stale_generation = record c {
  stale_generation = saturating_add c.stale_generation 1;
}
increment c RejectionReason.future_generation = record c {
  future_generation = saturating_add c.future_generation 1;
}
increment c RejectionReason.invalid_plugin_id = record c {
  invalid_plugin_id = saturating_add c.invalid_plugin_id 1;
}
increment c RejectionReason.invalid_frame = record c {
  invalid_frame = saturating_add c.invalid_frame 1;
}
increment c RejectionReason.sequence_not_increasing = record c {
  sequence_not_increasing = saturating_add c.sequence_not_increasing 1;
}
increment c RejectionReason.timestamp_regression = record c {
  timestamp_regression = saturating_add c.timestamp_regression 1;
}
increment c RejectionReason.source_clock_regression = record c {
  source_clock_regression = saturating_add c.source_clock_regression 1;
}

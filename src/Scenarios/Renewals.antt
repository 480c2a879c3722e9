-- ===== src/Scenarios/Renewals.antt =====
-- The theorems on renewed channels, at a first input with an eye and expressions.
use vrcft_go.Base.{Bool, List, Result, [], err, false, ok, pos, true}
use vrcft_go.Floats.{one32}
use vrcft_go.TrackingModel.Frame.{empty_eye}
use vrcft_go.Tracking.Merged.{MergedFrame}
use vrcft_go.Processing.Config.{ProcessingError}
use vrcft_go.Processing.Dropout.{ChannelState}
use vrcft_go.Processing.Output.{CanonicalFrame}
use vrcft_go.Processing.Step.{ingest, taken}
use vrcft_go.Scenarios.Data.{name_a, first_operand, merged_one, fresh_pipeline}

abbrev both : MergedFrame
both = record merged_one {
  capabilities = 3;
  eye = record empty_eye { valid = 4; left_openness = one32 };
  eye_source_id = name_a;
  eye_updated_at_ns = pos 20;
}

abbrev is_ok : Result ProcessingError (List ChannelState) → Bool
is_ok (ok cs) = true
is_ok (err e) = false

abbrev channels_of : Result ProcessingError (List ChannelState) → List ChannelState
channels_of (ok cs) = cs
channels_of (err e) = []

abbrev first_frame : CanonicalFrame
first_frame =
    (taken first_operand fresh_pipeline both (pos 30)
      (channels_of (ingest first_operand fresh_pipeline true both))).1

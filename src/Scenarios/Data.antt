-- ===== src/Scenarios/Data.antt =====
-- The values that the scenarios share: two frames, a service that has taken one of them, a pipeline.
use vrcft_go.Base.{true, false, List, [], ◌∷◌, replicate, Bytes, pos}
use vrcft_go.Floats.{Arithmetic, zero32, one32, one64}
use vrcft_go.TrackingModel.Expressions.{ExpressionSet, expression_count}
use vrcft_go.TrackingModel.Frame.{EyeSample, TrackingFrame, empty_eye}
use vrcft_go.PluginApi.Subscription.{Subscription}
use vrcft_go.Tracking.Routing.{SourceState, Sources}
use vrcft_go.Tracking.Merged.{MergedFrame, empty_merged}
use vrcft_go.Processing.Config.{CompiledConfig, Config, default_config}
use vrcft_go.Processing.Dropout.{no_channel}
use vrcft_go.Processing.Mutual.{Candidate}
use vrcft_go.Processing.Pipeline.{Pipeline}

abbrev pub name_a : Bytes
name_a = 97 ∷ []

abbrev pub name_b : Bytes
name_b = 98 ∷ []

-- Expressions 3 and 70 are valid.
abbrev pub two_expressions : ExpressionSet
two_expressions = record {
  values = replicate expression_count one32;
  valid = record { word_0 = 8; word_1 = 64 };
}

abbrev pub open_eye : EyeSample
open_eye = record empty_eye {
  valid = 5;
  left_gaze = record { x = one32; y = zero32 };
  left_openness = one32;
  right_openness = one32;
}

abbrev pub full_frame : TrackingFrame
full_frame = record {
  sequence = 1;
  timestamp_ns = pos 5;
  capabilities = 3;
  source_clock_ns = pos 0;
  eye = open_eye;
  expressions = two_expressions;
}

-- Of the eye only the openness of the left, of the expressions only 70.
abbrev pub narrow : Subscription
narrow = record {
  generation = 1;
  capabilities = 3;
  eye = 4;
  expressions = record { word_0 = 0; word_1 = 64 };
}

abbrev pub source_of : TrackingFrame → SourceState
source_of f = record {
  frame = f;
  received_at_ns = pos 20;
  last_sequence = 1;
  last_timestamp_ns = pos 5;
  last_source_clock_ns = pos 0;
}

abbrev pub two_sources : Sources
two_sources = (name_b, source_of full_frame) ∷ (name_a, source_of full_frame) ∷ []

abbrev pub two_sources_turned : Sources
two_sources_turned = (name_a, source_of full_frame) ∷ (name_b, source_of full_frame) ∷ []

-- Stands for the machine's arithmetic: every operation gives its first operand.
abbrev pub first_operand : Arithmetic
first_operand = record {
  add32 = λ a b. a;
  sub32 = λ a b. a;
  mul32 = λ a b. a;
  div32 = λ a b. a;
  pow32 = λ a b. a;
  add64 = λ a b. a;
  sub64 = λ a b. a;
  mul64 = λ a b. a;
  div64 = λ a b. a;
  to64 = λ a. a;
  to32 = λ a. a;
  of_int64 = λ a. a;
  two_pi = one64;
  billion = one64;
}

abbrev pub merged_one : MergedFrame
merged_one = record empty_merged {
  generation = 1;
  sequence = 2;
  updated_at_ns = pos 20;
  capabilities = 2;
  expressions = two_expressions;
  expression_source_id = name_a;
  expression_updated_at_ns = pos 20;
}

abbrev pub merged_two : MergedFrame
merged_two = record merged_one {
  sequence = 3;
  updated_at_ns = pos 30;
  expression_updated_at_ns = pos 30;
}

-- Expressions 3 and 70, which are channels 14 and 81, exclude one another.
abbrev pub grouped_config : Config
grouped_config = record default_config { mutual_exclusion = (14 ∷ 81 ∷ []) ∷ [] }

abbrev pub compiled : CompiledConfig
compiled = record {
  channels = replicate 86 default_config.default_channel;
  active_stale_after = pos 500_000_000;
  mutual_exclusion = (14 ∷ 81 ∷ []) ∷ [];
}

abbrev pub fresh_pipeline : Pipeline
fresh_pipeline = record {
  config = compiled;
  channels = replicate 86 no_channel;
  has_last = false;
  last_input = empty_merged;
  last_now_ns = pos 0;
}

abbrev pub four_candidates : List Candidate
four_candidates =
    record { value = 1; valid = true }
    ∷ record { value = 7; valid = true }
    ∷ record { value = 9; valid = false }
    ∷ record { value = 7; valid = true }
    ∷ []

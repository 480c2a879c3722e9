-- ===== src/Scenarios/Values.antt =====
-- The theorems on single values and channels, and the way from the service into the pipeline.
use vrcft_go.Base.{◌<◌, ◌≡◌, ◌⊎◌, refl, arith, true, false, pos, max_int64, ok}
use vrcft_go.Floats.{
  copysign32, abs32, le32, eq32, rank32, is_nan32, Float32, finite32, lt32, zero32, one32,
}
use vrcft_go.TrackingModel.Expressions.{expressions_get}
use vrcft_go.Processing.Channel.{
  expression_channel, expression_id, known_channel, raw_channel_value,
}
use vrcft_go.Processing.Config.{
  validate_tuning, validate_calibration, ChannelCalibration, ChannelTuning,
}
use vrcft_go.Processing.Shaping.{tune, calibrate, apply_calibration, apply_tuning}
use vrcft_go.Processing.Bounds.{apply_tuning-inside}
use vrcft_go.Processing.Numbering.{expression_channel-expression_id}
use vrcft_go.Processing.Validation.{validate_merged_input}
use vrcft_go.Processing.Handoff.{latest_merged-valid}
use vrcft_go.Tracking.Submit.{step, submits}
use vrcft_go.Tracking.Service.{install_merged, publish_merged, publish_summary, set_generation}
use vrcft_go.Tracking.Invariant.Calls.{Reachable-Inv}
use vrcft_go.Tracking.Order.{step-Advances}
use vrcft_go.Scenarios.Services.{opened, fed, opened-Reachable, fed-Reachable}
use vrcft_go.Scenarios.Data.{name_a, full_frame, open_eye, two_expressions, first_operand}

-- From -1 to 1, around 0.
abbrev centered : ChannelCalibration
centered = record {
  enabled = true;
  neutral = zero32;
  min = 0xbf800000;
  max = one32;
  gain = one32;
  invert = false;
}

-- Clamped between -0.25 and 0.25, with a dead zone of 0.1.
abbrev clamped : ChannelTuning
clamped = record {
  deadzone = 0x3dcccccd;
  gain = one32;
  exponent = one32;
  clamp_enabled = true;
  clamp_min = 0xbe800000;
  clamp_max = 0x3e800000;
}

half_calibrates : apply_calibration first_operand centered 0x3f000000 ≡ ok 0x3f000000
unfolding apply_calibration validate_calibration finite32 lt32 is_nan32 rank32 eq32 le32 calibrate
half_calibrates = refl

half_is_clamped : apply_tuning first_operand clamped 0x3f000000 ≡ ok 0x3e800000
unfolding apply_tuning validate_tuning finite32 lt32 is_nan32 rank32 le32 abs32 tune copysign32
half_is_clamped = refl

apply_tuning-inside_example :
    (◌≡◌ {A = Float32} 0x3e800000 zero32)
    ⊎ ((lt32 0x3e800000 0xbe800000 ≡ false) × (lt32 0x3e800000 0x3e800000 ≡ false))
apply_tuning-inside_example =
    apply_tuning-inside first_operand clamped 0x3f000000 0x3e800000 refl half_is_clamped

expression_channel-expression_id_example :
    let channel = (expression_channel 70).0 in
    (known_channel channel ≡ true)
    × (expression_id channel ≡ (70, true))
    × (raw_channel_value open_eye two_expressions channel ≡ expressions_get two_expressions 70)
expression_channel-expression_id_example =
    expression_channel-expression_id open_eye two_expressions 70 (omega arith)

opened_generation : opened.generation ≡ 1
unfolding step set_generation publish_summary publish_merged install_merged
opened_generation = refl

fed_generation : 0 < fed.generation
fed_generation = omega (
  arith,
  opened_generation,
  (step-Advances opened (submits name_a 1 full_frame (pos 20) (pos 21)) (omega arith, omega arith)
      (Reachable-Inv opened-Reachable)).0,
)

fed_has_latest : fed.has_latest ≡ true
fed_has_latest = (Reachable-Inv fed-Reachable).started fed_generation

latest_merged-valid_example : validate_merged_input fed.latest_merged (pos max_int64) ≡ ok tt
latest_merged-valid_example =
    latest_merged-valid fed (pos max_int64) fed-Reachable fed_has_latest
      (Reachable-Inv fed-Reachable).kept.time_int64

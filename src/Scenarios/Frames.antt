-- ===== src/Scenarios/Frames.antt =====
-- The theorems on frames and subscriptions at one frame.
use vrcft_go.Base.{
  and_not, ◌^◌, ◌≡◌, refl, arith, true, ◌&&◌, ◌==◌, if◌then◌else◌, get_or, has_bits, ok,
}
use vrcft_go.Floats.{finite32, zero32}
use vrcft_go.TrackingModel.Expressions.{
  mask_normalize, mask_eq, mask_has, expressions_get, expressions_set,
}
use vrcft_go.TrackingModel.Frame.{
  validate_values, check_eye_rows, validate_finite_eye, TrackingFrame, capability_eye,
  capability_expression, validate, canonicalize, canonical_eye, canonical_expressions,
}
use vrcft_go.TrackingModel.Masks.{expressions_get-set}
use vrcft_go.TrackingModel.Canonical.{canonicalize-get}
use vrcft_go.Processing.Channel.{raw_channel_value}
use vrcft_go.Processing.Readings.{canonicalize-raw_channel_value}
use vrcft_go.PluginApi.Subscription.{
  normalize, validate_generation, includes_eye, includes_expression, trim_frame,
}
use vrcft_go.PluginApi.Subscription
use vrcft_go.PluginApi.Trim.{trim_frame-eye, trim_frame-expression}
use vrcft_go.PluginApi.Accepted.{trim_frame-validate}
use vrcft_go.Scenarios.Data.{two_expressions, full_frame, narrow}

abbrev canonical_frame : TrackingFrame
canonical_frame = record full_frame {
  eye = canonical_eye full_frame;
  expressions = canonical_expressions full_frame;
}

full_frame_canonicalizes : canonicalize full_frame ≡ ok canonical_frame
unfolding canonicalize validate and_not mask_eq mask_normalize validate_finite_eye check_eye_rows
    finite32 validate_values mask_has
full_frame_canonicalizes = refl

full_frame_valid : validate full_frame ≡ ok tt
unfolding validate and_not mask_eq mask_normalize validate_finite_eye check_eye_rows finite32
    validate_values mask_has
full_frame_valid = refl

-- The right openness, which is not marked valid, is cleared.
right_openness_cleared : canonical_frame.eye.right_openness ≡ 0
unfolding canonical_eye
right_openness_cleared = refl

expressions_get-set_example :
    expressions_get (expressions_set two_expressions 5 7).0 70
    ≡ (if 5 == 70 then (7, true) else expressions_get two_expressions 70)
expressions_get-set_example = expressions_get-set two_expressions 5 70 7 refl (omega arith)

canonicalize-raw_channel_value_example :
    let (value, valid) = raw_channel_value full_frame.eye full_frame.expressions 6 in
    raw_channel_value canonical_frame.eye canonical_frame.expressions 6
    ≡ (if valid then value else zero32, valid)
canonicalize-raw_channel_value_example =
    canonicalize-raw_channel_value full_frame canonical_frame 6 full_frame_canonicalizes

canonicalize-get_example :
    (get_or canonical_frame.expressions.values 4 0 ≡ (expressions_get full_frame.expressions 4).0)
    × (expressions_get canonical_frame.expressions 4 ≡ expressions_get full_frame.expressions 4)
canonicalize-get_example =
    canonicalize-get full_frame canonical_frame 4 full_frame_canonicalizes (omega arith)

trim_frame-eye_example : has_bits (trim_frame narrow full_frame).eye.valid (2 ^ 2) ≡ (
    has_bits full_frame.capabilities capability_eye
    && includes_eye narrow (2 ^ 2)
    && has_bits full_frame.eye.valid (2 ^ 2))
trim_frame-eye_example = trim_frame-eye narrow full_frame 2 (omega arith)

trim_frame-expression_example : mask_has (trim_frame narrow full_frame).expressions.valid 3 ≡ (
    has_bits full_frame.capabilities capability_expression
    && includes_expression narrow 3
    && mask_has full_frame.expressions.valid 3)
trim_frame-expression_example = trim_frame-expression narrow full_frame 3

trim_frame-validate_example : validate (trim_frame narrow full_frame) ≡ ok tt
trim_frame-validate_example = trim_frame-validate narrow full_frame full_frame_valid

narrow_valid : Subscription.validate narrow true ≡ ok tt
unfolding Subscription.validate and_not mask_eq mask_normalize
narrow_valid = refl

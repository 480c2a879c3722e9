-- ===== src/Processing/Shaping.antt =====
-- internal/processing/calibration.go and tuning.go, over the machine's float arithmetic.
use vrcft_go.Base.{not, ◌||◌, if◌then◌else◌, Result, ok, err, ◌>>=◌, ◌>>◌, fail_if}
use vrcft_go.Floats.{
  Float32, Arithmetic, finite32, lt32, le32, eq32, abs32, neg32, copysign32, zero32, one32,
}
use vrcft_go.Processing.Config.{
  ProcessingError, ChannelCalibration, ChannelTuning, invalid_calibration, invalid_tuning,
  validate_calibration, validate_tuning,
}

-- `if value < lo { lo } else if value > hi { hi }`.
unfoldable pub clamp : Float32 → Float32 → Float32 → Float32
clamp lo hi value = if lt32 value lo then lo else (if lt32 hi value then hi else value)

-- The guard behind each step: a result that is not finite is refused.
abbrev pub finite_or : ProcessingError → Float32 → Result ProcessingError Float32
finite_or e value = if finite32 value then ok value else err e

module _ (fl : Arithmetic) where
  open fl use {add32, sub32, mul32, div32, pow32}

  -- The span of the side on which the centered value lies.
  unfoldable pub calibration_scale : ChannelCalibration → Float32 → Float32 → Float32 → Float32
  calibration_scale c negative_span positive_span centered =
      if lt32 centered zero32 || eq32 c.max c.neutral then negative_span else positive_span

  unfoldable pub calibrate : ChannelCalibration → Float32 → Result ProcessingError Float32
  unfolding calibration_scale clamp
  calibrate c raw = do
    negative_span ← finite_or invalid_calibration (sub32 c.neutral c.min)
    positive_span ← finite_or invalid_calibration (sub32 c.max c.neutral)
    clamped ← finite_or invalid_calibration (clamp c.min c.max raw)
    centered ← finite_or invalid_calibration (sub32 clamped c.neutral)
    scale ← finite_or invalid_calibration (calibration_scale c negative_span positive_span centered)
    fail_if (eq32 scale zero32) invalid_calibration
    normalized ← finite_or invalid_calibration (div32 centered scale)
    oriented ← finite_or invalid_calibration (if c.invert then neg32 normalized else normalized)
    finite_or invalid_calibration (mul32 oriented c.gain)

  unfoldable pub apply_calibration : ChannelCalibration → Float32 → Result ProcessingError Float32
  apply_calibration c raw = elim (validate_calibration c) [
    | err _ ↦ err invalid_calibration
    | ok _ ↦
        if not (finite32 raw)
        then err invalid_calibration
        else (if not c.enabled then ok raw else calibrate c raw)
  ]

  -- What is left of a value outside the dead zone.
  unfoldable pub tune : ChannelTuning → Float32 → Result ProcessingError Float32
  unfolding clamp
  tune t value = do
    scaled ←
        finite_or invalid_tuning (div32 (sub32 (abs32 value) t.deadzone) (sub32 one32 t.deadzone))
    amplified ← finite_or invalid_tuning (mul32 scaled t.gain)
    bent ← finite_or invalid_tuning (pow32 amplified t.exponent)
    signed ← finite_or invalid_tuning (copysign32 bent value)
    (if t.clamp_enabled
        then finite_or invalid_tuning (clamp t.clamp_min t.clamp_max signed)
        else ok signed)

  unfoldable pub apply_tuning : ChannelTuning → Float32 → Result ProcessingError Float32
  apply_tuning t value = elim (validate_tuning t) [
    | err _ ↦ err invalid_tuning
    | ok _ ↦
        if not (finite32 value) || not (finite32 (abs32 value))
        then err invalid_tuning
        else (if le32 (abs32 value) t.deadzone then ok zero32 else tune t value)
  ]

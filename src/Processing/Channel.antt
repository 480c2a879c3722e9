-- ===== src/Processing/Channel.antt =====
-- internal/processing/channel.go: one number for each scalar that is processed.
use vrcft_go.Base.{
  ℕ, zero, suc, ◌+◌, ◌-◌, Bool, true, false, ◌&&◌, ◌||◌, List, [], ◌∷◌, ltb, leb, ◌==◌,
  if◌then◌else◌, has_bits,
}
use vrcft_go.Floats.{Float32, zero32}
use vrcft_go.TrackingModel.Expressions.{ExpressionSet, expression_count, expressions_get}
use vrcft_go.TrackingModel.Frame.{
  EyeSample, eye_valid_left_gaze, eye_valid_right_gaze, eye_valid_left_openness,
  eye_valid_right_openness, eye_valid_left_pupil, eye_valid_right_pupil,
}

-- ChannelEyeLeftGazeX = 1 to ChannelEyeRightPupilDilation = 10, in the source's order.
abbrev pub channel_expression_base : ℕ
channel_expression_base = 11

abbrev pub channel_count : ℕ
channel_count = 86

abbrev pub eye_channel_count : ℕ
eye_channel_count = 10

unfoldable pub expression_channel : ℕ → ℕ × Bool
expression_channel id =
    if leb expression_count id then (0, false) else (channel_expression_base + id, true)

unfoldable pub expression_id : ℕ → ℕ × Bool
expression_id channel =
    if ltb channel channel_expression_base || leb (channel_count + 1) channel
    then (0, false)
    else (channel - channel_expression_base, true)

-- The loop of `AllChannels`, with `rounds` left.
unfoldable pub channels_from : ℕ → ℕ → List ℕ
channels_from id zero = []
channels_from id (suc rounds) = id ∷ channels_from (suc id) rounds

unfoldable pub all_channels : List ℕ
unfolding channels_from
all_channels = channels_from 1 channel_count

unfoldable pub known_channel : ℕ → Bool
known_channel id = leb 1 id && leb id channel_count

-- The expressions stand behind the eye's ten channels.
unfoldable pub raw_expression_value : ExpressionSet → ℕ → Float32 × Bool
raw_expression_value x id =
    let (expression, known) = expression_id id in
    if known then expressions_get x expression else (zero32, false)

unfoldable pub raw_channel_value : EyeSample → ExpressionSet → ℕ → Float32 × Bool
raw_channel_value e x id =
    if id == 1
    then (e.left_gaze.x, has_bits e.valid eye_valid_left_gaze)
    else (if id == 2
        then (e.left_gaze.y, has_bits e.valid eye_valid_left_gaze)
        else (if id == 3
            then (e.right_gaze.x, has_bits e.valid eye_valid_right_gaze)
            else (if id == 4
                then (e.right_gaze.y, has_bits e.valid eye_valid_right_gaze)
                else (if id == 5
                    then (e.left_openness, has_bits e.valid eye_valid_left_openness)
                    else (if id == 6
                        then (e.right_openness, has_bits e.valid eye_valid_right_openness)
                        else (if id == 7
                            then (e.left_pupil_diameter_mm, has_bits e.valid eye_valid_left_pupil)
                            else (if id == 8
                                then (
                                  e.right_pupil_diameter_mm,
                                  has_bits e.valid eye_valid_right_pupil,
                                )
                                else (if id == 9
                                    then (
                                      e.left_pupil_dilation,
                                      has_bits e.valid eye_valid_left_pupil,
                                    )
                                    else (if id == 10
                                        then (
                                          e.right_pupil_dilation,
                                          has_bits e.valid eye_valid_right_pupil,
                                        )
                                        else raw_expression_value x id)))))))))

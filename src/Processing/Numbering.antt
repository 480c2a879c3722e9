-- ===== src/Processing/Numbering.antt =====
-- internal/processing/channel.go: the numbers of the channels.
use vrcft_go.Base.{ℕ, suc, zero, ◌+◌, ◌<◌, ◌≡◌, ◌∙◌, true, ◌&&◌, ltb, leb, arith}
use vrcft_go.TrackingModel.Expressions.{ExpressionSet, expression_count, expressions_get}
use vrcft_go.TrackingModel.Frame.{EyeSample}
use vrcft_go.Processing.Channel.{
  channel_count, expression_channel, expression_id, known_channel, channels_from, all_channels,
  raw_channel_value, raw_expression_value,
}
use vrcft_go.Processing.Config.{contains}

-- An expression has a known channel, which stands for that expression and reads its value.
pub expression_channel-expression_id :
    (e : EyeSample) (x : ExpressionSet) (id : ℕ)
    → id < expression_count
    → let channel = (expression_channel id).0 in
      (known_channel channel ≡ true)
      × (expression_id channel ≡ (id, true))
      × (raw_channel_value e x channel ≡ expressions_get x id)
unfolding expression_channel expression_id known_channel raw_channel_value raw_expression_value
expression_channel-expression_id e x id k = (ground arith, ground arith, ground arith)

contains-channels_from :
    (y id rounds : ℕ) → contains y (channels_from id rounds) ≡ (leb id y && ltb y (id + rounds))
unfolding contains channels_from
contains-channels_from y id zero = ground arith
contains-channels_from y id (suc rounds) = ground (arith, contains-channels_from y (suc id) rounds)

-- `AllChannels` lists exactly the known channels.
pub all_channels-known : (y : ℕ) → contains y all_channels ≡ known_channel y
unfolding all_channels known_channel
all_channels-known y = contains-channels_from y 1 channel_count ∙ ground arith

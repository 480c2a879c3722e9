-- ===== src/Processing/Prepared.antt =====
-- internal/processing/pipeline.go: the channels of a group that is reset have nothing when an input is taken in.
use vrcft_go.Base.{
  ℕ, ◌<◌, ◌≤◌, ◌≡◌, ◌∙◌, inl, Bool, true, false, not, ◌&&◌, List, replicate, if◌then◌else◌, arith,
}
use vrcft_go.Tracking.Merged.{MergedFrame}
use vrcft_go.Processing.Channel.{channel_count, eye_channel_count}
use vrcft_go.Processing.Dropout.{ChannelState, no_channel}
use vrcft_go.Processing.Pipeline.{Pipeline, reset_channels, expression_channel_count}
use vrcft_go.Processing.Step.{prepare_channels, eye_reset, expression_reset, source_left}
use vrcft_go.Processing.Renewal.{
  Blank, reset_channels-Outside, reset_channels-Blank, mark_unavailable-Blank,
}

choose :
    (P : List ChannelState → Type 0) (b : Bool) (xs ys : List ChannelState)
    → P xs
    → P ys
    → P (if b then xs else ys)
choose P true xs ys p q = p
choose P false xs ys p q = q

pub prepare_channels-eye :
    (p : Pipeline) (reset : Bool) (m : MergedFrame) (i : ℕ)
    → i < eye_channel_count
    → eye_reset reset m p.last_input ≡ true
    → Blank i (prepare_channels p reset m)
unfolding prepare_channels
prepare_channels-eye p reset m i below renewed =
    let start = if reset then replicate channel_count no_channel else p.channels in
    rw renewed (
      let eye = reset_channels-Blank i 0 eye_channel_count start (omega arith) (omega arith) in
      let expression =
        choose (Blank i) (expression_reset reset m p.last_input) _ _
          (reset_channels-Outside i eye_channel_count expression_channel_count
              (reset_channels 0 eye_channel_count start) (inl below)
            ∙ eye)
          eye in
      let marked =
        choose (Blank i) (not reset && source_left m.eye_source_id p.last_input.eye_source_id) _ _
          (mark_unavailable-Blank m.updated_at_ns i 0 eye_channel_count _ expression) expression in
      choose (Blank i)
        (not reset && source_left m.expression_source_id p.last_input.expression_source_id) _ _
        (mark_unavailable-Blank m.updated_at_ns i eye_channel_count expression_channel_count _
          marked)
        marked)

pub prepare_channels-expression :
    (p : Pipeline) (reset : Bool) (m : MergedFrame) (i : ℕ)
    → eye_channel_count ≤ i
    → i < channel_count
    → expression_reset reset m p.last_input ≡ true
    → Blank i (prepare_channels p reset m)
unfolding prepare_channels
prepare_channels-expression p reset m i from below renewed = rw renewed (
    let expression =
      reset_channels-Blank i eye_channel_count expression_channel_count _ from (omega arith) in
    let marked =
      choose (Blank i) (not reset && source_left m.eye_source_id p.last_input.eye_source_id) _ _
        (mark_unavailable-Blank m.updated_at_ns i 0 eye_channel_count _ expression) expression in
    choose (Blank i)
      (not reset && source_left m.expression_source_id p.last_input.expression_source_id) _ _
      (mark_unavailable-Blank m.updated_at_ns i eye_channel_count expression_channel_count _ marked)
      marked)

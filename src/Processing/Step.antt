-- ===== src/Processing/Step.antt =====
-- internal/processing/pipeline.go: one call of the pipeline, which a failure leaves as it was.
use vrcft_go.Base.{
  Bool, true, false, not, ◌&&◌, ◌||◌, List, if◌then◌else◌, replicate, has_bits, Bytes, is_empty,
  str_eq, ℤ, ltb_ℤ, Result, ok, err, ◌>>=◌, ◌>>◌,
}
use vrcft_go.Floats.{Arithmetic}
use vrcft_go.TrackingModel.Frame.{capability_eye, capability_expression}
use vrcft_go.Tracking.Merged.{MergedFrame}
use vrcft_go.Processing.Channel.{channel_count, eye_channel_count}
use vrcft_go.Processing.Config.{ProcessingError}
use vrcft_go.Processing.Dropout.{ChannelState, no_channel}
use vrcft_go.Processing.Validation.{validate_merged_input}
use vrcft_go.Processing.Pipeline.{
  Pipeline, classify_input, reset_channels, mark_unavailable, ingest_range,
  expression_channel_count,
}
use vrcft_go.Processing.Output.{CanonicalFrame, canonical}

-- `id != "" && id != previous`.
abbrev pub source_changed : Bytes → Bytes → Bool
source_changed id previous = not (is_empty id) && not (str_eq id previous)

-- `id` was named before and is not any more.
abbrev pub source_left : Bytes → Bytes → Bool
source_left id previous = not (is_empty previous) && is_empty id

unfoldable pub eye_reset : Bool → MergedFrame → MergedFrame → Bool
eye_reset generation_reset m previous =
    generation_reset || source_changed m.eye_source_id previous.eye_source_id

unfoldable pub expression_reset : Bool → MergedFrame → MergedFrame → Bool
expression_reset generation_reset m previous =
    generation_reset || source_changed m.expression_source_id previous.expression_source_id

-- The channels before the new values are taken in.
unfoldable pub prepare_channels : Pipeline → Bool → MergedFrame → List ChannelState
unfolding eye_reset expression_reset reset_channels mark_unavailable
prepare_channels p generation_reset m =
    let previous = p.last_input in
    let start = if generation_reset then replicate channel_count no_channel else p.channels in
    let eye =
      if eye_reset generation_reset m previous
      then reset_channels 0 eye_channel_count start
      else start in
    let expression =
      if expression_reset generation_reset m previous
      then reset_channels eye_channel_count expression_channel_count eye
      else eye in
    let eye_marked =
      if not generation_reset && source_left m.eye_source_id previous.eye_source_id
      then mark_unavailable m.updated_at_ns 0 eye_channel_count expression
      else expression in
    if not generation_reset && source_left m.expression_source_id previous.expression_source_id
    then mark_unavailable m.updated_at_ns eye_channel_count expression_channel_count eye_marked
    else eye_marked

unfoldable pub eye_fresh : Pipeline → Bool → MergedFrame → Bool
unfolding eye_reset
eye_fresh p generation_reset m =
    has_bits m.capabilities capability_eye
    && (eye_reset generation_reset m p.last_input
        || not p.has_last
        || ltb_ℤ p.last_input.eye_updated_at_ns m.eye_updated_at_ns)

unfoldable pub expression_fresh : Pipeline → Bool → MergedFrame → Bool
unfolding expression_reset
expression_fresh p generation_reset m =
    has_bits m.capabilities capability_expression
    && (expression_reset generation_reset m p.last_input
        || not p.has_last
        || ltb_ℤ p.last_input.expression_updated_at_ns m.expression_updated_at_ns)

module _ (fl : Arithmetic) where
  -- The channels behind a new input.
  unfoldable pub ingest : Pipeline → Bool → MergedFrame → Result ProcessingError (List ChannelState)
  unfolding prepare_channels eye_fresh expression_fresh ingest_range
  ingest p generation_reset m = do
    eyes ←
        (if eye_fresh p generation_reset m
          then ingest_range fl p.config m m.eye_updated_at_ns 0 eye_channel_count
              (prepare_channels p generation_reset m)
          else ok (prepare_channels p generation_reset m))
    (if expression_fresh p generation_reset m
        then ingest_range fl p.config m m.expression_updated_at_ns eye_channel_count
            expression_channel_count eyes
        else ok eyes)

  -- The pipeline behind a new input, and the frame that it gives.
  abbrev pub taken : Pipeline → MergedFrame → ℤ → List ChannelState → Pipeline × CanonicalFrame
  taken p m now channels =
      let next = record p {
        channels = channels;
        has_last = true;
        last_input = m;
        last_now_ns = now;
      } in
      (next, canonical fl next m now)

  -- A repeated frame is evaluated at the new time; a new one is taken in first.
  unfoldable pub advance :
      Pipeline → MergedFrame → ℤ → Bool × Bool → Result ProcessingError (Pipeline × CanonicalFrame)
  unfolding ingest
  advance p m now (false, generation_reset) =
      let repeated = record p { last_now_ns = now } in ok (repeated, canonical fl repeated m now)
  advance p m now (true, generation_reset) =
      ingest p generation_reset m >>= λ channels. ok (taken p m now channels)

  -- `processAt`, which works on a copy.
  unfoldable pub process_copy :
      Pipeline → MergedFrame → ℤ → Result ProcessingError (Pipeline × CanonicalFrame)
  unfolding advance
  process_copy p m now =
      validate_merged_input m now >> (classify_input p m now >>= λ input. advance p m now input)

  -- `*p = next`, when the copy was accepted.
  unfoldable pub commit :
      Pipeline
      → Result ProcessingError (Pipeline × CanonicalFrame)
      → Pipeline × Result ProcessingError CanonicalFrame
  commit p (err e) = (p, err e)
  commit p (ok (next, frame)) = (next, ok frame)

  unfoldable pub process_at :
      Pipeline → MergedFrame → ℤ → Pipeline × Result ProcessingError CanonicalFrame
  process_at p m now = commit p (process_copy p m now)

-- ===== src/Processing/Pipeline.antt =====
-- internal/processing/pipeline.go: the pipeline's state, how it classifies an input, and its loops over channels.
use vrcft_go.Base.{
  ℕ, zero, suc, ◌-◌, Bool, true, false, not, ◌&&◌, List, ltb, ◌==◌, if◌then◌else◌, set, get_or,
  replicate, is_empty, str_eq, ℤ, pos, ltb_ℤ, leb_ℤ, eqb_ℤ, max_uint64, Result, ok, err, ◌>>=◌,
}
use vrcft_go.Floats.{Float32, Arithmetic}
use vrcft_go.Tracking.Merged.{MergedFrame, empty_merged, merged_content_equal}
use vrcft_go.Processing.Channel.{channel_count, eye_channel_count, raw_channel_value}
use vrcft_go.Processing.Config.{
  ProcessingError, Config, ChannelConfig, CompiledConfig, config_at, compile_config, invalid_config,
  invalid_input, generation_regression, revision_regression, revision_conflict, time_regression,
}
use vrcft_go.Processing.Filter.{apply_filter}
use vrcft_go.Processing.Shaping.{apply_calibration, apply_tuning}
use vrcft_go.Processing.Dropout.{ChannelState, no_channel, record_fresh, record_unavailable}

pub record Pipeline : Type 0 where
  pub config : CompiledConfig
  pub channels : List ChannelState
  pub has_last : Bool
  pub last_input : MergedFrame
  pub last_now_ns : ℤ

-- What NewPipeline makes of a compiled configuration or of its error.
unfoldable pub pipeline_of : Result ProcessingError CompiledConfig → Result ProcessingError Pipeline
pipeline_of (err _) = err invalid_config
pipeline_of (ok compiled) = ok (record {
  config = compiled;
  channels = replicate channel_count no_channel;
  has_last = false;
  last_input = empty_merged;
  last_now_ns = pos 0;
})

unfoldable pub new_pipeline : Config → Result ProcessingError Pipeline
new_pipeline c = pipeline_of (compile_config c)

-- Go's `==` on frames: the content, the sequence and the time.
unfoldable pub merged_eq : MergedFrame → MergedFrame → Bool
merged_eq a b =
    a.sequence == b.sequence && eqb_ℤ a.updated_at_ns b.updated_at_ns && merged_content_equal a b

unfoldable pub saturated_freshness_nonregressing : MergedFrame → MergedFrame → Bool
saturated_freshness_nonregressing previous next =
    not (ltb_ℤ next.updated_at_ns previous.updated_at_ns)
    && not (
        not (is_empty previous.eye_source_id)
        && str_eq previous.eye_source_id next.eye_source_id
        && ltb_ℤ next.eye_updated_at_ns previous.eye_updated_at_ns)
    && not (
        not (is_empty previous.expression_source_id)
        && str_eq previous.expression_source_id next.expression_source_id
        && ltb_ℤ next.expression_updated_at_ns previous.expression_updated_at_ns)
    && not (
        not (is_empty previous.lip_source_id)
        && str_eq previous.lip_source_id next.lip_source_id
        && ltb_ℤ next.lip_updated_at_ns previous.lip_updated_at_ns)

-- Whether the input is new, and whether it starts a generation.
unfoldable pub classify_input : Pipeline → MergedFrame → ℤ → Result ProcessingError (Bool × Bool)
unfolding merged_eq saturated_freshness_nonregressing
classify_input p m now =
    let previous = p.last_input in
    if not p.has_last
    then ok (true, true)
    else (if ltb m.generation previous.generation
        then err generation_regression
        else (if ltb previous.generation m.generation
            then (if leb_ℤ now p.last_now_ns then err time_regression else ok (true, true))
            else (if ltb m.sequence previous.sequence
                then err revision_regression
                else (if m.sequence == previous.sequence && merged_eq m previous
                    then (if ltb_ℤ now p.last_now_ns
                        then err time_regression
                        else ok (false, false))
                    else (if m.sequence == previous.sequence && not (m.sequence == max_uint64)
                        then err revision_conflict
                        else (if m.sequence == previous.sequence
                              && not (saturated_freshness_nonregressing previous m)
                            then err revision_conflict
                            else (if leb_ℤ now p.last_now_ns
                                then err time_regression
                                else ok (true, false))))))))

-- The three loops over `rounds` channels from `index` on.
unfoldable pub reset_channels : ℕ → ℕ → List ChannelState → List ChannelState
reset_channels index zero cs = cs
reset_channels index (suc rounds) cs = reset_channels (suc index) rounds (set cs index no_channel)

unfoldable pub mark_unavailable : ℤ → ℕ → ℕ → List ChannelState → List ChannelState
mark_unavailable at index zero cs = cs
mark_unavailable at index (suc rounds) cs =
    mark_unavailable at (suc index) rounds
      (set cs index (record_unavailable (get_or cs index no_channel) at))

-- The channels behind the eye's.
abbrev pub expression_channel_count : ℕ
expression_channel_count = channel_count - eye_channel_count

module _ (fl : Arithmetic) where
  -- Each of the three steps fails as an invalid input; Go's error also wraps the step's own.
  unfoldable pub ingest_channel :
      ChannelConfig → ChannelState → Float32 → ℤ → Result ProcessingError ChannelState
  ingest_channel c s raw at =
      elim (apply_calibration fl c.calibration raw >>= λ calibrated.
      apply_tuning fl c.tuning calibrated >>= λ tuned. apply_filter fl s.filter c.filter tuned at) [
        | err _ ↦ err invalid_input
        | ok (filter, filtered) ↦
            ok (record_fresh (record s { filter = filter }) filtered at c.dropout)
      ]

  -- One round of the loop: a channel without a valid value is passed over.
  unfoldable pub ingest_at :
      CompiledConfig
      → MergedFrame
      → ℤ
      → ℕ
      → List ChannelState
      → Result ProcessingError (List ChannelState)
  unfolding ingest_channel
  ingest_at c m at index cs =
      let (raw, valid) = raw_channel_value m.eye m.expressions (suc index) in
      if not valid
      then ok cs
      else (ingest_channel (config_at c (suc index)) (get_or cs index no_channel) raw at >>= λ s.
          ok (set cs index s))

  unfoldable pub ingest_range :
      CompiledConfig
      → MergedFrame
      → ℤ
      → ℕ
      → ℕ
      → List ChannelState
      → Result ProcessingError (List ChannelState)
  unfolding ingest_at
  ingest_range c m at index zero cs = ok cs
  ingest_range c m at index (suc rounds) cs =
      ingest_at c m at index cs >>= λ cs'. ingest_range c m at (suc index) rounds cs'

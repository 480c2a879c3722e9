-- ===== src/Scenarios/Pipelines.antt =====
-- The theorems on the processing pipeline at a pipeline that has seen one frame.
use vrcft_go.TrackingModel.Frame.{
  validate_values, check_eye_rows, validate_finite_eye, vec2_eq, eye_eq,
}
use vrcft_go.Base.{
  and_not, str_eq, ℕ, ◌+◌, min, ◌≡◌, ◌≢◌, ◌↔◌, refl, ap, ◌∙◌, ◌>>=◌, ◌>>◌, arith, Bool, true, false,
  [], ◌∷◌, get_or, set, replicate, pos, max_int64, ok,
}
use vrcft_go.Floats.{abs32, le32, lt32, finite32, rank32, is_nan32, eq32, zero32, one32}
use vrcft_go.TrackingModel.Expressions.{
  mask_set, expressions_set, mask_has, mask_normalize, mask_eq, values_eq, expressions_eq,
  expressions_get,
}
use vrcft_go.Tracking.Merged.{merged_content_equal}
use vrcft_go.Processing.Channel.{expression_channel, known_channel, eye_channel_count}
use vrcft_go.Processing.Config.{
  compile_groups, compile_overrides, validate_dropout, filter_ok, validate_filter, validate_tuning,
  validate_calibration, validate_channel_config, contains, compile_config,
}
use vrcft_go.Processing.Dropout.{
  ChannelState, no_channel, record_fresh, record_unavailable, dropout_value,
}
use vrcft_go.Processing.Mutual.{silence, winner_from, project_group, project_mutual_exclusion}
use vrcft_go.Processing.Pipeline.{Pipeline, classify_input, merged_eq}
use vrcft_go.Processing.Validation.{validate_merged_input}
use vrcft_go.Processing.Output.{canonical}
use vrcft_go.Processing.Step.{process_at, process_copy, commit, advance}
use vrcft_go.Processing.Sequencing.{
  Follows, Outcome, classify_input_accepts_iff, process_at-Outcome,
}
use vrcft_go.Processing.Runs.{Ordered, outputs, outputs-Ordered, process_at_repeat}
use vrcft_go.Processing.Silence.{silent_value, fresh_then_lost}
use vrcft_go.Processing.Compiled.{Sound, compile_config-Sound}
use vrcft_go.Processing.Published.{canonical-seen, canonical_excludes}
use vrcft_go.Scenarios.Data.{
  first_operand, merged_one, merged_two, grouped_config, compiled, fresh_pipeline,
}

abbrev shown : ChannelState
shown = record no_channel {
  seen = true;
  last_fresh_at_ns = pos 20;
  last_fresh_value = one32;
  dropout_start_ns = pos 500;
}

-- Expressions 3 and 70 have been seen.
abbrev running : Pipeline
running = record fresh_pipeline {
  channels = set (set (replicate 86 no_channel) 13 shown) 80 shown;
  has_last = true;
  last_input = merged_one;
  last_now_ns = pos 25;
}

process_at-Outcome_example :
    Outcome running merged_two (pos 40) (process_at first_operand running merged_two (pos 40))
process_at-Outcome_example = process_at-Outcome first_operand running merged_two (pos 40)

classify_input_accepts_iff_example :
    ((r : Bool × Bool) × (classify_input running merged_two (pos 40) ≡ ok r))
    ↔ Follows running merged_two (pos 40)
classify_input_accepts_iff_example = classify_input_accepts_iff running merged_two (pos 40) refl

outputs-Ordered_example : Ordered 1 2 (pos 25) (
    outputs first_operand running
      ((merged_two, pos 40) ∷ (merged_one, pos 50) ∷ (merged_two, pos 60) ∷ []))
outputs-Ordered_example =
    outputs-Ordered first_operand running
      ((merged_two, pos 40) ∷ (merged_one, pos 50) ∷ (merged_two, pos 60) ∷ []) refl

merged_one_itself : merged_eq merged_one merged_one ≡ true
unfolding merged_eq merged_content_equal eye_eq vec2_eq eq32 is_nan32 rank32 expressions_eq
    values_eq mask_eq str_eq
merged_one_itself = refl

merged_one_valid : validate_merged_input merged_one (pos 30) ≡ ok tt
unfolding validate_merged_input and_not eye_eq vec2_eq eq32 is_nan32 rank32
    vrcft_go.TrackingModel.Frame.validate mask_eq mask_normalize validate_finite_eye check_eye_rows
    validate_values mask_has finite32
merged_one_valid = refl

merged_one_repeats : classify_input running merged_one (pos 30) ≡ ok (false, false)
unfolding classify_input merged_content_equal eye_eq vec2_eq eq32 is_nan32 rank32 expressions_eq
    values_eq mask_eq str_eq
merged_one_repeats = refl

-- The first frame again: only the processing time moves.
running_again : process_at first_operand running merged_one (pos 30) ≡ (
  record running { last_now_ns = pos 30 },
  ok (canonical first_operand (record running { last_now_ns = pos 30 }) merged_one (pos 30)),
)
unfolding process_at process_copy commit advance
running_again =
    ap
      (λ r. commit first_operand running (
        r
        >> (classify_input running merged_one (pos 30) >>= λ input.
            advance first_operand running merged_one (pos 30) input)))
      merged_one_valid
    ∙ ap
        (λ r.
          commit first_operand running
            (r >>= λ input. advance first_operand running merged_one (pos 30) input))
        merged_one_repeats

process_at_repeat_example :
    process_at first_operand (record running { last_now_ns = pos 30 }) merged_one (pos 30) ≡ (
      record running { last_now_ns = pos 30 },
      ok (canonical first_operand (record running { last_now_ns = pos 30 }) merged_one (pos 30)),
    )
process_at_repeat_example =
    process_at_repeat first_operand running merged_one (pos 30)
      (record running { last_now_ns = pos 30 })
      (canonical first_operand (record running { last_now_ns = pos 30 }) merged_one (pos 30))
      merged_one_itself running_again

fresh_then_lost_example :
    dropout_value first_operand
      (record_unavailable
        (record_fresh no_channel one32
          (pos 20)
          (record { hold_duration = pos 100; decay_duration = pos 300; stale_after = pos 500 }))
        (pos 60))
      (record { hold_duration = pos 100; decay_duration = pos 300; stale_after = pos 500 })
      (pos 400)
    ≡ (silent_value first_operand one32 (min 60 (min (20 + 500) max_int64)) 100 300 400, true)
fresh_then_lost_example =
    fresh_then_lost first_operand no_channel one32 20 500 100 300 60 400 (omega arith) (omega arith)
      (omega arith)

one_nonzero : one32 ≢ zero32
one_nonzero e = ground arith

grouped_compiles : compile_config grouped_config ≡ ok compiled
unfolding compile_config validate_channel_config validate_calibration validate_tuning finite32 lt32
    is_nan32 rank32 le32 validate_filter filter_ok validate_dropout compile_overrides compile_groups
    known_channel contains
grouped_compiles = refl

compile_config-Sound_example : Sound compiled
compile_config-Sound_example = compile_config-Sound grouped_config compiled grouped_compiles

compiled-Sound : Sound compiled
compiled-Sound = compile_config-Sound grouped_config compiled grouped_compiles

canonical-seen_example :
    (expressions_get (canonical first_operand running merged_two (pos 40)).expressions 3).1
    ≡ (get_or running.channels (eye_channel_count + 3) no_channel).seen
canonical-seen_example =
    canonical-seen first_operand running merged_two (pos 40) 3 compiled-Sound refl (omega arith)

in_group : contains 14 (14 ∷ 81 ∷ []) ≡ true
unfolding contains
in_group = refl

shown_three :
    expressions_get (canonical first_operand running merged_two (pos 40)).expressions 3
    ≡ (one32, true)
unfolding canonical expressions_get mask_has project_mutual_exclusion project_group winner_from
    dropout_value lt32 is_nan32 abs32 rank32 eq32 silence expression_channel expressions_set
    mask_set
shown_three = refl

canonical_excludes_example : ◌≡◌ {A = ℕ} 3 3
canonical_excludes_example =
    canonical_excludes first_operand running merged_two (pos 40) 0 3 3 one32 one32 compiled-Sound
      refl (omega arith) (omega arith) in_group in_group shown_three shown_three one_nonzero
      one_nonzero

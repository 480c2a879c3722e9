-- ===== src/Processing/Output.antt =====
-- internal/processing/pipeline.go and canonical.go: the frame that the pipeline gives out.
use vrcft_go.Base.{
  ℕ, zero, suc, Bool, not, ◌&&◌, List, [], ◌∷◌, if◌then◌else◌, has_bits, bit_or, Bytes, is_empty, ℤ,
  leb_ℤ, ◌-ℤ◌,
}
use vrcft_go.Floats.{Arithmetic}
use vrcft_go.TrackingModel.Expressions.{
  ExpressionSet, empty_expressions, expression_count, expressions_set,
}
use vrcft_go.TrackingModel.Frame.{
  EyeSample, capability_eye, capability_expression, capability_lip, empty_eye, eye_valid_left_gaze,
  eye_valid_right_gaze, eye_valid_left_openness, eye_valid_right_openness, eye_valid_left_pupil,
  eye_valid_right_pupil,
}
use vrcft_go.Tracking.Merged.{MergedFrame}
use vrcft_go.Processing.Channel.{expression_channel}
use vrcft_go.Processing.Config.{CompiledConfig, config_at}
use vrcft_go.Processing.Dropout.{ChannelState, dropout_value}
use vrcft_go.Processing.Mutual.{Candidate, candidate_at, project_mutual_exclusion}
use vrcft_go.Processing.Pipeline.{Pipeline}

pub record CanonicalFrame : Type 0 where
  pub generation : ℕ
  pub revision : ℕ
  pub processed_at_ns : ℤ
  pub eye_source_id : Bytes
  pub expression_source_id : Bytes
  pub lip_source_id : Bytes
  pub eye_active : Bool
  pub expression_active : Bool
  pub lip_active : Bool
  pub eye : EyeSample
  pub expressions : ExpressionSet

unfoldable pub group_active : Bool → Bytes → ℤ → ℤ → ℤ → Bool
group_active capable source updated_at now stale_after =
    capable && not (is_empty source) && leb_ℤ (now -ℤ updated_at) stale_after

module _ (fl : Arithmetic) where
  -- One candidate for each channel, from `id` on.
  unfoldable pub candidates_from : CompiledConfig → ℤ → ℕ → List ChannelState → List Candidate
  candidates_from c now id [] = []
  candidates_from c now id (s ∷ ss) =
      let (value, valid) = dropout_value fl s (config_at c id).dropout now in
      record { value = value; valid = valid } ∷ candidates_from c now (suc id) ss

-- A scalar of the eye, or a pair of them that are valid together.
abbrev pub put_left_gaze : List Candidate → EyeSample → EyeSample
put_left_gaze cs e =
    if (candidate_at cs 1).valid && (candidate_at cs 2).valid
    then record e {
      valid = bit_or e.valid eye_valid_left_gaze;
      left_gaze = record { x = (candidate_at cs 1).value; y = (candidate_at cs 2).value };
    }
    else e

abbrev pub put_right_gaze : List Candidate → EyeSample → EyeSample
put_right_gaze cs e =
    if (candidate_at cs 3).valid && (candidate_at cs 4).valid
    then record e {
      valid = bit_or e.valid eye_valid_right_gaze;
      right_gaze = record { x = (candidate_at cs 3).value; y = (candidate_at cs 4).value };
    }
    else e

abbrev pub put_openness : List Candidate → EyeSample → EyeSample
put_openness cs e =
    let left =
      if (candidate_at cs 5).valid
      then record e {
        valid = bit_or e.valid eye_valid_left_openness;
        left_openness = (candidate_at cs 5).value;
      }
      else e in
    if (candidate_at cs 6).valid
    then record left {
      valid = bit_or left.valid eye_valid_right_openness;
      right_openness = (candidate_at cs 6).value;
    }
    else left

abbrev pub put_left_pupil : List Candidate → EyeSample → EyeSample
put_left_pupil cs e =
    if (candidate_at cs 7).valid && (candidate_at cs 9).valid
    then record e {
      valid = bit_or e.valid eye_valid_left_pupil;
      left_pupil_diameter_mm = (candidate_at cs 7).value;
      left_pupil_dilation = (candidate_at cs 9).value;
    }
    else e

abbrev pub put_right_pupil : List Candidate → EyeSample → EyeSample
put_right_pupil cs e =
    if (candidate_at cs 8).valid && (candidate_at cs 10).valid
    then record e {
      valid = bit_or e.valid eye_valid_right_pupil;
      right_pupil_diameter_mm = (candidate_at cs 8).value;
      right_pupil_dilation = (candidate_at cs 10).value;
    }
    else e

unfoldable pub canonical_eye_of : List Candidate → EyeSample
canonical_eye_of cs =
    put_right_pupil cs
      (put_left_pupil cs (put_openness cs (put_right_gaze cs (put_left_gaze cs empty_eye))))

-- The loop over the expressions, with `rounds` left from `id` on.
unfoldable pub canonical_expressions_of : List Candidate → ℕ → ℕ → ExpressionSet → ExpressionSet
canonical_expressions_of cs id zero x = x
canonical_expressions_of cs id (suc rounds) x =
    let (channel, _) = expression_channel id in
    canonical_expressions_of cs (suc id) rounds (
      if (candidate_at cs channel).valid
      then (expressions_set x id (candidate_at cs channel).value).0
      else x)

module _ (fl : Arithmetic) where
  unfoldable pub canonical : Pipeline → MergedFrame → ℤ → CanonicalFrame
  unfolding group_active candidates_from canonical_eye_of canonical_expressions_of
  canonical p m now =
      let stale = p.config.active_stale_after in
      let cs =
        project_mutual_exclusion (candidates_from fl p.config now 1 p.channels)
          p.config.mutual_exclusion in
      record {
        generation = m.generation;
        revision = m.sequence;
        processed_at_ns = now;
        eye_source_id = m.eye_source_id;
        expression_source_id = m.expression_source_id;
        lip_source_id = m.lip_source_id;
        eye_active =
            group_active (has_bits m.capabilities capability_eye) m.eye_source_id
              m.eye_updated_at_ns now stale;
        expression_active =
            group_active (has_bits m.capabilities capability_expression) m.expression_source_id
              m.expression_updated_at_ns now stale;
        lip_active =
            group_active (has_bits m.capabilities capability_lip) m.lip_source_id
              m.lip_updated_at_ns now stale;
        eye = canonical_eye_of cs;
        expressions = canonical_expressions_of cs 0 expression_count empty_expressions;
      }

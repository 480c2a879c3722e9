-- ===== src/Processing/Validation.antt =====
-- internal/processing/validation.go: what the pipeline asks of a merged frame.
use vrcft_go.Base.{
  Bool, false, not, ◌||◌, ◌==◌, if◌then◌else◌, Bytes, is_empty, ℤ, pos, ltb_ℤ, leb_ℤ, eqb_ℤ, Result,
  ok, err, ◌>>◌, fail_if, has_bits, and_not,
}
use vrcft_go.TrackingModel.Expressions.{empty_expressions, expressions_eq}
use vrcft_go.TrackingModel.Frame.{
  TrackingFrame, FrameError, capability_eye, capability_expression, capability_lip,
  known_capabilities, empty_eye, empty_frame, eye_eq, validate,
}
use vrcft_go.Tracking.Merged.{MergedFrame}
use vrcft_go.Processing.Config.{ProcessingError, invalid_input}

unfoldable pub validate_group : Bool → Bytes → ℤ → ℤ → Bool → Result ProcessingError (Unit {0})
validate_group capable source updated_at now has_data =
    if capable
    then (do
      fail_if (is_empty source) invalid_input
      fail_if (leb_ℤ updated_at (pos 0) || ltb_ℤ now updated_at) invalid_input)
    else fail_if (not (is_empty source) || not (eqb_ℤ updated_at (pos 0)) || has_data) invalid_input

-- The frame of which the payload's own rules are asked.
abbrev pub model_frame : MergedFrame → TrackingFrame
model_frame m = record empty_frame {
  capabilities = m.capabilities;
  eye = m.eye;
  expressions = m.expressions;
}

-- `fmt.Errorf("merged payload: %v: %w", err, ErrInvalidInput)`.
abbrev pub as_input_error : Result FrameError (Unit {0}) → Result ProcessingError (Unit {0})
as_input_error (ok u) = ok u
as_input_error (err _) = err invalid_input

unfoldable pub validate_payload : MergedFrame → Result ProcessingError (Unit {0})
validate_payload m = as_input_error (validate (model_frame m))

unfoldable pub validate_merged_input : MergedFrame → ℤ → Result ProcessingError (Unit {0})
unfolding validate_group validate_payload
validate_merged_input m now = do
  fail_if (m.generation == 0) invalid_input
  fail_if (m.sequence == 0) invalid_input
  fail_if (ltb_ℤ now (pos 0)) invalid_input
  fail_if (ltb_ℤ m.updated_at_ns (pos 0) || ltb_ℤ now m.updated_at_ns) invalid_input
  fail_if (not (and_not m.capabilities known_capabilities == 0)) invalid_input
  validate_group (has_bits m.capabilities capability_eye) m.eye_source_id m.eye_updated_at_ns now
      (not (eye_eq m.eye empty_eye))
  validate_group (has_bits m.capabilities capability_expression) m.expression_source_id
      m.expression_updated_at_ns now (not (expressions_eq m.expressions empty_expressions))
  validate_group (has_bits m.capabilities capability_lip) m.lip_source_id m.lip_updated_at_ns now
      false
  validate_payload m

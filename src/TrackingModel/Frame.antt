-- ===== src/TrackingModel/Frame.antt =====
-- pkg/trackingmodel/frame.go and capacity.go: the frame that a plugin sends, and its checks.
use vrcft_go.Base.{
  ℕ, suc, Bool, not, ◌&&◌, List, [], ◌∷◌, ◌==◌, if◌then◌else◌, has_bits, and_not, ℤ, pos, Result,
  ok, err, ◌>>◌, fail_if,
}
use vrcft_go.Floats.{Float32, finite32, eq32, zero32}
use vrcft_go.TrackingModel.Expressions.{
  ExpressionMask, ExpressionSet, mask_has, mask_is_zero, mask_normalize, mask_eq, empty_expressions,
}

abbrev pub capability_eye : ℕ
capability_eye = 1

abbrev pub capability_expression : ℕ
capability_expression = 2

abbrev pub capability_lip : ℕ
capability_lip = 4

abbrev pub known_capabilities : ℕ
known_capabilities = 7

abbrev pub eye_valid_left_gaze : ℕ
eye_valid_left_gaze = 1

abbrev pub eye_valid_right_gaze : ℕ
eye_valid_right_gaze = 2

abbrev pub eye_valid_left_openness : ℕ
eye_valid_left_openness = 4

abbrev pub eye_valid_right_openness : ℕ
eye_valid_right_openness = 8

abbrev pub eye_valid_left_pupil : ℕ
eye_valid_left_pupil = 16

abbrev pub eye_valid_right_pupil : ℕ
eye_valid_right_pupil = 32

abbrev pub known_eye_valid : ℕ
known_eye_valid = 63

pub record Vec2 : Type 0 where
  pub x : Float32
  pub y : Float32

abbrev pub zero_vec2 : Vec2
zero_vec2 = record { x = zero32; y = zero32 }

pub record EyeSample : Type 0 where
  pub valid : ℕ
  pub left_gaze : Vec2
  pub right_gaze : Vec2
  pub left_openness : Float32
  pub right_openness : Float32
  pub left_pupil_diameter_mm : Float32
  pub right_pupil_diameter_mm : Float32
  pub left_pupil_dilation : Float32
  pub right_pupil_dilation : Float32

abbrev pub empty_eye : EyeSample
empty_eye = record {
  valid = 0;
  left_gaze = zero_vec2;
  right_gaze = zero_vec2;
  left_openness = zero32;
  right_openness = zero32;
  left_pupil_diameter_mm = zero32;
  right_pupil_diameter_mm = zero32;
  left_pupil_dilation = zero32;
  right_pupil_dilation = zero32;
}

pub record TrackingFrame : Type 0 where
  pub sequence : ℕ
  pub timestamp_ns : ℤ
  pub capabilities : ℕ
  pub source_clock_ns : ℤ
  pub eye : EyeSample
  pub expressions : ExpressionSet

abbrev pub empty_frame : TrackingFrame
empty_frame = record {
  sequence = 0;
  timestamp_ns = pos 0;
  capabilities = 0;
  source_clock_ns = pos 0;
  eye = empty_eye;
  expressions = empty_expressions;
}

-- What `Validate` can say, one constructor for each message.
pub data FrameError : Type 0 where
  unknown_capability_bits unknown_eye_bits expression_tail_bits : FrameError
  eye_requires_capability expressions_require_capability : FrameError
  eye_value_not_finite : ℕ → FrameError
  expression_not_finite : ℕ → FrameError

-- The table of `validateFiniteEye`: a validity bit beside the value that it covers.
abbrev pub eye_checks : EyeSample → List (ℕ × Float32)
eye_checks e =
    (eye_valid_left_gaze, e.left_gaze.x)
    ∷ (eye_valid_left_gaze, e.left_gaze.y)
    ∷ (eye_valid_right_gaze, e.right_gaze.x)
    ∷ (eye_valid_right_gaze, e.right_gaze.y)
    ∷ (eye_valid_left_openness, e.left_openness)
    ∷ (eye_valid_right_openness, e.right_openness)
    ∷ (eye_valid_left_pupil, e.left_pupil_diameter_mm)
    ∷ (eye_valid_left_pupil, e.left_pupil_dilation)
    ∷ (eye_valid_right_pupil, e.right_pupil_diameter_mm)
    ∷ (eye_valid_right_pupil, e.right_pupil_dilation)
    ∷ []

-- The first row, counted from `row`, whose bit is set and whose value is not finite.
unfoldable pub check_eye_rows : ℕ → ℕ → List (ℕ × Float32) → Result FrameError (Unit {0})
check_eye_rows valid row [] = ok tt
check_eye_rows valid row ((bit, value) ∷ rows) =
    if has_bits valid bit && not (finite32 value)
    then err (eye_value_not_finite row)
    else check_eye_rows valid (suc row) rows

unfoldable pub validate_finite_eye : EyeSample → Result FrameError (Unit {0})
validate_finite_eye e = check_eye_rows e.valid 0 (eye_checks e)

-- The loop over the expressions, from `id` on.
unfoldable pub validate_values : ExpressionMask → ℕ → List Float32 → Result FrameError (Unit {0})
validate_values m id [] = ok tt
validate_values m id (v ∷ vs) =
    if mask_has m id && not (finite32 v)
    then err (expression_not_finite id)
    else validate_values m (suc id) vs

unfoldable pub validate : TrackingFrame → Result FrameError (Unit {0})
validate f = do
  fail_if (not (and_not f.capabilities known_capabilities == 0)) unknown_capability_bits
  fail_if (not (and_not f.eye.valid known_eye_valid == 0)) unknown_eye_bits
  fail_if (not (mask_eq f.expressions.valid (mask_normalize f.expressions.valid)))
      expression_tail_bits
  fail_if (not (has_bits f.capabilities capability_eye) && not (f.eye.valid == 0))
      eye_requires_capability
  fail_if
      (not (has_bits f.capabilities capability_expression)
        && not (mask_is_zero f.expressions.valid))
      expressions_require_capability
  validate_finite_eye f.eye
  validate_values f.expressions.valid 0 f.expressions.values

unfoldable pub zero_invalid_eye_values : EyeSample → EyeSample
zero_invalid_eye_values e = record {
  valid = e.valid;
  left_gaze = if has_bits e.valid eye_valid_left_gaze then e.left_gaze else zero_vec2;
  right_gaze = if has_bits e.valid eye_valid_right_gaze then e.right_gaze else zero_vec2;
  left_openness = if has_bits e.valid eye_valid_left_openness then e.left_openness else zero32;
  right_openness = if has_bits e.valid eye_valid_right_openness then e.right_openness else zero32;
  left_pupil_diameter_mm =
      if has_bits e.valid eye_valid_left_pupil then e.left_pupil_diameter_mm else zero32;
  right_pupil_diameter_mm =
      if has_bits e.valid eye_valid_right_pupil then e.right_pupil_diameter_mm else zero32;
  left_pupil_dilation =
      if has_bits e.valid eye_valid_left_pupil then e.left_pupil_dilation else zero32;
  right_pupil_dilation =
      if has_bits e.valid eye_valid_right_pupil then e.right_pupil_dilation else zero32;
}

unfoldable pub zero_invalid_values : ExpressionMask → ℕ → List Float32 → List Float32
zero_invalid_values m id [] = []
zero_invalid_values m id (v ∷ vs) =
    (if mask_has m id then v else zero32) ∷ zero_invalid_values m (suc id) vs

unfoldable pub canonical_eye : TrackingFrame → EyeSample
unfolding zero_invalid_eye_values
canonical_eye f =
    if has_bits f.capabilities capability_eye then zero_invalid_eye_values f.eye else empty_eye

unfoldable pub canonical_expressions : TrackingFrame → ExpressionSet
canonical_expressions f =
    if has_bits f.capabilities capability_expression
    then record f.expressions {
      values = zero_invalid_values f.expressions.valid 0 f.expressions.values;
    }
    else empty_expressions

unfoldable pub canonicalize : TrackingFrame → Result FrameError TrackingFrame
canonicalize f = do
  validate f
  ok (record f { eye = canonical_eye f; expressions = canonical_expressions f })

-- Go's `==`.
unfoldable pub vec2_eq : Vec2 → Vec2 → Bool
vec2_eq a b = eq32 a.x b.x && eq32 a.y b.y

unfoldable pub eye_eq : EyeSample → EyeSample → Bool
eye_eq a b =
    a.valid == b.valid
    && vec2_eq a.left_gaze b.left_gaze
    && vec2_eq a.right_gaze b.right_gaze
    && eq32 a.left_openness b.left_openness
    && eq32 a.right_openness b.right_openness
    && eq32 a.left_pupil_diameter_mm b.left_pupil_diameter_mm
    && eq32 a.right_pupil_diameter_mm b.right_pupil_diameter_mm
    && eq32 a.left_pupil_dilation b.left_pupil_dilation
    && eq32 a.right_pupil_dilation b.right_pupil_dilation

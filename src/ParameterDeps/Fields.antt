-- ===== src/ParameterDeps/Fields.antt =====
-- internal/parameterdeps/dependencies.go: sets of eye fields, of expressions and of active states.
use vrcft_go.Base.{
  ℕ, ◌-◌, ◌^◌, bit_or, Bool, false, ◌&&◌, ◌||◌, List, [], ◌∷◌, ltb, leb, ◌==◌, if◌then◌else◌,
  has_bits,
}
use vrcft_go.TrackingModel.Expressions.{ExpressionMask, no_expressions, mask_is_zero}
use vrcft_go.TrackingModel.Frame.{
  eye_valid_left_gaze, eye_valid_right_gaze, eye_valid_left_openness, eye_valid_right_openness,
  eye_valid_left_pupil, eye_valid_right_pupil,
}

-- `EyeField`, from EyeFieldLeftGazeX on.
abbrev pub left_gaze_x : ℕ
left_gaze_x = 1

abbrev pub left_gaze_y : ℕ
left_gaze_y = 2

abbrev pub right_gaze_x : ℕ
right_gaze_x = 3

abbrev pub right_gaze_y : ℕ
right_gaze_y = 4

abbrev pub left_openness : ℕ
left_openness = 5

abbrev pub right_openness : ℕ
right_openness = 6

abbrev pub left_pupil_diameter : ℕ
left_pupil_diameter = 7

abbrev pub right_pupil_diameter : ℕ
right_pupil_diameter = 8

abbrev pub left_pupil_dilation : ℕ
left_pupil_dilation = 9

abbrev pub right_pupil_dilation : ℕ
right_pupil_dilation = 10

abbrev pub eye_field_count : ℕ
eye_field_count = 11

unfoldable pub eye_fields_of : List ℕ → ℕ
eye_fields_of [] = 0
eye_fields_of (field ∷ fields) =
    let rest = eye_fields_of fields in
    if ltb 0 field && ltb field eye_field_count then bit_or (2 ^ (field - 1)) rest else rest

unfoldable pub eye_fields_has : ℕ → ℕ → Bool
eye_fields_has f field =
    if field == 0 || leb eye_field_count field then false else has_bits f (2 ^ (field - 1))

abbrev add_if : Bool → ℕ → ℕ → ℕ
add_if test bits valid = if test then bit_or valid bits else valid

-- The validity bits that a subscription needs for the fields.
unfoldable pub eye_valid : ℕ → ℕ
eye_valid f =
    add_if (eye_fields_has f right_pupil_diameter || eye_fields_has f right_pupil_dilation)
      eye_valid_right_pupil
      (add_if (eye_fields_has f left_pupil_diameter || eye_fields_has f left_pupil_dilation)
        eye_valid_left_pupil
        (add_if (eye_fields_has f right_openness) eye_valid_right_openness (
          add_if (eye_fields_has f left_openness) eye_valid_left_openness (
            add_if (eye_fields_has f right_gaze_x || eye_fields_has f right_gaze_y)
              eye_valid_right_gaze
              (add_if (eye_fields_has f left_gaze_x || eye_fields_has f left_gaze_y)
                eye_valid_left_gaze 0)))))

-- `ActiveState`, from ActiveStateEyeTracking on.
abbrev pub eye_tracking : ℕ
eye_tracking = 1

abbrev pub expression_tracking : ℕ
expression_tracking = 2

abbrev pub lip_tracking : ℕ
lip_tracking = 3

abbrev pub active_state_count : ℕ
active_state_count = 4

unfoldable pub active_states_of : List ℕ → ℕ
active_states_of [] = 0
active_states_of (state ∷ states) =
    let rest = active_states_of states in
    if ltb 0 state && ltb state active_state_count then bit_or (2 ^ (state - 1)) rest else rest

unfoldable pub active_states_has : ℕ → ℕ → Bool
active_states_has s state =
    if state == 0 || leb active_state_count state then false else has_bits s (2 ^ (state - 1))

pub record Inputs : Type 0 where
  pub eye : ℕ
  pub expressions : ExpressionMask
  pub active : ℕ

abbrev pub no_inputs : Inputs
no_inputs = record { eye = 0; expressions = no_expressions; active = 0 }

unfoldable pub inputs_is_zero : Inputs → Bool
inputs_is_zero i = i.eye == 0 && mask_is_zero i.expressions && i.active == 0

unfoldable pub required_eye_valid : Inputs → ℕ
required_eye_valid i = eye_valid i.eye

unfoldable pub union : Inputs → Inputs → Inputs
union left right = record {
  eye = bit_or left.eye right.eye;
  expressions = record {
    word_0 = bit_or left.expressions.word_0 right.expressions.word_0;
    word_1 = bit_or left.expressions.word_1 right.expressions.word_1;
  };
  active = bit_or left.active right.active;
}

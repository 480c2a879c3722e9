-- ===== src/Parameters/Table/Part1.antt =====
-- internal/parameters/definitions_gen.go: the parameters EyeLeftX to EyeSquintLeft.
use vrcft_go.Base.{List, [], ◌∷◌}
use vrcft_go.Floats.{zero32, one32}
use vrcft_go.Parameters.Definition.{
  ParameterDefinition, float_row, meaning, kind_detailed, minus_one32,
}

abbrev pub part_1 : List ParameterDefinition
part_1 =
    float_row 0 "EyeLeftX" "v2/EyeLeftX" "eye_gaze" kind_detailed minus_one32 one32
      "normalized_cartesian"
      (meaning zero32 one32 "left eye looks right"
        ∷ meaning minus_one32 zero32 "left eye looks left"
        ∷ [])
    ∷ float_row 1 "EyeLeftY" "v2/EyeLeftY" "eye_gaze" kind_detailed minus_one32 one32
        "normalized_cartesian"
        (meaning zero32 one32 "left eye looks up"
          ∷ meaning minus_one32 zero32 "left eye looks down"
          ∷ [])
    ∷ float_row 2 "EyeRightX" "v2/EyeRightX" "eye_gaze" kind_detailed minus_one32 one32
        "normalized_cartesian"
        (meaning zero32 one32 "right eye looks right"
          ∷ meaning minus_one32 zero32 "right eye looks left"
          ∷ [])
    ∷ float_row 3 "EyeRightY" "v2/EyeRightY" "eye_gaze" kind_detailed minus_one32 one32
        "normalized_cartesian"
        (meaning zero32 one32 "right eye looks up"
          ∷ meaning minus_one32 zero32 "right eye looks down"
          ∷ [])
    ∷ float_row 4 "EyeLidRight" "v2/EyeLidRight" "eye_expression" kind_detailed zero32 one32
        "normalized"
        (meaning zero32 0x3f400000 "right-eye openness"
          ∷ meaning 0x3f400000 one32 "right-eye widen beyond the normal-open region"
          ∷ [])
    ∷ float_row 5 "EyeLidLeft" "v2/EyeLidLeft" "eye_expression" kind_detailed zero32 one32
        "normalized"
        (meaning zero32 0x3f400000 "left-eye openness"
          ∷ meaning 0x3f400000 one32 "left-eye widen beyond the normal-open region"
          ∷ [])
    ∷ float_row 6 "EyeLid" "v2/EyeLid" "eye_expression" kind_detailed zero32 one32 "normalized" (
        meaning zero32 0x3f400000 "combined left/right eye openness"
        ∷ meaning 0x3f400000 one32 "combined left/right eye widen beyond the normal-open region"
        ∷ [])
    ∷ float_row 7 "EyeSquintRight" "v2/EyeSquintRight" "eye_expression" kind_detailed zero32 one32
        "normalized" (meaning zero32 one32 "right-eye squint" ∷ [])
    ∷ float_row 8 "EyeSquintLeft" "v2/EyeSquintLeft" "eye_expression" kind_detailed zero32 one32
        "normalized" (meaning zero32 one32 "left-eye squint" ∷ [])
    ∷ []

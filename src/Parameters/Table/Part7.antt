-- ===== src/Parameters/Table/Part7.antt =====
-- internal/parameters/definitions_gen.go: the parameters MouthUpperX to MouthFrownRight.
use vrcft_go.Base.{List, [], ◌∷◌}
use vrcft_go.Floats.{zero32, one32}
use vrcft_go.Parameters.Definition.{
  ParameterDefinition, float_row, meaning, kind_detailed, minus_one32,
}

abbrev pub part_7 : List ParameterDefinition
part_7 =
    float_row 58 "MouthUpperX" "v2/MouthUpperX" "mouth" kind_detailed minus_one32 one32 "normalized"
      (meaning zero32 one32 "upper mouth moves right"
        ∷ meaning minus_one32 zero32 "upper mouth moves left"
        ∷ [])
    ∷ float_row 59 "MouthLowerX" "v2/MouthLowerX" "mouth" kind_detailed minus_one32 one32
        "normalized"
        (meaning zero32 one32 "lower mouth moves right"
          ∷ meaning minus_one32 zero32 "lower mouth moves left"
          ∷ [])
    ∷ float_row 60 "MouthCornerPullRight" "v2/MouthCornerPullRight" "mouth" kind_detailed zero32
        one32 "normalized" (meaning zero32 one32 "right mouth-corner pull" ∷ [])
    ∷ float_row 61 "MouthCornerPullLeft" "v2/MouthCornerPullLeft" "mouth" kind_detailed zero32 one32
        "normalized" (meaning zero32 one32 "left mouth-corner pull" ∷ [])
    ∷ float_row 62 "MouthCornerSlantRight" "v2/MouthCornerSlantRight" "mouth" kind_detailed zero32
        one32 "normalized" (meaning zero32 one32 "right mouth-corner slant" ∷ [])
    ∷ float_row 63 "MouthCornerSlantLeft" "v2/MouthCornerSlantLeft" "mouth" kind_detailed zero32
        one32 "normalized" (meaning zero32 one32 "left mouth-corner slant" ∷ [])
    ∷ float_row 64 "MouthDimpleRight" "v2/MouthDimpleRight" "mouth" kind_detailed zero32 one32
        "normalized" (meaning zero32 one32 "right mouth dimple" ∷ [])
    ∷ float_row 65 "MouthDimpleLeft" "v2/MouthDimpleLeft" "mouth" kind_detailed zero32 one32
        "normalized" (meaning zero32 one32 "left mouth dimple" ∷ [])
    ∷ float_row 66 "MouthFrownRight" "v2/MouthFrownRight" "mouth" kind_detailed zero32 one32
        "normalized" (meaning zero32 one32 "right mouth frown" ∷ [])
    ∷ []

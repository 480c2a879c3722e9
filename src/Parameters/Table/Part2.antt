-- ===== src/Parameters/Table/Part2.antt =====
-- internal/parameters/definitions_gen.go: the parameters EyeSquint to BrowInnerUpRight.
use vrcft_go.Base.{List, [], ◌∷◌}
use vrcft_go.Floats.{zero32, one32}
use vrcft_go.Parameters.Definition.{ParameterDefinition, float_row, meaning, kind_detailed}

abbrev pub part_2 : List ParameterDefinition
part_2 =
    float_row 9 "EyeSquint" "v2/EyeSquint" "eye_expression" kind_detailed zero32 one32 "normalized"
      (meaning zero32 one32 "combined right/left eye squint" ∷ [])
    ∷ float_row 10 "PupilDilation" "v2/PupilDilation" "eye_expression" kind_detailed zero32 one32
        "normalized" (meaning zero32 one32 "normalized pupil dilation" ∷ [])
    ∷ float_row 11 "PupilDiameterRight" "v2/PupilDiameterRight" "eye_expression" kind_detailed
        zero32 one32 "centimeter" (meaning zero32 one32 "right-pupil diameter" ∷ [])
    ∷ float_row 12 "PupilDiameterLeft" "v2/PupilDiameterLeft" "eye_expression" kind_detailed zero32
        one32 "centimeter" (meaning zero32 one32 "left-pupil diameter" ∷ [])
    ∷ float_row 13 "PupilDiameter" "v2/PupilDiameter" "eye_expression" kind_detailed zero32 one32
        "centimeter" (meaning zero32 one32 "combined pupil diameter" ∷ [])
    ∷ float_row 14 "BrowPinchRight" "v2/BrowPinchRight" "brow" kind_detailed zero32 one32
        "normalized" (meaning zero32 one32 "right-brow pinch" ∷ [])
    ∷ float_row 15 "BrowPinchLeft" "v2/BrowPinchLeft" "brow" kind_detailed zero32 one32 "normalized"
        (meaning zero32 one32 "left-brow pinch" ∷ [])
    ∷ float_row 16 "BrowLowererRight" "v2/BrowLowererRight" "brow" kind_detailed zero32 one32
        "normalized" (meaning zero32 one32 "right-brow lowering" ∷ [])
    ∷ float_row 17 "BrowLowererLeft" "v2/BrowLowererLeft" "brow" kind_detailed zero32 one32
        "normalized" (meaning zero32 one32 "left-brow lowering" ∷ [])
    ∷ float_row 18 "BrowInnerUpRight" "v2/BrowInnerUpRight" "brow" kind_detailed zero32 one32
        "normalized" (meaning zero32 one32 "right inner-brow raise" ∷ [])
    ∷ []

-- ===== src/Parameters/Table/Part8.antt =====
-- internal/parameters/definitions_gen.go: the parameters MouthFrownLeft to TongueOut.
use vrcft_go.Base.{List, [], ◌∷◌}
use vrcft_go.Floats.{zero32, one32}
use vrcft_go.Parameters.Definition.{ParameterDefinition, float_row, meaning, kind_detailed}

abbrev pub part_8 : List ParameterDefinition
part_8 =
    float_row 67 "MouthFrownLeft" "v2/MouthFrownLeft" "mouth" kind_detailed zero32 one32
      "normalized" (meaning zero32 one32 "left mouth frown" ∷ [])
    ∷ float_row 68 "MouthStretchRight" "v2/MouthStretchRight" "mouth" kind_detailed zero32 one32
        "normalized" (meaning zero32 one32 "right mouth stretch" ∷ [])
    ∷ float_row 69 "MouthStretchLeft" "v2/MouthStretchLeft" "mouth" kind_detailed zero32 one32
        "normalized" (meaning zero32 one32 "left mouth stretch" ∷ [])
    ∷ float_row 70 "MouthRaiserUpper" "v2/MouthRaiserUpper" "mouth" kind_detailed zero32 one32
        "normalized" (meaning zero32 one32 "upper-mouth raiser" ∷ [])
    ∷ float_row 71 "MouthRaiserLower" "v2/MouthRaiserLower" "mouth" kind_detailed zero32 one32
        "normalized" (meaning zero32 one32 "lower-mouth raiser" ∷ [])
    ∷ float_row 72 "MouthPressRight" "v2/MouthPressRight" "mouth" kind_detailed zero32 one32
        "normalized" (meaning zero32 one32 "right mouth press" ∷ [])
    ∷ float_row 73 "MouthPressLeft" "v2/MouthPressLeft" "mouth" kind_detailed zero32 one32
        "normalized" (meaning zero32 one32 "left mouth press" ∷ [])
    ∷ float_row 74 "MouthTightenerRight" "v2/MouthTightenerRight" "mouth" kind_detailed zero32 one32
        "normalized" (meaning zero32 one32 "right mouth tightener" ∷ [])
    ∷ float_row 75 "MouthTightenerLeft" "v2/MouthTightenerLeft" "mouth" kind_detailed zero32 one32
        "normalized" (meaning zero32 one32 "left mouth tightener" ∷ [])
    ∷ float_row 76 "TongueOut" "v2/TongueOut" "tongue" kind_detailed zero32 one32 "normalized"
        (meaning zero32 one32 "tongue extension" ∷ [])
    ∷ []

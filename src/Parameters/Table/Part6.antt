-- ===== src/Parameters/Table/Part6.antt =====
-- internal/parameters/definitions_gen.go: the parameters LipPuckerUpperRight to MouthUpperDeepenLeft.
use vrcft_go.Base.{List, [], ◌∷◌}
use vrcft_go.Floats.{zero32, one32}
use vrcft_go.Parameters.Definition.{ParameterDefinition, float_row, meaning, kind_detailed}

abbrev pub part_6 : List ParameterDefinition
part_6 =
    float_row 48 "LipPuckerUpperRight" "v2/LipPuckerUpperRight" "lip" kind_detailed zero32 one32
      "normalized" (meaning zero32 one32 "upper-right lip pucker" ∷ [])
    ∷ float_row 49 "LipPuckerUpperLeft" "v2/LipPuckerUpperLeft" "lip" kind_detailed zero32 one32
        "normalized" (meaning zero32 one32 "upper-left lip pucker" ∷ [])
    ∷ float_row 50 "LipPuckerLowerRight" "v2/LipPuckerLowerRight" "lip" kind_detailed zero32 one32
        "normalized" (meaning zero32 one32 "lower-right lip pucker" ∷ [])
    ∷ float_row 51 "LipPuckerLowerLeft" "v2/LipPuckerLowerLeft" "lip" kind_detailed zero32 one32
        "normalized" (meaning zero32 one32 "lower-left lip pucker" ∷ [])
    ∷ float_row 52 "MouthUpperUpRight" "v2/MouthUpperUpRight" "mouth" kind_detailed zero32 one32
        "normalized" (meaning zero32 one32 "upper-right mouth raise" ∷ [])
    ∷ float_row 53 "MouthUpperUpLeft" "v2/MouthUpperUpLeft" "mouth" kind_detailed zero32 one32
        "normalized" (meaning zero32 one32 "upper-left mouth raise" ∷ [])
    ∷ float_row 54 "MouthLowerDownRight" "v2/MouthLowerDownRight" "mouth" kind_detailed zero32 one32
        "normalized" (meaning zero32 one32 "lower-right mouth depression" ∷ [])
    ∷ float_row 55 "MouthLowerDownLeft" "v2/MouthLowerDownLeft" "mouth" kind_detailed zero32 one32
        "normalized" (meaning zero32 one32 "lower-left mouth depression" ∷ [])
    ∷ float_row 56 "MouthUpperDeepenRight" "v2/MouthUpperDeepenRight" "mouth" kind_detailed zero32
        one32 "normalized" (meaning zero32 one32 "upper-right mouth deepen" ∷ [])
    ∷ float_row 57 "MouthUpperDeepenLeft" "v2/MouthUpperDeepenLeft" "mouth" kind_detailed zero32
        one32 "normalized" (meaning zero32 one32 "upper-left mouth deepen" ∷ [])
    ∷ []

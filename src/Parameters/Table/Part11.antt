-- ===== src/Parameters/Table/Part11.antt =====
-- internal/parameters/definitions_gen.go: the parameters BrowExpressionRight to MouthSmileLeft.
use vrcft_go.Base.{List, [], ◌∷◌}
use vrcft_go.Floats.{zero32, one32}
use vrcft_go.Parameters.Definition.{
  ParameterDefinition, float_row, meaning, kind_simplified, minus_one32,
}

abbrev pub part_11 : List ParameterDefinition
part_11 =
    float_row 95 "BrowExpressionRight" "v2/BrowExpressionRight" "simplified_brow" kind_simplified
      minus_one32 one32 "normalized"
      (meaning zero32 one32 "right brow up" ∷ meaning minus_one32 zero32 "right brow down" ∷ [])
    ∷ float_row 96 "BrowExpressionLeft" "v2/BrowExpressionLeft" "simplified_brow" kind_simplified
        minus_one32 one32 "normalized"
        (meaning zero32 one32 "left brow up" ∷ meaning minus_one32 zero32 "left brow down" ∷ [])
    ∷ float_row 97 "BrowExpression" "v2/BrowExpression" "simplified_brow" kind_simplified
        minus_one32 one32 "normalized"
        (meaning zero32 one32 "combined brow up"
          ∷ meaning minus_one32 zero32 "combined brow down"
          ∷ [])
    ∷ float_row 98 "MouthX" "v2/MouthX" "simplified_mouth" kind_simplified minus_one32 one32
        "normalized"
        (meaning zero32 one32 "mouth moves right"
          ∷ meaning minus_one32 zero32 "mouth moves left"
          ∷ [])
    ∷ float_row 99 "MouthUpperUp" "v2/MouthUpperUp" "simplified_mouth" kind_simplified zero32 one32
        "normalized" (meaning zero32 one32 "combined upper-mouth raise" ∷ [])
    ∷ float_row 100 "MouthLowerDown" "v2/MouthLowerDown" "simplified_mouth" kind_simplified zero32
        one32 "normalized" (meaning zero32 one32 "combined lower-mouth depression" ∷ [])
    ∷ float_row 101 "MouthOpen" "v2/MouthOpen" "simplified_mouth" kind_simplified zero32 one32
        "normalized" (meaning zero32 one32 "combined upper raise and lower depression" ∷ [])
    ∷ float_row 102 "MouthSmileRight" "v2/MouthSmileRight" "simplified_mouth" kind_simplified zero32
        one32 "normalized"
        (meaning zero32 one32 "right smile from mouth-corner pull and slant" ∷ [])
    ∷ float_row 103 "MouthSmileLeft" "v2/MouthSmileLeft" "simplified_mouth" kind_simplified zero32
        one32 "normalized" (meaning zero32 one32 "left smile from mouth-corner pull and slant" ∷ [])
    ∷ []

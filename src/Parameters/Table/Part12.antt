-- ===== src/Parameters/Table/Part12.antt =====
-- internal/parameters/definitions_gen.go: the parameters MouthSadRight to LipSuckUpper.
use vrcft_go.Base.{List, [], ◌∷◌}
use vrcft_go.Floats.{zero32, one32}
use vrcft_go.Parameters.Definition.{
  ParameterDefinition, float_row, meaning, kind_simplified, minus_one32,
}

abbrev pub part_12 : List ParameterDefinition
part_12 =
    float_row 104 "MouthSadRight" "v2/MouthSadRight" "simplified_mouth" kind_simplified zero32 one32
      "normalized" (meaning zero32 one32 "right sad shape from frown and stretch" ∷ [])
    ∷ float_row 105 "MouthSadLeft" "v2/MouthSadLeft" "simplified_mouth" kind_simplified zero32 one32
        "normalized" (meaning zero32 one32 "left sad shape from frown and stretch" ∷ [])
    ∷ float_row 106 "SmileFrownRight" "v2/SmileFrownRight" "simplified_mouth" kind_simplified
        minus_one32 one32 "normalized"
        (meaning zero32 one32 "right smile from corner pull/slant"
          ∷ meaning minus_one32 zero32 "right frown"
          ∷ [])
    ∷ float_row 107 "SmileFrownLeft" "v2/SmileFrownLeft" "simplified_mouth" kind_simplified
        minus_one32 one32 "normalized"
        (meaning zero32 one32 "left smile from corner pull/slant"
          ∷ meaning minus_one32 zero32 "left frown"
          ∷ [])
    ∷ float_row 108 "SmileFrown" "v2/SmileFrown" "simplified_mouth" kind_simplified minus_one32
        one32 "normalized"
        (meaning zero32 one32 "combined smile from corner pull/slant"
          ∷ meaning minus_one32 zero32 "combined frown"
          ∷ [])
    ∷ float_row 109 "SmileSadRight" "v2/SmileSadRight" "simplified_mouth" kind_simplified
        minus_one32 one32 "normalized"
        (meaning zero32 one32 "right smile from corner pull/slant"
          ∷ meaning minus_one32 zero32 "right sad shape from frown/stretch"
          ∷ [])
    ∷ float_row 110 "SmileSadLeft" "v2/SmileSadLeft" "simplified_mouth" kind_simplified minus_one32
        one32 "normalized"
        (meaning zero32 one32 "left smile from corner pull/slant"
          ∷ meaning minus_one32 zero32 "left sad shape from frown/stretch"
          ∷ [])
    ∷ float_row 111 "SmileSad" "v2/SmileSad" "simplified_mouth" kind_simplified minus_one32 one32
        "normalized"
        (meaning zero32 one32 "combined smile from corner pull/slant"
          ∷ meaning minus_one32 zero32 "combined sad shape from frown/stretch"
          ∷ [])
    ∷ float_row 112 "LipSuckUpper" "v2/LipSuckUpper" "simplified_lip" kind_simplified zero32 one32
        "normalized" (meaning zero32 one32 "combined upper-lip suck" ∷ [])
    ∷ []

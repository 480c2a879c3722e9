-- ===== src/Parameters/Table/Part13.antt =====
-- internal/parameters/definitions_gen.go: the parameters LipSuckLower to CheekSquint.
use vrcft_go.Base.{List, [], ◌∷◌}
use vrcft_go.Floats.{zero32, one32}
use vrcft_go.Parameters.Definition.{ParameterDefinition, float_row, meaning, kind_simplified}

abbrev pub part_13 : List ParameterDefinition
part_13 =
    float_row 113 "LipSuckLower" "v2/LipSuckLower" "simplified_lip" kind_simplified zero32 one32
      "normalized" (meaning zero32 one32 "combined lower-lip suck" ∷ [])
    ∷ float_row 114 "LipSuck" "v2/LipSuck" "simplified_lip" kind_simplified zero32 one32
        "normalized" (meaning zero32 one32 "combined lip suck" ∷ [])
    ∷ float_row 115 "LipFunnelUpper" "v2/LipFunnelUpper" "simplified_lip" kind_simplified zero32
        one32 "normalized" (meaning zero32 one32 "combined upper-lip funnel" ∷ [])
    ∷ float_row 116 "LipFunnelLower" "v2/LipFunnelLower" "simplified_lip" kind_simplified zero32
        one32 "normalized" (meaning zero32 one32 "combined lower-lip funnel" ∷ [])
    ∷ float_row 117 "LipFunnel" "v2/LipFunnel" "simplified_lip" kind_simplified zero32 one32
        "normalized" (meaning zero32 one32 "combined lip funnel" ∷ [])
    ∷ float_row 118 "LipPuckerUpper" "v2/LipPuckerUpper" "simplified_lip" kind_simplified zero32
        one32 "normalized" (meaning zero32 one32 "combined upper-lip pucker" ∷ [])
    ∷ float_row 119 "LipPuckerLower" "v2/LipPuckerLower" "simplified_lip" kind_simplified zero32
        one32 "normalized" (meaning zero32 one32 "combined lower-lip pucker" ∷ [])
    ∷ float_row 120 "LipPucker" "v2/LipPucker" "simplified_lip" kind_simplified zero32 one32
        "normalized" (meaning zero32 one32 "combined lip pucker" ∷ [])
    ∷ float_row 121 "NoseSneer" "v2/NoseSneer" "simplified_nose_cheek" kind_simplified zero32 one32
        "normalized" (meaning zero32 one32 "combined nose sneer" ∷ [])
    ∷ float_row 122 "CheekSquint" "v2/CheekSquint" "simplified_nose_cheek" kind_simplified zero32
        one32 "normalized" (meaning zero32 one32 "combined cheek squint" ∷ [])
    ∷ []

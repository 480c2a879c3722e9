-- ===== src/Parameters/Table/Part5.antt =====
-- internal/parameters/definitions_gen.go: the parameters LipSuckUpperRight to LipFunnelLowerLeft.
use vrcft_go.Base.{List, [], ◌∷◌}
use vrcft_go.Floats.{zero32, one32}
use vrcft_go.Parameters.Definition.{ParameterDefinition, float_row, meaning, kind_detailed}

abbrev pub part_5 : List ParameterDefinition
part_5 =
    float_row 38 "LipSuckUpperRight" "v2/LipSuckUpperRight" "lip" kind_detailed zero32 one32
      "normalized" (meaning zero32 one32 "upper-right lip suck" ∷ [])
    ∷ float_row 39 "LipSuckUpperLeft" "v2/LipSuckUpperLeft" "lip" kind_detailed zero32 one32
        "normalized" (meaning zero32 one32 "upper-left lip suck" ∷ [])
    ∷ float_row 40 "LipSuckLowerRight" "v2/LipSuckLowerRight" "lip" kind_detailed zero32 one32
        "normalized" (meaning zero32 one32 "lower-right lip suck" ∷ [])
    ∷ float_row 41 "LipSuckLowerLeft" "v2/LipSuckLowerLeft" "lip" kind_detailed zero32 one32
        "normalized" (meaning zero32 one32 "lower-left lip suck" ∷ [])
    ∷ float_row 42 "LipSuckCornerRight" "v2/LipSuckCornerRight" "lip" kind_detailed zero32 one32
        "normalized" (meaning zero32 one32 "right lip-corner suck" ∷ [])
    ∷ float_row 43 "LipSuckCornerLeft" "v2/LipSuckCornerLeft" "lip" kind_detailed zero32 one32
        "normalized" (meaning zero32 one32 "left lip-corner suck" ∷ [])
    ∷ float_row 44 "LipFunnelUpperRight" "v2/LipFunnelUpperRight" "lip" kind_detailed zero32 one32
        "normalized" (meaning zero32 one32 "upper-right lip funnel" ∷ [])
    ∷ float_row 45 "LipFunnelUpperLeft" "v2/LipFunnelUpperLeft" "lip" kind_detailed zero32 one32
        "normalized" (meaning zero32 one32 "upper-left lip funnel" ∷ [])
    ∷ float_row 46 "LipFunnelLowerRight" "v2/LipFunnelLowerRight" "lip" kind_detailed zero32 one32
        "normalized" (meaning zero32 one32 "lower-right lip funnel" ∷ [])
    ∷ float_row 47 "LipFunnelLowerLeft" "v2/LipFunnelLowerLeft" "lip" kind_detailed zero32 one32
        "normalized" (meaning zero32 one32 "lower-left lip funnel" ∷ [])
    ∷ []

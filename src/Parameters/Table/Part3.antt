-- ===== src/Parameters/Table/Part3.antt =====
-- internal/parameters/definitions_gen.go: the parameters BrowInnerUpLeft to CheekSquintRight.
use vrcft_go.Base.{List, [], ◌∷◌}
use vrcft_go.Floats.{zero32, one32}
use vrcft_go.Parameters.Definition.{ParameterDefinition, float_row, meaning, kind_detailed}

abbrev pub part_3 : List ParameterDefinition
part_3 =
    float_row 19 "BrowInnerUpLeft" "v2/BrowInnerUpLeft" "brow" kind_detailed zero32 one32
      "normalized" (meaning zero32 one32 "left inner-brow raise" ∷ [])
    ∷ float_row 20 "BrowOuterUpRight" "v2/BrowOuterUpRight" "brow" kind_detailed zero32 one32
        "normalized" (meaning zero32 one32 "right outer-brow raise" ∷ [])
    ∷ float_row 21 "BrowOuterUpLeft" "v2/BrowOuterUpLeft" "brow" kind_detailed zero32 one32
        "normalized" (meaning zero32 one32 "left outer-brow raise" ∷ [])
    ∷ float_row 22 "NoseSneerRight" "v2/NoseSneerRight" "nose" kind_detailed zero32 one32
        "normalized" (meaning zero32 one32 "right-side nose sneer" ∷ [])
    ∷ float_row 23 "NoseSneerLeft" "v2/NoseSneerLeft" "nose" kind_detailed zero32 one32 "normalized"
        (meaning zero32 one32 "left-side nose sneer" ∷ [])
    ∷ float_row 24 "NasalDilationRight" "v2/NasalDilationRight" "nose" kind_detailed zero32 one32
        "normalized" (meaning zero32 one32 "right nostril dilation" ∷ [])
    ∷ float_row 25 "NasalDilationLeft" "v2/NasalDilationLeft" "nose" kind_detailed zero32 one32
        "normalized" (meaning zero32 one32 "left nostril dilation" ∷ [])
    ∷ float_row 26 "NasalConstrictRight" "v2/NasalConstrictRight" "nose" kind_detailed zero32 one32
        "normalized" (meaning zero32 one32 "right nostril constriction" ∷ [])
    ∷ float_row 27 "NasalConstrictLeft" "v2/NasalConstrictLeft" "nose" kind_detailed zero32 one32
        "normalized" (meaning zero32 one32 "left nostril constriction" ∷ [])
    ∷ float_row 28 "CheekSquintRight" "v2/CheekSquintRight" "cheek" kind_detailed zero32 one32
        "normalized" (meaning zero32 one32 "right-cheek squint" ∷ [])
    ∷ []

-- ===== src/Parameters/Table/Part10.antt =====
-- internal/parameters/definitions_gen.go: the parameters NeckFlexRight to BrowUp.
use vrcft_go.Base.{List, [], ◌∷◌}
use vrcft_go.Floats.{zero32, one32}
use vrcft_go.Parameters.Definition.{
  ParameterDefinition, float_row, meaning, kind_detailed, kind_simplified, minus_one32,
}

abbrev pub part_10 : List ParameterDefinition
part_10 =
    float_row 86 "NeckFlexRight" "v2/NeckFlexRight" "neck" kind_detailed zero32 one32 "normalized"
      (meaning zero32 one32 "right-side neck flex" ∷ [])
    ∷ float_row 87 "NeckFlexLeft" "v2/NeckFlexLeft" "neck" kind_detailed zero32 one32 "normalized"
        (meaning zero32 one32 "left-side neck flex" ∷ [])
    ∷ float_row 88 "EyeX" "v2/EyeX" "simplified_eye" kind_simplified minus_one32 one32
        "normalized_cartesian"
        (meaning zero32 one32 "both eyes look right"
          ∷ meaning minus_one32 zero32 "both eyes look left"
          ∷ [])
    ∷ float_row 89 "EyeY" "v2/EyeY" "simplified_eye" kind_simplified minus_one32 one32
        "normalized_cartesian"
        (meaning zero32 one32 "both eyes look up"
          ∷ meaning minus_one32 zero32 "both eyes look down"
          ∷ [])
    ∷ float_row 90 "BrowDownRight" "v2/BrowDownRight" "simplified_brow" kind_simplified zero32 one32
        "normalized" (meaning zero32 one32 "right brow down" ∷ [])
    ∷ float_row 91 "BrowDownLeft" "v2/BrowDownLeft" "simplified_brow" kind_simplified zero32 one32
        "normalized" (meaning zero32 one32 "left brow down" ∷ [])
    ∷ float_row 92 "BrowOuterUp" "v2/BrowOuterUp" "simplified_brow" kind_simplified zero32 one32
        "normalized" (meaning zero32 one32 "combined outer-brow raise" ∷ [])
    ∷ float_row 93 "BrowInnerUp" "v2/BrowInnerUp" "simplified_brow" kind_simplified zero32 one32
        "normalized" (meaning zero32 one32 "combined inner-brow raise" ∷ [])
    ∷ float_row 94 "BrowUp" "v2/BrowUp" "simplified_brow" kind_simplified zero32 one32 "normalized"
        (meaning zero32 one32 "combined brow raise" ∷ [])
    ∷ []

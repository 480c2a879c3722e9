-- ===== src/Parameters/Table/Part14.antt =====
-- internal/parameters/definitions_gen.go: the parameters CheekPuffSuck to LipTrackingActive.
use vrcft_go.Base.{List, [], ◌∷◌}
use vrcft_go.Floats.{zero32, one32}
use vrcft_go.Parameters.Definition.{
  ParameterDefinition, float_row, bool_row, meaning, kind_simplified, minus_one32,
}

abbrev pub part_14 : List ParameterDefinition
part_14 =
    float_row 123 "CheekPuffSuck" "v2/CheekPuffSuck" "simplified_nose_cheek" kind_simplified
      minus_one32 one32 "normalized"
      (meaning zero32 one32 "combined cheek puff"
        ∷ meaning minus_one32 zero32 "combined cheek suck"
        ∷ [])
    ∷ bool_row 124 "EyeTrackingActive" "EyeTrackingActive" "tracking_active"
        "eye tracking is active" "eye tracking is inactive"
    ∷ bool_row 125 "ExpressionTrackingActive" "ExpressionTrackingActive" "tracking_active"
        "expression tracking is active" "expression tracking is inactive"
    ∷ bool_row 126 "LipTrackingActive" "LipTrackingActive" "tracking_active"
        "lip tracking is active" "lip tracking is inactive"
    ∷ []

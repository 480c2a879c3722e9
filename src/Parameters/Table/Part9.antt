-- ===== src/Parameters/Table/Part9.antt =====
-- internal/parameters/definitions_gen.go: the parameters TongueX to ThroatSwallow.
use vrcft_go.Base.{List, [], ◌∷◌}
use vrcft_go.Floats.{zero32, one32}
use vrcft_go.Parameters.Definition.{
  ParameterDefinition, float_row, meaning, kind_detailed, minus_one32,
}

abbrev pub part_9 : List ParameterDefinition
part_9 =
    float_row 77 "TongueX" "v2/TongueX" "tongue" kind_detailed minus_one32 one32 "normalized" (
      meaning zero32 one32 "tongue points right"
      ∷ meaning minus_one32 zero32 "tongue points left"
      ∷ [])
    ∷ float_row 78 "TongueY" "v2/TongueY" "tongue" kind_detailed minus_one32 one32 "normalized" (
        meaning zero32 one32 "tongue points up"
        ∷ meaning minus_one32 zero32 "tongue points down"
        ∷ [])
    ∷ float_row 79 "TongueRoll" "v2/TongueRoll" "tongue" kind_detailed zero32 one32 "normalized"
        (meaning zero32 one32 "tongue roll" ∷ [])
    ∷ float_row 80 "TongueArchY" "v2/TongueArchY" "tongue" kind_detailed minus_one32 one32
        "normalized"
        (meaning zero32 one32 "tongue bends down"
          ∷ meaning minus_one32 zero32 "tongue curls up"
          ∷ [])
    ∷ float_row 81 "TongueShape" "v2/TongueShape" "tongue" kind_detailed minus_one32 one32
        "normalized"
        (meaning zero32 one32 "tongue squish" ∷ meaning minus_one32 zero32 "tongue flatten" ∷ [])
    ∷ float_row 82 "TongueTwistRight" "v2/TongueTwistRight" "tongue" kind_detailed zero32 one32
        "normalized" (meaning zero32 one32 "rightward tongue twist" ∷ [])
    ∷ float_row 83 "TongueTwistLeft" "v2/TongueTwistLeft" "tongue" kind_detailed zero32 one32
        "normalized" (meaning zero32 one32 "leftward tongue twist" ∷ [])
    ∷ float_row 84 "SoftPalateClose" "v2/SoftPalateClose" "neck" kind_detailed zero32 one32
        "normalized" (meaning zero32 one32 "soft-palate closure" ∷ [])
    ∷ float_row 85 "ThroatSwallow" "v2/ThroatSwallow" "neck" kind_detailed zero32 one32 "normalized"
        (meaning zero32 one32 "swallowing motion" ∷ [])
    ∷ []

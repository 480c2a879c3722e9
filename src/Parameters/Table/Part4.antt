-- ===== src/Parameters/Table/Part4.antt =====
-- internal/parameters/definitions_gen.go: the parameters CheekSquintLeft to JawMandibleRaise.
use vrcft_go.Base.{List, [], ◌∷◌}
use vrcft_go.Floats.{zero32, one32}
use vrcft_go.Parameters.Definition.{
  ParameterDefinition, float_row, meaning, kind_detailed, minus_one32,
}

abbrev pub part_4 : List ParameterDefinition
part_4 =
    float_row 29 "CheekSquintLeft" "v2/CheekSquintLeft" "cheek" kind_detailed zero32 one32
      "normalized" (meaning zero32 one32 "left-cheek squint" ∷ [])
    ∷ float_row 30 "CheekPuffSuckRight" "v2/CheekPuffSuckRight" "cheek" kind_detailed minus_one32
        one32 "normalized"
        (meaning zero32 one32 "right-cheek puff"
          ∷ meaning minus_one32 zero32 "right-cheek suck"
          ∷ [])
    ∷ float_row 31 "CheekPuffSuckLeft" "v2/CheekPuffSuckLeft" "cheek" kind_detailed minus_one32
        one32 "normalized"
        (meaning zero32 one32 "left-cheek puff" ∷ meaning minus_one32 zero32 "left-cheek suck" ∷ [])
    ∷ float_row 32 "JawOpen" "v2/JawOpen" "jaw" kind_detailed zero32 one32 "normalized"
        (meaning zero32 one32 "jaw opening" ∷ [])
    ∷ float_row 33 "MouthClosed" "v2/MouthClosed" "jaw" kind_detailed zero32 one32 "normalized"
        (meaning zero32 one32 "mouth closing" ∷ [])
    ∷ float_row 34 "JawX" "v2/JawX" "jaw" kind_detailed minus_one32 one32 "normalized"
        (meaning zero32 one32 "jaw moves right" ∷ meaning minus_one32 zero32 "jaw moves left" ∷ [])
    ∷ float_row 35 "JawZ" "v2/JawZ" "jaw" kind_detailed minus_one32 one32 "normalized" (
        meaning zero32 one32 "jaw moves forward"
        ∷ meaning minus_one32 zero32 "jaw moves backward"
        ∷ [])
    ∷ float_row 36 "JawClench" "v2/JawClench" "jaw" kind_detailed zero32 one32 "normalized"
        (meaning zero32 one32 "jaw clench" ∷ [])
    ∷ float_row 37 "JawMandibleRaise" "v2/JawMandibleRaise" "jaw" kind_detailed zero32 one32
        "normalized" (meaning zero32 one32 "mandible raise" ∷ [])
    ∷ []

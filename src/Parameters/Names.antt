-- ===== src/Parameters/Names.antt =====
-- internal/parameters/definitions_gen.go: the parameters by their OSC names.
use vrcft_go.Base.{ℕ, List, [], ◌∷◌, Bytes}
use vrcft_go.Parameters.Definition.{codes}

abbrev pub parameter_by_osc_name : List (Bytes × ℕ)
parameter_by_osc_name =
    (codes "v2/EyeLeftX", 0)
    ∷ (codes "v2/EyeLeftY", 1)
    ∷ (codes "v2/EyeRightX", 2)
    ∷ (codes "v2/EyeRightY", 3)
    ∷ (codes "v2/EyeLidRight", 4)
    ∷ (codes "v2/EyeLidLeft", 5)
    ∷ (codes "v2/EyeLid", 6)
    ∷ (codes "v2/EyeSquintRight", 7)
    ∷ (codes "v2/EyeSquintLeft", 8)
    ∷ (codes "v2/EyeSquint", 9)
    ∷ (codes "v2/PupilDilation", 10)
    ∷ (codes "v2/PupilDiameterRight", 11)
    ∷ (codes "v2/PupilDiameterLeft", 12)
    ∷ (codes "v2/PupilDiameter", 13)
    ∷ (codes "v2/BrowPinchRight", 14)
    ∷ (codes "v2/BrowPinchLeft", 15)
    ∷ (codes "v2/BrowLowererRight", 16)
    ∷ (codes "v2/BrowLowererLeft", 17)
    ∷ (codes "v2/BrowInnerUpRight", 18)
    ∷ (codes "v2/BrowInnerUpLeft", 19)
    ∷ (codes "v2/BrowOuterUpRight", 20)
    ∷ (codes "v2/BrowOuterUpLeft", 21)
    ∷ (codes "v2/NoseSneerRight", 22)
    ∷ (codes "v2/NoseSneerLeft", 23)
    ∷ (codes "v2/NasalDilationRight", 24)
    ∷ (codes "v2/NasalDilationLeft", 25)
    ∷ (codes "v2/NasalConstrictRight", 26)
    ∷ (codes "v2/NasalConstrictLeft", 27)
    ∷ (codes "v2/CheekSquintRight", 28)
    ∷ (codes "v2/CheekSquintLeft", 29)
    ∷ (codes "v2/CheekPuffSuckRight", 30)
    ∷ (codes "v2/CheekPuffSuckLeft", 31)
    ∷ (codes "v2/JawOpen", 32)
    ∷ (codes "v2/MouthClosed", 33)
    ∷ (codes "v2/JawX", 34)
    ∷ (codes "v2/JawZ", 35)
    ∷ (codes "v2/JawClench", 36)
    ∷ (codes "v2/JawMandibleRaise", 37)
    ∷ (codes "v2/LipSuckUpperRight", 38)
    ∷ (codes "v2/LipSuckUpperLeft", 39)
    ∷ (codes "v2/LipSuckLowerRight", 40)
    ∷ (codes "v2/LipSuckLowerLeft", 41)
    ∷ (codes "v2/LipSuckCornerRight", 42)
    ∷ (codes "v2/LipSuckCornerLeft", 43)
    ∷ (codes "v2/LipFunnelUpperRight", 44)
    ∷ (codes "v2/LipFunnelUpperLeft", 45)
    ∷ (codes "v2/LipFunnelLowerRight", 46)
    ∷ (codes "v2/LipFunnelLowerLeft", 47)
    ∷ (codes "v2/LipPuckerUpperRight", 48)
    ∷ (codes "v2/LipPuckerUpperLeft", 49)
    ∷ (codes "v2/LipPuckerLowerRight", 50)
    ∷ (codes "v2/LipPuckerLowerLeft", 51)
    ∷ (codes "v2/MouthUpperUpRight", 52)
    ∷ (codes "v2/MouthUpperUpLeft", 53)
    ∷ (codes "v2/MouthLowerDownRight", 54)
    ∷ (codes "v2/MouthLowerDownLeft", 55)
    ∷ (codes "v2/MouthUpperDeepenRight", 56)
    ∷ (codes "v2/MouthUpperDeepenLeft", 57)
    ∷ (codes "v2/MouthUpperX", 58)
    ∷ (codes "v2/MouthLowerX", 59)
    ∷ (codes "v2/MouthCornerPullRight", 60)
    ∷ (codes "v2/MouthCornerPullLeft", 61)
    ∷ (codes "v2/MouthCornerSlantRight", 62)
    ∷ (codes "v2/MouthCornerSlantLeft", 63)
    ∷ (codes "v2/MouthDimpleRight", 64)
    ∷ (codes "v2/MouthDimpleLeft", 65)
    ∷ (codes "v2/MouthFrownRight", 66)
    ∷ (codes "v2/MouthFrownLeft", 67)
    ∷ (codes "v2/MouthStretchRight", 68)
    ∷ (codes "v2/MouthStretchLeft", 69)
    ∷ (codes "v2/MouthRaiserUpper", 70)
    ∷ (codes "v2/MouthRaiserLower", 71)
    ∷ (codes "v2/MouthPressRight", 72)
    ∷ (codes "v2/MouthPressLeft", 73)
    ∷ (codes "v2/MouthTightenerRight", 74)
    ∷ (codes "v2/MouthTightenerLeft", 75)
    ∷ (codes "v2/TongueOut", 76)
    ∷ (codes "v2/TongueX", 77)
    ∷ (codes "v2/TongueY", 78)
    ∷ (codes "v2/TongueRoll", 79)
    ∷ (codes "v2/TongueArchY", 80)
    ∷ (codes "v2/TongueShape", 81)
    ∷ (codes "v2/TongueTwistRight", 82)
    ∷ (codes "v2/TongueTwistLeft", 83)
    ∷ (codes "v2/SoftPalateClose", 84)
    ∷ (codes "v2/ThroatSwallow", 85)
    ∷ (codes "v2/NeckFlexRight", 86)
    ∷ (codes "v2/NeckFlexLeft", 87)
    ∷ (codes "v2/EyeX", 88)
    ∷ (codes "v2/EyeY", 89)
    ∷ (codes "v2/BrowDownRight", 90)
    ∷ (codes "v2/BrowDownLeft", 91)
    ∷ (codes "v2/BrowOuterUp", 92)
    ∷ (codes "v2/BrowInnerUp", 93)
    ∷ (codes "v2/BrowUp", 94)
    ∷ (codes "v2/BrowExpressionRight", 95)
    ∷ (codes "v2/BrowExpressionLeft", 96)
    ∷ (codes "v2/BrowExpression", 97)
    ∷ (codes "v2/MouthX", 98)
    ∷ (codes "v2/MouthUpperUp", 99)
    ∷ (codes "v2/MouthLowerDown", 100)
    ∷ (codes "v2/MouthOpen", 101)
    ∷ (codes "v2/MouthSmileRight", 102)
    ∷ (codes "v2/MouthSmileLeft", 103)
    ∷ (codes "v2/MouthSadRight", 104)
    ∷ (codes "v2/MouthSadLeft", 105)
    ∷ (codes "v2/SmileFrownRight", 106)
    ∷ (codes "v2/SmileFrownLeft", 107)
    ∷ (codes "v2/SmileFrown", 108)
    ∷ (codes "v2/SmileSadRight", 109)
    ∷ (codes "v2/SmileSadLeft", 110)
    ∷ (codes "v2/SmileSad", 111)
    ∷ (codes "v2/LipSuckUpper", 112)
    ∷ (codes "v2/LipSuckLower", 113)
    ∷ (codes "v2/LipSuck", 114)
    ∷ (codes "v2/LipFunnelUpper", 115)
    ∷ (codes "v2/LipFunnelLower", 116)
    ∷ (codes "v2/LipFunnel", 117)
    ∷ (codes "v2/LipPuckerUpper", 118)
    ∷ (codes "v2/LipPuckerLower", 119)
    ∷ (codes "v2/LipPucker", 120)
    ∷ (codes "v2/NoseSneer", 121)
    ∷ (codes "v2/CheekSquint", 122)
    ∷ (codes "v2/CheekPuffSuck", 123)
    ∷ (codes "EyeTrackingActive", 124)
    ∷ (codes "ExpressionTrackingActive", 125)
    ∷ (codes "LipTrackingActive", 126)
    ∷ []

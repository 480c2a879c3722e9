-- ===== src/TrackingModel/Names.antt =====
-- pkg/trackingmodel/expression.go: the names of the expressions, in the order of their ids.
use Prim.Native.String.{String}
use vrcft_go.Base.{List, [], ◌∷◌}

abbrev pub expression_names : List String
expression_names =
    "EyeSquintRight" ∷ "EyeSquintLeft" ∷ "BrowPinchRight" ∷ "BrowPinchLeft" ∷ "BrowLowererRight"
    ∷ "BrowLowererLeft" ∷ "BrowInnerUpRight" ∷ "BrowInnerUpLeft" ∷ "BrowOuterUpRight"
    ∷ "BrowOuterUpLeft" ∷ "NoseSneerRight" ∷ "NoseSneerLeft" ∷ "NasalDilationRight"
    ∷ "NasalDilationLeft" ∷ "NasalConstrictRight" ∷ "NasalConstrictLeft" ∷ "CheekSquintRight"
    ∷ "CheekSquintLeft" ∷ "CheekPuffSuckRight" ∷ "CheekPuffSuckLeft" ∷ "JawOpen" ∷ "MouthClosed"
    ∷ "JawX" ∷ "JawZ" ∷ "JawClench" ∷ "JawMandibleRaise" ∷ "LipSuckUpperRight" ∷ "LipSuckUpperLeft"
    ∷ "LipSuckLowerRight" ∷ "LipSuckLowerLeft" ∷ "LipSuckCornerRight" ∷ "LipSuckCornerLeft"
    ∷ "LipFunnelUpperRight" ∷ "LipFunnelUpperLeft" ∷ "LipFunnelLowerRight" ∷ "LipFunnelLowerLeft"
    ∷ "LipPuckerUpperRight" ∷ "LipPuckerUpperLeft" ∷ "LipPuckerLowerRight" ∷ "LipPuckerLowerLeft"
    ∷ "MouthUpperUpRight" ∷ "MouthUpperUpLeft" ∷ "MouthLowerDownRight" ∷ "MouthLowerDownLeft"
    ∷ "MouthUpperDeepenRight" ∷ "MouthUpperDeepenLeft" ∷ "MouthUpperX" ∷ "MouthLowerX"
    ∷ "MouthCornerPullRight" ∷ "MouthCornerPullLeft" ∷ "MouthCornerSlantRight"
    ∷ "MouthCornerSlantLeft" ∷ "MouthDimpleRight" ∷ "MouthDimpleLeft" ∷ "MouthFrownRight"
    ∷ "MouthFrownLeft" ∷ "MouthStretchRight" ∷ "MouthStretchLeft" ∷ "MouthRaiserUpper"
    ∷ "MouthRaiserLower" ∷ "MouthPressRight" ∷ "MouthPressLeft" ∷ "MouthTightenerRight"
    ∷ "MouthTightenerLeft" ∷ "TongueOut" ∷ "TongueX" ∷ "TongueY" ∷ "TongueRoll" ∷ "TongueArchY"
    ∷ "TongueShape" ∷ "TongueTwistRight" ∷ "TongueTwistLeft" ∷ "SoftPalateClose" ∷ "ThroatSwallow"
    ∷ "NeckFlexRight" ∷ "NeckFlexLeft" ∷ []

-- ===== src/ParameterDeps/Plans.antt =====
-- internal/parameterdeps/dependencies.go: what each parameter is made from.
use Prim.Native.String.{String}
use text.Mathlib.Text.{◌==◌ as ◌=s=◌}
use vrcft_go.Base.{
  ℕ, suc, List, [], ◌∷◌, map, Option, none, some, if◌then◌else◌, replicate, set, get_or,
}
use vrcft_go.TrackingModel.Expressions.{no_expressions, mask_of}
use vrcft_go.TrackingModel.Names.{expression_names}
use vrcft_go.Parameters.Definition.{ParameterDefinition}
use vrcft_go.Parameters.Table.{definitions}
use vrcft_go.Parameters.Types.{parameter_count}
use vrcft_go.ParameterDeps.Fields.{
  Inputs, no_inputs, eye_fields_of, active_states_of, left_gaze_x, left_gaze_y, right_gaze_x,
  right_gaze_y, left_openness, right_openness, left_pupil_diameter, right_pupil_diameter,
  left_pupil_dilation, right_pupil_dilation, eye_tracking, expression_tracking, lip_tracking,
}

-- `Operation`, from OperationDirect on.
abbrev pub direct : ℕ
direct = 1

abbrev pub average : ℕ
average = 2

abbrev pub max_of : ℕ
max_of = 3

abbrev pub signed_pair : ℕ
signed_pair = 4

abbrev pub sum_clamp : ℕ
sum_clamp = 5

pub record DependencyPlan : Type 0 where
  pub inputs : Inputs
  pub depends_on : List ℕ
  pub operation : ℕ

-- The map from parameters to plans: a place for every parameter.
abbrev pub DependencyPlans : Type 0
DependencyPlans = List (Option DependencyPlan)

-- The id of the constant `Parameter…`: the generated constants count the names of the table.
unfoldable pub id_from : String → ℕ → List ParameterDefinition → ℕ
id_from name at [] = at
id_from name at (d ∷ ds) = if d.name =s= name then at else id_from name (suc at) ds

abbrev id_of : String → ℕ
id_of name = id_from name 0 definitions

-- One assignment `plans[id] = …` of buildPlans.
pub record PlanRow : Type 0 where
  pub parameter : ℕ
  pub plan : DependencyPlan

abbrev from_eye : String → ℕ → List ℕ → PlanRow
from_eye name operation fields = record {
  parameter = id_of name;
  plan = record {
    inputs = record no_inputs { eye = eye_fields_of fields };
    depends_on = [];
    operation = operation;
  };
}

abbrev direct_active : String → ℕ → PlanRow
direct_active name state = record {
  parameter = id_of name;
  plan = record {
    inputs = record no_inputs { active = active_states_of (state ∷ []) };
    depends_on = [];
    operation = direct;
  };
}

abbrev derived : String → ℕ → List String → PlanRow
derived name operation dependencies = record {
  parameter = id_of name;
  plan = record { inputs = no_inputs; depends_on = map id_of dependencies; operation = operation };
}

-- `expressionIDs[name]`; no name stands twice.
unfoldable pub expression_named : String → ℕ → List String → Option ℕ
expression_named name id [] = none
expression_named name id (n ∷ names) =
    if n =s= name then some id else expression_named name (suc id) names

-- The parameters that are named like an expression are that expression.
unfoldable pub expression_rows : List ParameterDefinition → List PlanRow
expression_rows [] = []
expression_rows (d ∷ ds) =
    let rest = expression_rows ds in
    elim (expression_named d.name 0 expression_names) [
      | none ↦ rest
      | some e ↦
          record {
            parameter = d.id;
            plan = record {
              inputs = record no_inputs { expressions = mask_of (e ∷ []) no_expressions };
              depends_on = [];
              operation = direct;
            };
          }
          ∷ rest
    ]

abbrev pub eye_rows : List PlanRow
eye_rows =
    from_eye "EyeLeftX" direct (left_gaze_x ∷ [])
    ∷ from_eye "EyeLeftY" direct (left_gaze_y ∷ [])
    ∷ from_eye "EyeRightX" direct (right_gaze_x ∷ [])
    ∷ from_eye "EyeRightY" direct (right_gaze_y ∷ [])
    ∷ from_eye "EyeLidRight" direct (right_openness ∷ [])
    ∷ from_eye "EyeLidLeft" direct (left_openness ∷ [])
    ∷ from_eye "PupilDilation" average (left_pupil_dilation ∷ right_pupil_dilation ∷ [])
    ∷ from_eye "PupilDiameterRight" direct (right_pupil_diameter ∷ [])
    ∷ from_eye "PupilDiameterLeft" direct (left_pupil_diameter ∷ [])
    ∷ []

abbrev pub active_rows : List PlanRow
active_rows =
    direct_active "EyeTrackingActive" eye_tracking
    ∷ direct_active "ExpressionTrackingActive" expression_tracking
    ∷ direct_active "LipTrackingActive" lip_tracking
    ∷ []

abbrev pub derived_rows : List PlanRow
derived_rows =
    derived "EyeLid" average ("EyeLidRight" ∷ "EyeLidLeft" ∷ [])
    ∷ derived "EyeSquint" average ("EyeSquintRight" ∷ "EyeSquintLeft" ∷ [])
    ∷ derived "PupilDiameter" average ("PupilDiameterRight" ∷ "PupilDiameterLeft" ∷ [])
    ∷ derived "EyeX" average ("EyeLeftX" ∷ "EyeRightX" ∷ [])
    ∷ derived "EyeY" average ("EyeLeftY" ∷ "EyeRightY" ∷ [])
    ∷ derived "BrowDownRight" max_of ("BrowPinchRight" ∷ "BrowLowererRight" ∷ [])
    ∷ derived "BrowDownLeft" max_of ("BrowPinchLeft" ∷ "BrowLowererLeft" ∷ [])
    ∷ derived "BrowOuterUp" average ("BrowOuterUpRight" ∷ "BrowOuterUpLeft" ∷ [])
    ∷ derived "BrowInnerUp" average ("BrowInnerUpRight" ∷ "BrowInnerUpLeft" ∷ [])
    ∷ derived "BrowUp" max_of ("BrowOuterUp" ∷ "BrowInnerUp" ∷ [])
    ∷ derived "BrowExpressionRight" signed_pair
        ("BrowInnerUpRight" ∷ "BrowOuterUpRight" ∷ "BrowDownRight" ∷ [])
    ∷ derived "BrowExpressionLeft" signed_pair
        ("BrowInnerUpLeft" ∷ "BrowOuterUpLeft" ∷ "BrowDownLeft" ∷ [])
    ∷ derived "BrowExpression" average ("BrowExpressionRight" ∷ "BrowExpressionLeft" ∷ [])
    ∷ derived "MouthX" average ("MouthUpperX" ∷ "MouthLowerX" ∷ [])
    ∷ derived "MouthUpperUp" average ("MouthUpperUpRight" ∷ "MouthUpperUpLeft" ∷ [])
    ∷ derived "MouthLowerDown" average ("MouthLowerDownRight" ∷ "MouthLowerDownLeft" ∷ [])
    ∷ derived "MouthOpen" sum_clamp ("MouthUpperUp" ∷ "MouthLowerDown" ∷ [])
    ∷ derived "MouthSmileRight" max_of ("MouthCornerPullRight" ∷ "MouthCornerSlantRight" ∷ [])
    ∷ derived "MouthSmileLeft" max_of ("MouthCornerPullLeft" ∷ "MouthCornerSlantLeft" ∷ [])
    ∷ derived "MouthSadRight" max_of ("MouthFrownRight" ∷ "MouthStretchRight" ∷ [])
    ∷ derived "MouthSadLeft" max_of ("MouthFrownLeft" ∷ "MouthStretchLeft" ∷ [])
    ∷ derived "SmileFrownRight" signed_pair
        ("MouthCornerPullRight" ∷ "MouthCornerSlantRight" ∷ "MouthFrownRight" ∷ [])
    ∷ derived "SmileFrownLeft" signed_pair
        ("MouthCornerPullLeft" ∷ "MouthCornerSlantLeft" ∷ "MouthFrownLeft" ∷ [])
    ∷ derived "SmileFrown" average ("SmileFrownRight" ∷ "SmileFrownLeft" ∷ [])
    ∷ derived "SmileSadRight" signed_pair ("MouthSmileRight" ∷ "MouthSadRight" ∷ [])
    ∷ derived "SmileSadLeft" signed_pair ("MouthSmileLeft" ∷ "MouthSadLeft" ∷ [])
    ∷ derived "SmileSad" average ("SmileSadRight" ∷ "SmileSadLeft" ∷ [])
    ∷ derived "LipSuckUpper" average ("LipSuckUpperRight" ∷ "LipSuckUpperLeft" ∷ [])
    ∷ derived "LipSuckLower" average ("LipSuckLowerRight" ∷ "LipSuckLowerLeft" ∷ [])
    ∷ derived "LipSuck" average ("LipSuckUpper" ∷ "LipSuckLower" ∷ [])
    ∷ derived "LipFunnelUpper" average ("LipFunnelUpperRight" ∷ "LipFunnelUpperLeft" ∷ [])
    ∷ derived "LipFunnelLower" average ("LipFunnelLowerRight" ∷ "LipFunnelLowerLeft" ∷ [])
    ∷ derived "LipFunnel" average ("LipFunnelUpper" ∷ "LipFunnelLower" ∷ [])
    ∷ derived "LipPuckerUpper" average ("LipPuckerUpperRight" ∷ "LipPuckerUpperLeft" ∷ [])
    ∷ derived "LipPuckerLower" average ("LipPuckerLowerRight" ∷ "LipPuckerLowerLeft" ∷ [])
    ∷ derived "LipPucker" average ("LipPuckerUpper" ∷ "LipPuckerLower" ∷ [])
    ∷ derived "NoseSneer" average ("NoseSneerRight" ∷ "NoseSneerLeft" ∷ [])
    ∷ derived "CheekSquint" average ("CheekSquintRight" ∷ "CheekSquintLeft" ∷ [])
    ∷ derived "CheekPuffSuck" average ("CheekPuffSuckRight" ∷ "CheekPuffSuckLeft" ∷ [])
    ∷ []

unfoldable pub assign : List PlanRow → DependencyPlans → DependencyPlans
assign [] plans = plans
assign (row ∷ rows) plans = assign rows (set plans row.parameter (some row.plan))

unfoldable pub build_plans : DependencyPlans
unfolding assign id_from expression_named expression_rows
build_plans = assign derived_rows (
    assign (expression_rows definitions)
      (assign active_rows (assign eye_rows (replicate parameter_count none))))

-- `Plan`, on the plans that were built; no other parameter has one.
unfoldable pub plan_in : DependencyPlans → ℕ → Option DependencyPlan
plan_in plans id = get_or plans id none

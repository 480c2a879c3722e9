-- ===== src/Evaluator/Instructions.antt =====
-- internal/evaluator/operand.go and plan.go: operands, instructions and their checks.
use vrcft_go.Base.{
  ℕ, zero, suc, Bool, true, false, not, ◌&&◌, ◌||◌, List, [], ◌∷◌, ◌++◌, map, Option, none, some,
  ltb, ◌==◌, if◌then◌else◌, length, Result, ◌>>◌, fail_if,
}
use vrcft_go.TrackingModel.Expressions.{expression_count, mask_has}
use vrcft_go.Parameters.Definition.{ParameterDefinition, value_float, value_bool}
use vrcft_go.Parameters.Types.{definition}
use vrcft_go.ParameterDeps.Fields.{eye_fields_has, active_states_has, left_gaze_x, eye_tracking}
use vrcft_go.ParameterDeps.Plans.{DependencyPlan, direct, average, max_of, signed_pair, sum_clamp}

pub data EvaluatorError : Type 0 where
  unknown_parameter missing_plan dependency_cycle invalid_operation : EvaluatorError

-- The four kinds of operands.
pub data Operand : Type 0 where
  eye_operand : ℕ → Operand
  expression_operand : ℕ → Operand
  active_operand : ℕ → Operand
  parameter_operand : ℕ → Operand

pub record Instruction : Type 0 where
  pub parameter : ℕ
  pub value_type : ℕ
  pub operation : ℕ
  pub operands : List Operand

-- The members of a set, from `id` on, as operands.
unfoldable pub members : (ℕ → Bool) → (ℕ → Operand) → ℕ → ℕ → List Operand
members has operand id zero = []
members has operand id (suc rounds) =
    let rest = members has operand (suc id) rounds in if has id then operand id ∷ rest else rest

unfoldable pub enumerate_operands : DependencyPlan → List Operand
unfolding members
enumerate_operands plan =
    members (eye_fields_has plan.inputs.eye) eye_operand left_gaze_x 10
    ++ (members (mask_has plan.inputs.expressions) expression_operand 0 expression_count
        ++ (members (active_states_has plan.inputs.active) active_operand eye_tracking 3
            ++ map parameter_operand plan.depends_on))

unfoldable pub value_type_of : Operand → Option ℕ
value_type_of (eye_operand field) = some value_float
value_type_of (expression_operand id) = some value_float
value_type_of (active_operand state) = some value_bool
value_type_of (parameter_operand id) = elim (definition id) [
  | none ↦ none
  | some def ↦ some def.value_type
]

abbrev pub is_primitive : Operand → Bool
is_primitive (parameter_operand id) = false
is_primitive _ = true

-- One operand of the kind that `direct` takes.
abbrev pub one_primitive : List Operand → Bool
one_primitive (operand ∷ []) = is_primitive operand
one_primitive _ = false

unfoldable pub operand_count_ok : ℕ → List Operand → Bool
operand_count_ok operation operands =
    if operation == direct
    then one_primitive operands
    else if operation == average || operation == max_of || operation == sum_clamp
    then not (length operands == 0)
    else if operation == signed_pair
    then not (ltb (length operands) 2)
    else false

abbrev pub has_type : ℕ → Option ℕ → Bool
has_type t none = false
has_type t (some u) = u == t

unfoldable pub types_ok : ℕ → List Operand → Bool
types_ok t [] = true
types_ok t (operand ∷ operands) = has_type t (value_type_of operand) && types_ok t operands

unfoldable pub validate_instruction :
    ParameterDefinition → ℕ → List Operand → Result EvaluatorError (Unit {0})
validate_instruction def operation operands = do
  fail_if (not (def.value_type == value_float || def.value_type == value_bool)) invalid_operation
  fail_if (not (operand_count_ok operation operands)) invalid_operation
  fail_if (def.value_type == value_bool && not (operation == direct)) invalid_operation
  fail_if (not (types_ok def.value_type operands)) invalid_operation

-- ===== src/Scenarios/Plans.antt =====
-- The theorems on the evaluator at the parameter EyeLid, the average of EyeLidRight and EyeLidLeft.
use vrcft_go.Base.{ℕ, ◌≡◌, ◌↔◌, refl, true, false, [], ◌∷◌, All, ok, pos, if◌then◌else◌, some}
use vrcft_go.Floats.{zero32, one32, finite32, lt32, is_nan32, rank32}
use vrcft_go.TrackingModel.Frame.{empty_eye}
use vrcft_go.TrackingModel.Expressions.{empty_expressions, mask_of, mask_set, mask_has}
use vrcft_go.Processing.Output.{CanonicalFrame}
use vrcft_go.Parameters.Definition.{ParameterDefinition}
use vrcft_go.Parameters.Types.{definition, clamp, clamp_to}
use vrcft_go.ParameterDeps.Fields.{
  eye_fields_of, eye_fields_has, active_states_of, active_states_has,
}
use vrcft_go.ParameterDeps.Plans.{plan_in, build_plans}
use vrcft_go.Evaluator.Instructions.{
  eye_operand, parameter_operand, enumerate_operands, validate_instruction, operand_count_ok,
  types_ok, value_type_of,
}
use vrcft_go.Evaluator.Compile.{
  Plan, compile, compile_with_plans, request, add, has, visit_requested, visit, visit_new,
  visit_all,
}
use vrcft_go.Evaluator.Snapshot.{Snapshot, empty_snapshot, float, bool, valid, set_valid}
use vrcft_go.Evaluator.Evaluate.{
  evaluate, run, run_instruction, evaluate_float, fold_operands, float_operand_value, eye_value,
  accumulate, give_out, give_out_from,
}
use vrcft_go.Evaluator.Order.{computes, IsOrdered}
use vrcft_go.Evaluator.Compiled.{requests, IsKnown, compile_with_plans-IsOrdered}
use vrcft_go.Evaluator.Complete.{compile_accepts_iff}
use vrcft_go.Evaluator.Settled.{Holds}
use vrcft_go.Evaluator.Ranges.{InRange, evaluate-InRange}
use vrcft_go.Evaluator.Values.{evaluate-Settled}
use vrcft_go.Scenarios.Data.{first_operand}

abbrev eye_lid_plan : Plan
eye_lid_plan = record {
  requested = record { word_0 = 64; word_1 = 0 };
  instructions =
      record { parameter = 4; value_type = 1; operation = 1; operands = eye_operand 6 ∷ [] }
      ∷ record { parameter = 5; value_type = 1; operation = 1; operands = eye_operand 5 ∷ [] }
      ∷ record {
        parameter = 6;
        value_type = 1;
        operation = 2;
        operands = parameter_operand 4 ∷ parameter_operand 5 ∷ [];
      }
      ∷ [];
}

abbrev open_frame : CanonicalFrame
open_frame = record {
  generation = 1;
  revision = 1;
  processed_at_ns = pos 20;
  eye_source_id = [];
  expression_source_id = [];
  lip_source_id = [];
  eye_active = true;
  expression_active = false;
  lip_active = false;
  eye = record empty_eye { valid = 12; left_openness = one32; right_openness = one32 };
  expressions = empty_expressions;
}

eye_lid_compiles : compile_with_plans (6 ∷ []) (plan_in build_plans) ≡ ok eye_lid_plan
unfolding compile_with_plans request add has visit_requested visit visit_new visit_all build_plans
    plan_in definition validate_instruction enumerate_operands operand_count_ok types_ok
    value_type_of eye_fields_of eye_fields_has active_states_of active_states_has mask_of mask_set
    mask_has
eye_lid_compiles = refl

compile_with_plans-IsOrdered_example :
    IsOrdered [] eye_lid_plan.instructions
    × All IsKnown (6 ∷ [])
    × ((j : ℕ) → has eye_lid_plan.requested j ≡ requests (6 ∷ []) j)
    × ((j : ℕ) → requests (6 ∷ []) j ≡ true → computes eye_lid_plan.instructions j ≡ true)
compile_with_plans-IsOrdered_example =
    compile_with_plans-IsOrdered (6 ∷ []) (plan_in build_plans) eye_lid_plan eye_lid_compiles

compile_accepts_iff_example :
    ((p : Plan) × (compile (6 ∷ 126 ∷ []) ≡ ok p)) ↔ All IsKnown (6 ∷ 126 ∷ [])
compile_accepts_iff_example = compile_accepts_iff (6 ∷ 126 ∷ [])

evaluate-Settled_example :
    let s : Snapshot = run first_operand open_frame eye_lid_plan.instructions empty_snapshot in
    All (Holds first_operand open_frame s) eye_lid_plan.instructions
    × ((j : ℕ)
        → (float (evaluate first_operand eye_lid_plan open_frame) j
            ≡ (if requests (6 ∷ []) j then float s j else (zero32, false)))
          × (bool (evaluate first_operand eye_lid_plan open_frame) j
              ≡ (if requests (6 ∷ []) j then bool s j else (false, false))))
evaluate-Settled_example =
    evaluate-Settled first_operand (6 ∷ []) (plan_in build_plans) eye_lid_plan open_frame
      eye_lid_compiles

eye_lid_is_open : float (evaluate first_operand eye_lid_plan open_frame) 6 ≡ (zero32, true)
unfolding evaluate run run_instruction evaluate_float fold_operands float_operand_value eye_value
    accumulate give_out give_out_from float definition clamp clamp_to valid set_valid has add
    finite32 lt32 is_nan32 rank32
eye_lid_is_open = refl

evaluate-InRange_example :
    (has eye_lid_plan.requested 6 ≡ true)
    × (finite32 zero32 ≡ true)
    × (def : ParameterDefinition) × (definition 6 ≡ some def)
    × InRange def zero32
evaluate-InRange_example =
    evaluate-InRange first_operand eye_lid_plan open_frame 6 zero32 eye_lid_is_open

-- ===== src/Evaluator/Evaluate.antt =====
-- internal/evaluator/evaluate.go: the instructions run on a processed frame.
use vrcft_go.Base.{
  ℕ, zero, suc, ◌-◌, Bool, true, false, not, ◌||◌, List, [], ◌∷◌, Option, none, some, ◌==◌,
  if◌then◌else◌, length, set, get_or, has_bits,
}
use vrcft_go.Floats.{Float32, zero32, finite32, lt32, Arithmetic}
use vrcft_go.TrackingModel.Expressions.{expressions_get}
use vrcft_go.TrackingModel.Frame.{
  EyeSample, eye_valid_left_gaze, eye_valid_right_gaze, eye_valid_left_openness,
  eye_valid_right_openness, eye_valid_left_pupil, eye_valid_right_pupil,
}
use vrcft_go.Processing.Output.{CanonicalFrame}
use vrcft_go.Parameters.Definition.{value_float, value_bool}
use vrcft_go.Parameters.Types.{parameter_count, definition, clamp}
use vrcft_go.ParameterDeps.Fields.{
  left_gaze_x, left_gaze_y, right_gaze_x, right_gaze_y, left_openness, right_openness,
  left_pupil_diameter, right_pupil_diameter, left_pupil_dilation, right_pupil_dilation,
  eye_tracking, expression_tracking, lip_tracking,
}
use vrcft_go.ParameterDeps.Plans.{direct, average, max_of, signed_pair, sum_clamp}
use vrcft_go.Evaluator.Instructions.{
  Operand, eye_operand, expression_operand, active_operand, parameter_operand, Instruction,
}
use vrcft_go.Evaluator.Compile.{ParameterSet, has, Plan}
use vrcft_go.Evaluator.Snapshot.{Snapshot, empty_snapshot, valid, set_valid}

unfoldable pub eye_value : EyeSample → ℕ → Float32 × Bool
eye_value e field =
    if field == left_gaze_x
    then (e.left_gaze.x, has_bits e.valid eye_valid_left_gaze)
    else if field == left_gaze_y
    then (e.left_gaze.y, has_bits e.valid eye_valid_left_gaze)
    else if field == right_gaze_x
    then (e.right_gaze.x, has_bits e.valid eye_valid_right_gaze)
    else if field == right_gaze_y
    then (e.right_gaze.y, has_bits e.valid eye_valid_right_gaze)
    else if field == left_openness
    then (e.left_openness, has_bits e.valid eye_valid_left_openness)
    else if field == right_openness
    then (e.right_openness, has_bits e.valid eye_valid_right_openness)
    else if field == left_pupil_diameter
    then (e.left_pupil_diameter_mm, has_bits e.valid eye_valid_left_pupil)
    else if field == right_pupil_diameter
    then (e.right_pupil_diameter_mm, has_bits e.valid eye_valid_right_pupil)
    else if field == left_pupil_dilation
    then (e.left_pupil_dilation, has_bits e.valid eye_valid_left_pupil)
    else if field == right_pupil_dilation
    then (e.right_pupil_dilation, has_bits e.valid eye_valid_right_pupil)
    else (zero32, false)

-- The four arrays of a run are those of a snapshot.
unfoldable pub float_operand_value : Operand → CanonicalFrame → Snapshot → Float32 × Bool
float_operand_value (eye_operand field) frame s = eye_value frame.eye field
float_operand_value (expression_operand id) frame s = expressions_get frame.expressions id
float_operand_value (active_operand state) frame s = (zero32, false)
float_operand_value (parameter_operand id) frame s =
    if valid s.float_valid id then (get_or s.floats id zero32, true) else (zero32, false)

unfoldable pub bool_operand_value : Operand → CanonicalFrame → Snapshot → Bool × Bool
bool_operand_value (active_operand state) frame s =
    if state == eye_tracking
    then (frame.eye_active, true)
    else if state == expression_tracking
    then (frame.expression_active, true)
    else if state == lip_tracking
    then (frame.lip_active, true)
    else (false, false)
bool_operand_value (parameter_operand id) frame s =
    if valid s.bool_valid id then (get_or s.bools id false, true) else (false, false)
bool_operand_value _ frame s = (false, false)

module _ (fl : Arithmetic) where
  open fl use {add32, sub32, div32, to32, of_int64}

  -- The value after the operand at `index`, of `count` operands.
  unfoldable pub accumulate : ℕ → ℕ → ℕ → Float32 → Float32 → Float32
  accumulate operation count index result value =
      if operation == direct
      then value
      else if operation == average || operation == sum_clamp
      then add32 result value
      else if operation == max_of
      then (if index == 0 || lt32 result value then value else result)
      else if operation == signed_pair
      then (if index == count - 1
          then sub32 result value
          else if index == 0 || lt32 result value
          then value
          else result)
      else result

  -- The loop over the operands; none if one of them has no finite value.
  unfoldable pub fold_operands :
      Instruction → CanonicalFrame → Snapshot → ℕ → List Operand → Float32 → Option Float32
  fold_operands current frame s index [] result = some result
  fold_operands current frame s index (operand ∷ operands) result =
      let (value, found) = float_operand_value operand frame s in
      let rest =
        fold_operands current frame s (suc index) operands
          (accumulate current.operation (length current.operands) index result value) in
      if not found || not (finite32 value) then none else rest

  -- The number of operands is exact as a float.
  abbrev pub averaged : Instruction → Float32 → Float32
  averaged current result =
      if current.operation == average
      then div32 result (to32 (of_int64 (length current.operands)))
      else result

  abbrev pub if_finite : Option Float32 → Option Float32
  if_finite none = none
  if_finite (some value) = if finite32 value then some value else none

  unfoldable pub evaluate_float : Instruction → CanonicalFrame → Snapshot → Option Float32
  evaluate_float current frame s = elim (fold_operands current frame s 0 current.operands zero32) [
    | none ↦ none
    | some result ↦
        if finite32 (averaged current result)
        then if_finite (clamp current.parameter (averaged current result))
        else none
  ]

  abbrev pub put_float : ℕ → Option Float32 → Snapshot → Snapshot
  put_float id none s = s
  put_float id (some value) s = record s {
    floats = set s.floats id value;
    float_valid = set_valid s.float_valid id;
  }

  abbrev pub put_bool : ℕ → Bool × Bool → Snapshot → Snapshot
  put_bool id (value, false) s = s
  put_bool id (value, true) s = record s {
    bools = set s.bools id value;
    bool_valid = set_valid s.bool_valid id;
  }

  -- The first operand, which a compiled instruction has.
  abbrev pub first_operand : List Operand → Operand
  first_operand [] = eye_operand 0
  first_operand (operand ∷ _) = operand

  unfoldable pub run_instruction : CanonicalFrame → Instruction → Snapshot → Snapshot
  run_instruction frame current s =
      if current.value_type == value_float
      then put_float current.parameter (evaluate_float current frame s) s
      else if current.value_type == value_bool
      then put_bool current.parameter (bool_operand_value (first_operand current.operands) frame s)
          s
      else s

  unfoldable pub run : CanonicalFrame → List Instruction → Snapshot → Snapshot
  run frame [] s = s
  run frame (current ∷ rest) s = run frame rest (run_instruction frame current s)

  -- The value of one parameter that was requested and computed.
  unfoldable pub give_out : Snapshot → ℕ → Snapshot → Snapshot
  give_out s id out = elim (definition id) [
    | none ↦ out
    | some def ↦
        if def.value_type == value_float
        then put_float id
            (if valid s.float_valid id then some (get_or s.floats id zero32) else none) out
        else if def.value_type == value_bool
        then put_bool id (get_or s.bools id false, valid s.bool_valid id) out
        else out
  ]

  unfoldable pub give_out_from : ParameterSet → Snapshot → ℕ → ℕ → Snapshot → Snapshot
  give_out_from requested s id zero out = out
  give_out_from requested s id (suc rounds) out =
      give_out_from requested s (suc id) rounds
        (if has requested id then give_out s id out else out)

  unfoldable pub evaluate : Plan → CanonicalFrame → Snapshot
  evaluate p frame =
      give_out_from p.requested (run frame p.instructions empty_snapshot) 0 parameter_count
        empty_snapshot

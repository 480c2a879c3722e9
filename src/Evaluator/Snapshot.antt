-- ===== src/Evaluator/Snapshot.antt =====
-- internal/evaluator/snapshot.go: the values that are given out.
use vrcft_go.Base.{
  ℕ, Bool, true, false, not, ◌||◌, List, none, some, ◌==◌, if◌then◌else◌, get_or, replicate,
}
use vrcft_go.Floats.{Float32, zero32}
use vrcft_go.Parameters.Definition.{value_float, value_bool}
use vrcft_go.Parameters.Types.{parameter_count, definition}
use vrcft_go.Evaluator.Compile.{ParameterSet, no_parameters, add, has}

pub record Snapshot : Type 0 where
  pub floats : List Float32
  pub bools : List Bool
  pub float_valid : ParameterSet
  pub bool_valid : ParameterSet

abbrev pub empty_snapshot : Snapshot
empty_snapshot = record {
  floats = replicate parameter_count zero32;
  bools = replicate parameter_count false;
  float_valid = no_parameters;
  bool_valid = no_parameters;
}

-- `valid` and `setValid` are the membership and the insertion of a set of parameters.
unfoldable pub valid : ParameterSet → ℕ → Bool
valid bits id = has bits id

unfoldable pub set_valid : ParameterSet → ℕ → ParameterSet
set_valid bits id = add bits id

unfoldable pub float : Snapshot → ℕ → Float32 × Bool
float s id = elim (definition id) [
  | none ↦ (zero32, false)
  | some def ↦
      if not (def.value_type == value_float) || not (valid s.float_valid id)
      then (zero32, false)
      else (get_or s.floats id zero32, true)
]

unfoldable pub bool : Snapshot → ℕ → Bool × Bool
bool s id = elim (definition id) [
  | none ↦ (false, false)
  | some def ↦
      if not (def.value_type == value_bool) || not (valid s.bool_valid id)
      then (false, false)
      else (get_or s.bools id false, true)
]

-- ===== src/Evaluator/Sets.antt =====
-- internal/evaluator/plan.go: sets of parameters, and the parameters that have a definition.
use vrcft_go.Base.{
  ℕ, ◌%◌, ◌^◌, ◌<◌, ◌≡◌, refl, false, ◌||◌, some, leb, ltb, ◌==◌, arith, has_bits-bit_or,
  zero-bit_and, get_or,
}
use vrcft_go.Parameters.Definition.{ParameterDefinition}
use vrcft_go.Parameters.Types.{parameter_count, definition, no_definition}
use vrcft_go.Parameters.Table.{definitions}
use vrcft_go.Evaluator.Compile.{ParameterSet, no_parameters, add, has}

pub has-add :
    (s : ParameterSet) (id j : ℕ)
    → id < parameter_count
    → j < parameter_count
    → has (add s id) j ≡ (id == j || has s j)
unfolding has add
has-add s id j p q = ground (
  arith,
  has_bits-bit_or (j % 64) s.word_0 (id % 64),
  has_bits-bit_or (j % 64) s.word_1 (id % 64),
)

pub has-none : (j : ℕ) → has no_parameters j ≡ false
unfolding has
has-none j = ground (arith, zero-bit_and (2 ^ (j % 64)))

pub definition_bound :
    (id : ℕ) (def : ParameterDefinition) → definition id ≡ some def → id < parameter_count
unfolding definition
definition_bound id def h = ground arith

pub definition_known :
    (id : ℕ) → id < parameter_count → (def : ParameterDefinition) × (definition id ≡ some def)
unfolding definition
definition_known id h =
    let e : leb parameter_count id ≡ false = ground arith in
    (get_or definitions id no_definition, rw e refl)

pub has_outside : (s : ParameterSet) (j : ℕ) → ltb j parameter_count ≡ false → has s j ≡ false
unfolding has
has_outside s j h = rw h refl

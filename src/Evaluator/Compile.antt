-- ===== src/Evaluator/Compile.antt =====
-- internal/evaluator/plan.go: the instructions for the requested parameters, each behind what it needs.
use vrcft_go.Base.{
  ℕ, zero, suc, ◌/◌, ◌%◌, ◌^◌, bit_or, Bool, true, false, ◌&&◌, List, [], ◌∷◌, ◌++◌, Option, none,
  some, ltb, ◌==◌, if◌then◌else◌, has_bits, set, get_or, replicate, Result, ok, err, ◌>>=◌, ◌>>◌,
  is_nil,
}
use vrcft_go.Parameters.Definition.{ParameterDefinition}
use vrcft_go.Parameters.Types.{parameter_count, definition}
use vrcft_go.ParameterDeps.Plans.{DependencyPlan, build_plans, plan_in}
use vrcft_go.ParameterDeps.Leaves.{unvisited, visiting, visited}
use vrcft_go.Evaluator.Instructions.{
  EvaluatorError, unknown_parameter, missing_plan, dependency_cycle, Instruction,
  enumerate_operands, validate_instruction,
}

-- Two words of bits.
pub record ParameterSet : Type 0 where
  pub word_0 : ℕ
  pub word_1 : ℕ

abbrev pub no_parameters : ParameterSet
no_parameters = record { word_0 = 0; word_1 = 0 }

abbrev pub parameter_word : ParameterSet → ℕ → ℕ
parameter_word s i = if i == 0 then s.word_0 else s.word_1

unfoldable pub add : ParameterSet → ℕ → ParameterSet
add s id =
    if id / 64 == 0
    then record s { word_0 = bit_or s.word_0 (2 ^ (id % 64)) }
    else record s { word_1 = bit_or s.word_1 (2 ^ (id % 64)) }

unfoldable pub has : ParameterSet → ℕ → Bool
has s id = ltb id parameter_count && has_bits (parameter_word s (id / 64)) (2 ^ (id % 64))

pub record Plan : Type 0 where
  pub requested : ParameterSet
  pub instructions : List Instruction

-- `planLookup`.
abbrev pub PlanLookup : Type 0
PlanLookup = ℕ → Option DependencyPlan

-- What the visits change: `states` has a place for each parameter.
pub record Progress : Type 0 where
  pub states : List ℕ
  pub instructions : List Instruction

abbrev pub Visitor : Type 0
Visitor = ℕ → Progress → Result EvaluatorError Progress

unfoldable pub visit_all : Visitor → List ℕ → Progress → Result EvaluatorError Progress
visit_all visit [] p = ok p
visit_all visit (id ∷ ids) p = visit id p >>= visit_all visit ids

abbrev pub instruction_of : ℕ → ParameterDefinition → DependencyPlan → Instruction
instruction_of id def plan = record {
  parameter = id;
  value_type = def.value_type;
  operation = plan.operation;
  operands = enumerate_operands plan;
}

-- The visit of a parameter that has not been visited.
unfoldable pub visit_new :
    Visitor → ℕ → ParameterDefinition → DependencyPlan → Progress → Result EvaluatorError Progress
visit_new visit id def plan p = do
  q ← visit_all visit plan.depends_on (record p { states = set p.states id visiting })
  validate_instruction def plan.operation (enumerate_operands plan)
  ok (record {
    states = set q.states id visited;
    instructions = q.instructions ++ (instruction_of id def plan ∷ []);
  })

-- `visit`, with the depth that is left as fuel. Each level marks another parameter, so a search that is
-- deeper than there are parameters meets one that is marked.
unfoldable pub visit : PlanLookup → ℕ → Visitor
visit plans zero id p = err dependency_cycle
visit plans (suc fuel) id p = elim (definition id) [
  | none ↦ err unknown_parameter
  | some def ↦ elim (get_or p.states id unvisited == visiting) [
    | true ↦ err dependency_cycle
    | false ↦ elim (get_or p.states id unvisited == visited) [
      | true ↦ ok p
      | false ↦ elim (plans id) [
        | none ↦ err missing_plan
        | some plan ↦ visit_new (visit plans fuel) id def plan p
      ]
    ]
  ]
]

unfoldable pub request : List ℕ → ParameterSet → Result EvaluatorError ParameterSet
request [] s = ok s
request (id ∷ ids) s = elim (definition id) [
  | none ↦ err unknown_parameter
  | some _ ↦ request ids (add s id)
]

-- The loop over the requested parameters, from `id` on.
unfoldable pub visit_requested :
    Visitor → ParameterSet → ℕ → ℕ → Progress → Result EvaluatorError Progress
visit_requested visit requested id zero p = ok p
visit_requested visit requested id (suc rounds) p = do
  q ← if has requested id then visit id p else ok p
  visit_requested visit requested (suc id) rounds q

abbrev pub new_progress : Progress
new_progress = record { states = replicate parameter_count unvisited; instructions = [] }

abbrev pub full_depth : ℕ
full_depth = suc parameter_count

unfoldable pub compile_with_plans : List ℕ → PlanLookup → Result EvaluatorError Plan
compile_with_plans requested plans = do
  requested_set ← request requested no_parameters
  p ←
      if is_nil requested
      then ok new_progress
      else visit_requested (visit plans full_depth) requested_set 0 parameter_count new_progress
  ok (record { requested = requested_set; instructions = p.instructions })

unfoldable pub compile : List ℕ → Result EvaluatorError Plan
compile requested = compile_with_plans requested (plan_in build_plans)

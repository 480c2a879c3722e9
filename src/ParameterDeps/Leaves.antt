-- ===== src/ParameterDeps/Leaves.antt =====
-- internal/parameterdeps/dependencies.go: the inputs that a parameter needs, by way of its dependencies.
use vrcft_go.Base.{
  ℕ, zero, suc, true, false, List, [], ◌∷◌, none, some, ◌==◌, set, get_or, replicate, Result, ok,
  err, ◌>>=◌,
}
use vrcft_go.Parameters.Types.{parameter_count}
use vrcft_go.ParameterDeps.Fields.{Inputs, no_inputs, union}
use vrcft_go.ParameterDeps.Plans.{DependencyPlan, DependencyPlans, plan_in}

pub data LeavesError : Type 0 where
  unknown_parameter missing_parameter dependency_cycle : LeavesError

abbrev pub unvisited : ℕ
unvisited = 0

abbrev pub visiting : ℕ
visiting = 1

abbrev pub visited : ℕ
visited = 2

-- The maps of one call: only parameters with a plan are entered, so a place for each is enough.
pub record Search : Type 0 where
  pub state : List ℕ
  pub cache : List Inputs

abbrev pub new_search : Search
new_search = record {
  state = replicate parameter_count unvisited;
  cache = replicate parameter_count no_inputs;
}

abbrev pub Visitor : Type 0
Visitor = ℕ → Search → Result LeavesError (Inputs × Search)

-- The loop over the dependencies.
unfoldable pub visit_dependencies :
    Visitor → List ℕ → Inputs → Search → Result LeavesError (Inputs × Search)
visit_dependencies visit [] leaves s = ok (leaves, s)
visit_dependencies visit (d ∷ ds) leaves s = do
  (more, s') ← visit d s
  visit_dependencies visit ds (union leaves more) s'

-- The visit of a parameter that has not been visited.
unfoldable pub visit_new :
    Visitor → ℕ → DependencyPlan → Search → Result LeavesError (Inputs × Search)
visit_new visit current plan s = do
  (leaves, s') ←
      visit_dependencies visit plan.depends_on plan.inputs
        (record s { state = set s.state current visiting })
  ok (leaves, record { state = set s'.state current visited; cache = set s'.cache current leaves })

-- `visit`, with the error for a parameter without a plan, and as fuel the depth that is left. Each level
-- marks another parameter, so a search that is deeper than there are parameters meets one that is marked.
unfoldable pub visit_leaves : DependencyPlans → ℕ → LeavesError → Visitor
visit_leaves plans zero missing current s = err dependency_cycle
visit_leaves plans (suc fuel) missing current s = elim (plan_in plans current) [
  | none ↦ err missing
  | some plan ↦ elim (get_or s.state current unvisited == visiting) [
    | true ↦ err dependency_cycle
    | false ↦ elim (get_or s.state current unvisited == visited) [
      | true ↦ ok (get_or s.cache current no_inputs, s)
      | false ↦ visit_new (visit_leaves plans fuel missing_parameter) current plan s
    ]
  ]
]

unfoldable pub resolve_leaves : DependencyPlans → ℕ → Result LeavesError Inputs
resolve_leaves plans id = do
  (leaves, _) ← visit_leaves plans (suc parameter_count) unknown_parameter id new_search
  ok leaves

unfoldable pub required_inputs : DependencyPlans → List ℕ → Inputs → Result LeavesError Inputs
required_inputs plans [] required = ok required
required_inputs plans (id ∷ ids) required = do
  leaves ← resolve_leaves plans id
  required_inputs plans ids (union required leaves)

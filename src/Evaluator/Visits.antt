-- ===== src/Evaluator/Visits.antt =====
-- internal/evaluator/plan.go: what every visit keeps, and that the instructions come out in order.
use vrcft_go.Base.{
  ℕ, zero, suc, ◌<◌, ◌≡◌, ◌≢◌, refl, sym, subst, ◌∙◌, true, false, List, [], ◌∷◌, ◌++◌, some, ◌==◌,
  if◌then◌else◌, All, length, length-set, set, get_or, get_or-set_self, get_or-set_ne, arith, ok,
  >>=_inv, >>_inv, ok_inj, Option-cases, Bool-cases, inl, inr, ◌⊎◌,
}
use vrcft_go.Parameters.Definition.{ParameterDefinition}
use vrcft_go.Parameters.Types.{parameter_count, definition}
use vrcft_go.ParameterDeps.Plans.{DependencyPlan}
use vrcft_go.ParameterDeps.Leaves.{unvisited, visiting, visited}
use vrcft_go.Evaluator.Instructions.{Instruction, enumerate_operands, validate_instruction}
use vrcft_go.Evaluator.Compile.{
  Progress, Visitor, PlanLookup, instruction_of, visit_all, visit_new, visit,
}
use vrcft_go.Evaluator.Sets.{definition_bound}
use vrcft_go.Evaluator.Order.{
  computes, IsOrdered, computes-append, IsOrdered-append, enumerate_operands-IsReady,
}

abbrev pub state_of : Progress → ℕ → ℕ
state_of p j = get_or p.states j unvisited

-- The visited parameters are those that the instructions compute.
pub record IsSound (p : Progress) : Type 0 where
  pub ordered : IsOrdered [] p.instructions
  pub full : length p.states ≡ parameter_count
  pub marked : (j : ℕ) → (state_of p j == visited) ≡ computes p.instructions j

-- What was computed stays so, and the parameters that are being visited are the same.
pub record Extends (p q : Progress) : Type 0 where
  pub more : (j : ℕ) → computes p.instructions j ≡ true → computes q.instructions j ≡ true
  pub marks : (j : ℕ) → (state_of q j == visiting) ≡ (state_of p j == visiting)

abbrev pub Keeps : Visitor → Type 0
Keeps v =
    (id : ℕ) (p q : Progress)
    → v id p ≡ ok q
    → IsSound p
    → IsSound q × Extends p q × (computes q.instructions id ≡ true)

pub Extends-refl : (p : Progress) → Extends p p
Extends-refl p = record { more = λ j h. h; marks = λ j. refl }

pub Extends-trans : (p q r : Progress) → Extends p q → Extends q r → Extends p r
Extends-trans p q r a b = record {
  more = λ j h. b.more j (a.more j h);
  marks = λ j. b.marks j ∙ a.marks j;
}

pub visit_all-Keeps :
    (v : Visitor)
    → Keeps v
    → (ids : List ℕ) (p q : Progress) → visit_all v ids p ≡ ok q
    → IsSound p
    → IsSound q × Extends p q × All (λ id. computes q.instructions id ≡ true) ids
unfolding visit_all
visit_all-Keeps v k [] p q h s =
    subst (λ r. IsSound r × Extends p r × Unit {0}) (ok_inj p q h) (s, Extends-refl p, tt)
visit_all-Keeps v k (id ∷ ids) p q h s =
    let (r, first, rest) = >>=_inv (v id p) _ _ h in
    let (sr, er, cr) = k id p r first s in
    let (sq, eq, cq) = visit_all-Keeps v k ids r q rest sr in
    (sq, Extends-trans p r q er eq, (eq.more id cr, cq))

-- A parameter that is marked as being visited.
abbrev pub enter : Progress → ℕ → Progress
enter p id = record p { states = set p.states id visiting }

abbrev leave : Progress → ℕ → Instruction → Progress
leave q id i = record {
  states = set q.states id visited;
  instructions = q.instructions ++ (i ∷ []);
}

pub state_of-set :
    (xs : List ℕ) (id j v : ℕ)
    → id < length xs
    → get_or (set xs id v) j unvisited ≡ (if id == j then v else get_or xs j unvisited)
state_of-set xs id j v h = elim (Bool-cases (id == j)) [
  | inl e ↦
      let same : id ≡ j = ground arith in
      rw e (
        subst (λ k. get_or (set xs id v) k unvisited ≡ v) same
          (get_or-set_self xs id v unvisited h))
  | inr n ↦
      let differ : id ≢ j = λ s. ground arith in rw n (get_or-set_ne xs id j v unvisited differ)
]

pub enter-IsSound :
    (p : Progress) (id : ℕ)
    → id < parameter_count
    → (state_of p id == visited) ≡ false
    → IsSound p
    → IsSound (enter p id)
enter-IsSound p id b n s = record {
  ordered = s.ordered;
  full = length-set p.states id visiting ∙ s.full;
  marked =
      λ j. ground (arith, state_of-set p.states id j visiting, s.marked j, s.marked id, s.full);
}

module _ (p q : Progress) (id : ℕ) (def : ParameterDefinition) (plan : DependencyPlan)
    (defined : definition id ≡ some def) (idle : (state_of p id == visiting) ≡ false)
    (new : (state_of p id == visited) ≡ false) (before : IsSound p) (sound : IsSound q)
    (extends : Extends (enter p id) q)
    (ready : All (λ d. computes q.instructions d ≡ true) plan.depends_on)
    (valid : validate_instruction def plan.operation (enumerate_operands plan) ≡ ok tt) where
  abbrev i : Instruction
  i = instruction_of id def plan

  bound : id < parameter_count
  bound = definition_bound id def defined

  not_computed : computes q.instructions id ≡ false
  not_computed = ground (
    arith,
    extends.marks id,
    state_of-set p.states id id visiting,
    sound.marked id,
    bound,
    before.full,
  )

  leave-IsSound : IsSound (leave q id i)
  leave-IsSound = record {
    ordered =
        IsOrdered-append [] q.instructions i sound.ordered (def, defined, refl, valid) not_computed
          (enumerate_operands-IsReady q.instructions plan ready);
    full = length-set q.states id visited ∙ sound.full;
    marked = λ j. ground (
      arith,
      state_of-set q.states id j visited,
      sound.marked j,
      computes-append q.instructions (i ∷ []) j,
      bound,
      sound.full,
    );
  }

  leave-Extends : Extends p (leave q id i)
  leave-Extends = record {
    more = λ j h. ground (arith, computes-append q.instructions (i ∷ []) j, extends.more j h);
    marks = λ j. ground (
      arith,
      state_of-set q.states id j visited,
      state_of-set p.states id j visiting,
      extends.marks j,
      bound,
      sound.full,
      before.full,
    );
  }

visit_new-Keeps :
    (v : Visitor) (id : ℕ) (def : ParameterDefinition) (plan : DependencyPlan) (p q : Progress)
    → Keeps v
    → definition id ≡ some def
    → (state_of p id == visiting) ≡ false
    → (state_of p id == visited) ≡ false
    → visit_new v id def plan p ≡ ok q
    → IsSound p
    → IsSound q × Extends p q × (computes q.instructions id ≡ true)
unfolding visit_new
visit_new-Keeps v id def plan p q k d idle new h s =
    let (r, deps, rest) = >>=_inv (visit_all v plan.depends_on (enter p id)) _ _ h in
    let (valid, done) =
      >>_inv (validate_instruction def plan.operation (enumerate_operands plan)) _ _ rest in
    let (sr, er, cr) =
      visit_all-Keeps v k plan.depends_on (enter p id) r deps
        (enter-IsSound p id (definition_bound id def d) new s) in
    let computed : computes (r.instructions ++ (instruction_of id def plan ∷ [])) id ≡ true =
      ground (arith, computes-append r.instructions (instruction_of id def plan ∷ []) id) in
    subst (λ t. IsSound t × Extends p t × (computes t.instructions id ≡ true)) (ok_inj _ _ done)
      (
        leave-IsSound p r id def plan d idle new s sr er cr valid,
        leave-Extends p r id def plan d idle new s sr er cr valid,
        computed,
      )

-- What a visit that ends well has found.
abbrev Found : PlanLookup → ℕ → ℕ → Progress → Progress → Type 0
Found plans fuel id p q =
    (def : ParameterDefinition) × (definition id ≡ some def)
    × ((state_of p id == visiting) ≡ false)
    × ((p ≡ q) × ((state_of p id == visited) ≡ true)
        ⊎ ((plan : DependencyPlan) × (plans id ≡ some plan)
            × ((state_of p id == visited) ≡ false)
            × (visit_new (visit plans fuel) id def plan p ≡ ok q)))

visit_inv :
    (plans : PlanLookup) (fuel id : ℕ) (p q : Progress)
    → visit plans (suc fuel) id p ≡ ok q
    → Found plans fuel id p q
unfolding visit
visit_inv plans fuel id p q h = elim (Option-cases (definition id)) [
  | inl e ↦ let bad = rw (e, visit) at h in ground arith
  | inr (def, d) ↦
      let h1 = rw (d, visit) at h in
      elim (Bool-cases (state_of p id == visiting)) [
        | inl e ↦ let bad = rw e at h1 in ground arith
        | inr idle ↦
            let h2 = rw idle at h1 in
            elim (Bool-cases (state_of p id == visited)) [
              | inl old ↦ let h3 = rw old at h2 in (def, d, idle, inl (ok_inj p q h3, old))
              | inr new ↦
                  let h3 = rw new at h2 in
                  elim (Option-cases (plans id)) [
                    | inl e ↦ let bad = rw e at h3 in ground arith
                    | inr (plan, e) ↦ (def, d, idle, inr (plan, e, new, rw e at h3))
                  ]
            ]
      ]
]

-- Every visit keeps the order, keeps what is computed, and computes its parameter.
pub visit-Keeps : (plans : PlanLookup) (fuel : ℕ) → Keeps (visit plans fuel)
unfolding visit
visit-Keeps plans zero id p q h s = ground arith
visit-Keeps plans (suc fuel) id p q h s =
    let (def, d, idle, found) = visit_inv plans fuel id p q h in
    elim found [
      | inl (same, old) ↦
          subst (λ r. IsSound r × Extends p r × (computes r.instructions id ≡ true)) same
            (s, Extends-refl p, sym (s.marked id) ∙ old)
      | inr (plan, e, new, k) ↦
          visit_new-Keeps (visit plans fuel) id def plan p q (visit-Keeps plans fuel) d idle new k s
    ]

-- ===== src/Evaluator/Grounded.antt =====
-- internal/evaluator/plan.go: the search succeeds where the plans have levels.
use vrcft_go.Base.{
  ℕ, zero, suc, ◌+◌, ◌<◌, ◌≤◌, ◌≡◌, refl, sym, subst, ◌∙◌, true, false, List, [], ◌∷◌, ◌++◌, some,
  ◌==◌, All, set, arith, ok, Bool-cases, inl, inr,
}
use vrcft_go.Parameters.Definition.{ParameterDefinition}
use vrcft_go.Parameters.Types.{parameter_count, definition}
use vrcft_go.ParameterDeps.Plans.{DependencyPlan}
use vrcft_go.ParameterDeps.Leaves.{visiting, visited}
use vrcft_go.Evaluator.Instructions.{enumerate_operands, validate_instruction}
use vrcft_go.Evaluator.Compile.{
  ParameterSet, has, Progress, Visitor, PlanLookup, instruction_of, visit_all, visit_new, visit,
  visit_requested,
}
use vrcft_go.Evaluator.Visits.{
  state_of, IsSound, Keeps, enter, state_of-set, enter-IsSound, visit-Keeps,
}

-- A parameter with a plan whose dependencies are known and stand on lower levels, and whose instruction
-- passes the check.
abbrev pub IsGrounded : PlanLookup → (ℕ → ℕ) → ℕ → Type 0
IsGrounded plans level id =
    (def : ParameterDefinition) × (plan : DependencyPlan) × (definition id ≡ some def)
    × (plans id ≡ some plan)
    × All (λ d. (d < parameter_count) × (level d < level id)) plan.depends_on
    × (validate_instruction def plan.operation (enumerate_operands plan) ≡ ok tt)

new_visit_inside :
    (v : Visitor) (id : ℕ) (def : ParameterDefinition) (plan : DependencyPlan) (p q : Progress)
    → visit_all v plan.depends_on (enter p id) ≡ ok q
    → validate_instruction def plan.operation (enumerate_operands plan) ≡ ok tt
    → visit_new v id def plan p
      ≡ ok (record {
        states = set q.states id visited;
        instructions = q.instructions ++ (instruction_of id def plan ∷ []);
      })
unfolding visit_new
new_visit_inside v id def plan p q inside valid = rw inside (rw valid refl)

old_visit :
    (plans : PlanLookup) (fuel id : ℕ) (def : ParameterDefinition) (p : Progress)
    → definition id ≡ some def
    → (state_of p id == visiting) ≡ false
    → (state_of p id == visited) ≡ true
    → visit plans (suc fuel) id p ≡ ok p
unfolding visit
old_visit plans fuel id def p d idle old = rw (d, visit) (rw idle (rw old refl))

new_visit :
    (plans : PlanLookup) (fuel id : ℕ) (def : ParameterDefinition) (plan : DependencyPlan)
    (p q : Progress)
    → definition id ≡ some def
    → (state_of p id == visiting) ≡ false
    → (state_of p id == visited) ≡ false
    → plans id ≡ some plan
    → visit_all (visit plans fuel) plan.depends_on (enter p id) ≡ ok q
    → validate_instruction def plan.operation (enumerate_operands plan) ≡ ok tt
    → visit plans (suc fuel) id p
      ≡ ok (record {
        states = set q.states id visited;
        instructions = q.instructions ++ (instruction_of id def plan ∷ []);
      })
unfolding visit
new_visit plans fuel id def plan p q d idle new e inside valid =
    rw (d, visit)
      (rw idle (rw new (rw e (new_visit_inside (visit plans fuel) id def plan p q inside valid))))

module _ (plans : PlanLookup) (level : ℕ → ℕ)
    (grounded : (id : ℕ) → id < parameter_count → IsGrounded plans level id) where
  -- No parameter below the level is being visited.
  abbrev IsClear : Progress → ℕ → Type 0
  IsClear p n = (j : ℕ) → level j < n → (state_of p j == visiting) ≡ false

  abbrev Succeeds : Visitor → ℕ → Type 0
  Succeeds v n =
      (id : ℕ) (p : Progress)
      → id < parameter_count
      → level id < n
      → IsSound p
      → IsClear p (suc (level id))
      → (q : Progress) × (v id p ≡ ok q)

  visit_all-Succeeds :
      (v : Visitor) (n : ℕ)
      → Keeps v
      → Succeeds v n
      → (ids : List ℕ) (p : Progress) → All (λ d. (d < parameter_count) × (level d < n)) ids
      → IsSound p
      → IsClear p n
      → (q : Progress) × (visit_all v ids p ≡ ok q)
  unfolding visit_all
  visit_all-Succeeds v n k s [] p a sound clear = (p, refl)
  visit_all-Succeeds v n k s (id ∷ ids) p ((b, l), a) sound clear =
      let (q, first) = s id p b l sound (λ j lt. clear j (omega arith)) in
      let (sq, eq, _) = k id p q first sound in
      let (r, rest) = visit_all-Succeeds v n k s ids q a sq (λ j lt. eq.marks j ∙ clear j lt) in
      (r, rw first rest)

  pub visit-Succeeds : (fuel : ℕ) → Succeeds (visit plans fuel) fuel
  visit-Succeeds zero id p b l sound clear = absurd (omega arith)
  visit-Succeeds (suc fuel) id p b l sound clear =
      let (def, plan, d, e, deps, valid) = grounded id b in
      let idle = clear id (omega arith) in
      elim (Bool-cases (state_of p id == visited)) [
        | inl old ↦ (p, old_visit plans fuel id def p d idle old)
        | inr new ↦
            let clear_inside : IsClear (enter p id) (level id) = λ j lt.
              elim (Bool-cases (id == j)) [
                | inl same ↦
                    let here : id ≡ j = ground arith in
                    absurd (
                      let bad : level id < level id =
                        subst (λ n. level n < level id) (sym here) lt in
                      omega arith)
                | inr other ↦ ground (
                  arith,
                  state_of-set p.states id j visiting,
                  clear j (omega arith),
                  b,
                  sound.full,
                )
              ] in
            let (q, inside) =
              visit_all-Succeeds (visit plans fuel) (level id) (visit-Keeps plans fuel)
                (λ j r bj lj. visit-Succeeds fuel j r bj (omega arith)) plan.depends_on (enter p id)
                deps (enter-IsSound p id b new sound) clear_inside in
            (
              record {
                states = set q.states id visited;
                instructions = q.instructions ++ (instruction_of id def plan ∷ []);
              },
              new_visit plans fuel id def plan p q d idle new e inside valid,
            )
      ]

  pub visit_requested-Succeeds :
      (n : ℕ) (v : Visitor)
      → Keeps v
      → Succeeds v n
      → ((id : ℕ) → id < parameter_count → level id < n)
      → (requested : ParameterSet) (id rounds : ℕ) (p : Progress) → id + rounds ≤ parameter_count
      → IsSound p
      → ((j : ℕ) → (state_of p j == visiting) ≡ false)
      → (q : Progress) × (visit_requested v requested id rounds p ≡ ok q)
  unfolding visit_requested
  visit_requested-Succeeds n v k s low requested id zero p b sound clear = (p, refl)
  visit_requested-Succeeds n v k s low requested id (suc rounds) p b sound clear =
      elim (Bool-cases (has requested id)) [
        | inr skipped ↦
            let (q, rest) =
              visit_requested-Succeeds n v k s low requested (suc id) rounds p (omega arith) sound
                clear in
            (q, rw skipped rest)
        | inl taken ↦
            let (q, first) = s id p (omega arith) (low id (omega arith)) sound (λ j lt. clear j) in
            let (sq, eq, _) = k id p q first sound in
            let (r, rest) =
              visit_requested-Succeeds n v k s low requested (suc id) rounds q (omega arith) sq
                (λ j. eq.marks j ∙ clear j) in
            (r, rw taken (rw first rest))
      ]

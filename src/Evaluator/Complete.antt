-- ===== src/Evaluator/Complete.antt =====
-- internal/evaluator/plan.go: Compile takes every list of known parameters.
use vrcft_go.Base.{
  ℕ, zero, suc, ◌<◌, ◌≡◌, ◌↔◌, refl, subst, Bool, true, false, ◌&&◌, List, [], ◌∷◌, none, some,
  ◌==◌, ltb, All, is_nil, max, set, get_or-replicate, arith, Result, ok, err, Bool-cases,
  Option-cases, inl, inr,
}
use vrcft_go.Parameters.Types.{parameter_count, definition}
use vrcft_go.ParameterDeps.Plans.{DependencyPlans, plan_in, build_plans}
use vrcft_go.TrackingModel.Expressions.{mask_of, mask_set, mask_has}
use vrcft_go.ParameterDeps.Fields.{
  eye_fields_of, eye_fields_has, active_states_of, active_states_has,
}
use vrcft_go.ParameterDeps.Leaves.{unvisited}
use vrcft_go.Evaluator.Instructions.{
  EvaluatorError, enumerate_operands, validate_instruction, operand_count_ok, types_ok,
  value_type_of,
}
use vrcft_go.Evaluator.Compile.{
  ParameterSet, no_parameters, add, Plan, PlanLookup, visit, request, new_progress, full_depth,
  compile_with_plans, compile,
}
use vrcft_go.Evaluator.Sets.{definition_known}
use vrcft_go.Evaluator.Visits.{visit-Keeps}
use vrcft_go.Evaluator.Compiled.{IsKnown, new_progress-IsSound, compile_with_plans-IsOrdered}
use vrcft_go.Evaluator.Grounded.{IsGrounded, visit-Succeeds, visit_requested-Succeeds}

highest : (ℕ → ℕ) → List ℕ → ℕ
highest f [] = 0
highest f (id ∷ ids) = max (f id) (highest f ids)

-- The height of a parameter above the tracking data, in whatever plans.
level_in : DependencyPlans → ℕ → ℕ → ℕ
level_in plans zero id = 0
level_in plans (suc fuel) id = elim (plan_in plans id) [
  | none ↦ 0
  | some plan ↦ suc (highest (level_in plans fuel) plan.depends_on)
]

abbrev is_ok : Result EvaluatorError (Unit {0}) → Bool
is_ok (ok _) = true
is_ok (err _) = false

deps_below : (ℕ → ℕ) → ℕ → List ℕ → Bool
deps_below level n [] = true
deps_below level n (d ∷ ds) = ltb d parameter_count && (ltb (level d) n && deps_below level n ds)

-- The test of one parameter that IsGrounded asks for.
check_row : PlanLookup → (ℕ → ℕ) → ℕ → Bool
unfolding deps_below
check_row plans level id = elim (definition id) [
  | none ↦ false
  | some def ↦ elim (plans id) [
    | none ↦ false
    | some plan ↦
        deps_below level (level id) plan.depends_on
        && (is_ok (validate_instruction def plan.operation (enumerate_operands plan))
            && ltb (level id) full_depth)
  ]
]

check_rows : PlanLookup → (ℕ → ℕ) → ℕ → Bool
unfolding check_row
check_rows plans level zero = true
check_rows plans level (suc n) = check_row plans level n && check_rows plans level n

check_table : DependencyPlans → Bool
unfolding check_rows level_in highest
check_table plans = check_rows (plan_in plans) (level_in plans parameter_count) parameter_count

table_checked : check_table build_plans ≡ true
unfolding check_table build_plans plan_in definition validate_instruction enumerate_operands
    operand_count_ok types_ok value_type_of eye_fields_of eye_fields_has active_states_of
    active_states_has mask_of mask_set mask_has
table_checked = refl

deps_below_sound :
    (level : ℕ → ℕ) (n : ℕ) (ds : List ℕ)
    → deps_below level n ds ≡ true
    → All (λ d. (d < parameter_count) × (level d < n)) ds
unfolding deps_below
deps_below_sound level n [] h = tt
deps_below_sound level n (d ∷ ds) h =
    ((ground arith, ground arith), deps_below_sound level n ds (ground arith))

is_ok_sound : (r : Result EvaluatorError (Unit {0})) → is_ok r ≡ true → r ≡ ok tt
is_ok_sound (ok tt) h = refl
is_ok_sound (err e) h = ground arith

check_row_sound :
    (plans : PlanLookup) (level : ℕ → ℕ) (id : ℕ)
    → check_row plans level id ≡ true
    → IsGrounded plans level id × (level id < full_depth)
unfolding check_row
check_row_sound plans level id h = elim (Option-cases (definition id)) [
  | inl e ↦ let bad = rw (e, check_row) at h in ground arith
  | inr (def, d) ↦
      let h1 = rw (d, check_row) at h in
      elim (Option-cases (plans id)) [
        | inl e ↦ let bad = rw e at h1 in ground arith
        | inr (plan, e) ↦
            let h2 = rw e at h1 in
            (
              (
                def,
                plan,
                d,
                e,
                deps_below_sound level (level id) plan.depends_on (ground arith),
                is_ok_sound (validate_instruction def plan.operation (enumerate_operands plan))
                    (ground arith),
              ),
              ground arith,
            )
      ]
]

check_rows_sound :
    (plans : PlanLookup) (level : ℕ → ℕ) (n id : ℕ)
    → check_rows plans level n ≡ true
    → id < n
    → IsGrounded plans level id × (level id < full_depth)
unfolding check_rows
check_rows_sound plans level zero id h b = absurd (omega arith)
check_rows_sound plans level (suc n) id h b = elim (Bool-cases (id == n)) [
  | inl e ↦
      let here : n ≡ id = ground arith in
      subst (λ k. IsGrounded plans level k × (level k < full_depth)) here
        (check_row_sound plans level n (ground arith))
  | inr e ↦ check_rows_sound plans level n id (ground arith) (ground arith)
]

abbrev built_level : ℕ → ℕ
built_level = level_in build_plans parameter_count

built-IsGrounded :
    (id : ℕ)
    → id < parameter_count
    → IsGrounded (plan_in build_plans) built_level id × (built_level id < full_depth)
unfolding check_table
built-IsGrounded id b =
    check_rows_sound (plan_in build_plans) built_level parameter_count id table_checked b

request-Succeeds :
    (ids : List ℕ) (s : ParameterSet)
    → All IsKnown ids
    → (t : ParameterSet) × (request ids s ≡ ok t)
unfolding request
request-Succeeds [] s a = (s, refl)
request-Succeeds (id ∷ ids) s (b, a) =
    let (def, d) = definition_known id b in
    let (t, e) = request-Succeeds ids (add s id) a in (t, rw (d, request) e)

compile-Succeeds :
    (requested : List ℕ) → All IsKnown requested → (p : Plan) × (compile requested ≡ ok p)
unfolding compile compile_with_plans
compile-Succeeds requested a =
    let (set, r) = request-Succeeds requested no_parameters a in
    elim (Bool-cases (is_nil requested)) [
      | inl empty ↦ (record { requested = set; instructions = [] }, rw r (rw empty refl))
      | inr some_requested ↦
          let (q, v) =
            visit_requested-Succeeds (plan_in build_plans) built_level
              (λ id b. (built-IsGrounded id b).0) full_depth
              (visit (plan_in build_plans) full_depth)
              (visit-Keeps (plan_in build_plans) full_depth)
              (visit-Succeeds (plan_in build_plans) built_level (λ id b. (built-IsGrounded id b).0)
                full_depth)
              (λ id b. (built-IsGrounded id b).1) set 0 parameter_count new_progress (omega arith)
              new_progress-IsSound
              (λ j. ground (arith, get_or-replicate {A = ℕ} parameter_count j unvisited)) in
          (
            record { requested = set; instructions = q.instructions },
            rw r (rw some_requested (rw v refl)),
          )
    ]

-- Compile takes a list of parameters exactly when all of them are known: the plans of the program have no
-- cycle, lack no parameter, and give only instructions that pass the check.
pub compile_accepts_iff :
    (requested : List ℕ) → ((p : Plan) × (compile requested ≡ ok p)) ↔ All IsKnown requested
unfolding compile
compile_accepts_iff requested = (
  λ found. (compile_with_plans-IsOrdered requested (plan_in build_plans) found.0 found.1).1,
  λ known. compile-Succeeds requested known,
)

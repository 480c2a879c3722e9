-- ===== src/Evaluator/Order.antt =====
-- internal/evaluator/plan.go: lists of instructions in which each stands behind what it needs.
use mathlib.Core.List.{append_assoc, append-nil}
use vrcft_go.Base.{
  ℕ, zero, suc, ◌≡◌, refl, sym, subst, Bool, true, false, ◌||◌, List, [], ◌∷◌, ◌++◌, map, ◌==◌, All,
  arith, ok, Bool-cases, inl, inr, some,
}
use vrcft_go.Parameters.Definition.{ParameterDefinition}
use vrcft_go.Parameters.Types.{definition}
use vrcft_go.TrackingModel.Expressions.{expression_count, mask_has}
use vrcft_go.ParameterDeps.Fields.{eye_fields_has, active_states_has, left_gaze_x, eye_tracking}
use vrcft_go.ParameterDeps.Plans.{DependencyPlan}
use vrcft_go.Evaluator.Instructions.{
  Operand, eye_operand, expression_operand, active_operand, parameter_operand, Instruction, members,
  enumerate_operands, validate_instruction,
}

-- Whether one of the instructions computes the parameter.
abbrev pub computes : List Instruction → ℕ → Bool
computes [] j = false
computes (i ∷ is) j = i.parameter == j || computes is j

-- An operand is of the frame, or it is computed by one of the instructions.
abbrev pub is_ready : List Instruction → Operand → Bool
is_ready is (parameter_operand id) = computes is id
is_ready is _ = true

abbrev pub IsReady : List Instruction → Operand → Type 0
IsReady is operand = is_ready is operand ≡ true

-- The instruction has the type of a known parameter, and passes the check.
abbrev pub IsChecked : Instruction → Type 0
IsChecked i =
    (def : ParameterDefinition) × (definition i.parameter ≡ some def)
    × (i.value_type ≡ def.value_type)
    × (validate_instruction def i.operation i.operands ≡ ok tt)

-- Behind `before`, each instruction is checked, computes a parameter that is not computed yet, and needs
-- only what is.
abbrev pub IsOrdered : List Instruction → List Instruction → Type 0
IsOrdered before [] = Unit
IsOrdered before (i ∷ is) =
    IsChecked i
    × (computes before i.parameter ≡ false)
    × All (IsReady before) i.operands
    × IsOrdered (before ++ (i ∷ [])) is

pub computes-append :
    (is js : List Instruction) (j : ℕ) → computes (is ++ js) j ≡ (computes is j || computes js j)
computes-append [] js j = refl
computes-append (i ∷ is) js j = ground (arith, computes-append is js j)

-- One more instruction at the end.
pub IsOrdered-append :
    (before is : List Instruction) (i : Instruction)
    → IsOrdered before is
    → IsChecked i
    → computes (before ++ is) i.parameter ≡ false
    → All (IsReady (before ++ is)) i.operands
    → IsOrdered before (is ++ (i ∷ []))
IsOrdered-append before [] i o c n r =
    let same = append-nil before in
    (
      c,
      subst (λ l. computes l i.parameter ≡ false) same n,
      subst (λ l. All (IsReady l) i.operands) same r,
      tt,
    )
IsOrdered-append before (k ∷ is) i (ck, nk, rk, o) c n r =
    let same = sym (append_assoc before (k ∷ []) is) in
    (
      ck,
      nk,
      rk,
      IsOrdered-append (before ++ (k ∷ [])) is i o c
          (subst (λ l. computes l i.parameter ≡ false) same n)
          (subst (λ l. All (IsReady l) i.operands) same r),
    )

pub All-append {ℓ} :
    {A : Type ℓ} (P : A → Type 0) (xs ys : List A) → All P xs → All P ys → All P (xs ++ ys)
All-append P [] ys p q = q
All-append P (x ∷ xs) ys (h, p) q = (h, All-append P xs ys p q)

members-IsReady :
    (is : List Instruction) (has : ℕ → Bool) (operand : ℕ → Operand) (id rounds : ℕ)
    → ((j : ℕ) → IsReady is (operand j))
    → All (IsReady is) (members has operand id rounds)
unfolding members
members-IsReady is has operand id zero h = tt
members-IsReady is has operand id (suc rounds) h = elim (Bool-cases (has id)) [
  | inl e ↦ rw e (h id, members-IsReady is has operand (suc id) rounds h)
  | inr e ↦ rw e (members-IsReady is has operand (suc id) rounds h)
]

map-IsReady :
    (is : List Instruction) (ids : List ℕ)
    → All (λ id. computes is id ≡ true) ids
    → All (IsReady is) (map parameter_operand ids)
map-IsReady is [] h = tt
map-IsReady is (id ∷ ids) (c, h) = (c, map-IsReady is ids h)

-- The operands are ready when the dependencies are computed.
pub enumerate_operands-IsReady :
    (is : List Instruction) (plan : DependencyPlan)
    → All (λ id. computes is id ≡ true) plan.depends_on
    → All (IsReady is) (enumerate_operands plan)
unfolding enumerate_operands
enumerate_operands-IsReady is plan h =
    let eyes = members (eye_fields_has plan.inputs.eye) eye_operand left_gaze_x 10 in
    let expressions =
      members (mask_has plan.inputs.expressions) expression_operand 0 expression_count in
    let actives = members (active_states_has plan.inputs.active) active_operand eye_tracking 3 in
    let parameters = map parameter_operand plan.depends_on in
    All-append (IsReady is) eyes (expressions ++ (actives ++ parameters))
      (members-IsReady is (eye_fields_has plan.inputs.eye) eye_operand left_gaze_x 10 (λ j. refl))
      (All-append (IsReady is) expressions (actives ++ parameters)
        (members-IsReady is (mask_has plan.inputs.expressions) expression_operand 0 expression_count
          (λ j. refl))
        (All-append (IsReady is) actives parameters
          (members-IsReady is (active_states_has plan.inputs.active) active_operand eye_tracking 3
            (λ j. refl))
          (map-IsReady is plan.depends_on h)))

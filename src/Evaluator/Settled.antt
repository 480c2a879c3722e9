-- ===== src/Evaluator/Settled.antt =====
-- internal/evaluator/evaluate.go: after a run, each instruction's value is the one that its operands' values give.
use vrcft_go.Base.{
  ℕ, ◌<◌, ◌≡◌, refl, true, false, List, [], ◌∷◌, none, ◌==◌, All, arith, Bool-cases, inl, inr,
}
use vrcft_go.Floats.{Arithmetic}
use vrcft_go.Processing.Output.{CanonicalFrame}
use vrcft_go.Parameters.Definition.{value_float, value_bool}
use vrcft_go.Parameters.Types.{parameter_count}
use vrcft_go.Evaluator.Instructions.{Instruction}
use vrcft_go.Evaluator.Snapshot.{Snapshot}
use vrcft_go.Evaluator.Evaluate.{bool_operand_value, evaluate_float, first_operand, run_instruction}
use vrcft_go.Evaluator.Order.{computes, IsReady}
use vrcft_go.Evaluator.Stored.{
  stored_float, stored_bool, IsFull, found, put_float-other, put_bool-other, put_float_self,
  put_bool_self, put_float-IsFull, put_bool-IsFull,
}

pub All-map {ℓ} :
    {A : Type ℓ} (P Q : A → Type 0) (xs : List A) → ((x : A) → P x → Q x) → All P xs → All Q xs
All-map P Q [] f a = tt
All-map P Q (x ∷ xs) f (p, a) = (f x p, All-map P Q xs f a)

module _ (fl : Arithmetic) (frame : CanonicalFrame) where
  -- What is stored for the instruction's parameter is what the instruction gives.
  abbrev pub Holds : Snapshot → Instruction → Type 0
  Holds s i =
      ((i.value_type == value_float) ≡ true
        → stored_float s i.parameter ≡ evaluate_float fl i frame s)
      × ((i.value_type == value_bool) ≡ true
          → stored_bool s i.parameter
            ≡ found (bool_operand_value (first_operand fl i.operands) frame s))

  -- An instruction that was run among `before`.
  abbrev pub Entry : List Instruction → Snapshot → Instruction → Type 0
  Entry before s i =
      Holds s i × All (IsReady before) i.operands × (computes before i.parameter ≡ true)

  pub record Ran (before : List Instruction) (s : Snapshot) : Type 0 where
    pub full : IsFull s
    pub entries : All (Entry before s) before
    pub none_else :
        (j : ℕ) → computes before j ≡ false → (stored_float s j ≡ none) × (stored_bool s j ≡ none)

  -- The step changes nothing but the parameter of the instruction.
  pub run_instruction-other :
      (i : Instruction) (s : Snapshot) (j : ℕ)
      → i.parameter < parameter_count
      → IsFull s
      → (i.parameter == j) ≡ false
      → (stored_float (run_instruction fl frame i s) j ≡ stored_float s j)
        × (stored_bool (run_instruction fl frame i s) j ≡ stored_bool s j)
  unfolding run_instruction
  run_instruction-other i s j b full n = elim (Bool-cases (i.value_type == value_float)) [
    | inl f ↦ rw f (put_float-other fl s i.parameter b full j (evaluate_float fl i frame s) n)
    | inr f ↦ rw f (elim (Bool-cases (i.value_type == value_bool)) [
      | inl g ↦ rw g (
          put_bool-other fl s i.parameter b full j
            (bool_operand_value (first_operand fl i.operands) frame s) n)
      | inr g ↦ rw g (refl, refl)
    ])
  ]

  pub run_instruction-IsFull :
      (i : Instruction) (s : Snapshot) → IsFull s → IsFull (run_instruction fl frame i s)
  unfolding run_instruction
  run_instruction-IsFull i s full = elim (Bool-cases (i.value_type == value_float)) [
    | inl f ↦ rw f (put_float-IsFull fl s i.parameter (evaluate_float fl i frame s) full)
    | inr f ↦ rw f (elim (Bool-cases (i.value_type == value_bool)) [
      | inl g ↦ rw g (
          put_bool-IsFull fl s i.parameter
            (bool_operand_value (first_operand fl i.operands) frame s) full)
      | inr g ↦ rw g full
    ])
  ]

  -- And for that parameter it stores what the instruction gives.
  pub run_instruction_self :
      (i : Instruction) (s : Snapshot)
      → i.parameter < parameter_count
      → IsFull s
      → stored_float s i.parameter ≡ none
      → stored_bool s i.parameter ≡ none
      → ((i.value_type == value_float) ≡ true
          → stored_float (run_instruction fl frame i s) i.parameter ≡ evaluate_float fl i frame s)
        × ((i.value_type == value_bool) ≡ true
            → stored_bool (run_instruction fl frame i s) i.parameter
              ≡ found (bool_operand_value (first_operand fl i.operands) frame s))
  unfolding run_instruction
  run_instruction_self i s b full nf nb = (
    λ f. rw f (put_float_self fl s i.parameter b full (evaluate_float fl i frame s) nf),
    λ g.
        let f : (i.value_type == value_float) ≡ false = ground arith in
        rw (f, g)
          (put_bool_self fl s i.parameter b full
            (bool_operand_value (first_operand fl i.operands) frame s) nb),
  )

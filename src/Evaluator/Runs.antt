-- ===== src/Evaluator/Runs.antt =====
-- internal/evaluator/evaluate.go: a run of instructions that stand in order.
use mathlib.Core.List.{append_assoc, append-nil}
use vrcft_go.Base.{
  ℕ, ◌<◌, ◌≡◌, refl, sym, ap, subst, ◌∙◌, Bool, true, false, List, [], ◌∷◌, ◌++◌, none, ◌==◌, All,
  length-replicate, arith, Bool-cases, inl, inr,
}
use vrcft_go.Floats.{Arithmetic}
use vrcft_go.Processing.Output.{CanonicalFrame}
use vrcft_go.Parameters.Types.{parameter_count}
use vrcft_go.Evaluator.Instructions.{
  Operand, eye_operand, expression_operand, active_operand, parameter_operand, Instruction,
}
use vrcft_go.Evaluator.Snapshot.{Snapshot, empty_snapshot, valid}
use vrcft_go.Evaluator.Evaluate.{first_operand, run_instruction, run}
use vrcft_go.Evaluator.Sets.{has-none, definition_bound}
use vrcft_go.Evaluator.Order.{computes, IsReady, IsOrdered, computes-append, All-append}
use vrcft_go.Evaluator.Stored.{
  stored_float, stored_bool, IsFull, found, SameOn, bool_operand_value-same, evaluate_float-same,
}
use vrcft_go.Evaluator.Settled.{
  All-map, Holds, Entry, Ran, run_instruction-other, run_instruction-IsFull, run_instruction_self,
}

SameOn-first :
    (fl : Arithmetic) (s t : Snapshot) (os : List Operand)
    → All (SameOn s t) os
    → SameOn s t (first_operand fl os)
SameOn-first fl s t [] a = tt
SameOn-first fl s t (o ∷ os) a = a.0

IsReady-append :
    (before after : List Instruction) (o : Operand) → IsReady before o → IsReady (before ++ after) o
IsReady-append before after (eye_operand field) r = refl
IsReady-append before after (expression_operand id) r = refl
IsReady-append before after (active_operand state) r = refl
IsReady-append before after (parameter_operand j) r = ground (arith, computes-append before after j)

-- One step of a run: an instruction for a new parameter, whose operands are ready.
module _ (fl : Arithmetic) (frame : CanonicalFrame) (before : List Instruction) (i : Instruction)
    (s : Snapshot) (b : i.parameter < parameter_count) (new : computes before i.parameter ≡ false)
    (ready : All (IsReady before) i.operands) (ran : Ran fl frame before s) where
  abbrev t : Snapshot
  t = run_instruction fl frame i s

  abbrev after : List Instruction
  after = before ++ (i ∷ [])

  differs : (j : ℕ) → computes before j ≡ true → (i.parameter == j) ≡ false
  differs j c = elim (Bool-cases (i.parameter == j)) [
    | inr n ↦ n
    | inl e ↦
        let same : i.parameter ≡ j = ground arith in
        let bad : computes before i.parameter ≡ true =
          subst (λ k. computes before k ≡ true) (sym same) c in
        ground arith
  ]

  untouched : (o : Operand) → IsReady before o → SameOn s t o
  untouched (eye_operand field) r = tt
  untouched (expression_operand id) r = tt
  untouched (active_operand state) r = tt
  untouched (parameter_operand j) r =
      let (f, g) = run_instruction-other fl frame i s j b ran.full (differs j r) in (sym f, sym g)

  untouched-All : (os : List Operand) → All (IsReady before) os → All (SameOn s t) os
  untouched-All os a = All-map (IsReady before) (SameOn s t) os untouched a

  IsReady-after : (os : List Operand) → All (IsReady before) os → All (IsReady after) os
  IsReady-after os a =
      All-map (IsReady before) (IsReady after) os (IsReady-append before (i ∷ [])) a

  kept : (k : Instruction) → Entry fl frame before s k → Entry fl frame after t k
  kept k (holds, r, c) =
      let (f, g) =
        run_instruction-other fl frame i s k.parameter b ran.full (differs k.parameter c) in
      let same = untouched-All k.operands r in
      (
        (
          λ v. f ∙ holds.0 v ∙ evaluate_float-same fl frame s t k same,
          λ v.
              g
              ∙ holds.1 v
              ∙ ap found (
                  bool_operand_value-same s t (first_operand fl k.operands) frame
                    (SameOn-first fl s t k.operands same)),
        ),
        IsReady-after k.operands r,
        ground (arith, computes-append before (i ∷ []) k.parameter),
      )

  own : Entry fl frame after t i
  own =
      let same = untouched-All i.operands ready in
      let (f, g) =
        run_instruction_self fl frame i s b ran.full (ran.none_else i.parameter new).0
          (ran.none_else i.parameter new).1 in
      (
        (
          λ v. f v ∙ evaluate_float-same fl frame s t i same,
          λ v.
              g v
              ∙ ap found (
                  bool_operand_value-same s t (first_operand fl i.operands) frame
                    (SameOn-first fl s t i.operands same)),
        ),
        IsReady-after i.operands ready,
        ground (arith, computes-append before (i ∷ []) i.parameter),
      )

  run_instruction-Ran : Ran fl frame after t
  run_instruction-Ran = record {
    full = run_instruction-IsFull fl frame i s ran.full;
    entries =
        All-append (Entry fl frame after t) before (i ∷ [])
          (All-map (Entry fl frame before s) (Entry fl frame after t) before kept ran.entries)
          (own, tt);
    none_else = λ j c.
        let old : computes before j ≡ false = ground (arith, computes-append before (i ∷ []) j) in
        let other : (i.parameter == j) ≡ false =
          ground (arith, computes-append before (i ∷ []) j) in
        let (f, g) = run_instruction-other fl frame i s j b ran.full other in
        (f ∙ (ran.none_else j old).0, g ∙ (ran.none_else j old).1);
  }

run-Ran :
    (fl : Arithmetic) (frame : CanonicalFrame) (before is : List Instruction) (s : Snapshot)
    → IsOrdered before is
    → Ran fl frame before s
    → Ran fl frame (before ++ is) (run fl frame is s)
unfolding run
run-Ran fl frame before [] s o r = rw (append-nil before) r
run-Ran fl frame before (i ∷ is) s ((def, d, _, _), new, ready, o) r =
    subst (λ l. Ran fl frame l (run fl frame is (run_instruction fl frame i s)))
      (append_assoc before (i ∷ []) is)
      (run-Ran fl frame (before ++ (i ∷ [])) is (run_instruction fl frame i s) o
        (run_instruction-Ran fl frame before i s (definition_bound i.parameter def d) new ready r))

pub empty-IsFull : IsFull empty_snapshot
empty-IsFull = record {
  floats = length-replicate {A = ℕ} parameter_count 0;
  bools = length-replicate {A = Bool} parameter_count false;
}

pub empty-none :
    (j : ℕ) → (stored_float empty_snapshot j ≡ none) × (stored_bool empty_snapshot j ≡ none)
unfolding valid
empty-none j = rw (has-none j) (refl, refl)

-- When instructions that stand in order have been run on a frame, what is stored for the parameter of
-- each of them is what it gives by the values that are stored at the end.
pub run-Holds :
    (fl : Arithmetic) (frame : CanonicalFrame) (is : List Instruction)
    → IsOrdered [] is
    → All (Holds fl frame (run fl frame is empty_snapshot)) is
run-Holds fl frame is o =
    let start : Ran fl frame [] empty_snapshot = record {
      full = empty-IsFull;
      entries = tt;
      none_else = λ j c. empty-none j;
    } in
    let end = run-Ran fl frame [] is empty_snapshot o start in
    All-map (Entry fl frame is (run fl frame is empty_snapshot))
      (Holds fl frame (run fl frame is empty_snapshot)) is (λ k e. e.0) end.entries

-- ===== src/Evaluator/Stored.antt =====
-- internal/evaluator/evaluate.go: what a run has stored, and what an instruction reads of it.
use vrcft_go.Base.{
  ℕ, suc, ◌<◌, ◌≡◌, ◌≢◌, refl, subst, ◌∙◌, Bool, true, false, ◌||◌, List, [], ◌∷◌, Option, none,
  some, ◌==◌, if◌then◌else◌, ltb, All, length, length-set, set, get_or, get_or-set_self,
  get_or-set_ne, arith, Bool-cases, inl, inr,
}
use vrcft_go.Floats.{Float32, zero32, Arithmetic}
use vrcft_go.Processing.Output.{CanonicalFrame}
use vrcft_go.Parameters.Types.{parameter_count}
use vrcft_go.Evaluator.Instructions.{
  Operand, eye_operand, expression_operand, active_operand, parameter_operand, Instruction,
}
use vrcft_go.Evaluator.Compile.{ParameterSet, add}
use vrcft_go.Evaluator.Snapshot.{Snapshot, valid, set_valid}
use vrcft_go.Evaluator.Evaluate.{
  float_operand_value, bool_operand_value, accumulate, fold_operands, evaluate_float, put_float,
  put_bool,
}
use vrcft_go.Evaluator.Sets.{has-add, has_outside}

-- The value that is stored for a parameter, if one is.
abbrev pub stored_float : Snapshot → ℕ → Option Float32
stored_float s j = if valid s.float_valid j then some (get_or s.floats j zero32) else none

abbrev pub stored_bool : Snapshot → ℕ → Option Bool
stored_bool s j = if valid s.bool_valid j then some (get_or s.bools j false) else none

pub record IsFull (s : Snapshot) : Type 0 where
  pub floats : length s.floats ≡ parameter_count
  pub bools : length s.bools ≡ parameter_count

abbrev pub found : Bool × Bool → Option Bool
found (b, true) = some b
found (b, false) = none

valid-set_valid :
    (v : ParameterSet) (id j : ℕ)
    → id < parameter_count
    → valid (set_valid v id) j ≡ (id == j || valid v j)
unfolding valid set_valid
valid-set_valid v id j b = elim (Bool-cases (ltb j parameter_count)) [
  | inl inside ↦ has-add v id j b (ground arith)
  | inr outside ↦ ground (arith, has_outside v j outside, has_outside (add v id) j outside)
]

get_or-set {ℓ} :
    {A : Type ℓ} (xs : List A) (id j : ℕ) (v d : A)
    → id < length xs
    → get_or (set xs id v) j d ≡ (if id == j then v else get_or xs j d)
get_or-set xs id j v d h = elim (Bool-cases (id == j)) [
  | inl e ↦
      let same : id ≡ j = ground arith in
      rw e (subst (λ k. get_or (set xs id v) k d ≡ v) same (get_or-set_self xs id v d h))
  | inr n ↦ let differ : id ≢ j = λ s. ground arith in rw n (get_or-set_ne xs id j v d differ)
]

pub stored-put_float :
    (fl : Arithmetic) (s : Snapshot) (id j : ℕ) (v : Float32)
    → id < parameter_count
    → IsFull s
    → stored_float (put_float fl id (some v) s) j ≡ (if id == j then some v else stored_float s j)
stored-put_float fl s id j v b full =
    ground
      (arith, valid-set_valid s.float_valid id j b, get_or-set s.floats id j v zero32, full.floats)

pub stored-put_bool :
    (fl : Arithmetic) (s : Snapshot) (id j : ℕ) (v : Bool)
    → id < parameter_count
    → IsFull s
    → stored_bool (put_bool fl id (v, true) s) j ≡ (if id == j then some v else stored_bool s j)
stored-put_bool fl s id j v b full =
    ground (arith, valid-set_valid s.bool_valid id j b, get_or-set s.bools id j v false, full.bools)

pub put_float-IsFull :
    (fl : Arithmetic) (s : Snapshot) (id : ℕ) (o : Option Float32)
    → IsFull s
    → IsFull (put_float fl id o s)
put_float-IsFull fl s id none full = full
put_float-IsFull fl s id (some v) full = record {
  floats = length-set s.floats id v ∙ full.floats;
  bools = full.bools;
}

pub put_bool-IsFull :
    (fl : Arithmetic) (s : Snapshot) (id : ℕ) (o : Bool × Bool)
    → IsFull s
    → IsFull (put_bool fl id o s)
put_bool-IsFull fl s id (v, false) full = full
put_bool-IsFull fl s id (v, true) full = record {
  floats = full.floats;
  bools = length-set s.bools id v ∙ full.bools;
}

-- What a write does at its parameter, and elsewhere.
module _ (fl : Arithmetic) (s : Snapshot) (id : ℕ) (b : id < parameter_count)
    (full : IsFull s) where
  pub put_float-other :
      (j : ℕ) (o : Option Float32)
      → (id == j) ≡ false
      → (stored_float (put_float fl id o s) j ≡ stored_float s j)
        × (stored_bool (put_float fl id o s) j ≡ stored_bool s j)
  put_float-other j none n = (refl, refl)
  put_float-other j (some v) n = (ground (arith, stored-put_float fl s id j v b full), refl)

  pub put_bool-other :
      (j : ℕ) (o : Bool × Bool)
      → (id == j) ≡ false
      → (stored_float (put_bool fl id o s) j ≡ stored_float s j)
        × (stored_bool (put_bool fl id o s) j ≡ stored_bool s j)
  put_bool-other j (v, false) n = (refl, refl)
  put_bool-other j (v, true) n = (refl, ground (arith, stored-put_bool fl s id j v b full))

  pub put_float_self :
      (o : Option Float32) → stored_float s id ≡ none → stored_float (put_float fl id o s) id ≡ o
  put_float_self none e = e
  put_float_self (some v) e = ground (arith, stored-put_float fl s id id v b full)

  pub put_bool_self :
      (o : Bool × Bool) → stored_bool s id ≡ none → stored_bool (put_bool fl id o s) id ≡ found o
  put_bool_self (v, false) e = e
  put_bool_self (v, true) e = ground (arith, stored-put_bool fl s id id v b full)

-- Two runs hold the same for the operand.
abbrev pub SameOn : Snapshot → Snapshot → Operand → Type 0
SameOn s t (parameter_operand j) =
    (stored_float s j ≡ stored_float t j) × (stored_bool s j ≡ stored_bool t j)
SameOn s t _ = Unit

float_operand_value-same :
    (s t : Snapshot) (o : Operand) (frame : CanonicalFrame)
    → SameOn s t o
    → float_operand_value o frame s ≡ float_operand_value o frame t
unfolding float_operand_value
float_operand_value-same s t (eye_operand field) frame h = refl
float_operand_value-same s t (expression_operand id) frame h = refl
float_operand_value-same s t (active_operand state) frame h = refl
float_operand_value-same s t (parameter_operand j) frame (h, k) = ground (arith, h)

pub bool_operand_value-same :
    (s t : Snapshot) (o : Operand) (frame : CanonicalFrame)
    → SameOn s t o
    → bool_operand_value o frame s ≡ bool_operand_value o frame t
unfolding bool_operand_value
bool_operand_value-same s t (eye_operand field) frame h = refl
bool_operand_value-same s t (expression_operand id) frame h = refl
bool_operand_value-same s t (active_operand state) frame h = refl
bool_operand_value-same s t (parameter_operand j) frame (h, k) = ground (arith, k)

module _ (fl : Arithmetic) (frame : CanonicalFrame) (s t : Snapshot) where
  fold_operands-same :
      (i : Instruction) (index : ℕ) (os : List Operand) (result : Float32)
      → All (SameOn s t) os
      → fold_operands fl i frame s index os result ≡ fold_operands fl i frame t index os result
  unfolding fold_operands
  fold_operands-same i index [] result h = refl
  fold_operands-same i index (o ∷ os) result (h, a) = rw (float_operand_value-same s t o frame h) (
      rw
        (fold_operands-same i (suc index) os
          (accumulate fl i.operation (length i.operands) index result
            (float_operand_value o frame t).0)
          a)
        refl)

  pub evaluate_float-same :
      (i : Instruction)
      → All (SameOn s t) i.operands
      → evaluate_float fl i frame s ≡ evaluate_float fl i frame t
  unfolding evaluate_float
  evaluate_float-same i h = rw (fold_operands-same i 0 i.operands zero32 h, evaluate_float) refl

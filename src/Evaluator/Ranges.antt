-- ===== src/Evaluator/Ranges.antt =====
-- internal/evaluator/evaluate.go: every float that is given out is finite and in its parameter's range.
use vrcft_go.Base.{
  ℕ, zero, suc, ◌<◌, ◌≡◌, refl, sym, ap, subst, ◌∙◌, Bool, true, false, not, ◌&&◌, ◌||◌, List, [],
  ◌∷◌, Option, none, some, ◌==◌, arith, Bool-cases, Option-cases, inl, inr,
}
use vrcft_go.Floats.{Float32, zero32, finite32, is_nan32, rank32, lt32, le32, Arithmetic}
use vrcft_go.Processing.Output.{CanonicalFrame}
use vrcft_go.Parameters.Definition.{ParameterDefinition, value_float, value_bool}
use vrcft_go.Parameters.Types.{parameter_count, definition, clamp, clamp_to}
use vrcft_go.Evaluator.Instructions.{Instruction}
use vrcft_go.Evaluator.Compile.{has, Plan}
use vrcft_go.Evaluator.Snapshot.{Snapshot, empty_snapshot, float}
use vrcft_go.Evaluator.Evaluate.{
  bool_operand_value, fold_operands, evaluate_float, averaged, if_finite, put_float, put_bool,
  first_operand, run_instruction, run, evaluate,
}
use vrcft_go.Evaluator.Sets.{definition_bound}
use vrcft_go.Evaluator.Stored.{stored_float, IsFull, stored-put_float, put_float-other}
use vrcft_go.Evaluator.Settled.{run_instruction-IsFull}
use vrcft_go.Evaluator.Runs.{empty-IsFull, empty-none}
use vrcft_go.Evaluator.Outputs.{evaluate-reads}

-- The lowest and the highest value are finite, and in their order.
abbrev range_ok : ParameterDefinition → Bool
range_ok def =
    not (def.value_type == value_float)
    || (def.has_range
        && (finite32 def.range.lowest
            && (finite32 def.range.highest && not (lt32 def.range.highest def.range.lowest))))

ranges_ok : ℕ → Bool
ranges_ok zero = true
ranges_ok (suc n) = elim (definition n) [ none ↦ false | some def ↦ range_ok def ] && ranges_ok n

table_ranges : ranges_ok parameter_count ≡ true
unfolding ranges_ok definition finite32 lt32 is_nan32 rank32
table_ranges = refl

ranges_ok_sound :
    (n id : ℕ) (def : ParameterDefinition)
    → ranges_ok n ≡ true
    → id < n
    → definition id ≡ some def
    → range_ok def ≡ true
unfolding ranges_ok
ranges_ok_sound zero id def h b e = absurd (omega arith)
ranges_ok_sound (suc n) id def h b e = elim (Bool-cases (id == n)) [
  | inr other ↦ ranges_ok_sound n id def (ground arith) (ground arith) e
  | inl here ↦
      let same : id ≡ n = ground arith in
      let at : definition n ≡ some def = subst (λ k. definition k ≡ some def) same e in
      let row = rw at at h in ground arith
]

abbrev pub InRange : ParameterDefinition → Float32 → Type 0
InRange def v = (le32 def.range.lowest v ≡ true) × (le32 v def.range.highest ≡ true)

le32_refl : (a : Float32) → finite32 a ≡ true → le32 a a ≡ true
unfolding finite32 le32 is_nan32
le32_refl a h = ground arith

-- Between finite numbers, `<=` is the negation of `>`.
le32_of_not_lt :
    (a b : Float32) → finite32 a ≡ true → finite32 b ≡ true → lt32 b a ≡ false → le32 a b ≡ true
unfolding finite32 lt32 le32 is_nan32
le32_of_not_lt a b p q h = ground arith

clamp_to-InRange :
    (def : ParameterDefinition) (x : Float32)
    → (def.value_type == value_float) ≡ true
    → range_ok def ≡ true
    → finite32 x ≡ true
    → InRange def (clamp_to def x)
unfolding clamp_to
clamp_to-InRange def x f r h =
    let ranged : def.has_range ≡ true = ground arith in
    let low : finite32 def.range.lowest ≡ true = ground arith in
    let high : finite32 def.range.highest ≡ true = ground arith in
    let order : lt32 def.range.highest def.range.lowest ≡ false = ground arith in
    let whole = le32_of_not_lt def.range.lowest def.range.highest low high order in
    elim (Bool-cases (lt32 x def.range.lowest)) [
      | inl below ↦ rw (ranged, below) (le32_refl def.range.lowest low, whole)
      | inr not_below ↦ elim (Bool-cases (lt32 def.range.highest x)) [
        | inl above ↦ rw (ranged, not_below, above) (whole, le32_refl def.range.highest high)
        | inr inside ↦
            rw (ranged, not_below, inside)
              (
                le32_of_not_lt def.range.lowest x low h not_below,
                le32_of_not_lt x def.range.highest h high inside,
              )
      ]
    ]

clamp_inv :
    (id : ℕ) (x v : Float32)
    → clamp id x ≡ some v
    → (def : ParameterDefinition) × (definition id ≡ some def) × (clamp_to def x ≡ v)
unfolding clamp
clamp_inv id x v h = elim (Option-cases (definition id)) [
  | inl e ↦ let bad = rw (e, clamp) at h in ground arith
  | inr (def, e) ↦ let same = rw (e, clamp) at h in (def, e, ground arith)
]

if_finite_inv :
    (fl : Arithmetic) (o : Option Float32) (v : Float32)
    → if_finite fl o ≡ some v
    → (o ≡ some v) × (finite32 v ≡ true)
if_finite_inv fl none v h = ground arith
if_finite_inv fl (some w) v h = ground arith

-- A value that a float parameter may have.
abbrev Proper : ℕ → Float32 → Type 0
Proper id v =
    (def : ParameterDefinition) × (definition id ≡ some def)
    × (finite32 v ≡ true)
    × ((def.value_type == value_float) ≡ true → InRange def v)

module _ (fl : Arithmetic) (frame : CanonicalFrame) where
  evaluate_float-Proper :
      (i : Instruction) (s : Snapshot) (v : Float32)
      → evaluate_float fl i frame s ≡ some v
      → Proper i.parameter v
  unfolding evaluate_float
  evaluate_float-Proper i s v h =
      elim (Option-cases (fold_operands fl i frame s 0 i.operands zero32)) [
        | inl e ↦ let bad = rw (e, evaluate_float) at h in ground arith
        | inr (result, e) ↦
            let h1 = rw (e, evaluate_float) at h in
            elim (Bool-cases (finite32 (averaged fl i result))) [
              | inr n ↦ let bad = rw n at h1 in ground arith
              | inl y ↦
                  let (c, finite) =
                    if_finite_inv fl (clamp i.parameter (averaged fl i result)) v (rw y at h1) in
                  let (def, d, same) = clamp_inv i.parameter (averaged fl i result) v c in
                  (
                    def,
                    d,
                    finite,
                    λ f. subst (InRange def) same (
                        clamp_to-InRange def (averaged fl i result) f
                          (ranges_ok_sound parameter_count i.parameter def table_ranges
                            (definition_bound i.parameter def d) d)
                          y),
                  )
            ]
      ]

  abbrev IsProper : Snapshot → Type 0
  IsProper s = (j : ℕ) (v : Float32) → stored_float s j ≡ some v → Proper j v

  put_float-Proper :
      (s : Snapshot) (id : ℕ) (o : Option Float32)
      → IsFull s
      → ((v : Float32) → o ≡ some v → Proper id v)
      → IsProper s
      → IsProper (put_float fl id o s)
  put_float-Proper s id none full p all = λ j v h. all j v h
  put_float-Proper s id (some w) full p all = λ j v h.
      let (def, e, finite, inside) = p w refl in
      let b = definition_bound id def e in
      elim (Bool-cases (id == j)) [
        | inr n ↦ all j v (sym (put_float-other fl s id b full j (some w) n).0 ∙ h)
        | inl here ↦
            let same : id ≡ j = ground arith in
            let value : w ≡ v = ground (arith, stored-put_float fl s id j w b full) in
            subst (λ k. Proper k v) same (subst (λ x. Proper id x) value (def, e, finite, inside))
      ]

  put_bool-Proper :
      (s : Snapshot) (id : ℕ) (o : Bool × Bool) → IsProper s → IsProper (put_bool fl id o s)
  put_bool-Proper s id (b, false) all = all
  put_bool-Proper s id (b, true) all = all

  run_instruction-Proper :
      (i : Instruction) (s : Snapshot)
      → IsFull s
      → IsProper s
      → IsProper (run_instruction fl frame i s)
  unfolding run_instruction
  run_instruction-Proper i s full all = elim (Bool-cases (i.value_type == value_float)) [
    | inl f ↦ rw f (
        put_float-Proper s i.parameter (evaluate_float fl i frame s) full
          (evaluate_float-Proper i s) all)
    | inr f ↦ rw f (elim (Bool-cases (i.value_type == value_bool)) [
      | inl g ↦ rw g (
          put_bool-Proper s i.parameter (bool_operand_value (first_operand fl i.operands) frame s)
            all)
      | inr g ↦ rw g all
    ])
  ]

  run-Proper :
      (is : List Instruction) (s : Snapshot) → IsFull s → IsProper s → IsProper (run fl frame is s)
  unfolding run
  run-Proper [] s full all = all
  run-Proper (i ∷ is) s full all =
      run-Proper is (run_instruction fl frame i s) (run_instruction-IsFull fl frame i s full)
        (run_instruction-Proper i s full all)

none_not_some : (w : Float32) → ◌≡◌ {A = Option Float32} none (some w) → ⊥
none_not_some w h = ground arith

some_or : ParameterDefinition → Option ParameterDefinition → ParameterDefinition
some_or d none = d
some_or d (some x) = x

some_inj :
    (a b : ParameterDefinition) → ◌≡◌ {A = Option ParameterDefinition} (some a) (some b) → a ≡ b
unfolding some_or
some_inj a b h = ap (some_or a) h

float_inv :
    (s : Snapshot) (id : ℕ) (v : Float32)
    → float s id ≡ (v, true)
    → (def : ParameterDefinition) × (definition id ≡ some def)
      × ((def.value_type == value_float) ≡ true)
      × (stored_float s id ≡ some v)
unfolding float
float_inv s id v h = elim (Option-cases (definition id)) [
  | inl e ↦ let bad = rw (e, float) at h in ground arith
  | inr (def, e) ↦ let found = rw (e, float) at h in (def, e, ground arith, ground arith)
]

not_found : (v : Float32) → ◌≡◌ {A = Float32 × Bool} (v, true) (zero32, false) → ⊥
not_found v h = ground arith

none_stored : (j : ℕ) (w : Float32) → stored_float empty_snapshot j ≡ some w → ⊥
none_stored j w e = none_not_some w (sym (empty-none j).0 ∙ e)

-- Every float that Evaluate gives out was requested, is finite, and lies in its parameter's range.
pub evaluate-InRange :
    (fl : Arithmetic) (p : Plan) (frame : CanonicalFrame) (id : ℕ) (v : Float32)
    → float (evaluate fl p frame) id ≡ (v, true)
    → (has p.requested id ≡ true)
      × (finite32 v ≡ true)
      × (def : ParameterDefinition) × (definition id ≡ some def)
      × InRange def v
evaluate-InRange fl p frame id v h =
    let s = run fl frame p.instructions empty_snapshot in
    let reads = (evaluate-reads fl p frame id).0 in
    elim (Bool-cases (has p.requested id)) [
      | inr n ↦ let bad = sym h ∙ rw n at reads in absurd (not_found v bad)
      | inl y ↦
          let (def, d, f, stored) = float_inv s id v (sym (rw y at reads) ∙ h) in
          let (def', d', finite, inside) =
            run-Proper fl frame p.instructions empty_snapshot empty-IsFull
              (λ j w e. absurd (none_stored j w e)) id v stored in
          let same : def' ≡ def = some_inj def' def (sym d' ∙ d) in
          (
            y,
            finite,
            def',
            d',
            inside (subst (λ x. (x.value_type == value_float) ≡ true) (sym same) f),
          )
    ]

-- ===== src/Evaluator/Outputs.antt =====
-- internal/evaluator/evaluate.go: which of the run's values Evaluate gives out.
use vrcft_go.Base.{
  ℕ, zero, suc, ◌+◌, ◌<◌, ◌≤◌, ◌≡◌, refl, subst, ◌∙◌, Bool, true, false, Option, none, some, ◌==◌,
  if◌then◌else◌, get_or, arith, Bool-cases, Option-cases, inl, inr,
}
use vrcft_go.Floats.{Float32, zero32, Arithmetic}
use vrcft_go.Processing.Output.{CanonicalFrame}
use vrcft_go.Parameters.Definition.{ParameterDefinition, value_float, value_bool}
use vrcft_go.Parameters.Types.{parameter_count, definition}
use vrcft_go.Evaluator.Compile.{ParameterSet, has, Plan}
use vrcft_go.Evaluator.Snapshot.{Snapshot, empty_snapshot, valid, float, bool}
use vrcft_go.Evaluator.Evaluate.{run, give_out, give_out_from, evaluate}
use vrcft_go.Evaluator.Sets.{definition_bound}
use vrcft_go.Evaluator.Stored.{
  stored_float, stored_bool, IsFull, found, put_float-other, put_bool-other, put_float_self,
  put_bool_self, put_float-IsFull, put_bool-IsFull,
}
use vrcft_go.Evaluator.Runs.{empty-IsFull, empty-none}

found-stored : (v b : Bool) → found (v, b) ≡ (if b then some v else none)
found-stored v true = refl
found-stored v false = refl

module _ (fl : Arithmetic) (s : Snapshot) where
  give_out-IsFull : (id : ℕ) (out : Snapshot) → IsFull out → IsFull (give_out fl s id out)
  unfolding give_out
  give_out-IsFull id out full = elim (Option-cases (definition id)) [
    | inl e ↦ rw (e, give_out) full
    | inr (def, e) ↦
        rw (e, give_out)
          (elim (Bool-cases (def.value_type == value_float)) [
            | inl f ↦ rw f (put_float-IsFull fl out id (stored_float s id) full)
            | inr f ↦ rw f (elim (Bool-cases (def.value_type == value_bool)) [
              | inl g ↦
                  rw g (
                    put_bool-IsFull fl out id (get_or s.bools id false, valid s.bool_valid id) full)
              | inr g ↦ rw g full
            ])
          ])
  ]

  -- Another parameter's value is left alone.
  give_out-other :
      (id j : ℕ) (out : Snapshot)
      → IsFull out
      → (id == j) ≡ false
      → (stored_float (give_out fl s id out) j ≡ stored_float out j)
        × (stored_bool (give_out fl s id out) j ≡ stored_bool out j)
  unfolding give_out
  give_out-other id j out full n = elim (Option-cases (definition id)) [
    | inl e ↦ rw (e, give_out) (refl, refl)
    | inr (def, e) ↦
        rw (e, give_out)
          (elim (Bool-cases (def.value_type == value_float)) [
            | inl f ↦
                rw f (
                  put_float-other fl out id (definition_bound id def e) full j (stored_float s id)
                    n)
            | inr f ↦ rw f (elim (Bool-cases (def.value_type == value_bool)) [
              | inl g ↦ rw g (
                  put_bool-other fl out id (definition_bound id def e) full j
                    (get_or s.bools id false, valid s.bool_valid id) n)
              | inr g ↦ rw g (refl, refl)
            ])
          ])
  ]

  give_out_self :
      (id : ℕ) (def : ParameterDefinition) (out : Snapshot)
      → definition id ≡ some def
      → IsFull out
      → (stored_float out id ≡ none) × (stored_bool out id ≡ none)
      → ((def.value_type == value_float) ≡ true
          → stored_float (give_out fl s id out) id ≡ stored_float s id)
        × ((def.value_type == value_bool) ≡ true
            → stored_bool (give_out fl s id out) id ≡ stored_bool s id)
  unfolding give_out
  give_out_self id def out e full (nf, nb) = (
    λ f.
        rw (e, give_out)
          (rw f (put_float_self fl out id (definition_bound id def e) full (stored_float s id) nf)),
    λ g.
        let f : (def.value_type == value_float) ≡ false = ground arith in
        rw (e, give_out)
          (rw f (
            rw g (
              put_bool_self fl out id (definition_bound id def e) full
                (get_or s.bools id false, valid s.bool_valid id) nb
              ∙ found-stored (get_or s.bools id false) (valid s.bool_valid id)))),
  )

  module _ (requested : ParameterSet) where
    abbrev step : ℕ → Snapshot → Snapshot
    step id out = if has requested id then give_out fl s id out else out

    step-IsFull : (id : ℕ) (out : Snapshot) → IsFull out → IsFull (step id out)
    step-IsFull id out full = elim (Bool-cases (has requested id)) [
      | inl r ↦ rw r (give_out-IsFull id out full)
      | inr r ↦ rw r full
    ]

    step-other :
        (id j : ℕ) (out : Snapshot)
        → IsFull out
        → (id == j) ≡ false
        → (stored_float (step id out) j ≡ stored_float out j)
          × (stored_bool (step id out) j ≡ stored_bool out j)
    step-other id j out full n = elim (Bool-cases (has requested id)) [
      | inl r ↦ rw r (give_out-other id j out full n)
      | inr r ↦ rw r (refl, refl)
    ]

    -- What is stored for `j` is the run's value, if that was requested.
    abbrev GivesOut : ParameterDefinition → ℕ → Snapshot → Type 0
    GivesOut def j out =
        ((def.value_type == value_float) ≡ true
          → stored_float out j ≡ (if has requested j then stored_float s j else none))
        × ((def.value_type == value_bool) ≡ true
            → stored_bool out j ≡ (if has requested j then stored_bool s j else none))

    step_self :
        (j : ℕ) (def : ParameterDefinition) (out : Snapshot)
        → definition j ≡ some def
        → IsFull out
        → (stored_float out j ≡ none) × (stored_bool out j ≡ none)
        → GivesOut def j (step j out)
    step_self j def out d full nothing = elim (Bool-cases (has requested j)) [
      | inl r ↦ rw r (give_out_self j def out d full nothing)
      | inr r ↦ rw r (λ v. nothing.0, λ v. nothing.1)
    ]

    give_out_from-past :
        (id rounds j : ℕ) (out : Snapshot)
        → IsFull out
        → j < id
        → (stored_float (give_out_from fl requested s id rounds out) j ≡ stored_float out j)
          × (stored_bool (give_out_from fl requested s id rounds out) j ≡ stored_bool out j)
    unfolding give_out_from
    give_out_from-past id zero j out full h = (refl, refl)
    give_out_from-past id (suc rounds) j out full h =
        let n : (id == j) ≡ false = ground arith in
        let (f, g) =
          give_out_from-past (suc id) rounds j (step id out) (step-IsFull id out full)
            (omega arith) in
        let (f', g') = step-other id j out full n in (f ∙ f', g ∙ g')

    -- The loop gives out the requested parameters.
    give_out_from_lem :
        (id rounds j : ℕ) (def : ParameterDefinition) (out : Snapshot)
        → definition j ≡ some def
        → IsFull out
        → id ≤ j
        → j < id + rounds
        → (stored_float out j ≡ none) × (stored_bool out j ≡ none)
        → GivesOut def j (give_out_from fl requested s id rounds out)
    unfolding give_out_from
    give_out_from_lem id zero j def out d full a b nothing = absurd (omega arith)
    give_out_from_lem id (suc rounds) j def out d full a b nothing = elim (Bool-cases (id == j)) [
      | inr n ↦
          let (f, g) = step-other id j out full n in
          give_out_from_lem (suc id) rounds j def (step id out) d (step-IsFull id out full)
            (ground arith) (omega arith) (f ∙ nothing.0, g ∙ nothing.1)
      | inl e ↦
          let same : j ≡ id = ground arith in
          let (f, g) =
            give_out_from-past (suc id) rounds j (step id out) (step-IsFull id out full)
              (omega arith) in
          let (f', g') =
            subst (λ n. GivesOut def j (step n out)) same (step_self j def out d full nothing) in
          (λ v. f ∙ f' v, λ v. g ∙ g' v)
    ]

abbrev float_read : Option Float32 → Float32 × Bool
float_read none = (zero32, false)
float_read (some v) = (v, true)

abbrev bool_read : Option Bool → Bool × Bool
bool_read none = (false, false)
bool_read (some v) = (v, true)

float_if :
    (b : Bool) (o : Option Float32)
    → float_read (if b then o else none) ≡ (if b then float_read o else (zero32, false))
float_if true o = refl
float_if false o = refl

bool_if :
    (b : Bool) (o : Option Bool)
    → bool_read (if b then o else none) ≡ (if b then bool_read o else (false, false))
bool_if true o = refl
bool_if false o = refl

either_way {ℓ} : {A : Type ℓ} (b : Bool) (a : A) → a ≡ (if b then a else a)
either_way true a = refl
either_way false a = refl

float_stored :
    (s : Snapshot) (j : ℕ) (def : ParameterDefinition)
    → definition j ≡ some def
    → float s j
      ≡ (if def.value_type == value_float then float_read (stored_float s j) else (zero32, false))
unfolding float
float_stored s j def e = rw (e, float) (ground arith)

bool_stored :
    (s : Snapshot) (j : ℕ) (def : ParameterDefinition)
    → definition j ≡ some def
    → bool s j
      ≡ (if def.value_type == value_bool then bool_read (stored_bool s j) else (false, false))
unfolding bool
bool_stored s j def e = rw (e, bool) (ground arith)

float_unknown :
    (s : Snapshot) (j : ℕ)
    → definition j ≡ none
    → (float s j ≡ (zero32, false)) × (bool s j ≡ (false, false))
unfolding float bool
float_unknown s j e = (rw (e, float) refl, rw (e, bool) refl)

-- Evaluate gives out the run's value of each parameter that was requested, and of no other.
pub evaluate-reads :
    (fl : Arithmetic) (p : Plan) (frame : CanonicalFrame) (j : ℕ)
    → (float (evaluate fl p frame) j ≡ (
        if has p.requested j
        then float (run fl frame p.instructions empty_snapshot) j
        else (zero32, false)))
      × (bool (evaluate fl p frame) j ≡ (
          if has p.requested j
          then bool (run fl frame p.instructions empty_snapshot) j
          else (false, false)))
unfolding evaluate
evaluate-reads fl p frame j =
    let s = run fl frame p.instructions empty_snapshot in
    let out = give_out_from fl p.requested s 0 parameter_count empty_snapshot in
    elim (Option-cases (definition j)) [
      | inl e ↦ (
        ground (arith, (float_unknown out j e).0, (float_unknown s j e).0),
        ground (arith, (float_unknown out j e).1, (float_unknown s j e).1),
      )
      | inr (def, e) ↦
          let (f, g) =
            give_out_from_lem fl s p.requested 0 parameter_count j def empty_snapshot e empty-IsFull
              (omega arith) (ground (arith, definition_bound j def e)) (empty-none j) in
          (
            elim (Bool-cases (def.value_type == value_float)) [
              | inl v ↦
                  rw (float_stored out j def e, float_stored s j def e, v, f v)
                    (float_if (has p.requested j) (stored_float s j))
              | inr v ↦
                  rw (float_stored out j def e, float_stored s j def e, v)
                    (either_way (has p.requested j) (zero32, false))
            ],
            elim (Bool-cases (def.value_type == value_bool)) [
              | inl v ↦
                  rw (bool_stored out j def e, bool_stored s j def e, v, g v)
                    (bool_if (has p.requested j) (stored_bool s j))
              | inr v ↦
                  rw (bool_stored out j def e, bool_stored s j def e, v)
                    (either_way (has p.requested j) (false, false))
            ],
          )
    ]

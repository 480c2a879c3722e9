-- ===== src/Evaluator/Compiled.antt =====
-- internal/evaluator/plan.go: what Compile gives.
use vrcft_go.Base.{
  ℕ, zero, suc, ◌+◌, ◌<◌, ◌≤◌, ◌≡◌, sym, ap, subst, ◌∙◌, Bool, true, false, ◌||◌, List, [], ◌∷◌,
  ◌==◌, if◌then◌else◌, ltb, All, is_nil, get_or-replicate, length-replicate, arith, ok, >>=_inv,
  ok_inj, Bool-cases, Option-cases, Bool-ext, inl, inr,
}
use vrcft_go.Parameters.Types.{parameter_count, definition}
use vrcft_go.ParameterDeps.Leaves.{unvisited}
use vrcft_go.Evaluator.Compile.{
  ParameterSet, no_parameters, add, has, Plan, Progress, Visitor, PlanLookup, visit, request,
  visit_requested, new_progress, full_depth, compile_with_plans,
}
use vrcft_go.Evaluator.Sets.{has-add, has-none, definition_bound}
use vrcft_go.Evaluator.Order.{computes, IsOrdered}
use vrcft_go.Evaluator.Visits.{IsSound, Extends, Keeps, Extends-refl, Extends-trans, visit-Keeps}

-- Whether the parameter is in the list.
abbrev pub requests : List ℕ → ℕ → Bool
requests [] j = false
requests (id ∷ ids) j = id == j || requests ids j

abbrev pub IsKnown : ℕ → Type 0
IsKnown id = id < parameter_count

pub request_inv :
    (ids : List ℕ) (s t : ParameterSet)
    → request ids s ≡ ok t
    → All IsKnown ids × ((j : ℕ) → j < parameter_count → has t j ≡ (requests ids j || has s j))
unfolding request
request_inv [] s t h = (tt, λ j b. ap (λ u. has u j) (sym (ok_inj s t h)))
request_inv (id ∷ ids) s t h = elim (Option-cases (definition id)) [
  | inl e ↦ let bad = rw (e, request) at h in ground arith
  | inr (def, e) ↦
      let known = definition_bound id def e in
      let (all, members) = request_inv ids (add s id) t (rw (e, request) at h) in
      ((known, all), λ j b. ground (arith, members j b, has-add s id j known b))
]

visit_requested-Keeps :
    (v : Visitor)
    → Keeps v
    → (requested : ParameterSet) (id rounds : ℕ) (p q : Progress)
    → visit_requested v requested id rounds p ≡ ok q
    → IsSound p
    → IsSound q
      × Extends p q
      × ((j : ℕ)
          → id ≤ j
          → j < id + rounds
          → has requested j ≡ true
          → computes q.instructions j ≡ true)
unfolding visit_requested
visit_requested-Keeps v k requested id zero p q h s =
    subst
      (λ r.
        IsSound r
        × Extends p r
        × ((j : ℕ)
            → id ≤ j
            → j < id + 0
            → has requested j ≡ true
            → computes r.instructions j ≡ true))
      (ok_inj p q h) (s, Extends-refl p, λ j a b c. absurd (omega arith))
visit_requested-Keeps v k requested id (suc rounds) p q h s =
    let (r, first, rest) = >>=_inv (if has requested id then v id p else ok p) _ _ h in
    let (sr, er, cr) = step v k requested id p r first s in
    let (sq, eq, cq) = visit_requested-Keeps v k requested (suc id) rounds r q rest sr in
    (
      sq,
      Extends-trans p r q er eq,
      λ j a b c. elim (Bool-cases (id == j)) [
        | inl same ↦
            let here : id ≡ j = ground arith in
            eq.more j (
              subst (λ n. computes r.instructions n ≡ true) here
                (cr (subst (λ n. has requested n ≡ true) (sym here) c)))
        | inr other ↦ cq j (ground arith) (omega arith) c
      ],
    )
  where
    step :
        (v : Visitor)
        → Keeps v
        → (requested : ParameterSet) (id : ℕ) (p r : Progress)
        → (if has requested id then v id p else ok p) ≡ ok r
        → IsSound p
        → IsSound r × Extends p r × (has requested id ≡ true → computes r.instructions id ≡ true)
    step v k requested id p r h s = elim (Bool-cases (has requested id)) [
      | inl yes_requested ↦
          let (sr, er, cr) = k id p r (rw yes_requested at h) s in (sr, er, λ c. cr)
      | inr not_requested ↦
          subst
            (λ t.
              IsSound t
              × Extends p t
              × (has requested id ≡ true → computes t.instructions id ≡ true))
            (ok_inj p r (rw not_requested at h)) (s, Extends-refl p, λ c. ground arith)
    ]

pub new_progress-IsSound : IsSound new_progress
new_progress-IsSound = record {
  ordered = tt;
  full = length-replicate {A = ℕ} parameter_count unvisited;
  marked = λ j. ground (arith, get_or-replicate {A = ℕ} parameter_count j unvisited);
}

pub has_bound : (s : ParameterSet) (j : ℕ) → has s j ≡ true → j < parameter_count
unfolding has
has_bound s j h = ground arith

requests_bound :
    (ids : List ℕ) (j : ℕ) → All IsKnown ids → requests ids j ≡ true → j < parameter_count
requests_bound [] j a h = ground arith
requests_bound (id ∷ ids) j (k, a) h = ground (arith, requests_bound ids j a)

has-request :
    (ids : List ℕ) (t : ParameterSet) (j : ℕ)
    → request ids no_parameters ≡ ok t
    → has t j ≡ requests ids j
has-request ids t j h =
    let (all, members) = request_inv ids no_parameters t h in
    elim (Bool-cases (ltb j parameter_count)) [
      | inl e ↦
          let b : j < parameter_count = ground arith in ground (arith, members j b, has-none j)
      | inr e ↦
          Bool-ext (has t j) (requests ids j) (λ a. ground (arith, has_bound t j a))
            (λ a. ground (arith, requests_bound ids j all a))
    ]

nothing_requested : (ids : List ℕ) (j : ℕ) → is_nil ids ≡ true → requests ids j ≡ true → ⊥
nothing_requested [] j e h = ground arith
nothing_requested (id ∷ ids) j e h = ground arith

-- In what Compile gives, from whatever plans, every instruction has the type of a known parameter and
-- passes the check of its operands, no parameter is computed twice, and every parameter that an
-- instruction needs is computed before it. The requested set has exactly the parameters of the list, which
-- are known, and each of them is computed.
pub compile_with_plans-IsOrdered :
    (requested : List ℕ) (plans : PlanLookup) (p : Plan)
    → compile_with_plans requested plans ≡ ok p
    → IsOrdered [] p.instructions
      × All IsKnown requested
      × ((j : ℕ) → has p.requested j ≡ requests requested j)
      × ((j : ℕ) → requests requested j ≡ true → computes p.instructions j ≡ true)
unfolding compile_with_plans
compile_with_plans-IsOrdered requested plans p h =
    let (set, r, k) = >>=_inv (request requested no_parameters) _ _ h in
    let (q, v, done) =
      >>=_inv
        (if is_nil requested
          then ok new_progress
          else visit_requested (visit plans full_depth) set 0 parameter_count new_progress)
        _ _ k in
    let members = λ (j : ℕ). has-request requested set j r in
    let known = (request_inv requested no_parameters set r).0 in
    subst
      (λ t.
        IsOrdered [] t.instructions
        × All IsKnown requested
        × ((j : ℕ) → has t.requested j ≡ requests requested j)
        × ((j : ℕ) → requests requested j ≡ true → computes t.instructions j ≡ true))
      (ok_inj _ _ done)
      (elim (Bool-cases (is_nil requested)) [
        | inl empty ↦
            let same : new_progress ≡ q = ok_inj new_progress q (rw empty at v) in
            (
              subst (λ x. IsOrdered [] x.instructions) same tt,
              known,
              members,
              λ j a. absurd (nothing_requested requested j empty a),
            )
        | inr some_requested ↦
            let (sound, _, all) =
              visit_requested-Keeps (visit plans full_depth) (visit-Keeps plans full_depth) set 0
                parameter_count new_progress q (rw some_requested at v) new_progress-IsSound in
            (
              sound.ordered,
              known,
              members,
              λ j a.
                  let inside : has set j ≡ true = members j ∙ a in
                  all j (omega arith) (ground (arith, has_bound set j inside)) inside,
            )
      ])

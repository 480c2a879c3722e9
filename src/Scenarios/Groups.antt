-- ===== src/Scenarios/Groups.antt =====
-- The theorems on mutual exclusion at four candidates.
use vrcft_go.Base.{ℕ, ◌≡◌, ◌≢◌, refl, sym, ap, ◌∙◌, arith, true, false, [], ◌∷◌, All}
use vrcft_go.Floats.{abs32, lt32, rank32, is_nan32, zero32}
use vrcft_go.Processing.Config.{contains}
use vrcft_go.Processing.Mutual.{
  silence, winner_from, candidate_at, project_group, project_mutual_exclusion,
}
use vrcft_go.Processing.Groups.{Member, Exclusive, project_group-Exclusive}
use vrcft_go.Processing.Disjoint.{Apart, Disjoint, project_mutual_exclusion_one}
use vrcft_go.Scenarios.Data.{four_candidates}

group-Member : All (Member four_candidates) (1 ∷ 2 ∷ 3 ∷ 4 ∷ [])
group-Member = (
  (omega arith, omega arith),
  ((omega arith, omega arith), ((omega arith, omega arith), ((omega arith, omega arith), tt))),
)

project_group-Exclusive_example :
    Exclusive four_candidates
      (1 ∷ 2 ∷ 3 ∷ 4 ∷ [])
      (project_group four_candidates (1 ∷ 2 ∷ 3 ∷ 4 ∷ []))
project_group-Exclusive_example =
    project_group-Exclusive four_candidates (1 ∷ 2 ∷ 3 ∷ 4 ∷ []) group-Member

groups-Member : All (All (Member four_candidates)) ((1 ∷ 2 ∷ []) ∷ (3 ∷ 4 ∷ []) ∷ [])
groups-Member = (
  ((omega arith, omega arith), ((omega arith, omega arith), tt)),
  (((omega arith, omega arith), ((omega arith, omega arith), tt)), tt),
)

groups-Disjoint : Disjoint ((1 ∷ 2 ∷ []) ∷ (3 ∷ 4 ∷ []) ∷ [])
unfolding Disjoint Apart contains
groups-Disjoint = ((λ y c. ground arith, tt), (tt, tt))

seven_nonzero : ◌≢◌ {A = ℕ} 7 0
seven_nonzero e = ground arith

pair_projected :
    project_mutual_exclusion four_candidates ((1 ∷ 2 ∷ []) ∷ (3 ∷ 4 ∷ []) ∷ [])
    ≡ record { value = 0; valid = true }
      ∷ record { value = 7; valid = true }
      ∷ record { value = 9; valid = false }
      ∷ record { value = 7; valid = true }
      ∷ []
unfolding project_mutual_exclusion project_group winner_from lt32 is_nan32 abs32 rank32 silence
pair_projected = refl

second_in_first : contains 2 (1 ∷ 2 ∷ []) ≡ true
unfolding contains
second_in_first = refl

second_valid :
    (candidate_at
      (project_mutual_exclusion four_candidates ((1 ∷ 2 ∷ []) ∷ (3 ∷ 4 ∷ []) ∷ []))
      2).valid
    ≡ true
second_valid = ap (λ cs. (candidate_at cs 2).valid) pair_projected

second_nonzero :
    (candidate_at
      (project_mutual_exclusion four_candidates ((1 ∷ 2 ∷ []) ∷ (3 ∷ 4 ∷ []) ∷ []))
      2).value
    ≢ zero32
second_nonzero e = seven_nonzero (sym (ap (λ cs. (candidate_at cs 2).value) pair_projected) ∙ e)

project_mutual_exclusion_one_example : ◌≡◌ {A = ℕ} 2 2
project_mutual_exclusion_one_example =
    project_mutual_exclusion_one four_candidates ((1 ∷ 2 ∷ []) ∷ (3 ∷ 4 ∷ []) ∷ []) 0 2 2
      groups-Member groups-Disjoint second_in_first second_in_first second_valid second_valid
      second_nonzero second_nonzero

-- ===== src/Processing/Mutual.antt =====
-- internal/processing/mutual.go: of a group of channels one keeps its value, the others are set to 0.
use vrcft_go.Base.{
  ℕ, ◌-◌, Bool, false, not, ◌&&◌, ◌||◌, List, [], ◌∷◌, ltb, ◌==◌, if◌then◌else◌, get_or, set,
}
use vrcft_go.Floats.{Float32, lt32, eq32, abs32, zero32}

pub record Candidate : Type 0 where
  pub value : Float32
  pub valid : Bool

abbrev pub no_candidate : Candidate
no_candidate = record { value = zero32; valid = false }

-- `candidates[id-1]`.
abbrev pub candidate_at : List Candidate → ℕ → Candidate
candidate_at cs id = get_or cs (id - 1) no_candidate

-- The winner so far, 0 while there is none, and its magnitude. Magnitudes are float64 of a float32,
-- which is exact, so they compare as the float32 do.
unfoldable pub beats : ℕ → Float32 → ℕ → Float32 → Bool
beats winner best id magnitude =
    winner == 0 || lt32 best magnitude || (eq32 magnitude best && ltb id winner)

unfoldable pub winner_from : ℕ → Float32 → List Candidate → List ℕ → ℕ
unfolding beats
winner_from winner best cs [] = winner
winner_from winner best cs (id ∷ ids) =
    let c = candidate_at cs id in
    let takes = c.valid && beats winner best id (abs32 c.value) in
    winner_from (if takes then id else winner) (if takes then abs32 c.value else best) cs ids

unfoldable pub silence : ℕ → List ℕ → List Candidate → List Candidate
silence winner [] cs = cs
silence winner (id ∷ ids) cs = silence winner ids (
    if not (id == winner) && (candidate_at cs id).valid
    then set cs (id - 1) (record (candidate_at cs id) { value = zero32 })
    else cs)

unfoldable pub project_group : List Candidate → List ℕ → List Candidate
project_group cs group =
    let winner = winner_from 0 zero32 cs group in
    if winner == 0 then cs else silence winner group cs

unfoldable pub project_mutual_exclusion : List Candidate → List (List ℕ) → List Candidate
project_mutual_exclusion cs [] = cs
project_mutual_exclusion cs (group ∷ groups) =
    project_mutual_exclusion (project_group cs group) groups

-- ===== src/Processing/Disjoint.antt =====
-- internal/processing/mutual.go: the projection of groups that share no channel.
use vrcft_go.Base.{
  ℕ, ◌≤◌, ◌≡◌, ◌≢◌, refl, sym, ap, ◌∙◌, inl, inr, true, false, List, [], ◌∷◌, All, All-get_or,
  get_or, length, ◌==◌, Bool-cases, true_not_false, arith,
}
use vrcft_go.Floats.{zero32}
use vrcft_go.Processing.Config.{contains}
use vrcft_go.Processing.Mutual.{Candidate, candidate_at, project_group, project_mutual_exclusion}
use vrcft_go.Processing.Groups.{
  Member, Exclusive, All-Member, contains-positive, project_group-Exclusive,
}
use vrcft_go.Processing.Exclusion.{==_eq}

-- No channel stands in both groups.
unfoldable pub Apart : List ℕ → List ℕ → Type 0
Apart g h = (y : ℕ) → contains y g ≡ true → contains y h ≡ false

unfoldable pub Disjoint : List (List ℕ) → Type 0
Disjoint [] = Unit {0}
Disjoint (g ∷ gs) = All (Apart g) gs × Disjoint gs

-- Two members of a group that are valid and not 0 are one.
unfoldable pub Settled : List Candidate → List ℕ → Type 0
Settled ds g =
    (x y : ℕ)
    → contains x g ≡ true
    → contains y g ≡ true
    → (candidate_at ds x).valid ≡ true
    → (candidate_at ds y).valid ≡ true
    → (candidate_at ds x).value ≢ zero32
    → (candidate_at ds y).value ≢ zero32
    → x ≡ y

-- Whoever is valid and not 0 behind a projection is its winner.
is_winner :
    (cs ds : List Candidate) (g : List ℕ) (w z : ℕ)
    → ((y : ℕ)
        → 1 ≤ y
        → contains y g ≡ true
        → y ≢ w
        → (candidate_at cs y).valid ≡ true
        → (candidate_at ds y).value ≡ zero32)
    → 1 ≤ z
    → contains z g ≡ true
    → (candidate_at cs z).valid ≡ true
    → (candidate_at ds z).value ≢ zero32
    → z ≡ w
is_winner cs ds g w z zeroes k c v n = elim (Bool-cases (z == w)) [
  | inl same ↦ ==_eq z w same
  | inr other ↦ absurd (n (zeroes z k c (λ e. ground arith) v))
]

Exclusive-Settled :
    (cs : List Candidate) (g : List ℕ) (ds : List Candidate)
    → All (Member cs) g
    → Exclusive cs g ds
    → Settled ds g
unfolding Exclusive Settled
Exclusive-Settled cs g ds a (_, valid, _, inl (none, _)) x y cx cy vx vy nx ny =
    absurd (true_not_false (sym vx ∙ valid x (contains-positive cs g x a cx) ∙ none x cx))
Exclusive-Settled cs g ds a (_, valid, _, inr (w, _, _, _, _, zeroes)) x y cx cy vx vy nx ny =
    let kx = contains-positive cs g x a cx in
    let ky = contains-positive cs g y a cy in
    is_winner cs ds g w x zeroes kx cx (sym (valid x kx) ∙ vx) nx
    ∙ sym (is_winner cs ds g w y zeroes ky cy (sym (valid y ky) ∙ vy) ny)

All-All-Member :
    (cs ds : List Candidate) (gs : List (List ℕ))
    → length ds ≡ length cs
    → All (All (Member cs)) gs
    → All (All (Member ds)) gs
All-All-Member cs ds [] e a = tt
All-All-Member cs ds (g ∷ gs) e (m, a) = (All-Member cs ds g e m, All-All-Member cs ds gs e a)

-- The projection of later groups leaves the channels outside of them.
project-outside :
    (cs : List Candidate) (gs : List (List ℕ)) (y : ℕ)
    → All (All (Member cs)) gs
    → 1 ≤ y
    → All (λ h. contains y h ≡ false) gs
    → candidate_at (project_mutual_exclusion cs gs) y ≡ candidate_at cs y
unfolding project_mutual_exclusion Exclusive
project-outside cs [] y a k out = refl
project-outside cs (g ∷ gs) y (m, a) k (o, out) =
    let (len, _, outside, _) = project_group-Exclusive cs g m in
    project-outside (project_group cs g) gs y (All-All-Member cs (project_group cs g) gs len a) k
      out
    ∙ outside y k o

project-valid :
    (cs : List Candidate) (gs : List (List ℕ)) (y : ℕ)
    → All (All (Member cs)) gs
    → 1 ≤ y
    → (candidate_at (project_mutual_exclusion cs gs) y).valid ≡ (candidate_at cs y).valid
unfolding project_mutual_exclusion Exclusive
project-valid cs [] y a k = refl
project-valid cs (g ∷ gs) y (m, a) k =
    let (len, valid, _, _) = project_group-Exclusive cs g m in
    project-valid (project_group cs g) gs y (All-All-Member cs (project_group cs g) gs len a) k
    ∙ valid y k

All-out :
    (g : List ℕ) (gs : List (List ℕ)) (y : ℕ)
    → All (Apart g) gs
    → contains y g ≡ true
    → All (λ h. contains y h ≡ false) gs
unfolding Apart
All-out g [] y a c = tt
All-out g (h ∷ gs) y (p, a) c = (p y c, All-out g gs y a c)

Settled-later :
    (cs : List Candidate) (g : List ℕ) (gs : List (List ℕ))
    → All (Member cs) g
    → All (All (Member cs)) gs
    → All (Apart g) gs
    → Settled cs g
    → Settled (project_mutual_exclusion cs gs) g
unfolding Settled
Settled-later cs g gs m a apart s x y cx cy vx vy nx ny =
    let ex = project-outside cs gs x a (contains-positive cs g x m cx) (All-out g gs x apart cx) in
    let ey = project-outside cs gs y a (contains-positive cs g y m cy) (All-out g gs y apart cy) in
    s x y cx cy (sym (ap (λ c. c.valid) ex) ∙ vx) (sym (ap (λ c. c.valid) ey) ∙ vy)
      (λ e. nx (ap (λ c. c.value) ex ∙ e)) (λ e. ny (ap (λ c. c.value) ey ∙ e))

project-Settled :
    (cs : List Candidate) (gs : List (List ℕ))
    → All (All (Member cs)) gs
    → Disjoint gs
    → All (Settled (project_mutual_exclusion cs gs)) gs
unfolding project_mutual_exclusion Disjoint Exclusive
project-Settled cs [] a d = tt
project-Settled cs (g ∷ gs) (m, a) (apart, d) =
    let x = project_group-Exclusive cs g m in
    let ds = project_group cs g in
    let later = All-All-Member cs ds gs x.0 a in
    (
      Settled-later ds g gs (All-Member cs ds g x.0 m) later apart (Exclusive-Settled cs g ds m x),
      project-Settled ds gs later d,
    )

pub project_mutual_exclusion_settles :
    (cs : List Candidate) (gs : List (List ℕ))
    → All (All (Member cs)) gs
    → Disjoint gs
    → All (Settled (project_mutual_exclusion cs gs)) gs
      × ((y : ℕ)
          → 1 ≤ y
          → (candidate_at (project_mutual_exclusion cs gs) y).valid ≡ (candidate_at cs y).valid)
project_mutual_exclusion_settles cs gs a d =
    (project-Settled cs gs a d, λ y k. project-valid cs gs y a k)

Settled-empty : (ds : List Candidate) → Settled ds []
unfolding Settled contains
Settled-empty ds x y cx cy vx vy nx ny = absurd (true_not_false (sym cx))

pub Settled-at :
    (ds : List Candidate) (gs : List (List ℕ)) (i : ℕ)
    → All (Settled ds) gs
    → Settled ds (get_or gs i [])
Settled-at ds gs i a = All-get_or (Settled ds) gs i [] a (Settled-empty ds)

-- Behind the projection of groups of channels that share no channel, two members of one group that are
-- valid and not 0 are one channel.
pub project_mutual_exclusion_one :
    (cs : List Candidate) (gs : List (List ℕ)) (i x y : ℕ)
    → All (All (Member cs)) gs
    → Disjoint gs
    → contains x (get_or gs i []) ≡ true
    → contains y (get_or gs i []) ≡ true
    → (candidate_at (project_mutual_exclusion cs gs) x).valid ≡ true
    → (candidate_at (project_mutual_exclusion cs gs) y).valid ≡ true
    → (candidate_at (project_mutual_exclusion cs gs) x).value ≢ zero32
    → (candidate_at (project_mutual_exclusion cs gs) y).value ≢ zero32
    → x ≡ y
unfolding Settled
project_mutual_exclusion_one cs gs i x y a d =
    Settled-at (project_mutual_exclusion cs gs) gs i (project-Settled cs gs a d) x y

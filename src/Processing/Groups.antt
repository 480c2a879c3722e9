-- ===== src/Processing/Groups.antt =====
-- internal/processing/mutual.go: what the second loop leaves of a group, and of all groups.
use vrcft_go.Base.{
  ℕ, ◌-◌, ◌≤◌, ◌≡◌, ◌≢◌, refl, sym, ap, subst, ◌∙◌, ◌⊎◌, inl, inr, Bool, true, false, not, ◌&&◌,
  ◌||◌, List, [], ◌∷◌, All, length, set, get_or-set_self, get_or-set_ne, length-set, ◌==◌,
  if◌then◌else◌, Bool-cases, arith,
}
use vrcft_go.Floats.{zero32}
use vrcft_go.Processing.Config.{contains}
use vrcft_go.Processing.Mutual.{
  Candidate, no_candidate, candidate_at, winner_from, silence, project_group,
}
use vrcft_go.Processing.Exclusion.{Found, Stronger, magnitude, winner_from-Found, ==_eq}

abbrev pub Member : List Candidate → ℕ → Type 0
Member cs id = (1 ≤ id) × (id ≤ length cs)

abbrev muted : Candidate → Candidate
muted c = record c { value = zero32 }

abbrev mute_if : Bool → Candidate → Candidate
mute_if b c = if b then muted c else c

candidate_at-set :
    (cs : List Candidate) (id y : ℕ) (c : Candidate)
    → Member cs id
    → 1 ≤ y
    → candidate_at (set cs (id - 1) c) y ≡ (if id == y then c else candidate_at cs y)
candidate_at-set cs id y c m k = elim (Bool-cases (id == y)) [
  | inl same ↦ rw same (
      subst (λ z. candidate_at (set cs (id - 1) c) z ≡ c) (==_eq id y same)
        (get_or-set_self cs (id - 1) c no_candidate (omega arith)))
  | inr other ↦ rw other (get_or-set_ne cs (id - 1) (y - 1) c no_candidate (λ e. ground arith))
]

-- One round of the loop.
unfoldable round : ℕ → ℕ → List Candidate → List Candidate
round w id cs =
    if not (id == w) && (candidate_at cs id).valid
    then set cs (id - 1) (record (candidate_at cs id) { value = zero32 })
    else cs

candidate_at-round :
    (w id : ℕ) (cs : List Candidate) (y : ℕ)
    → Member cs id
    → 1 ≤ y
    → candidate_at (round w id cs) y
      ≡ mute_if ((id == y) && not (y == w) && (candidate_at cs y).valid) (candidate_at cs y)
unfolding round
candidate_at-round w id cs y m k = elim (Bool-cases (not (id == w) && (candidate_at cs id).valid)) [
  | inl mutes ↦ rw mutes (
      candidate_at-set cs id y (muted (candidate_at cs id)) m k ∙ elim (Bool-cases (id == y)) [
        | inl same ↦ rw same (
            subst
              (λ z.
                muted (candidate_at cs id)
                ≡ mute_if (not (z == w) && (candidate_at cs z).valid) (candidate_at cs z))
              (==_eq id y same) (rw mutes refl))
        | inr other ↦ rw other refl
      ])
  | inr keeps ↦ rw keeps (elim (Bool-cases (id == y)) [
    | inl same ↦ rw same (
        subst
          (λ z.
            candidate_at cs z
            ≡ mute_if (not (z == w) && (candidate_at cs z).valid) (candidate_at cs z))
          (==_eq id y same) (rw keeps refl))
    | inr other ↦ rw other refl
  ])
]

length-round : (w id : ℕ) (cs : List Candidate) → length (round w id cs) ≡ length cs
unfolding round
length-round w id cs = elim (Bool-cases (not (id == w) && (candidate_at cs id).valid)) [
  | inl mutes ↦ rw mutes (length-set cs (id - 1) (muted (candidate_at cs id)))
  | inr keeps ↦ rw keeps refl
]

mute_twice :
    (h t n : Bool) (c : Candidate)
    → mute_if (t && n && (mute_if (h && n && c.valid) c).valid) (mute_if (h && n && c.valid) c)
      ≡ mute_if ((h || t) && n && c.valid) c
mute_twice h t n c = ground arith

length-silence :
    (w : ℕ) (ids : List ℕ) (cs : List Candidate) → length (silence w ids cs) ≡ length cs
unfolding silence round
length-silence w [] cs = refl
length-silence w (id ∷ ids) cs = length-silence w ids (round w id cs) ∙ length-round w id cs

pub All-Member :
    (cs ds : List Candidate) (ids : List ℕ)
    → length ds ≡ length cs
    → All (Member cs) ids
    → All (Member ds) ids
All-Member cs ds [] e a = tt
All-Member cs ds (id ∷ ids) e (m, a) = ((m.0, omega arith), All-Member cs ds ids e a)

candidate_at-silence :
    (w : ℕ) (ids : List ℕ) (cs : List Candidate) (y : ℕ)
    → All (Member cs) ids
    → 1 ≤ y
    → candidate_at (silence w ids cs) y
      ≡ mute_if (contains y ids && not (y == w) && (candidate_at cs y).valid) (candidate_at cs y)
unfolding silence contains round
candidate_at-silence w [] cs y a k = refl
candidate_at-silence w (id ∷ ids) cs y (m, a) k =
    subst
      (λ c.
        candidate_at (silence w ids (round w id cs)) y
        ≡ mute_if (contains y ids && not (y == w) && c.valid) c)
      (candidate_at-round w id cs y m k)
      (candidate_at-silence w ids (round w id cs) y
        (All-Member cs (round w id cs) ids (length-round w id cs) a) k)
    ∙ mute_twice (id == y) (contains y ids) (not (y == w)) (candidate_at cs y)

-- What is asked of the values behind a group's projection.
unfoldable pub Exclusive : List Candidate → List ℕ → List Candidate → Type 0
Exclusive cs group ds =
    (length ds ≡ length cs)
    × ((y : ℕ) → 1 ≤ y → (candidate_at ds y).valid ≡ (candidate_at cs y).valid)
    × ((y : ℕ) → 1 ≤ y → contains y group ≡ false → candidate_at ds y ≡ candidate_at cs y)
    × ((((y : ℕ) → contains y group ≡ true → (candidate_at cs y).valid ≡ false) × (ds ≡ cs))
        ⊎ ((w : ℕ) × (contains w group ≡ true)
            × ((candidate_at cs w).valid ≡ true)
            × (candidate_at ds w ≡ candidate_at cs w)
            × ((y : ℕ)
                → contains y group ≡ true
                → (candidate_at cs y).valid ≡ true
                → Stronger w (magnitude cs w) y (magnitude cs y))
            × ((y : ℕ)
                → 1 ≤ y
                → contains y group ≡ true
                → y ≢ w
                → (candidate_at cs y).valid ≡ true
                → (candidate_at ds y).value ≡ zero32)))

All-positive : (cs : List Candidate) (ids : List ℕ) → All (Member cs) ids → All (λ id. 1 ≤ id) ids
All-positive cs [] a = tt
All-positive cs (id ∷ ids) (m, a) = (m.0, All-positive cs ids a)

pub contains-positive :
    (cs : List Candidate) (ids : List ℕ) (y : ℕ)
    → All (Member cs) ids
    → contains y ids ≡ true
    → 1 ≤ y
unfolding contains
contains-positive cs [] y a h = ground arith
contains-positive cs (id ∷ ids) y (m, a) h = elim (Bool-cases (id == y)) [
  | inl same ↦ ground arith
  | inr other ↦ contains-positive cs ids y a (ground arith)
]

valid-mute : (b : Bool) (c : Candidate) → (mute_if b c).valid ≡ c.valid
valid-mute true c = refl
valid-mute false c = refl

pub differs : (a b : ℕ) → a ≢ b → (a == b) ≡ false
differs a b ne = ground arith

not_other : (a : ℕ) → (a == a) ≡ true
not_other a = ground arith

same_muted :
    (y w : ℕ) (group : List ℕ) (cs : List Candidate)
    → (y == w) ≡ true
    → mute_if (contains y group && not (y == w) && (candidate_at cs y).valid) (candidate_at cs y)
      ≡ candidate_at cs y
same_muted y w group cs e = elim (Bool-cases (contains y group)) [
  | inl c ↦ rw c (rw e refl)
  | inr c ↦ rw c refl
]

silence-Exclusive :
    (cs : List Candidate) (group : List ℕ) (w : ℕ)
    → All (Member cs) group
    → contains w group ≡ true
    → (candidate_at cs w).valid ≡ true
    → ((y : ℕ)
        → contains y group ≡ true
        → (candidate_at cs y).valid ≡ true
        → Stronger w (magnitude cs w) y (magnitude cs y))
    → Exclusive cs group (silence w group cs)
unfolding Exclusive
silence-Exclusive cs group w a c o wins =
    let at : (y : ℕ)
        → 1 ≤ y
        → candidate_at (silence w group cs) y
          ≡ mute_if (contains y group && not (y == w) && (candidate_at cs y).valid)
              (candidate_at cs y) =
      λ y k. candidate_at-silence w group cs y a k in
    (
      length-silence w group cs,
      λ y k. ap (λ x. x.valid) (at y k) ∙ valid-mute _ (candidate_at cs y),
      λ y k out. at y k ∙ rw out refl,
      inr (
        w,
        c,
        o,
        at w (contains-positive cs group w a c) ∙ same_muted w w group cs (not_other w),
        wins,
        λ y k i ne v. ap (λ x. x.value) (at y k) ∙ rw i (rw (differs y w ne) (rw v refl)),
      ),
    )

-- A group whose members are channels: the validity of every channel and all of the channels outside of
-- the group stay. Without a valid member nothing changes; otherwise the valid member of the largest
-- magnitude, of equals the one with the smallest identifier, keeps its value, and every other valid
-- member has the value 0.
pub project_group-Exclusive :
    (cs : List Candidate) (group : List ℕ)
    → All (Member cs) group
    → Exclusive cs group (project_group cs group)
unfolding project_group Found Exclusive
project_group-Exclusive cs group a =
    elim (winner_from-Found 0 zero32 cs group (λ ne. absurd (ne refl)) (All-positive cs group a)) [
      | inl (e, z, none) ↦ rw e (refl, λ y k. refl, λ y k out. refl, inl (none, refl))
      | inr (ne, from, _, wins) ↦ elim from [
        | inl z ↦ absurd (ne z)
        | inr (c, o) ↦
            subst
              (λ b.
                Exclusive cs group
                  (if b then cs else silence (winner_from 0 zero32 cs group) group cs))
              (sym (differs (winner_from 0 zero32 cs group) 0 ne))
              (silence-Exclusive cs group (winner_from 0 zero32 cs group) a c o wins)
      ]
    ]

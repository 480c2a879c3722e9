-- ===== src/Processing/Exclusion.antt =====
-- internal/processing/mutual.go: at most one channel of a group is left with a value.
use vrcft_go.Base.{
  ℕ, zero, suc, ◌≤◌, ◌≡◌, ◌≢◌, refl, sym, subst, ◌⊎◌, inl, inr, Bool, true, false, ◌&&◌, List, [],
  ◌∷◌, All, ◌==◌, if◌then◌else◌, Bool-cases, arith,
}
use vrcft_go.Floats.{Float32, lt32, eq32, abs32, lt32_irrefl}
use vrcft_go.Processing.Config.{contains}
use vrcft_go.Processing.Mutual.{Candidate, candidate_at, beats, winner_from}

abbrev pub magnitude : List Candidate → ℕ → Float32
magnitude cs id = abs32 (candidate_at cs id).value

-- `w`, of magnitude `best`, is at least as strong as `id`, of magnitude `m`: the smaller of two equals wins.
abbrev pub Stronger : ℕ → Float32 → ℕ → Float32 → Type 0
Stronger w best id m = (lt32 best m ≡ false) × (eq32 m best ≡ true → w ≤ id)

beats-Stronger :
    (w id x : ℕ) (best m n : Float32)
    → w ≢ 0
    → beats w best id m ≡ true
    → Stronger w best x n
    → Stronger id m x n
unfolding beats lt32 eq32
beats-Stronger w id x best m n ne b s = (ground arith, λ e. ground arith)

beaten-Stronger : (w id : ℕ) (best m : Float32) → beats w best id m ≡ false → Stronger w best id m
unfolding beats lt32 eq32
beaten-Stronger w id best m b = (ground arith, λ e. ground arith)

Stronger-refl : (w : ℕ) (best : Float32) → Stronger w best w best
Stronger-refl w best = (lt32_irrefl best, λ _. omega arith)

-- What the first loop has found over `ids`, from a winner `w` of magnitude `best` on: no valid member,
-- or a winner among the valid ones, or the old one, that is stronger than each of them and than all that
-- the old one is stronger than.
unfoldable pub Found : ℕ → Float32 → List Candidate → List ℕ → ℕ → Type 0
Found w best cs ids v =
    (((v ≡ w) × (w ≡ 0) × ((x : ℕ) → contains x ids ≡ true → (candidate_at cs x).valid ≡ false))
      ⊎ ((v ≢ 0)
          × ((v ≡ w) ⊎ ((contains v ids ≡ true) × ((candidate_at cs v).valid ≡ true)))
          × (w ≢ 0 → (x : ℕ) (n : Float32) → Stronger w best x n → Stronger v (magnitude cs v) x n)
          × ((x : ℕ)
              → contains x ids ≡ true
              → (candidate_at cs x).valid ≡ true
              → Stronger v (magnitude cs v) x (magnitude cs x))))

-- A winner's magnitude is the one beside it.
abbrev Matches : ℕ → Float32 → List Candidate → Type 0
Matches w best cs = w ≢ 0 → best ≡ magnitude cs w

pub ==_eq : (a b : ℕ) → (a == b) ≡ true → a ≡ b
==_eq a b h = ground arith

-- Without a winner every valid member is taken.
none_yet :
    (w : ℕ) (best : Float32) (id : ℕ) (m : Float32) (valid : Bool)
    → (valid && beats w best id m) ≡ false
    → w ≡ 0
    → valid ≡ false
unfolding beats
none_yet w best id m valid k z = ground arith

beaten :
    (w : ℕ) (best : Float32) (id : ℕ) (m : Float32) (valid : Bool)
    → (valid && beats w best id m) ≡ false
    → valid ≡ true
    → (w ≢ 0) × (beats w best id m ≡ false)
unfolding beats
beaten w best id m valid k o = (λ z. ground arith, ground arith)

takes-Found :
    (w : ℕ) (best : Float32) (cs : List Candidate) (id : ℕ) (ids : List ℕ) (v : ℕ)
    → 1 ≤ id
    → (candidate_at cs id).valid ≡ true
    → beats w best id (magnitude cs id) ≡ true
    → Found id (magnitude cs id) cs ids v
    → Found w best cs (id ∷ ids) v
unfolding Found contains
takes-Found w best cs id ids v known valid b (inl (e, z, none)) = absurd (omega arith)
takes-Found w best cs id ids v known valid b (inr (ne, from, wins, all)) = inr (
  ne,
  inr (elim from [
    | inl e ↦ (ground arith, subst (λ y. (candidate_at cs y).valid ≡ true) (sym e) valid)
    | inr (c, o) ↦ (ground arith, o)
  ]),
  λ old x n s. wins (λ z. omega arith) x n (beats-Stronger w id x best (magnitude cs id) n old b s),
  λ x e o. elim (Bool-cases (id == x)) [
    | inl same ↦
        subst (λ y. Stronger v (magnitude cs v) y (magnitude cs y)) (==_eq id x same)
          (wins (λ z. omega arith) id (magnitude cs id) (Stronger-refl id (magnitude cs id)))
    | inr other ↦ all x (ground arith) o
  ],
)

keeps-Found :
    (w : ℕ) (best : Float32) (cs : List Candidate) (id : ℕ) (ids : List ℕ) (v : ℕ)
    → Matches w best cs
    → ((candidate_at cs id).valid && beats w best id (magnitude cs id)) ≡ false
    → Found w best cs ids v
    → Found w best cs (id ∷ ids) v
unfolding Found contains
keeps-Found w best cs id ids v known k (inl (e, z, none)) = inl (
  e,
  z,
  λ x c. elim (Bool-cases (id == x)) [
    | inl same ↦
        subst (λ y. (candidate_at cs y).valid ≡ false) (==_eq id x same)
          (none_yet w best id (magnitude cs id) _ k z)
    | inr other ↦ none x (ground arith)
  ],
)
keeps-Found w best cs id ids v known k (inr (ne, from, wins, all)) = inr (
  ne,
  elim from [ inl e ↦ inl e | inr (c, o) ↦ inr (ground arith, o) ],
  wins,
  λ x e o. elim (Bool-cases (id == x)) [
    | inl same ↦
        subst
          (λ y. (candidate_at cs y).valid ≡ true → Stronger v (magnitude cs v) y (magnitude cs y))
          (==_eq id x same)
          (λ o'.
            let (old, b) = beaten w best id (magnitude cs id) _ k o' in
            wins old id (magnitude cs id) (beaten-Stronger w id best (magnitude cs id) b))
          o
    | inr other ↦ all x (ground arith) o
  ],
)

pub winner_from-Found :
    (w : ℕ) (best : Float32) (cs : List Candidate) (ids : List ℕ)
    → Matches w best cs
    → All (λ id. 1 ≤ id) ids
    → Found w best cs ids (winner_from w best cs ids)
unfolding winner_from Found contains
winner_from-Found zero best cs [] h a = inl (refl, refl, λ x e. ground arith)
winner_from-Found (suc w) best cs [] h a = inr (
  λ z. omega arith,
  inl refl,
  λ ne x n s. subst (λ b. Stronger (suc w) b x n) (h ne) s,
  λ x e. ground arith,
)
winner_from-Found w best cs (id ∷ ids) h (known, a) =
    elim (Bool-cases ((candidate_at cs id).valid && beats w best id (magnitude cs id))) [
      | inl takes ↦
          subst
            (λ b.
              Found w best cs (id ∷ ids)
                (winner_from (if b then id else w) (if b then magnitude cs id else best) cs ids))
            (sym takes)
            (takes-Found w best cs id ids _ known (ground arith) (ground arith)
              (winner_from-Found id (magnitude cs id) cs ids (λ _. refl) a))
      | inr keeps ↦
          subst
            (λ b.
              Found w best cs (id ∷ ids)
                (winner_from (if b then id else w) (if b then magnitude cs id else best) cs ids))
            (sym keeps)
            (keeps-Found w best cs id ids _ h keeps (winner_from-Found w best cs ids h a))
    ]

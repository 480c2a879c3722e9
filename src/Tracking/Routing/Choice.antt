-- ===== src/Tracking/Routing/Choice.antt =====
-- What `chooseAutoSource` and `resolveSource` choose.
use vrcft_go.Base.{
  ℕ, true, false, ◌&&◌, ◌||◌, [], ◌∷◌, none, Bytes, is_empty, str_eq, str_lt, lookup, if◌then◌else◌,
  ◌≡◌, ◌⊎◌, inl, inr, refl, sym, ap, ◌∙◌, subst, arith, Bool-cases, eq_of_str_eq, str_eq_refl,
  str_lt_irrefl, str_lt_trans, str_lt_total, str_le_trans,
}
use vrcft_go.Tracking.Routing.{
  Sources, SourceSelection, capable, found_capable, offers, least_from, choose_auto_source,
  resolve_source,
}

-- The names of a Go map differ, and `Submit` keeps the empty name out.
abbrev pub IsMap : Sources → Type 0
IsMap [] = Unit {0}
IsMap ((id, s) ∷ m) = (is_empty id ≡ false) × (lookup id m ≡ none) × IsMap m

-- An entry of that name offers the group.
abbrev Candidate : ℕ → Sources → Bytes → Type 0
Candidate c [] id = ⊥
Candidate c ((j, s) ∷ m) id = ((j ≡ id) × (capable c s ≡ true)) ⊎ Candidate c m id

offers-Candidate : (c : ℕ) (m : Sources) (id : Bytes) → offers c m id ≡ true → Candidate c m id
unfolding lookup
offers-Candidate c [] id h = absurd (cc)
offers-Candidate c ((j, s) ∷ m) id h = elim (Bool-cases (str_eq j id)) [
  | inl same ↦ inl (eq_of_str_eq j id same, ground arith)
  | inr other ↦ inr (offers-Candidate c m id (ground arith))
]

Candidate-offers :
    (c : ℕ) (m : Sources) (id : Bytes) → IsMap m → Candidate c m id → offers c m id ≡ true
unfolding lookup
Candidate-offers c [] id w h = absurd h
Candidate-offers c ((j, s) ∷ m) id w (inl (e, h)) =
    subst (λ x. offers c ((j, s) ∷ m) x ≡ true) e (ground (arith, str_eq_refl j))
Candidate-offers c ((j, s) ∷ m) id (_, fresh, w) (inr h) =
    ground (arith, eq_of_str_eq j id, Candidate-offers c m id w h)

Candidate-named :
    (c : ℕ) (m : Sources) (id : Bytes) → IsMap m → Candidate c m id → is_empty id ≡ false
Candidate-named c [] id w h = absurd h
Candidate-named c ((j, s) ∷ m) id (named, _, _) (inl (e, _)) =
    subst (λ x. is_empty x ≡ false) e named
Candidate-named c ((j, s) ∷ m) id (_, _, w) (inr h) = Candidate-named c m id w h

-- The loop returns what it started from, or a candidate.
least_from-Candidate :
    (c : ℕ) (selected : Bytes) (m : Sources)
    → (least_from c selected m ≡ selected) ⊎ Candidate c m (least_from c selected m)
unfolding least_from
least_from-Candidate c selected [] = inl refl
least_from-Candidate c selected ((j, s) ∷ m) =
    elim (Bool-cases (capable c s && (is_empty selected || str_lt j selected))) [
      | inl take ↦ rw take (elim (least_from-Candidate c j m) [
        | inl e ↦ inr (inl (sym e, ground arith))
        | inr later ↦ inr (inr later)
      ])
      | inr leave ↦
          rw leave (elim (least_from-Candidate c selected m) [
            | inl e ↦ inl e
            | inr later ↦ inr (inr later)
          ])
    ]

-- A name stands at or below another, or there is none yet to stand below.
abbrev pub AtMost : Bytes → Bytes → Type 0
AtMost a b = str_lt b a ≡ false

-- What it starts from, if that is a name, the result does not pass; and it is a name then.
least_from-selected :
    (c : ℕ) (selected : Bytes) (m : Sources)
    → IsMap m
    → is_empty selected ≡ false
    → (is_empty (least_from c selected m) ≡ false) × AtMost (least_from c selected m) selected
unfolding least_from
least_from-selected c selected [] w named = (named, str_lt_irrefl selected)
least_from-selected c selected ((j, s) ∷ m) (nj, _, w) named =
    elim (Bool-cases (capable c s && (is_empty selected || str_lt j selected))) [
      | inl take ↦ rw take (
          let (a, b) = least_from-selected c j m w nj in
          (
            a,
            str_le_trans (least_from c j m) j selected b (
                ground (arith, str_lt_irrefl selected, str_lt_trans j selected j, str_lt_irrefl j)),
          ))
      | inr leave ↦ rw leave (least_from-selected c selected m w named)
    ]

-- Nor does it pass any candidate.
least_from-least :
    (c : ℕ) (selected : Bytes) (m : Sources) (id : Bytes)
    → IsMap m
    → Candidate c m id
    → (is_empty (least_from c selected m) ≡ false) × AtMost (least_from c selected m) id
unfolding least_from
least_from-least c selected [] id w h = absurd h
least_from-least c selected ((j, s) ∷ m) id (nj, _, w) (inr h) =
    least_from-least c
      (if capable c s && (is_empty selected || str_lt j selected) then j else selected) m id w h
least_from-least c selected ((j, s) ∷ m) id (nj, _, w) (inl (e, able)) =
    subst
      (λ x.
        (is_empty (least_from c selected ((j, s) ∷ m)) ≡ false)
        × AtMost (least_from c selected ((j, s) ∷ m)) x)
      e
      (elim (Bool-cases (is_empty selected || str_lt j selected)) [
        | inl take ↦ rw (able, take) (least_from-selected c j m w nj)
        | inr leave ↦
            rw (able, leave)
              (let (a, b) = least_from-selected c selected m w (ground arith) in
                (a, str_le_trans (least_from c selected m) selected j b (ground arith)))
      ])

-- What the loop finds: no candidate and no name, or the least of the candidates.
least_cases :
    (c : ℕ) (m : Sources)
    → IsMap m
    → ((least_from c [] m ≡ []) × ((id : Bytes) → offers c m id ≡ false))
      ⊎ ((offers c m (least_from c [] m) ≡ true)
          × ((id : Bytes) → offers c m id ≡ true → AtMost (least_from c [] m) id))
least_cases c m w = elim (least_from-Candidate c [] m) [
  | inr found ↦ inr (
    Candidate-offers c m (least_from c [] m) w found,
    λ id h. (least_from-least c [] m id w (offers-Candidate c m id h)).1,
  )
  | inl e ↦ inl (
    e,
    λ id. elim (Bool-cases (offers c m id)) [
      | inr no_offer ↦ no_offer
      | inl offer ↦
          let (named, _) = least_from-least c [] m id w (offers-Candidate c m id offer) in
          absurd (ground (arith, named, e))
    ],
  )
]

-- While some source offers the group and the current one does not, the automatic choice offers it, and
-- no source that offers it has a lesser name.
pub choose_auto_source-least :
    (c : ℕ) (m : Sources) (current id : Bytes)
    → IsMap m
    → offers c m current ≡ false
    → offers c m id ≡ true
    → (offers c m (choose_auto_source current m c) ≡ true)
      × AtMost (choose_auto_source current m c) id
unfolding choose_auto_source
choose_auto_source-least c m current id w leaves h = rw leaves (elim (least_cases c m w) [
  | inl (e, empty) ↦ absurd (ground (arith, empty id))
  | inr (found, least) ↦ (found, least id h)
])

-- The least name does not depend on the order of the entries.
least_unique :
    (c : ℕ) (m n : Sources)
    → IsMap m
    → IsMap n
    → ((id : Bytes) → offers c m id ≡ offers c n id)
    → least_from c [] m ≡ least_from c [] n
least_unique c m n wm wn same = elim (least_cases c m wm) [
  | inl (e, empty) ↦ elim (least_cases c n wn) [
    | inl (e', _) ↦ e ∙ sym e'
    | inr (found, _) ↦ absurd (ground (arith, empty (least_from c [] n), same (least_from c [] n)))
  ]
  | inr (found, least) ↦ elim (least_cases c n wn) [
    | inl (_, empty) ↦ absurd (ground (arith, empty (least_from c [] m), same (least_from c [] m)))
    | inr (found', least') ↦
        str_lt_total (least_from c [] m) (least_from c [] n)
          (least' (least_from c [] m) (ground (arith, same (least_from c [] m))))
          (least (least_from c [] n) (ground (arith, same (least_from c [] n))))
  ]
]

-- The choice of a source depends on what the map holds, and not on the order in which a `range` meets
-- its entries.
pub resolve_source_order :
    (selection : SourceSelection) (current : Bytes) (m n : Sources) (c : ℕ)
    → IsMap m
    → IsMap n
    → ((id : Bytes) → lookup id m ≡ lookup id n)
    → resolve_source selection current m c ≡ resolve_source selection current n c
unfolding resolve_source choose_auto_source
resolve_source_order selection current m n c wm wn same = ground (
  arith,
  same current,
  same selection.plugin_id,
  least_unique c m n wm wn (λ id. ap (found_capable c) (same id)),
)

-- Resolving a choice again, with it as the current source, gives it again.
pub resolve_source_idem :
    (selection : SourceSelection) (current : Bytes) (m : Sources) (c : ℕ)
    → IsMap m
    → let r = resolve_source selection current m c in resolve_source selection r m c ≡ r
unfolding resolve_source choose_auto_source
resolve_source_idem selection current m c w = ground (arith, least_cases c m w)

-- The source that is resolved offers the group, or it is the empty name.
pub resolve_source-offers :
    (selection : SourceSelection) (current : Bytes) (m : Sources) (c : ℕ)
    → IsMap m
    → let r = resolve_source selection current m c in (r ≡ []) ⊎ (offers c m r ≡ true)
unfolding resolve_source choose_auto_source
resolve_source-offers selection current m c w = ground (arith, least_cases c m w)

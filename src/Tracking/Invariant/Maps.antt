-- ===== src/Tracking/Invariant/Maps.antt =====
-- The map of sources stays a map, and with no source nothing is selected.
use vrcft_go.Base.{
  ℕ, false, ◌≡◌, refl, subst, ◌∙◌, arith, inl, inr, Bool-cases, Bytes, [], ◌∷◌, none, is_empty,
  str_eq, eq_of_str_eq, str_eq_comm, lookup, insert, erase, lookup-insert_ne, lookup-erase_self,
  lookup-erase_ne,
}
use vrcft_go.Tracking.Routing.{
  SourceState, Sources, SourceSelection, resolve_source, choose_auto_source, least_from,
}
use vrcft_go.Tracking.Routing.Choice.{IsMap}

erase_fresh : (id j : Bytes) (m : Sources) → lookup j m ≡ none → lookup j (erase id m) ≡ none
erase_fresh id j m h = elim (Bool-cases (str_eq id j)) [
  | inl same ↦
      subst (λ x. lookup x (erase id m) ≡ none) (eq_of_str_eq id j same) (lookup-erase_self id m)
  | inr other ↦ lookup-erase_ne id j m other ∙ h
]

pub erase-IsMap : (id : Bytes) (m : Sources) → IsMap m → IsMap (erase id m)
unfolding erase
erase-IsMap id [] w = tt
erase-IsMap id ((j, s) ∷ m) (named, fresh, w) = elim (Bool-cases (str_eq j id)) [
  | inl same ↦ rw same (erase-IsMap id m w)
  | inr other ↦ rw other (named, erase_fresh id j m fresh, erase-IsMap id m w)
]

pub insert-IsMap :
    (id : Bytes) (s : SourceState) (m : Sources)
    → is_empty id ≡ false
    → IsMap m
    → IsMap (insert id s m)
unfolding insert lookup
insert-IsMap id s [] named w = (named, refl, tt)
insert-IsMap id s ((j, r) ∷ m) named (nj, fresh, w) = elim (Bool-cases (str_eq j id)) [
  | inl same ↦ rw same (named, subst (λ x. lookup x m ≡ none) (eq_of_str_eq j id same) fresh, w)
  | inr other ↦ rw other (
    nj,
    lookup-insert_ne id j s m (str_eq_comm id j ∙ other) ∙ fresh,
    insert-IsMap id s m named w,
  )
]

pub resolve_source_empty :
    (selection : SourceSelection) (c : ℕ) → resolve_source selection [] [] c ≡ []
unfolding resolve_source choose_auto_source least_from lookup
resolve_source_empty selection c = ground arith

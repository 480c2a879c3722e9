-- ===== src/Base/Assoc.antt =====
-- Go maps with string keys, as lists of entries in the order in which a `range` meets them.
use mathlib.Core.Path.{◌≡◌, refl, subst}
use mathlib.Core.Logic.{inl, inr}
use mathlib.Core.Bool.{false}
use mathlib.Core.Option.{Option, none, some}
use mathlib.Core.List.{List, [], ◌∷◌}
use native.Mathlib.Omega.{arith}
use vrcft_go.Base.Tests.{if◌then◌else◌, Bool-cases}
use vrcft_go.Base.Strings.{Bytes, str_eq, eq_of_str_eq, str_eq_refl}

module _ {ℓ} {V : Type ℓ} where
  unfoldable pub lookup : Bytes → List (Bytes × V) → Option V
  lookup k [] = none
  lookup k ((j, v) ∷ m) = if str_eq j k then some v else lookup k m

  -- `m[k] = v`: a new key may stand anywhere in the order.
  unfoldable pub insert : Bytes → V → List (Bytes × V) → List (Bytes × V)
  insert k v [] = (k, v) ∷ []
  insert k v ((j, w) ∷ m) = if str_eq j k then (k, v) ∷ m else (j, w) ∷ insert k v m

  -- `delete(m, k)`.
  unfoldable pub erase : Bytes → List (Bytes × V) → List (Bytes × V)
  erase k [] = []
  erase k ((j, w) ∷ m) = let rest = erase k m in if str_eq j k then rest else (j, w) ∷ rest

  pub lookup-insert_self :
      (k : Bytes) (v : V) (m : List (Bytes × V)) → lookup k (insert k v m) ≡ some v
  unfolding lookup insert
  lookup-insert_self k v [] = ground (arith, str_eq_refl k)
  lookup-insert_self k v ((i, w) ∷ m) = ground (arith, str_eq_refl k, lookup-insert_self k v m)

  pub lookup-insert_ne :
      (k j : Bytes) (v : V) (m : List (Bytes × V))
      → str_eq k j ≡ false
      → lookup j (insert k v m) ≡ lookup j m
  unfolding lookup insert
  lookup-insert_ne k j v [] h = ground arith
  lookup-insert_ne k j v ((i, w) ∷ m) h =
      ground (arith, eq_of_str_eq i k, lookup-insert_ne k j v m h)

  pub lookup-erase_self : (k : Bytes) (m : List (Bytes × V)) → lookup k (erase k m) ≡ none
  unfolding lookup erase
  lookup-erase_self k [] = refl
  lookup-erase_self k ((i, w) ∷ m) = ground (arith, lookup-erase_self k m)

  pub lookup-erase_ne :
      (k j : Bytes) (m : List (Bytes × V)) → str_eq k j ≡ false → lookup j (erase k m) ≡ lookup j m
  unfolding lookup erase
  lookup-erase_ne k j [] h = refl
  lookup-erase_ne k j ((i, w) ∷ m) h = ground (arith, eq_of_str_eq i k, lookup-erase_ne k j m h)

  -- Every entry of the list satisfies P.
  abbrev pub Entries {κ} : (Bytes → V → Type κ) → List (Bytes × V) → Type κ
  Entries P [] = Unit {κ}
  Entries P ((k, v) ∷ m) = P k v × Entries P m

module _ {ℓ} {V : Type ℓ} (P : Bytes → V → Type 0) where
  pub Entries-insert :
      (k : Bytes) (v : V) (m : List (Bytes × V)) → P k v → Entries P m → Entries P (insert k v m)
  unfolding insert
  Entries-insert k v [] p e = (p, tt)
  Entries-insert k v ((j, w) ∷ m) p (q, e) = elim (Bool-cases (str_eq j k)) [
    | inl same ↦ rw same (p, e)
    | inr other ↦ rw other (q, Entries-insert k v m p e)
  ]

  pub Entries-erase : (k : Bytes) (m : List (Bytes × V)) → Entries P m → Entries P (erase k m)
  unfolding erase
  Entries-erase k [] e = tt
  Entries-erase k ((j, w) ∷ m) (q, e) = elim (Bool-cases (str_eq j k)) [
    | inl same ↦ rw same (Entries-erase k m e)
    | inr other ↦ rw other (q, Entries-erase k m e)
  ]

  pub Entries-lookup :
      (k : Bytes) (v : V) (m : List (Bytes × V)) → Entries P m → lookup k m ≡ some v → P k v
  unfolding lookup
  Entries-lookup k v [] e h = absurd (cc)
  Entries-lookup k v ((j, w) ∷ m) (q, e) h = elim (Bool-cases (str_eq j k)) [
    | inl same ↦ subst (λ a. P a v) (eq_of_str_eq j k same) (subst (P j) (ground arith) q)
    | inr other ↦ Entries-lookup k v m e (ground arith)
  ]

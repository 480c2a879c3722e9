-- ===== src/Processing/Compiled.antt =====
-- internal/processing/config.go: what a configuration that compiles guarantees.
use vrcft_go.Base.{
  ℕ, zero, suc, ◌-◌, ◌≤◌, ◌≡◌, refl, sym, ap, subst, ◌∙◌, inl, inr, true, false, not, List, [], ◌∷◌,
  All, All-set, length, length-set, length-replicate, set, replicate, ltb, ◌==◌, Bool-cases, pos,
  leb_ℤ, ok, >>=_inv, ok_inj, guard_inv, fail_if_inv, arith,
}
use vrcft_go.Processing.Channel.{channel_count, known_channel}
use vrcft_go.Processing.Config.{
  Config, ChannelConfig, CompiledConfig, contains, compile_group, compile_groups, compile_overrides,
  compile_config, validate_channel_config,
}
use vrcft_go.Processing.Disjoint.{Apart, Disjoint}
use vrcft_go.Processing.Exclusion.{==_eq}

abbrev pub Channel : ℕ → Type 0
Channel id = (1 ≤ id) × (id ≤ channel_count)

-- None of `ids` has been seen.
unfoldable Unseen : List ℕ → List ℕ → Type 0
Unseen seen ids = (y : ℕ) → contains y ids ≡ true → contains y seen ≡ false

-- No channel stands twice in the group.
unfoldable pub Distinct : List ℕ → Type 0
Distinct [] = Unit {0}
Distinct (id ∷ ids) = (contains id ids ≡ false) × Distinct ids

-- A seen channel is none of the others.
Unseen-first : (id : ℕ) (seen ids : List ℕ) → Unseen (id ∷ seen) ids → contains id ids ≡ false
unfolding Unseen contains
Unseen-first id seen ids u = elim (Bool-cases (contains id ids)) [
  | inl c ↦ ground (arith, u id c)
  | inr c ↦ c
]

compile_group_inv :
    (seen ids after : List ℕ)
    → compile_group seen ids ≡ ok after
    → All Channel ids
      × Distinct ids
      × Unseen seen ids
      × ((y : ℕ) → contains y after ≡ false → (contains y seen ≡ false) × (contains y ids ≡ false))
unfolding compile_group contains known_channel Unseen Distinct
compile_group_inv seen [] after h = (
  tt,
  tt,
  λ y c. ground arith,
  λ y c. (subst (λ x. contains y x ≡ false) (sym (ok_inj _ _ h)) c, refl),
)
compile_group_inv seen (id ∷ ids) after h =
    let (known, h') = guard_inv (not (known_channel id)) _ _ _ h in
    let (new, k) = guard_inv (contains id seen) _ _ _ h' in
    let (channels, distinct, unseen, behind) = compile_group_inv (id ∷ seen) ids after k in
    (
      (ground arith, channels),
      (Unseen-first id seen ids unseen, distinct),
      λ y c. elim (Bool-cases (id == y)) [
        | inl same ↦ subst (λ z. contains z seen ≡ false) (==_eq id y same) new
        | inr other ↦ ground (arith, unseen y (ground arith))
      ],
      λ y c. let (s, i) = behind y c in (ground arith, ground arith),
    )

-- What is asked of the groups behind the channels seen.
unfoldable Groups : List ℕ → List (List ℕ) → Type 0
Groups seen gs =
    All (λ g. (2 ≤ length g) × All Channel g × Distinct g) gs × Disjoint gs × All (Unseen seen) gs

All-Unseen :
    (g after : List ℕ) (gs : List (List ℕ))
    → ((y : ℕ) → contains y after ≡ false → contains y g ≡ false)
    → All (Unseen after) gs
    → All (Apart g) gs
unfolding Unseen Apart
All-Unseen g after [] f a = tt
All-Unseen g after (h ∷ gs) f (u, a) = (
  λ y c. elim (Bool-cases (contains y h)) [ inl d ↦ ground (arith, f y (u y d)) | inr d ↦ d ],
  All-Unseen g after gs f a,
)

All-earlier :
    (seen after : List ℕ) (gs : List (List ℕ))
    → ((y : ℕ) → contains y after ≡ false → contains y seen ≡ false)
    → All (Unseen after) gs
    → All (Unseen seen) gs
unfolding Unseen
All-earlier seen after [] f a = tt
All-earlier seen after (h ∷ gs) f (u, a) = (λ y c. f y (u y c), All-earlier seen after gs f a)

compile_groups_inv :
    (seen : List ℕ) (gs compiled : List (List ℕ))
    → compile_groups seen gs ≡ ok compiled
    → (compiled ≡ gs) × Groups seen gs
unfolding compile_groups Groups Disjoint
compile_groups_inv seen [] compiled h = (sym (ok_inj _ _ h), (tt, tt, tt))
compile_groups_inv seen (g ∷ gs) compiled h =
    let (size, h') = guard_inv (ltb (length g) 2) _ _ _ h in
    let (after, e, k) = >>=_inv (compile_group seen g) _ _ h' in
    let (rest, e', k') = >>=_inv (compile_groups after gs) _ _ k in
    let (channels, distinct, unseen, behind) = compile_group_inv seen g after e in
    let (same, (sound, disjoint, later)) = compile_groups_inv after gs rest e' in
    (
      sym (ok_inj _ _ k') ∙ ap (λ x. g ∷ x) same,
      (
        ((ground arith, channels, distinct), sound),
        (All-Unseen g after gs (λ y c. (behind y c).1) later, disjoint),
        (unseen, All-earlier seen after gs (λ y c. (behind y c).0) later),
      ),
    )

abbrev pub Valid : ChannelConfig → Type 0
Valid c = validate_channel_config c ≡ ok tt

compile_overrides_inv :
    (channels : List ChannelConfig) (overrides : List (ℕ × ChannelConfig))
    (compiled : List ChannelConfig)
    → compile_overrides channels overrides ≡ ok compiled
    → All Valid channels
    → All Valid compiled × (length compiled ≡ length channels)
unfolding compile_overrides
compile_overrides_inv channels [] compiled h v =
    subst (λ x. All Valid x × (length x ≡ length channels)) (ok_inj _ _ h) (v, refl)
compile_overrides_inv channels ((id, c) ∷ overrides) compiled h v =
    let (known, h') = guard_inv (not (known_channel id)) _ _ _ h in
    let (u, valid, k) = >>=_inv (validate_channel_config c) _ _ h' in
    let (all, len) =
      compile_overrides_inv (set channels (id - 1) c) overrides compiled k
        (All-set Valid channels (id - 1) c v valid) in
    (all, len ∙ length-set channels (id - 1) c)

All-replicate : (n : ℕ) (c : ChannelConfig) → Valid c → All Valid (replicate n c)
All-replicate zero c v = tt
All-replicate (suc n) c v = (v, All-replicate n c v)

-- What a compiled configuration guarantees.
unfoldable pub Sound : CompiledConfig → Type 0
Sound c =
    (length c.channels ≡ channel_count)
    × All Valid c.channels
    × (leb_ℤ c.active_stale_after (pos 0) ≡ false)
    × All (λ g. (2 ≤ length g) × All Channel g × Distinct g) c.mutual_exclusion
    × Disjoint c.mutual_exclusion

-- A configuration that compiles has one valid configuration for each of the channels, a positive
-- stale time, and groups of at least two known channels, none of which stands twice in a group or in
-- two groups.
pub compile_config-Sound :
    (c : Config) (compiled : CompiledConfig) → compile_config c ≡ ok compiled → Sound compiled
unfolding compile_config Sound Groups
compile_config-Sound c compiled h =
    let (stale, h1) = fail_if_inv (leb_ℤ c.active_stale_after (pos 0)) _ _ _ h in
    let (u, valid, h2) = >>=_inv (validate_channel_config c.default_channel) _ _ h1 in
    let (channels, e, h3) =
      >>=_inv (compile_overrides (replicate channel_count c.default_channel) c.overrides) _ _ h2 in
    let (groups, e', h4) = >>=_inv (compile_groups [] c.mutual_exclusion) _ _ h3 in
    let (all, len) =
      compile_overrides_inv _ c.overrides channels e
        (All-replicate channel_count c.default_channel valid) in
    let (same, (sound, disjoint, _)) = compile_groups_inv [] c.mutual_exclusion groups e' in
    subst (λ x. Sound x) (ok_inj _ _ h4)
      (
        len ∙ length-replicate channel_count c.default_channel,
        all,
        stale,
        subst (All (λ g. (2 ≤ length g) × All Channel g × Distinct g)) (sym same) sound,
        subst Disjoint (sym same) disjoint,
      )

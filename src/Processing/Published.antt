-- ===== src/Processing/Published.antt =====
-- internal/processing/pipeline.go: what can be read of the frame that the pipeline gives out.
use vrcft_go.Base.{
  ℕ, zero, suc, ◌%◌, ◌^◌, zero-bit_and, ◌+◌, ◌-◌, ◌<◌, ◌≤◌, ◌≡◌, refl, sym, ap, ◌∙◌, inl, inr, Bool,
  true, false, ◌&&◌, List, [], ◌∷◌, ◌≢◌, All, get_or, length, length-set, leb, ◌==◌, if◌then◌else◌,
  Bool-cases, ℤ, arith,
}
use vrcft_go.Floats.{Float32, Arithmetic, zero32}
use vrcft_go.TrackingModel.Expressions.{
  ExpressionSet, empty_expressions, expression_count, expressions_get, expressions_set, mask_has,
}
use vrcft_go.TrackingModel.Masks.{IsFull, expressions_get-set}
use vrcft_go.Tracking.Merged.{MergedFrame}
use vrcft_go.Processing.Channel.{channel_count, eye_channel_count, expression_channel}
use vrcft_go.Processing.Mutual.{Candidate, no_candidate, candidate_at, project_mutual_exclusion}
use vrcft_go.Processing.Exclusion.{==_eq}
use vrcft_go.Processing.Config.{CompiledConfig, config_at, contains}
use vrcft_go.Processing.Dropout.{ChannelState, no_channel}
use vrcft_go.Processing.Silence.{dropout_value-seen}
use vrcft_go.Processing.Groups.{Member}
use vrcft_go.Processing.Disjoint.{project_mutual_exclusion_settles, project_mutual_exclusion_one}
use vrcft_go.Processing.Compiled.{Sound, Channel, Distinct}
use vrcft_go.Processing.Pipeline.{Pipeline}
use vrcft_go.Processing.Output.{canonical, canonical_expressions_of, candidates_from}

expressions_set-IsFull :
    (x : ExpressionSet) (id : ℕ) (v : Float32) → IsFull x → IsFull (expressions_set x id v).0
unfolding expressions_set
expressions_set-IsFull x id v full = elim (Bool-cases (leb expression_count id)) [
  | inl out ↦ rw out full
  | inr room ↦ rw room (length-set x.values id v ∙ full)
]

later : (id j : ℕ) → j < id → leb id j ≡ false
later id j k = ground arith

-- One round of the loop, at the channel of the expression.
put_expression : List Candidate → ℕ → ExpressionSet → ExpressionSet
put_expression cs id x =
    if (candidate_at cs (11 + id)).valid
    then (expressions_set x id (candidate_at cs (11 + id)).value).0
    else x

put_expression-IsFull :
    (cs : List Candidate) (id : ℕ) (x : ExpressionSet) → IsFull x → IsFull (put_expression cs id x)
unfolding put_expression
put_expression-IsFull cs id x full = elim (Bool-cases (candidate_at cs (11 + id)).valid) [
  | inl o ↦ rw o (expressions_set-IsFull x id (candidate_at cs (11 + id)).value full)
  | inr o ↦ rw o full
]

put_expression-get :
    (cs : List Candidate) (id : ℕ) (x : ExpressionSet) (j : ℕ)
    → IsFull x
    → id < expression_count
    → expressions_get (put_expression cs id x) j ≡ (
        if (id == j) && (candidate_at cs (11 + id)).valid
        then ((candidate_at cs (11 + id)).value, true)
        else expressions_get x j)
unfolding put_expression
put_expression-get cs id x j full k = elim (Bool-cases (candidate_at cs (11 + id)).valid) [
  | inl o ↦
      rw o (expressions_get-set x id j (candidate_at cs (11 + id)).value full k ∙ ground arith)
  | inr o ↦ rw o (ground arith)
]

channel_of : (id : ℕ) → id < expression_count → (expression_channel id).0 ≡ 11 + id
unfolding expression_channel
channel_of id k = ground arith

loop_round :
    (cs : List Candidate) (id rounds : ℕ) (x : ExpressionSet)
    → id < expression_count
    → canonical_expressions_of cs id (suc rounds) x
      ≡ canonical_expressions_of cs (suc id) rounds (put_expression cs id x)
unfolding canonical_expressions_of expression_channel put_expression
loop_round cs id rounds x k =
    ap
      (λ channel. canonical_expressions_of cs (suc id) rounds (
        if (candidate_at cs channel).valid
        then (expressions_set x id (candidate_at cs channel).value).0
        else x))
      (channel_of id k)

merge :
    (id j : ℕ) (vi vj : Bool) (ai aj r : Float32 × Bool)
    → (id ≡ j → vi ≡ vj)
    → (id ≡ j → ai ≡ aj)
    → (if leb (suc id) j && vj then aj else (if (id == j) && vi then ai else r))
      ≡ (if leb id j && vj then aj else r)
merge id j vi vj ai aj r v a = elim (Bool-cases (id == j)) [
  | inl same ↦ rw same (rw (v (==_eq id j same)) (rw (a (==_eq id j same)) (ground arith)))
  | inr other ↦ rw other (ground arith)
]

-- The set behind the loop has what the loop met, and what was there before.
loop-get :
    (cs : List Candidate) (id rounds : ℕ) (x : ExpressionSet) (j : ℕ)
    → id + rounds ≡ expression_count
    → IsFull x
    → j < expression_count
    → expressions_get (canonical_expressions_of cs id rounds x) j ≡ (
        if leb id j && (candidate_at cs (11 + j)).valid
        then ((candidate_at cs (11 + j)).value, true)
        else expressions_get x j)
unfolding canonical_expressions_of
loop-get cs id zero x j e full k = rw (later id j (omega arith)) refl
loop-get cs id (suc rounds) x j e full k =
    ap (λ s. expressions_get s j) (loop_round cs id rounds x (omega arith))
    ∙ loop-get cs (suc id) rounds (put_expression cs id x) j (omega arith)
        (put_expression-IsFull cs id x full) k
    ∙ (rw (put_expression-get cs id x j full (omega arith)) (
        merge id j (candidate_at cs (11 + id)).valid (candidate_at cs (11 + j)).valid
          ((candidate_at cs (11 + id)).value, true) ((candidate_at cs (11 + j)).value, true)
          (expressions_get x j) (λ same. ap (λ z. (candidate_at cs (11 + z)).valid) same)
          (λ same. ap (λ z. ((candidate_at cs (11 + z)).value, true)) same)))

length-candidates_from :
    (fl : Arithmetic) (c : CompiledConfig) (now : ℤ) (id : ℕ) (ss : List ChannelState)
    → length (candidates_from fl c now id ss) ≡ length ss
unfolding candidates_from
length-candidates_from fl c now id [] = refl
length-candidates_from fl c now id (s ∷ ss) = ap suc (length-candidates_from fl c now (suc id) ss)

candidates_from-valid :
    (fl : Arithmetic) (c : CompiledConfig) (now : ℤ) (id : ℕ) (ss : List ChannelState) (j : ℕ)
    → (get_or (candidates_from fl c now id ss) j no_candidate).valid ≡ (get_or ss j no_channel).seen
unfolding candidates_from
candidates_from-valid fl c now id [] j = refl
candidates_from-valid fl c now id (s ∷ ss) zero =
    dropout_value-seen fl s (config_at c id).dropout now
candidates_from-valid fl c now id (s ∷ ss) (suc j) = candidates_from-valid fl c now (suc id) ss j

All-Channel-Member :
    (cs : List Candidate) (ids : List ℕ)
    → length cs ≡ channel_count
    → All Channel ids
    → All (Member cs) ids
All-Channel-Member cs [] e a = tt
All-Channel-Member cs (id ∷ ids) e (m, a) = ((m.0, omega arith), All-Channel-Member cs ids e a)

groups-Member :
    (cs : List Candidate) (gs : List (List ℕ))
    → length cs ≡ channel_count
    → All (λ g. (2 ≤ length g) × All Channel g × Distinct g) gs
    → All (All (Member cs)) gs
groups-Member cs [] e a = tt
groups-Member cs (g ∷ gs) e ((_, channels, _), a) =
    (All-Channel-Member cs g e channels, groups-Member cs gs e a)

empty_get : (id : ℕ) → expressions_get empty_expressions id ≡ (zero32, false)
unfolding expressions_get mask_has
empty_get id = ground (arith, zero-bit_and (2 ^ (id % 64)))

second :
    (b : Bool) (v w : Float32) → (if◌then◌else◌ {A = Float32 × Bool} b (v, true) (w, false)).1 ≡ b
second true v w = refl
second false v w = refl

place : (id : ℕ) → 11 + id - 1 ≡ 10 + id
place id = omega arith

minus_base : (x y : ℕ) → 11 + x ≡ 11 + y → x ≡ y
minus_base x y e = omega arith

chosen :
    (b : Bool) (u v : Float32)
    → (if◌then◌else◌ {A = Float32 × Bool} b (u, true) (zero32, false)) ≡ (v, true)
    → (b ≡ true) × (u ≡ v)
chosen true u v h = (refl, ap (λ x. x.0) h)
chosen false u v h = ground arith

module _ (fl : Arithmetic) where
  -- The candidates behind the projection of the groups.
  abbrev projected : Pipeline → ℤ → List Candidate
  projected p now =
      project_mutual_exclusion (candidates_from fl p.config now 1 p.channels)
        p.config.mutual_exclusion

  canonical-expressions :
      (p : Pipeline) (m : MergedFrame) (now : ℤ) (id : ℕ)
      → id < expression_count
      → expressions_get (canonical fl p m now).expressions id ≡ (
          if (candidate_at (projected p now) (11 + id)).valid
          then ((candidate_at (projected p now) (11 + id)).value, true)
          else (zero32, false))
  unfolding canonical
  canonical-expressions p m now id k =
      loop-get (projected p now) 0 expression_count empty_expressions id refl refl k
      ∙ rw (empty_get id) (ground arith)

  -- With a sound configuration, an expression is valid in the frame that is given out exactly when its
  -- channel has been seen.
  pub canonical-seen :
      (p : Pipeline) (m : MergedFrame) (now : ℤ) (id : ℕ)
      → Sound p.config
      → length p.channels ≡ channel_count
      → id < expression_count
      → (expressions_get (canonical fl p m now).expressions id).1
        ≡ (get_or p.channels (eye_channel_count + id) no_channel).seen
  unfolding Sound
  canonical-seen p m now id (_, _, _, groups, disjoint) len k =
      let cs = candidates_from fl p.config now 1 p.channels in
      let len' = length-candidates_from fl p.config now 1 p.channels ∙ len in
      let same =
        (project_mutual_exclusion_settles cs p.config.mutual_exclusion
          (groups-Member cs _ len' groups) disjoint).1 in
      ap (λ x. x.1) (canonical-expressions p m now id k)
      ∙ second _ _ _
      ∙ same (11 + id) (omega arith)
      ∙ ap (λ j. (get_or cs j no_candidate).valid) (place id)
      ∙ candidates_from-valid fl p.config now 1 p.channels (10 + id)

  -- With a sound configuration, two expressions whose channels stand in one group, and which are both
  -- valid and not 0 in the frame that is given out, are one expression.
  pub canonical_excludes :
      (p : Pipeline) (m : MergedFrame) (now : ℤ) (i x y : ℕ) (v w : Float32)
      → Sound p.config
      → length p.channels ≡ channel_count
      → x < expression_count
      → y < expression_count
      → contains (11 + x) (get_or p.config.mutual_exclusion i []) ≡ true
      → contains (11 + y) (get_or p.config.mutual_exclusion i []) ≡ true
      → expressions_get (canonical fl p m now).expressions x ≡ (v, true)
      → expressions_get (canonical fl p m now).expressions y ≡ (w, true)
      → v ≢ zero32
      → w ≢ zero32
      → x ≡ y
  unfolding Sound
  canonical_excludes p m now i x y v w (_, _, _, groups, disjoint) len kx ky cx cy gx gy nv nw =
      let cs = candidates_from fl p.config now 1 p.channels in
      let len' = length-candidates_from fl p.config now 1 p.channels ∙ len in
      let (ox, ex) = chosen _ _ v (sym (canonical-expressions p m now x kx) ∙ gx) in
      let (oy, ey) = chosen _ _ w (sym (canonical-expressions p m now y ky) ∙ gy) in
      minus_base x y (
        project_mutual_exclusion_one cs p.config.mutual_exclusion i (11 + x) (11 + y)
          (groups-Member cs _ len' groups) disjoint cx cy ox oy (λ z. nv (sym ex ∙ z))
          (λ z. nw (sym ey ∙ z)))

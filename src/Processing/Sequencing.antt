-- ===== src/Processing/Sequencing.antt =====
-- internal/processing/pipeline.go: which inputs the pipeline takes, and what it leaves of the others.
use vrcft_go.Base.{
  ◌<◌, ◌≡◌, refl, sym, subst, ◌↔◌, ◌⊎◌, inl, inr, Bool, true, false, Bool-cases, ℤ, ◌≤ℤ◌, ◌<ℤ◌,
  max_uint64, Result, ok, err, Result-cases, >>=_inv, ok_inj, arith,
}
use vrcft_go.Floats.{Arithmetic}
use vrcft_go.Tracking.Merged.{MergedFrame, merged_content_equal}
use vrcft_go.Processing.Config.{ProcessingError}
use vrcft_go.Processing.Pipeline.{
  Pipeline, classify_input, merged_eq, saturated_freshness_nonregressing,
}
use vrcft_go.Processing.Validation.{validate_merged_input}
use vrcft_go.Processing.Output.{CanonicalFrame, canonical}
use vrcft_go.Processing.Step.{process_copy, process_at, advance, commit, ingest}

-- The ways in which an input may stand behind the last one.
unfoldable pub Follows : Pipeline → MergedFrame → ℤ → Type 0
Follows p m now =
    ((p.last_input.generation < m.generation) × (p.last_now_ns <ℤ now))
    ⊎ (((p.last_input.generation ≡ m.generation)
          × (p.last_input.sequence < m.sequence)
          × (p.last_now_ns <ℤ now))
        ⊎ (((p.last_input.generation ≡ m.generation)
              × (p.last_input.sequence ≡ m.sequence)
              × (m.sequence ≡ max_uint64)
              × (saturated_freshness_nonregressing p.last_input m ≡ true)
              × (p.last_now_ns <ℤ now))
            ⊎ ((merged_eq m p.last_input ≡ true) × (p.last_now_ns ≤ℤ now))))

pub merged_eq_inv :
    (a b : MergedFrame)
    → merged_eq a b ≡ true
    → (a.generation ≡ b.generation) × (a.sequence ≡ b.sequence)
unfolding merged_eq merged_content_equal
merged_eq_inv a b h = ground arith

classify_input-Follows :
    (p : Pipeline) (m : MergedFrame) (now : ℤ) (r : Bool × Bool)
    → p.has_last ≡ true
    → classify_input p m now ≡ ok r
    → Follows p m now
unfolding classify_input Follows
classify_input-Follows p m now r has h = elim (Bool-cases (merged_eq m p.last_input)) [
  | inl e ↦ ground (arith, merged_eq_inv m p.last_input e)
  | inr e ↦ ground arith
]

Follows-not_refused :
    (p : Pipeline) (m : MergedFrame) (now : ℤ) (e : ProcessingError)
    → p.has_last ≡ true
    → Follows p m now
    → classify_input p m now ≡ err e
    → ⊥
unfolding classify_input Follows
Follows-not_refused p m now e has f h = ground (arith, merged_eq_inv m p.last_input)

-- A pipeline that has seen a frame classifies an input exactly when the input is of a later
-- generation or revision and a later time, is a saturated revision without a loss of freshness at a
-- later time, or repeats the last frame at no earlier time.
pub classify_input_accepts_iff :
    (p : Pipeline) (m : MergedFrame) (now : ℤ)
    → p.has_last ≡ true
    → ((r : Bool × Bool) × (classify_input p m now ≡ ok r)) ↔ Follows p m now
classify_input_accepts_iff p m now has = (
  λ (r, h). classify_input-Follows p m now r has h,
  λ f. elim (Result-cases (classify_input p m now)) [
    | inl accepted ↦ accepted
    | inr (e, h) ↦ absurd (Follows-not_refused p m now e has f h)
  ],
)

-- What a call leaves behind, by its result.
unfoldable pub Outcome :
    Pipeline → MergedFrame → ℤ → Pipeline × Result ProcessingError CanonicalFrame → Type 0
Outcome p m now (q, err e) = q ≡ p
Outcome p m now (q, ok f) =
    ((p.has_last ≡ false) ⊎ Follows p m now)
    × (validate_merged_input m now ≡ ok tt)
    × (q.has_last ≡ true)
    × (q.config ≡ p.config)
    × (q.last_now_ns ≡ now)
    × (f.generation ≡ m.generation)
    × (f.revision ≡ m.sequence)
    × (f.processed_at_ns ≡ now)
    × ((q.last_input ≡ m)
        ⊎ ((merged_eq m p.last_input ≡ true)
            × (q.last_input ≡ p.last_input)
            × (q.channels ≡ p.channels)))

-- Only a repeated frame is no new input.
classify_input-repeats :
    (p : Pipeline) (m : MergedFrame) (now : ℤ) (b : Bool)
    → classify_input p m now ≡ ok (false, b)
    → (p.has_last ≡ true) × (merged_eq m p.last_input ≡ true)
unfolding classify_input
classify_input-repeats p m now b h = (ground arith, ground arith)

first_or_Follows :
    (p : Pipeline) (m : MergedFrame) (now : ℤ) (r : Bool × Bool)
    → classify_input p m now ≡ ok r
    → (p.has_last ≡ false) ⊎ Follows p m now
first_or_Follows p m now r c = elim (Bool-cases p.has_last) [
  | inl has ↦ inr (classify_input-Follows p m now r has c)
  | inr first ↦ inl first
]

module _ (fl : Arithmetic) where
  advance-Outcome :
      (p : Pipeline) (m : MergedFrame) (now : ℤ) (input : Bool × Bool) (q : Pipeline)
      (f : CanonicalFrame)
      → validate_merged_input m now ≡ ok tt
      → classify_input p m now ≡ ok input
      → advance fl p m now input ≡ ok (q, f)
      → Outcome p m now (q, ok f)
  unfolding advance Outcome canonical
  advance-Outcome p m now (false, reset) q f v c h =
      let (has, e) = classify_input-repeats p m now reset c in
      subst (λ x. Outcome p m now (x.0, ok x.1)) (ok_inj _ _ h)
        (
          inr (classify_input-Follows p m now (false, reset) has c),
          v,
          has,
          refl,
          refl,
          refl,
          refl,
          refl,
          inr (e, refl, refl),
        )
  advance-Outcome p m now (true, reset) q f v c h =
      let (channels, i, e) = >>=_inv (ingest fl p reset m) _ _ h in
      subst (λ x. Outcome p m now (x.0, ok x.1)) (ok_inj _ _ e)
        (first_or_Follows p m now (true, reset) c, v, refl, refl, refl, refl, refl, refl, inl refl)

  -- An input that is refused leaves the pipeline unchanged. One that is accepted is well-formed,
  -- stands behind the last one, keeps the configuration, sets the processing time, gives a frame of
  -- its own generation, revision and time, and becomes the last input unless it repeats it.
  pub process_at-Outcome :
      (p : Pipeline) (m : MergedFrame) (now : ℤ) → Outcome p m now (process_at fl p m now)
  unfolding process_at process_copy commit Outcome
  process_at-Outcome p m now = elim (Result-cases (process_copy fl p m now)) [
    | inr (e, h) ↦ subst (λ r. Outcome p m now (commit fl p r)) (sym h) refl
    | inl ((q, f), h) ↦
        let (u, v, i) = >>=_inv (validate_merged_input m now) _ _ h in
        let (input, c, j) = >>=_inv (classify_input p m now) _ _ i in
        subst (λ r. Outcome p m now (commit fl p r)) (sym h)
          (advance-Outcome p m now input q f v c j)
  ]

-- ===== src/Processing/Runs.antt =====
-- internal/processing/pipeline.go: repeated inputs, and what a series of calls gives out.
use vrcft_go.Base.{
  ℕ, ◌<◌, ◌≤◌, ◌≡◌, refl, sym, ap, subst, ◌∙◌, ◌⊎◌, inl, inr, true_not_false, Bool, true, false,
  List, [], ◌∷◌, ℤ, ◌≤ℤ◌, Result, ok, err, ◌>>=◌, ◌>>◌, >>=_inv, ok_inj, arith,
}
use vrcft_go.Floats.{Arithmetic}
use vrcft_go.Tracking.Merged.{MergedFrame}
use vrcft_go.Processing.Config.{ProcessingError}
use vrcft_go.Processing.Pipeline.{Pipeline, classify_input, merged_eq}
use vrcft_go.Processing.Validation.{validate_merged_input}
use vrcft_go.Processing.Output.{CanonicalFrame, canonical}
use vrcft_go.Processing.Step.{process_copy, process_at, advance, commit, ingest}
use vrcft_go.Processing.Sequencing.{Outcome, Follows, merged_eq_inv, process_at-Outcome}

-- The last frame again, at the time at which it was processed.
classify_input-repeat :
    (q : Pipeline) (m : MergedFrame)
    → q.has_last ≡ true
    → merged_eq m q.last_input ≡ true
    → classify_input q m q.last_now_ns ≡ ok (false, false)
unfolding classify_input
classify_input-repeat q m has e = ground (arith, merged_eq_inv m q.last_input e)

module _ (fl : Arithmetic) where
  commit-ok :
      (p : Pipeline) (r : Result ProcessingError (Pipeline × CanonicalFrame)) (q : Pipeline)
      (f : CanonicalFrame)
      → commit fl p r ≡ (q, ok f)
      → r ≡ ok (q, f)
  unfolding commit
  commit-ok p (ok (next, frame)) q f h =
      λ i. ok ((ap (λ x. x.0) h) i, (ok_inj frame f (ap (λ x. x.1) h)) i)
  commit-ok p (err e) q f h = ground arith

  -- The frame that is given out is the one that the pipeline left behind gives for its input.
  advance-canonical :
      (p : Pipeline) (m : MergedFrame) (now : ℤ) (input : Bool × Bool) (q : Pipeline)
      (f : CanonicalFrame)
      → advance fl p m now input ≡ ok (q, f)
      → f ≡ canonical fl q m now
  unfolding advance
  advance-canonical p m now (false, reset) q f h =
      subst (λ x. x.1 ≡ canonical fl x.0 m now) (ok_inj _ _ h) refl
  advance-canonical p m now (true, reset) q f h =
      let (channels, i, e) = >>=_inv (ingest fl p reset m) _ _ h in
      subst (λ x. x.1 ≡ canonical fl x.0 m now) (ok_inj _ _ e) refl

  process_at-canonical :
      (p : Pipeline) (m : MergedFrame) (now : ℤ) (q : Pipeline) (f : CanonicalFrame)
      → process_at fl p m now ≡ (q, ok f)
      → f ≡ canonical fl q m now
  unfolding process_at process_copy
  process_at-canonical p m now q f h =
      let (u, v, i) = >>=_inv (validate_merged_input m now) _ _ (commit-ok p _ q f h) in
      let (input, c, j) = >>=_inv (classify_input p m now) _ _ i in
      advance-canonical p m now input q f j

  accepted-Outcome :
      (p : Pipeline) (m : MergedFrame) (now : ℤ) (q : Pipeline) (f : CanonicalFrame)
      → process_at fl p m now ≡ (q, ok f)
      → Outcome p m now (q, ok f)
  accepted-Outcome p m now q f h = subst (Outcome p m now) h (process_at-Outcome fl p m now)

  repeats_last :
      (p : Pipeline) (m : MergedFrame) (now : ℤ) (q : Pipeline) (f : CanonicalFrame)
      → merged_eq m m ≡ true
      → Outcome p m now (q, ok f)
      → merged_eq m q.last_input ≡ true
  unfolding Outcome
  repeats_last p m now q f self (_, _, _, _, _, _, _, _, inl e) =
      subst (λ x. merged_eq m x ≡ true) (sym e) self
  repeats_last p m now q f self (_, _, _, _, _, _, _, _, inr (e, l, _)) =
      subst (λ x. merged_eq m x ≡ true) (sym l) e

  repeat_from :
      (q : Pipeline) (m : MergedFrame)
      → validate_merged_input m q.last_now_ns ≡ ok tt
      → q.has_last ≡ true
      → merged_eq m q.last_input ≡ true
      → process_at fl q m q.last_now_ns ≡ (q, ok (canonical fl q m q.last_now_ns))
  unfolding process_at process_copy commit advance
  repeat_from q m v has e =
      ap
        (λ r.
          commit fl q (
            r
            >> (classify_input q m q.last_now_ns >>= λ input. advance fl q m q.last_now_ns input)))
        v
      ∙ ap (λ r. commit fl q (r >>= λ input. advance fl q m q.last_now_ns input))
          (classify_input-repeat q m has e)

  -- A call that is accepted, made again at the same time, gives the same frame and changes nothing,
  -- when the input equals itself (a NaN would not).
  pub process_at_repeat :
      (p : Pipeline) (m : MergedFrame) (now : ℤ) (q : Pipeline) (f : CanonicalFrame)
      → merged_eq m m ≡ true
      → process_at fl p m now ≡ (q, ok f)
      → process_at fl q m now ≡ (q, ok f)
  unfolding Outcome
  process_at_repeat p m now q f self h =
      let o = accepted-Outcome p m now q f h in
      let (_, v, has, _, t, _, _, _, _) = o in
      subst (λ n. process_at fl q m n ≡ (q, ok (canonical fl q m n))) t
        (repeat_from q m (subst (λ n. validate_merged_input m n ≡ ok tt) (sym t) v) has
          (repeats_last p m now q f self o))
      ∙ ap (λ x. (q, ok x)) (sym (process_at-canonical p m now q f h))

-- A refused call gives no frame.
unfoldable pub emit :
    Result ProcessingError CanonicalFrame → List CanonicalFrame → List CanonicalFrame
emit (err _) rest = rest
emit (ok f) rest = f ∷ rest

module _ (fl : Arithmetic) where
  -- The frames that a series of calls gives out.
  unfoldable pub outputs : Pipeline → List (MergedFrame × ℤ) → List CanonicalFrame
  outputs p [] = []
  outputs p ((m, now) ∷ inputs) = let (q, r) = process_at fl p m now in emit r (outputs q inputs)

-- Generation and revision in lexicographic order, and the time.
unfoldable pub NotBefore : ℕ → ℕ → ℤ → CanonicalFrame → Type 0
NotBefore generation revision at f =
    ((generation < f.generation) ⊎ ((generation ≡ f.generation) × (revision ≤ f.revision)))
    × (at ≤ℤ f.processed_at_ns)

unfoldable pub Ordered : ℕ → ℕ → ℤ → List CanonicalFrame → Type 0
Ordered generation revision at [] = Unit {0}
Ordered generation revision at (f ∷ fs) =
    NotBefore generation revision at f × Ordered f.generation f.revision f.processed_at_ns fs

Ordered-subst :
    (fs : List CanonicalFrame) {g g' r r' : ℕ} {t t' : ℤ}
    → g ≡ g'
    → r ≡ r'
    → t ≡ t'
    → Ordered g r t fs
    → Ordered g' r' t' fs
Ordered-subst fs {g} {g'} {r} {r'} {t} {t'} e d c h =
    subst (λ x. Ordered g' r' x fs) c
      (subst (λ x. Ordered g' x t fs) d (subst (λ x. Ordered x r t fs) e h))

stays_seen :
    (p : Pipeline) (m : MergedFrame) (now : ℤ)
    (x : Pipeline × Result ProcessingError CanonicalFrame)
    → Outcome p m now x
    → p.has_last ≡ true
    → x.0.has_last ≡ true
unfolding Outcome
stays_seen p m now (q, err e) o has = ap (λ r. r.has_last) o ∙ has
stays_seen p m now (q, ok f) (_, _, seen, _, _, _, _, _, _) has = seen

accepted-NotBefore :
    (p : Pipeline) (m : MergedFrame) (now : ℤ) (f : CanonicalFrame)
    → Follows p m now
    → f.generation ≡ m.generation
    → f.revision ≡ m.sequence
    → f.processed_at_ns ≡ now
    → NotBefore p.last_input.generation p.last_input.sequence p.last_now_ns f
unfolding Follows NotBefore
accepted-NotBefore p m now f w g r t = rw t (ground (arith, merged_eq_inv m p.last_input))

-- The pipeline's last input stands where the accepted one does.
same_place :
    (p : Pipeline) (m : MergedFrame) (q : Pipeline)
    → (q.last_input ≡ m)
      ⊎ ((merged_eq m p.last_input ≡ true)
          × (q.last_input ≡ p.last_input)
          × (q.channels ≡ p.channels))
    → (q.last_input.generation ≡ m.generation) × (q.last_input.sequence ≡ m.sequence)
same_place p m q (inl e) = (ap (λ x. x.generation) e, ap (λ x. x.sequence) e)
same_place p m q (inr (e, l, _)) =
    let (g, s) = merged_eq_inv m p.last_input e in
    (ap (λ x. x.generation) l ∙ sym g, ap (λ x. x.sequence) l ∙ sym s)

behind_last :
    (p : Pipeline) (m : MergedFrame) (now : ℤ)
    → p.has_last ≡ true
    → (p.has_last ≡ false) ⊎ Follows p m now
    → Follows p m now
behind_last p m now has (inl first) = absurd (true_not_false (sym has ∙ first))
behind_last p m now has (inr f) = f

emit-Ordered :
    (p : Pipeline) (m : MergedFrame) (now : ℤ)
    (x : Pipeline × Result ProcessingError CanonicalFrame) (rest : List CanonicalFrame)
    → Outcome p m now x
    → p.has_last ≡ true
    → Ordered x.0.last_input.generation x.0.last_input.sequence x.0.last_now_ns rest
    → Ordered p.last_input.generation p.last_input.sequence p.last_now_ns (emit x.1 rest)
unfolding Outcome emit Ordered
emit-Ordered p m now (q, err e) rest o has h =
    subst (λ r. Ordered r.last_input.generation r.last_input.sequence r.last_now_ns rest) o h
emit-Ordered p m now (q, ok f) rest (w, v, seen, c, t, g, r, at, l) has h = (
  accepted-NotBefore p m now f (behind_last p m now has w) g r at,
  Ordered-subst rest ((same_place p m q l).0 ∙ sym g) ((same_place p m q l).1 ∙ sym r) (t ∙ sym at)
      h,
)

module _ (fl : Arithmetic) where
  -- Behind a pipeline that has seen a frame, whatever is called, the frames given out rise: each has
  -- the generation of the one before or a later one, within a generation the revision does not fall,
  -- and the processing time does not fall.
  pub outputs-Ordered :
      (p : Pipeline) (inputs : List (MergedFrame × ℤ))
      → p.has_last ≡ true
      → Ordered p.last_input.generation p.last_input.sequence p.last_now_ns (outputs fl p inputs)
  unfolding outputs Ordered
  outputs-Ordered p [] has = tt
  outputs-Ordered p ((m, now) ∷ inputs) has =
      let o = process_at-Outcome fl p m now in
      emit-Ordered p m now (process_at fl p m now) (outputs fl (process_at fl p m now).0 inputs) o
        has
        (outputs-Ordered (process_at fl p m now).0 inputs
          (stays_seen p m now (process_at fl p m now) o has))

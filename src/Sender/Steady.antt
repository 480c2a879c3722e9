-- ===== src/Sender/Steady.antt =====
-- internal/osc/sender.go: what is stored as sent last by a call of Send, message by message.
use vrcft_go.Base.{
  ℕ, suc, ◌+◌, ◌≤◌, ◌<◌, ◌≡◌, ◌≢◌, refl, sym, ap, subst, ◌∙◌, Bool, true, false, List, [], ◌∷◌,
  Option, none, some, All, length, length-set, get_or, get_or-set_self, get_or-set_ne, ok, Bytes,
  arith, Bool-cases, Option-cases, Result-cases, inl, inr, ◌⊎◌,
}
use vrcft_go.Floats.{Arithmetic}
use vrcft_go.Sender.Scalar.{ScalarValue, scalar_equal}
use vrcft_go.Sender.Builder.{append_scalar_message}
use vrcft_go.Sender.Outputs.{OutputBinding, ValueSource, Conversions, evaluate_output}
use vrcft_go.Sender.Send.{
  SenderConfig, CachedScalar, Progress, Outcome, no_scalar, transmit, send_message,
  standalone_output, send_standalone, changed, commit,
}

-- The two lists have the same entry there.
abbrev pub Same : ℕ → List CachedScalar → List CachedScalar → Type 0
Same k xs ys = get_or xs k no_scalar ≡ get_or ys k no_scalar

pub commit-Same :
    (i k : ℕ) (v : ScalarValue) (last : List CachedScalar) → i ≢ k → Same k last (commit i v last)
unfolding commit
commit-Same i k v last ne =
    sym (get_or-set_ne last i k (record { value = v; valid = true }) no_scalar ne)

pub length-commit :
    (i : ℕ) (v : ScalarValue) (last : List CachedScalar) → length (commit i v last) ≡ length last
unfolding commit
length-commit i v last = length-set last i (record { value = v; valid = true })

module _ (fl : Arithmetic) (cv : Conversions) (accepts : ℕ → Bytes → Bool) (config : SenderConfig)
    (source : ValueSource) where
  -- The output has no value, or the one that was sent last.
  abbrev pub Quiet : OutputBinding → ℕ → List CachedScalar → Type 0
  Quiet output index last =
      (evaluate_output fl cv output source ≡ ok none)
      ⊎ ((v : ScalarValue) × (evaluate_output fl cv output source ≡ ok (some v))
          × (changed fl cv accepts config source last index v ≡ false))

  abbrev pub AllQuiet : List OutputBinding → ℕ → List CachedScalar → Type 0
  AllQuiet [] index last = Unit
  AllQuiet (output ∷ outputs) index last =
      Quiet output index last × AllQuiet outputs (suc index) last

  -- The output's value differs from itself by no more than the epsilon.
  abbrev pub Steady : OutputBinding → Type 0
  Steady output =
      (v : ScalarValue)
      → evaluate_output fl cv output source ≡ ok (some v)
      → scalar_equal fl v v config.float_epsilon ≡ true

  changed-Same :
      (k : ℕ) (v : ScalarValue) (xs ys : List CachedScalar)
      → Same k xs ys
      → changed fl cv accepts config source xs k v ≡ changed fl cv accepts config source ys k v
  unfolding changed
  changed-Same k v xs ys e = rw e refl

  pub Quiet-Same :
      (output : OutputBinding) (k : ℕ) (xs ys : List CachedScalar)
      → Same k xs ys
      → Quiet output k xs
      → Quiet output k ys
  Quiet-Same output k xs ys e (inl h) = inl h
  Quiet-Same output k xs ys e (inr (v, h, c)) = inr (v, h, sym (changed-Same k v xs ys e) ∙ c)

  pub commit-Quiet :
      (output : OutputBinding) (k : ℕ) (v : ScalarValue) (last : List CachedScalar)
      → k < length last
      → Steady output
      → evaluate_output fl cv output source ≡ ok (some v)
      → Quiet output k (commit k v last)
  unfolding changed commit
  commit-Quiet output k v last room steady h =
      let stored = get_or-set_self last k (record { value = v; valid = true }) no_scalar room in
      inr (v, h, rw (stored, steady v h) refl)

  -- One output has come to be quiet, and no other entry has changed.
  abbrev pub Stepped : OutputBinding → ℕ → List CachedScalar → List CachedScalar → Type 0
  Stepped output index xs ys =
      Quiet output index ys × ((k : ℕ) → index ≢ k → Same k xs ys) × (length ys ≡ length xs)

  pub commit-Stepped :
      (output : OutputBinding) (index : ℕ) (v : ScalarValue) (last : List CachedScalar)
      → index < length last
      → Steady output
      → evaluate_output fl cv output source ≡ ok (some v)
      → Stepped output index last (commit index v last)
  commit-Stepped output index v last room steady h = (
    commit-Quiet output index v last room steady h,
    λ k ne. commit-Same index k v last ne,
    length-commit index v last,
  )

  pub send_message_last :
      (output : OutputBinding) (index : ℕ) (v : ScalarValue) (p : Progress)
      → (send_message fl cv accepts config source output index v p).1 ≡ none
      → (send_message fl cv accepts config source output index v p).0.last ≡ commit index v p.last
  unfolding send_message
  send_message_last output index v p =
      elim (Result-cases (append_scalar_message [] output.address v)) [
        | inr (e, bad) ↦ rw (bad, send_message) (λ h. ground arith)
        | inl (packet, good) ↦
            rw (good, send_message)
              (elim (Bool-cases (transmit fl cv accepts config source packet p.wire).1) [
                | inl taken ↦ rw taken (λ h. refl)
                | inr lost ↦ rw lost (λ h. ground arith)
              ])
      ]

  standalone_output_unchanged :
      (output : OutputBinding) (index : ℕ) (p : Progress)
      → Quiet output index p.last
      → standalone_output fl cv accepts config source output index p ≡ (p, none)
  unfolding standalone_output
  standalone_output_unchanged output index p (inl h) = rw (h, standalone_output) refl
  standalone_output_unchanged output index p (inr (v, h, old)) =
      rw (h, standalone_output) (rw old refl)

  standalone_output_new :
      (output : OutputBinding) (index : ℕ) (p : Progress) (v : ScalarValue)
      → evaluate_output fl cv output source ≡ ok (some v)
      → changed fl cv accepts config source p.last index v ≡ true
      → standalone_output fl cv accepts config source output index p
        ≡ send_message fl cv accepts config source output index v p
  unfolding standalone_output
  standalone_output_new output index p v h new = rw (h, standalone_output) (rw new refl)

  standalone_output-succeeds :
      (output : OutputBinding) (index : ℕ) (p : Progress)
      → (standalone_output fl cv accepts config source output index p).1 ≡ none
      → (o : Option ScalarValue) × (evaluate_output fl cv output source ≡ ok o)
  unfolding standalone_output
  standalone_output-succeeds output index p =
      elim (Result-cases (evaluate_output fl cv output source)) [
        | inr (e, bad) ↦ rw (bad, standalone_output) (λ h. ground arith)
        | inl (o, good) ↦ λ h. (o, good)
      ]

  unchanged-Stepped :
      (output : OutputBinding) (index : ℕ) (last : List CachedScalar)
      → Quiet output index last
      → Stepped output index last last
  unchanged-Stepped output index last q = (q, λ k ne. refl, refl)

  standalone_found-Stepped :
      (output : OutputBinding) (index : ℕ) (p : Progress)
      → index < length p.last
      → Steady output
      → (standalone_output fl cv accepts config source output index p).1 ≡ none
      → (found : Option ScalarValue) → evaluate_output fl cv output source ≡ ok found
      → Stepped output index p.last
          (standalone_output fl cv accepts config source output index p).0.last
  standalone_found-Stepped output index p room steady h none good =
      subst (λ (r : Outcome). Stepped output index p.last r.0.last)
        (sym (standalone_output_unchanged output index p (inl good)))
        (unchanged-Stepped output index p.last (inl good))
  standalone_found-Stepped output index p room steady h (some v) good =
      elim (Bool-cases (changed fl cv accepts config source p.last index v)) [
        | inr old ↦
            subst (λ (r : Outcome). Stepped output index p.last r.0.last)
              (sym (standalone_output_unchanged output index p (inr (v, good, old))))
              (unchanged-Stepped output index p.last (inr (v, good, old)))
        | inl new ↦
            let same = standalone_output_new output index p v good new in
            subst (Stepped output index p.last)
              (sym (
                ap (λ (r : Outcome). r.0.last) same
                ∙ send_message_last output index v p (sym (ap (λ (r : Outcome). r.1) same) ∙ h)))
              (commit-Stepped output index v p.last room steady good)
      ]

  standalone_output-Stepped :
      (output : OutputBinding) (index : ℕ) (p : Progress)
      → index < length p.last
      → Steady output
      → (standalone_output fl cv accepts config source output index p).1 ≡ none
      → Stepped output index p.last
          (standalone_output fl cv accepts config source output index p).0.last
  standalone_output-Stepped output index p room steady h =
      let (found, good) = standalone_output-succeeds output index p h in
      standalone_found-Stepped output index p room steady h found good

  -- Steps of one output after the other, from an index on.
  abbrev pub Kept : ℕ → List CachedScalar → List CachedScalar → Type 0
  Kept index xs ys = (k : ℕ) → k < index → Same k xs ys

  pub AllQuiet-step :
      (output : OutputBinding) (outputs : List OutputBinding) (index : ℕ)
      (xs ys zs : List CachedScalar)
      → Stepped output index xs ys
      → AllQuiet outputs (suc index) zs × Kept (suc index) ys zs
      → AllQuiet (output ∷ outputs) index zs × Kept index xs zs
  AllQuiet-step output outputs index xs ys zs (quiet, others, size) (later, kept) = (
    (Quiet-Same output index ys zs (kept index (omega arith)) quiet, later),
    λ k below. others k (λ e. absurd (omega arith)) ∙ kept k (omega arith),
  )

  pub send_standalone-AllQuiet :
      (outputs : List OutputBinding) (index : ℕ) (p : Progress)
      → index + length outputs ≤ length p.last
      → All Steady outputs
      → (send_standalone fl cv accepts config source outputs index p).1 ≡ none
      → AllQuiet outputs index (send_standalone fl cv accepts config source outputs index p).0.last
        × Kept index p.last (send_standalone fl cv accepts config source outputs index p).0.last
  unfolding send_standalone
  send_standalone-AllQuiet [] index p room steady = λ h. (tt, λ k below. refl)
  send_standalone-AllQuiet (output ∷ outputs) index p room (now, later) =
      let q = (standalone_output fl cv accepts config source output index p).0 in
      elim (Option-cases (standalone_output fl cv accepts config source output index p).1) [
        | inr (e, bad) ↦ rw (bad, send_standalone) (λ h. ground arith)
        | inl good ↦
            let stepped = standalone_output-Stepped output index p (omega arith) now good in
            rw (good, send_standalone)
              (λ h.
                AllQuiet-step output outputs index p.last q.last
                  (send_standalone fl cv accepts config source outputs (suc index) q).0.last stepped
                  (send_standalone-AllQuiet outputs (suc index) q (omega (arith, stepped.2)) later
                    h))
      ]

  pub send_standalone_unchanged :
      (outputs : List OutputBinding) (index : ℕ) (p : Progress)
      → AllQuiet outputs index p.last
      → send_standalone fl cv accepts config source outputs index p ≡ (p, none)
  unfolding send_standalone
  send_standalone_unchanged [] index p q = refl
  send_standalone_unchanged (output ∷ outputs) index p (now, later) =
      let here = standalone_output_unchanged output index p now in
      rw (ap (λ (r : Outcome). r.1) here, send_standalone)
        (subst
          (λ (r : Outcome).
            send_standalone fl cv accepts config source outputs (suc index) r.0 ≡ (p, none))
          (sym here) (send_standalone_unchanged outputs (suc index) p later))

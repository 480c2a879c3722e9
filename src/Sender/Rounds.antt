-- ===== src/Sender/Rounds.antt =====
-- internal/osc/sender.go: output after output of a batch, what is stored and what needs no sending.
use vrcft_go.Base.{
  ℕ, suc, ◌+◌, ◌≤◌, ◌<◌, ◌≡◌, refl, sym, ap, subst, ◌∙◌, Bool, true, false, List, [], ◌∷◌, Option,
  none, some, All, length, get_or, ok, pos, ltb_ℤ, Bytes, arith, Bool-cases, Option-cases,
  Result-cases, inl, inr,
}
use vrcft_go.Floats.{Arithmetic}
use vrcft_go.Osc.Decode.{max_int32}
use vrcft_go.Sender.Scalar.{ScalarValue}
use vrcft_go.Sender.Builder.{SenderError, append_scalar, is_empty_bundle}
use vrcft_go.Sender.Outputs.{OutputBinding, ValueSource, Conversions, evaluate_output}
use vrcft_go.Sender.Send.{
  SenderConfig, Batch, no_scalar, changed, commit, commit_all, flush_bundle, batch_value,
  batch_output, batch_outputs,
}
use vrcft_go.Sender.Steady.{
  Quiet, AllQuiet, Steady, Stepped, Kept, AllQuiet-step, Quiet-Same, commit-Stepped,
}
use vrcft_go.Sender.Batches.{
  view, Pending, Committed, commit_all-Same, flush_bundle-Flushed, flush_bundle_bare,
  room-Committed, alone-Committed, Below-suc,
}

module _ (fl : Arithmetic) (cv : Conversions) (accepts : ℕ → Bytes → Bool) (config : SenderConfig)
    (source : ValueSource) (limit : ltb_ℤ (pos max_int32) config.max_datagram ≡ false) where
  abbrev Ended : Type 0
  Ended = Batch × Option SenderError

  flushed_view : (b : Batch) → b.pending ≡ [] → view fl cv accepts config source b ≡ b.progress.last
  unfolding commit_all
  flushed_view b nothing = rw nothing refl

  batch_value-Committed :
      (output : OutputBinding) (index : ℕ) (v : ScalarValue) (b : Batch)
      → Pending fl cv accepts config source index b
      → (batch_value fl cv accepts config source output index v b).1 ≡ none
      → Committed fl cv accepts config source limit index v b
          (batch_value fl cv accepts config source output index v b).0
  unfolding batch_value
  batch_value-Committed output index v b ready =
      elim (Result-cases (append_scalar config.max_datagram b.buffer output.address v)) [
        | inr (e, bad) ↦ rw (bad, batch_value) (λ h. ground arith)
        | inl ((buffer, true), good) ↦
            rw (good, batch_value)
              (λ h.
                room-Committed fl cv accepts config source limit output index v b buffer ready good)
        | inl ((buffer, false), good) ↦
            rw (good, batch_value)
              (elim (Option-cases (flush_bundle fl cv accepts config source b).1) [
                | inr (e, bad) ↦ rw bad (λ h. ground arith)
                | inl fine ↦ rw fine (λ h.
                    let (next, stored, nothing) =
                      flush_bundle-Flushed fl cv accepts config source index b ready fine in
                    let c = (flush_bundle fl cv accepts config source b).0 in
                    let (later, committed) =
                      alone-Committed fl cv accepts config source limit output index v c next
                        nothing h in
                    (later, committed ∙ ap (commit index v) (flushed_view c nothing ∙ stored)))
              ])
      ]

  -- One output of a batch is dealt with.
  abbrev Advanced : OutputBinding → ℕ → Batch → Batch → Type 0
  Advanced output index b c =
      Pending fl cv accepts config source (suc index) c
      × Stepped fl cv accepts config source output index (view fl cv accepts config source b)
          (view fl cv accepts config source c)

  batch_output_unchanged :
      (output : OutputBinding) (index : ℕ) (b : Batch)
      → Quiet fl cv accepts config source output index b.progress.last
      → batch_output fl cv accepts config source output index b ≡ (b, none)
  unfolding batch_output
  batch_output_unchanged output index b (inl h) = rw (h, batch_output) refl
  batch_output_unchanged output index b (inr (v, h, old)) = rw (h, batch_output) (rw old refl)

  batch_output_new :
      (output : OutputBinding) (index : ℕ) (b : Batch) (v : ScalarValue)
      → evaluate_output fl cv output source ≡ ok (some v)
      → changed fl cv accepts config source b.progress.last index v ≡ true
      → batch_output fl cv accepts config source output index b
        ≡ batch_value fl cv accepts config source output index v b
  unfolding batch_output
  batch_output_new output index b v h new = rw (h, batch_output) (rw new refl)

  batch_output-succeeds :
      (output : OutputBinding) (index : ℕ) (b : Batch)
      → (batch_output fl cv accepts config source output index b).1 ≡ none
      → (o : Option ScalarValue) × (evaluate_output fl cv output source ≡ ok o)
  unfolding batch_output
  batch_output-succeeds output index b = elim (Result-cases (evaluate_output fl cv output source)) [
    | inr (e, bad) ↦ rw (bad, batch_output) (λ h. ground arith)
    | inl (o, good) ↦ λ h. (o, good)
  ]

  unchanged-Advanced :
      (output : OutputBinding) (index : ℕ) (b : Batch)
      → Pending fl cv accepts config source index b
      → Quiet fl cv accepts config source output index b.progress.last
      → Advanced output index b (batch_output fl cv accepts config source output index b).0
  unchanged-Advanced output index b (built, header, below) quiet =
      let seen =
        Quiet-Same fl cv accepts config source output index b.progress.last
          (view fl cv accepts config source b)
          (commit_all-Same fl cv accepts config source b.pending index b.progress.last below)
          quiet in
      subst (λ (r : Ended). Advanced output index b r.0)
        (sym (batch_output_unchanged output index b quiet))
        ((built, header, Below-suc index b.pending below), (seen, λ k ne. refl, refl))

  found-Advanced :
      (output : OutputBinding) (index : ℕ) (b : Batch)
      → index < length (view fl cv accepts config source b)
      → Steady fl cv accepts config source output
      → Pending fl cv accepts config source index b
      → (batch_output fl cv accepts config source output index b).1 ≡ none
      → (found : Option ScalarValue) → evaluate_output fl cv output source ≡ ok found
      → Advanced output index b (batch_output fl cv accepts config source output index b).0
  found-Advanced output index b room steady ready h none good =
      unchanged-Advanced output index b ready (inl good)
  found-Advanced output index b room steady ready h (some v) good =
      elim (Bool-cases (changed fl cv accepts config source b.progress.last index v)) [
        | inr old ↦ unchanged-Advanced output index b ready (inr (v, good, old))
        | inl new ↦
            let same = batch_output_new output index b v good new in
            let (later, committed) =
              batch_value-Committed output index v b ready
                (sym (ap (λ (r : Ended). r.1) same) ∙ h) in
            subst (λ (r : Ended). Advanced output index b r.0) (sym same)
              (
                later,
                subst
                    (Stepped fl cv accepts config source output index
                      (view fl cv accepts config source b))
                    (sym committed)
                    (commit-Stepped fl cv accepts config source output index v
                      (view fl cv accepts config source b) room steady good),
              )
      ]

  pub batch_outputs-AllQuiet :
      (outputs : List OutputBinding) (index : ℕ) (b : Batch)
      → index + length outputs ≤ length (view fl cv accepts config source b)
      → All (Steady fl cv accepts config source) outputs
      → Pending fl cv accepts config source index b
      → (batch_outputs fl cv accepts config source outputs index b).1 ≡ none
      → AllQuiet fl cv accepts config source outputs index
          (batch_outputs fl cv accepts config source outputs index b).0.progress.last
        × Kept fl cv accepts config source index
            (view fl cv accepts config source b)
            (batch_outputs fl cv accepts config source outputs index b).0.progress.last
  unfolding batch_outputs
  batch_outputs-AllQuiet [] index b room steady ready = λ h.
      let (_, stored, _) = flush_bundle-Flushed fl cv accepts config source index b ready h in
      (tt, λ k below. ap (λ last. get_or last k no_scalar) (sym stored))
  batch_outputs-AllQuiet (output ∷ outputs) index b room (now, later) ready =
      let c = (batch_output fl cv accepts config source output index b).0 in
      elim (Option-cases (batch_output fl cv accepts config source output index b).1) [
        | inr (e, bad) ↦ rw (bad, batch_outputs) (λ h. ground arith)
        | inl good ↦
            let (found, is_found) = batch_output-succeeds output index b good in
            let (next, stepped) =
              found-Advanced output index b (omega arith) now ready good found is_found in
            rw (good, batch_outputs)
              (λ h.
                AllQuiet-step fl cv accepts config source output outputs index
                  (view fl cv accepts config source b) (view fl cv accepts config source c)
                  (batch_outputs fl cv accepts config source outputs (suc index) c).0.progress.last
                  stepped
                  (batch_outputs-AllQuiet outputs (suc index) c (omega (arith, stepped.2)) later
                    next h))
      ]

  pub batch_outputs_unchanged :
      (outputs : List OutputBinding) (index : ℕ) (b : Batch)
      → is_empty_bundle b.buffer ≡ true
      → AllQuiet fl cv accepts config source outputs index b.progress.last
      → batch_outputs fl cv accepts config source outputs index b ≡ (b, none)
  unfolding batch_outputs
  batch_outputs_unchanged [] index b bare q = flush_bundle_bare fl cv accepts config source b bare
  batch_outputs_unchanged (output ∷ outputs) index b bare (now, later) =
      let here = batch_output_unchanged output index b now in
      rw (ap (λ (r : Ended). r.1) here, batch_outputs)
        (subst
          (λ (r : Ended).
            batch_outputs fl cv accepts config source outputs (suc index) r.0 ≡ (b, none))
          (sym here) (batch_outputs_unchanged outputs (suc index) b bare later))

-- ===== src/Sender/Batches.antt =====
-- internal/osc/sender.go: what is stored as sent last by a call of Send that batches messages.
use vrcft_go.Base.{
  ℕ, suc, ◌<◌, ◌≡◌, refl, sym, ap, subst, ◌∙◌, Bool, true, false, List, [], ◌∷◌, ◌++◌, Option, none,
  some, All, ok, err, pos, ltb_ℤ, Bytes, arith, Bool-cases, Result-cases, inl, inr,
}
use vrcft_go.Floats.{Arithmetic}
use vrcft_go.Osc.Decode.{max_int32}
use vrcft_go.Sender.Scalar.{ScalarValue}
use vrcft_go.Sender.Builder.{SenderError, append_scalar, is_empty_bundle}
use vrcft_go.Sender.Outputs.{OutputBinding, ValueSource, Conversions}
use vrcft_go.Sender.Send.{
  SenderConfig, CachedScalar, Batch, transmit, send_message, with_progress, commit, commit_all,
  flush_bundle, append_or_send,
}
use vrcft_go.Sender.Datagrams.{Building, append_scalar-Building}
use vrcft_go.Sender.Steady.{Same, commit-Same, send_message_last}

abbrev pub Below : ℕ → ℕ × ScalarValue → Type 0
Below index (k, v) = k < index

pub Below-suc :
    (index : ℕ) (pending : List (ℕ × ScalarValue))
    → All (Below index) pending
    → All (Below (suc index)) pending
Below-suc index [] b = tt
Below-suc index ((k, v) ∷ pending) (b, bs) = (omega arith, Below-suc index pending bs)

Below-snoc :
    (index : ℕ) (v : ScalarValue) (pending : List (ℕ × ScalarValue))
    → All (Below index) pending
    → All (Below (suc index)) (pending ++ ((index, v) ∷ []))
Below-snoc index v [] b = (omega arith, tt)
Below-snoc index v ((k, u) ∷ pending) (b, bs) = (omega arith, Below-snoc index v pending bs)

module _ (fl : Arithmetic) (cv : Conversions) (accepts : ℕ → Bytes → Bool) (config : SenderConfig)
    (source : ValueSource) where
  -- What is stored once the bundle is sent.
  abbrev pub view : Batch → List CachedScalar
  view b = commit_all fl cv accepts config source b.pending b.progress.last

  pub commit_all-Same :
      (pending : List (ℕ × ScalarValue)) (index : ℕ) (last : List CachedScalar)
      → All (Below index) pending
      → Same index last (commit_all fl cv accepts config source pending last)
  unfolding commit_all
  commit_all-Same [] index last b = refl
  commit_all-Same ((k, v) ∷ pending) index last (b, bs) =
      commit-Same k index v last (λ e. absurd (omega arith))
      ∙ commit_all-Same pending index (commit k v last) bs

  commit_all-snoc :
      (pending : List (ℕ × ScalarValue)) (index : ℕ) (v : ScalarValue) (last : List CachedScalar)
      → commit_all fl cv accepts config source (pending ++ ((index, v) ∷ [])) last
        ≡ commit index v (commit_all fl cv accepts config source pending last)
  unfolding commit_all
  commit_all-snoc [] index v last = refl
  commit_all-snoc ((k, u) ∷ pending) index v last =
      commit_all-snoc pending index v (commit k u last)

  -- A bundle whose pending values come from outputs before the index, and are none if it is a header alone.
  abbrev pub Pending : ℕ → Batch → Type 0
  Pending index b =
      Building b.buffer
      × (is_empty_bundle b.buffer ≡ true → b.pending ≡ [])
      × All (Below index) b.pending

  pub flush_bundle_bare :
      (b : Batch)
      → is_empty_bundle b.buffer ≡ true
      → flush_bundle fl cv accepts config source b ≡ (b, none)
  unfolding flush_bundle
  flush_bundle_bare b bare = rw bare refl

  -- After a flush what was pending is stored.
  abbrev pub Flushed : ℕ → Batch → Batch → Type 0
  Flushed index b c = Pending index c × (c.progress.last ≡ view b) × (c.pending ≡ [])

  bare-Flushed :
      (index : ℕ) (b : Batch)
      → Pending index b
      → is_empty_bundle b.buffer ≡ true
      → Flushed index b b
  unfolding commit_all
  bare-Flushed index b (built, header, below) bare =
      ((built, header, below), rw (header bare) refl, header bare)

  pub flush_bundle-Flushed :
      (index : ℕ) (b : Batch)
      → Pending index b
      → (flush_bundle fl cv accepts config source b).1 ≡ none
      → Flushed index b (flush_bundle fl cv accepts config source b).0
  unfolding flush_bundle
  flush_bundle-Flushed index b ready = elim (Bool-cases (is_empty_bundle b.buffer)) [
    | inl bare ↦ λ h.
        subst (λ (r : Batch × Option SenderError). Flushed index b r.0)
          (sym (flush_bundle_bare b bare)) (bare-Flushed index b ready bare)
    | inr full ↦
        rw full
          (elim (Bool-cases (transmit fl cv accepts config source b.buffer b.progress.wire).1) [
            | inl taken ↦
                rw taken (λ h. ((([], [], refl, tt, refl, refl), λ e. refl, tt), refl, refl))
            | inr lost ↦ rw lost (λ h. ground arith)
          ])
  ]

  module _ (limit : ltb_ℤ (pos max_int32) config.max_datagram ≡ false) where
    -- The value is in the bundle, or stored.
    abbrev pub Committed : ℕ → ScalarValue → Batch → Batch → Type 0
    Committed index v b c = Pending (suc index) c × (view c ≡ commit index v (view b))

    append_or_send_room :
        (output : OutputBinding) (index : ℕ) (v : ScalarValue) (b : Batch) (buffer : Bytes)
        → append_scalar config.max_datagram b.buffer output.address v ≡ ok (buffer, true)
        → append_or_send fl cv accepts config source output index v b
          ≡ (record b { buffer = buffer; pending = b.pending ++ ((index, v) ∷ []) }, none)
    unfolding append_or_send
    append_or_send_room output index v b buffer h = rw (h, append_or_send) refl

    append_or_send_full :
        (output : OutputBinding) (index : ℕ) (v : ScalarValue) (b : Batch) (buffer : Bytes)
        → append_scalar config.max_datagram b.buffer output.address v ≡ ok (buffer, false)
        → append_or_send fl cv accepts config source output index v b
          ≡ with_progress fl cv accepts config source b
              (send_message fl cv accepts config source output index v b.progress)
    unfolding append_or_send
    append_or_send_full output index v b buffer h = rw (h, append_or_send) refl

    append_or_send_bad :
        (output : OutputBinding) (index : ℕ) (v : ScalarValue) (b : Batch) (e : SenderError)
        → append_scalar config.max_datagram b.buffer output.address v ≡ err e
        → append_or_send fl cv accepts config source output index v b ≡ (b, some e)
    unfolding append_or_send
    append_or_send_bad output index v b e h = rw (h, append_or_send) refl

    pub room-Committed :
        (output : OutputBinding) (index : ℕ) (v : ScalarValue) (b : Batch) (buffer : Bytes)
        → Pending index b
        → append_scalar config.max_datagram b.buffer output.address v ≡ ok (buffer, true)
        → Committed index v b (append_or_send fl cv accepts config source output index v b).0
    room-Committed output index v b buffer (built, header, below) h =
        let (more, fits, full) =
          append_scalar-Building config.max_datagram b.buffer output.address buffer v limit built
            h in
        subst (λ (r : Batch × Option SenderError). Committed index v b r.0)
          (sym (append_or_send_room output index v b buffer h))
          (
            (more, λ e. absurd (ground arith), Below-snoc index v b.pending below),
            commit_all-snoc b.pending index v b.progress.last,
          )

    pub alone-Committed :
        (output : OutputBinding) (index : ℕ) (v : ScalarValue) (b : Batch)
        → Pending index b
        → b.pending ≡ []
        → (append_or_send fl cv accepts config source output index v b).1 ≡ none
        → Committed index v b (append_or_send fl cv accepts config source output index v b).0
    unfolding commit_all
    alone-Committed output index v b (built, header, below) alone h =
        elim (Result-cases (append_scalar config.max_datagram b.buffer output.address v)) [
          | inr (e, bad) ↦ absurd (
              ground (
                arith,
                sym (
                      ap (λ (r : Batch × Option SenderError). r.1)
                        (append_or_send_bad output index v b e bad))
                    ∙ h,
              ))
          | inl ((buffer, true), good) ↦
              room-Committed output index v b buffer (built, header, below) good
          | inl ((buffer, false), good) ↦
              let same = append_or_send_full output index v b buffer good in
              let stored =
                send_message_last fl cv accepts config source output index v b.progress
                  (sym (ap (λ (r : Batch × Option SenderError). r.1) same) ∙ h) in
              subst (λ (r : Batch × Option SenderError). Committed index v b r.0) (sym same)
                ((built, header, Below-suc index b.pending below), rw alone stored)
        ]

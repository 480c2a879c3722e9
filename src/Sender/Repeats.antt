-- ===== src/Sender/Repeats.antt =====
-- internal/osc/sender.go: a Send of what was sent already sends nothing.
use vrcft_go.Base.{
  ℕ, ◌≤◌, ◌≡◌, refl, sym, ap, subst, ◌∙◌, Bool, true, false, List, [], Option, none, some,
  if◌then◌else◌, All, length, pos, ltb_ℤ, Bytes, arith, Bool-cases, inl, inr,
}
use vrcft_go.Floats.{Arithmetic}
use vrcft_go.Osc.Decode.{max_int32}
use vrcft_go.Sender.Builder.{SenderError, no_transport, empty_bundle}
use vrcft_go.Sender.Outputs.{OutputBinding, ValueSource, Conversions}
use vrcft_go.Sender.Send.{
  SenderConfig, Catalog, ParameterSender, Wire, Progress, Batch, Outcome, commit_all, send_bundle,
  send_standalone, send,
}
use vrcft_go.Sender.Steady.{AllQuiet, Steady, send_standalone-AllQuiet, send_standalone_unchanged}
use vrcft_go.Sender.Rounds.{batch_outputs-AllQuiet, batch_outputs_unchanged}

-- Either way of sending.
abbrev sent_by :
    Arithmetic
    → Conversions
    → (ℕ → Bytes → Bool)
    → SenderConfig
    → ValueSource
    → Bool
    → List OutputBinding
    → Progress
    → Outcome
sent_by fl cv accepts config source bundles outputs p =
    if bundles
    then send_bundle fl cv accepts config source outputs p
    else send_standalone fl cv accepts config source outputs 0 p

module _ (fl : Arithmetic) (cv : Conversions) (accepts : ℕ → Bytes → Bool) (config : SenderConfig)
    (source : ValueSource) (limit : ltb_ℤ (pos max_int32) config.max_datagram ≡ false) where
  send_bundle-AllQuiet :
      (outputs : List OutputBinding) (p : Progress)
      → length outputs ≤ length p.last
      → All (Steady fl cv accepts config source) outputs
      → (send_bundle fl cv accepts config source outputs p).1 ≡ none
      → AllQuiet fl cv accepts config source outputs 0
          (send_bundle fl cv accepts config source outputs p).0.last
  unfolding send_bundle commit_all
  send_bundle-AllQuiet outputs p room steady h =
      (batch_outputs-AllQuiet fl cv accepts config source limit outputs 0
        (record { progress = p; buffer = empty_bundle; pending = [] }) (omega arith) steady
        (([], [], refl, tt, refl, refl), λ e. refl, tt) h).0

  sent_by-AllQuiet :
      (bundles : Bool) (outputs : List OutputBinding) (p : Progress)
      → length outputs ≤ length p.last
      → All (Steady fl cv accepts config source) outputs
      → (sent_by fl cv accepts config source bundles outputs p).1 ≡ none
      → AllQuiet fl cv accepts config source outputs 0
          (sent_by fl cv accepts config source bundles outputs p).0.last
  sent_by-AllQuiet true outputs p room steady h = send_bundle-AllQuiet outputs p room steady h
  sent_by-AllQuiet false outputs p room steady h =
      (send_standalone-AllQuiet fl cv accepts config source outputs 0 p (omega arith) steady h).0

  sent_by_unchanged :
      (bundles : Bool) (outputs : List OutputBinding) (p : Progress)
      → AllQuiet fl cv accepts config source outputs 0 p.last
      → sent_by fl cv accepts config source bundles outputs p ≡ (p, none)
  unfolding send_bundle
  sent_by_unchanged true outputs p q =
      ap (λ (r : (Batch × Option SenderError)). (r.0.progress, r.1))
        (batch_outputs_unchanged fl cv accepts config source limit outputs 0
          (record { progress = p; buffer = empty_bundle; pending = [] }) refl q)
  sent_by_unchanged false outputs p q =
      send_standalone_unchanged fl cv accepts config source outputs 0 p q

module _ (fl : Arithmetic) (cv : Conversions) (accepts : ℕ → Bytes → Bool)
    (source : ValueSource) where
  abbrev Answer : Type 0
  Answer = ParameterSender × Wire × Option SenderError

  -- What Send does with a catalog and a transport.
  send_by :
      (s : ParameterSender) (w : Wire) (catalog : Catalog)
      → s.catalog ≡ some catalog
      → s.has_transport ≡ true
      → send fl cv accepts source s w ≡ (
          let (p, e) =
            sent_by fl cv accepts s.config source s.config.use_bundles catalog.outputs
              (record { last = s.last; wire = w }) in
          (record s { last = p.last }, p.wire, e))
  unfolding send
  send_by s w catalog there able =
      let same : s ≡ record s { catalog = some catalog; has_transport = true } =
        λ i. record s { catalog = there i; has_transport = able i } in
      subst
        (λ (t : ParameterSender). send fl cv accepts source t w ≡ (
          let (p, e) =
            sent_by fl cv accepts t.config source t.config.use_bundles catalog.outputs
              (record { last = t.last; wire = w }) in
          (record t { last = p.last }, p.wire, e)))
        (sym same) refl

  send_needs_transport :
      (s : ParameterSender) (w : Wire) (catalog : Catalog)
      → s.catalog ≡ some catalog
      → s.has_transport ≡ false
      → (send fl cv accepts source s w).2 ≡ some no_transport
  unfolding send
  send_needs_transport s w catalog there dumb = rw (there, send) (rw dumb refl)

  able_repeat :
      (s : ParameterSender) (w : Wire) (catalog : Catalog)
      → ltb_ℤ (pos max_int32) s.config.max_datagram ≡ false
      → s.catalog ≡ some catalog
      → s.has_transport ≡ true
      → length s.last ≡ length catalog.outputs
      → All (Steady fl cv accepts s.config source) catalog.outputs
      → (send fl cv accepts source s w).2 ≡ none
      → send fl cv accepts source
          (send fl cv accepts source s w).0
          (send fl cv accepts source s w).1
        ≡ ((send fl cv accepts source s w).0, (send fl cv accepts source s w).1, none)
  able_repeat s w catalog limit there able sized steady h =
      let r =
        sent_by fl cv accepts s.config source s.config.use_bundles catalog.outputs
          (record { last = s.last; wire = w }) in
      let first = send_by s w catalog there able in
      let quiet =
        sent_by-AllQuiet fl cv accepts s.config source limit s.config.use_bundles catalog.outputs
          (record { last = s.last; wire = w }) (omega arith) steady
          (sym (ap (λ (t : Answer). t.2) first) ∙ h) in
      let second =
        sent_by_unchanged fl cv accepts s.config source limit s.config.use_bundles catalog.outputs
          r.0 quiet in
      subst (λ (t : Answer). send fl cv accepts source t.0 t.1 ≡ (t.0, t.1, none)) (sym first)
        (send_by (record s { last = r.0.last }) r.0.wire catalog there able
          ∙ ap (λ (o : Outcome). (record s { last = o.0.last }, o.0.wire, o.1)) second)

-- Where Send has a catalog, a place for each of its outputs and a limit that an int32 holds, and where no value
-- that an output has now differs from itself by more than the epsilon: after a Send without an error, a second
-- Send of the same values sends nothing, calls the transport not once, changes nothing, and has no error.
pub send_repeat :
    (fl : Arithmetic) (cv : Conversions) (accepts : ℕ → Bytes → Bool) (source : ValueSource)
    (s : ParameterSender) (w : Wire) (catalog : Catalog)
    → ltb_ℤ (pos max_int32) s.config.max_datagram ≡ false
    → s.catalog ≡ some catalog
    → length s.last ≡ length catalog.outputs
    → All (Steady fl cv accepts s.config source) catalog.outputs
    → (send fl cv accepts source s w).2 ≡ none
    → send fl cv accepts source (send fl cv accepts source s w).0 (send fl cv accepts source s w).1
      ≡ ((send fl cv accepts source s w).0, (send fl cv accepts source s w).1, none)
send_repeat fl cv accepts source s w catalog limit there sized steady h =
    elim (Bool-cases s.has_transport) [
      | inl able ↦ able_repeat fl cv accepts source s w catalog limit there able sized steady h
      | inr dumb ↦ absurd (
          ground
            (arith, sym (send_needs_transport fl cv accepts source s w catalog there dumb) ∙ h))
    ]

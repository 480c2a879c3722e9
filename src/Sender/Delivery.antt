-- ===== src/Sender/Delivery.antt =====
-- internal/osc/sender.go: every datagram of a call of Send decodes, and has its place in the limit.
use vrcft_go.Base.{
  ℕ, suc, ◌≡◌, refl, ap, ◌∙◌, Bool, true, false, List, [], ◌∷◌, none, some, if◌then◌else◌, All,
  length, ok, ℤ, pos, ltb_ℤ, Bytes, arith, Bool-cases, Option-cases, Result-cases, inl, inr, ◌⊎◌,
}
use vrcft_go.Floats.{Arithmetic}
use vrcft_go.Osc.Values.{Message}
use vrcft_go.Osc.Decode.{unmarshal_packet, max_int32}
use vrcft_go.Osc.Messages.{as_decoded}
use vrcft_go.Osc.Bundles.{unmarshal_packet-wire}
use vrcft_go.Sender.Scalar.{ScalarValue}
use vrcft_go.Sender.Builder.{append_scalar_message, append_scalar, empty_bundle, is_empty_bundle}
use vrcft_go.Sender.Outputs.{OutputBinding, ValueSource, Conversions, evaluate_output}
use vrcft_go.Sender.Messages.{message_of}
use vrcft_go.Sender.Datagrams.{All-snoc, decodes, Building, Fits, append_scalar-Building}
use vrcft_go.Sender.Send.{
  SenderConfig, Wire, ParameterSender, Progress, Batch, transmit, send_message, standalone_output,
  send_standalone, flush_bundle, append_or_send, batch_value, batch_output, batch_outputs,
  send_bundle, send, changed,
}

-- A packet that decodes, and fits in the limit unless it is one message alone.
abbrev pub Delivered : ℤ → Bytes → Type 0
Delivered max_datagram packet =
    (messages : List Message) × (unmarshal_packet packet ≡ ok messages)
    × (Fits max_datagram packet ⊎ (length messages ≡ 1))

decodes_alone :
    (address m : Bytes) (v : ScalarValue)
    → append_scalar_message [] address v ≡ ok m
    → unmarshal_packet m ≡ ok (as_decoded (message_of address v) ∷ [])
unfolding unmarshal_packet
decodes_alone address m v h = decodes 32 address m v h

module _ (fl : Arithmetic) (cv : Conversions) (accepts : ℕ → Bytes → Bool) (config : SenderConfig)
    (source : ValueSource) where
  abbrev Sent : Wire → Type 0
  Sent w = All (Delivered config.max_datagram) w.sent

  transmit-Sent :
      (packet : Bytes) (w : Wire)
      → Sent w
      → Delivered config.max_datagram packet
      → Sent (transmit fl cv accepts config source packet w).0
  unfolding transmit
  transmit-Sent packet w s d = elim (Bool-cases (accepts w.attempts packet)) [
    | inl taken ↦ rw taken (All-snoc (Delivered config.max_datagram) w.sent packet s d)
    | inr lost ↦ rw lost s
  ]

  send_message-Sent :
      (output : OutputBinding) (index : ℕ) (value : ScalarValue) (p : Progress)
      → Sent p.wire
      → Sent (send_message fl cv accepts config source output index value p).0.wire
  unfolding send_message
  send_message-Sent output index value p s =
      elim (Result-cases (append_scalar_message [] output.address value)) [
        | inr (e, bad) ↦ rw (bad, send_message) s
        | inl (packet, good) ↦
            let next = transmit-Sent packet p.wire s (
              as_decoded (message_of output.address value) ∷ [],
              decodes_alone output.address packet value good,
              inr refl,
            ) in
            rw (good, send_message)
              (elim (Bool-cases (transmit fl cv accepts config source packet p.wire).1) [
                | inl taken ↦ rw taken next
                | inr lost ↦ rw lost next
              ])
      ]

  standalone_output-Sent :
      (output : OutputBinding) (index : ℕ) (p : Progress)
      → Sent p.wire
      → Sent (standalone_output fl cv accepts config source output index p).0.wire
  unfolding standalone_output
  standalone_output-Sent output index p s =
      elim (Result-cases (evaluate_output fl cv output source)) [
        | inr (e, bad) ↦ rw (bad, standalone_output) s
        | inl (none, good) ↦ rw (good, standalone_output) s
        | inl (some value, good) ↦
            rw (good, standalone_output)
              (elim (Bool-cases (changed fl cv accepts config source p.last index value)) [
                | inl new ↦ rw (new, standalone_output) (send_message-Sent output index value p s)
                | inr old ↦ rw (old, standalone_output) s
              ])
      ]

  send_standalone-Sent :
      (outputs : List OutputBinding) (index : ℕ) (p : Progress)
      → Sent p.wire
      → Sent (send_standalone fl cv accepts config source outputs index p).0.wire
  unfolding send_standalone
  send_standalone-Sent [] index p s = s
  send_standalone-Sent (output ∷ outputs) index p s =
      elim (Option-cases (standalone_output fl cv accepts config source output index p).1) [
        | inr (e, bad) ↦ rw (bad, send_standalone) (standalone_output-Sent output index p s)
        | inl good ↦
            rw (good, send_standalone)
              (send_standalone-Sent outputs (suc index)
                (standalone_output fl cv accepts config source output index p).0
                (standalone_output-Sent output index p s))
      ]

  -- A bundle that is being built is a header with elements, and fits unless it is a header alone.
  Filled : Bytes → Type 0
  Filled buffer =
      Building buffer × ((is_empty_bundle buffer ≡ true) ⊎ Fits config.max_datagram buffer)

  empty-Filled : Filled empty_bundle
  unfolding Filled
  empty-Filled = (([], [], refl, tt, refl, refl), inl refl)

  Sound : Batch → Type 0
  Sound b = Filled b.buffer × Sent b.progress.wire

  bundle-Delivered :
      (buffer : Bytes)
      → Filled buffer
      → is_empty_bundle buffer ≡ false
      → Delivered config.max_datagram buffer
  unfolding Filled
  bundle-Delivered buffer ((es, ms, shape, sized, decoded, words), inl none_in) full =
      absurd (ground arith)
  bundle-Delivered buffer ((es, ms, shape, sized, decoded, words), inr fits) full = (
    ms,
    ap unmarshal_packet shape
        ∙ unmarshal_packet-wire (0 ∷ 0 ∷ 0 ∷ 0 ∷ 0 ∷ 0 ∷ 0 ∷ 1 ∷ []) es ms refl sized decoded,
    inl fits,
  )

  flush_bundle-Sound : (b : Batch) → Sound b → Sound (flush_bundle fl cv accepts config source b).0
  unfolding flush_bundle Sound
  flush_bundle-Sound b (filled, s) = elim (Bool-cases (is_empty_bundle b.buffer)) [
    | inl none_in ↦ rw none_in (filled, s)
    | inr full ↦
        let next =
          transmit-Sent b.buffer b.progress.wire s (bundle-Delivered b.buffer filled full) in
        rw full
          (elim (Bool-cases (transmit fl cv accepts config source b.buffer b.progress.wire).1) [
            | inl taken ↦ rw taken (empty-Filled, next)
            | inr lost ↦ rw lost (filled, next)
          ])
  ]

  module _ (limit : ltb_ℤ (pos max_int32) config.max_datagram ≡ false) where
    append_or_send-Sound :
        (output : OutputBinding) (index : ℕ) (value : ScalarValue) (b : Batch)
        → Sound b
        → Sound (append_or_send fl cv accepts config source output index value b).0
    unfolding append_or_send Sound Filled
    append_or_send-Sound output index value b (filled, s) =
        elim (Result-cases (append_scalar config.max_datagram b.buffer output.address value)) [
          | inr (e, bad) ↦ rw (bad, append_or_send) (filled, s)
          | inl ((buffer, true), good) ↦
              let (built, fits, _) =
                append_scalar-Building config.max_datagram b.buffer output.address buffer value
                  limit filled.0 good in
              rw (good, append_or_send) ((built, inr fits), s)
          | inl ((buffer, false), good) ↦
              rw (good, append_or_send) (filled, send_message-Sent output index value b.progress s)
        ]

    batch_value-Sound :
        (output : OutputBinding) (index : ℕ) (value : ScalarValue) (b : Batch)
        → Sound b
        → Sound (batch_value fl cv accepts config source output index value b).0
    unfolding batch_value
    batch_value-Sound output index value b s =
        elim (Result-cases (append_scalar config.max_datagram b.buffer output.address value)) [
          | inr (e, bad) ↦ rw (bad, batch_value) s
          | inl ((buffer, true), good) ↦
              rw (good, batch_value) (append_or_send-Sound output index value b s)
          | inl ((buffer, false), good) ↦
              let flushed = flush_bundle-Sound b s in
              rw (good, batch_value)
                (elim (Option-cases (flush_bundle fl cv accepts config source b).1) [
                  | inr (e, bad) ↦ rw bad flushed
                  | inl fine ↦ rw fine (
                      append_or_send-Sound output index value
                        (flush_bundle fl cv accepts config source b).0 flushed)
                ])
        ]

    batch_output-Sound :
        (output : OutputBinding) (index : ℕ) (b : Batch)
        → Sound b
        → Sound (batch_output fl cv accepts config source output index b).0
    unfolding batch_output
    batch_output-Sound output index b s =
        elim (Result-cases (evaluate_output fl cv output source)) [
          | inr (e, bad) ↦ rw (bad, batch_output) s
          | inl (none, good) ↦ rw (good, batch_output) s
          | inl (some value, good) ↦
              rw (good, batch_output)
                (elim (Bool-cases
                  (changed fl cv accepts config source b.progress.last index value)) [
                    | inl new ↦ rw new (batch_value-Sound output index value b s)
                    | inr old ↦ rw old s
                  ])
        ]

    batch_outputs-Sound :
        (outputs : List OutputBinding) (index : ℕ) (b : Batch)
        → Sound b
        → Sound (batch_outputs fl cv accepts config source outputs index b).0
    unfolding batch_outputs
    batch_outputs-Sound [] index b s = flush_bundle-Sound b s
    batch_outputs-Sound (output ∷ outputs) index b s =
        let next = batch_output-Sound output index b s in
        elim (Option-cases (batch_output fl cv accepts config source output index b).1) [
          | inr (e, bad) ↦ rw (bad, batch_outputs) next
          | inl good ↦
              rw (good, batch_outputs)
                (batch_outputs-Sound outputs (suc index)
                  (batch_output fl cv accepts config source output index b).0 next)
        ]

    send_bundle-Sent :
        (outputs : List OutputBinding) (p : Progress)
        → Sent p.wire
        → Sent (send_bundle fl cv accepts config source outputs p).0.wire
    unfolding send_bundle Sound
    send_bundle-Sent outputs p s =
        (batch_outputs-Sound outputs 0
          (record { progress = p; buffer = empty_bundle; pending = [] }) (empty-Filled, s)).1

    either-Sent :
        (bundles : Bool) (outputs : List OutputBinding) (p : Progress)
        → Sent p.wire
        → Sent
            (if bundles
              then send_bundle fl cv accepts config source outputs p
              else send_standalone fl cv accepts config source outputs 0 p).0.wire
    either-Sent true outputs p s = send_bundle-Sent outputs p s
    either-Sent false outputs p s = send_standalone-Sent outputs 0 p s

-- Whatever outputs there are, whatever the source holds, whatever the transport takes, and whether the call
-- succeeds or fails: where the limit is at most an int32's greatest number, each packet that Send has sent is
-- one that UnmarshalPacket decodes, and it is no longer than the limit or holds exactly one message.
pub send-Delivered :
    (fl : Arithmetic) (cv : Conversions) (accepts : ℕ → Bytes → Bool) (source : ValueSource)
    (s : ParameterSender)
    → ltb_ℤ (pos max_int32) s.config.max_datagram ≡ false
    → All
        (Delivered s.config.max_datagram)
        (send fl cv accepts source s (record { sent = []; attempts = 0 })).1.sent
unfolding send
send-Delivered fl cv accepts source s limit = elim (Option-cases s.catalog) [
  | inl missing ↦ rw (missing, send) tt
  | inr (catalog, there) ↦
      rw (there, send)
        (elim (Bool-cases s.has_transport) [
          | inr dumb ↦ rw dumb tt
          | inl able ↦
              let start : Progress = record {
                last = s.last;
                wire = record { sent = []; attempts = 0 };
              } in
              rw able (
                either-Sent fl cv accepts s.config source limit s.config.use_bundles catalog.outputs
                  start tt)
        ])
]

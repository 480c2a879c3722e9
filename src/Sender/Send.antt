-- ===== src/Sender/Send.antt =====
-- internal/osc/sender.go: the sender, which sends what has changed.
use vrcft_go.Base.{
  ℕ, suc, Bool, true, false, not, ◌&&◌, ◌||◌, List, [], ◌∷◌, ◌++◌, Option, none, some, ◌==◌,
  if◌then◌else◌, length, set, get_or, replicate, map, ok, err, ℤ, pos, leb_ℤ, Bytes,
}
use vrcft_go.Floats.{Float32, Arithmetic, zero32, le32}
use vrcft_go.Sender.Scalar.{ScalarValue, scalar_equal}
use vrcft_go.Sender.Builder.{
  SenderError, transport_failed, no_transport, append_scalar_message, append_scalar, empty_bundle,
  is_empty_bundle,
}
use vrcft_go.Sender.Outputs.{OutputBinding, ValueSource, Conversions, evaluate_output}

pub record SenderConfig : Type 0 where
  pub float_epsilon : Float32
  pub max_datagram : ℤ
  pub use_bundles : Bool

pub record CachedScalar : Type 0 where
  pub value : ScalarValue
  pub valid : Bool

-- What the sender reads of a catalog.
pub record Catalog : Type 0 where
  pub hash : ℕ
  pub outputs : List OutputBinding

-- The datagrams that the transport has taken, and how often it was called.
pub record Wire : Type 0 where
  pub sent : List Bytes
  pub attempts : ℕ

pub record ParameterSender : Type 0 where
  pub config : SenderConfig
  pub has_transport : Bool
  pub catalog : Option Catalog
  pub last : List CachedScalar

abbrev pub no_scalar : CachedScalar
no_scalar = record { value = record { bits = 0; kind = 0 }; valid = false }

-- The constant 0.001 as a float.
abbrev pub default_epsilon : Float32
default_epsilon = 0x3a83126f

unfoldable pub new_parameter_sender : Bool → SenderConfig → ParameterSender
new_parameter_sender has_transport config = record {
  config = record config {
    float_epsilon =
        if le32 config.float_epsilon zero32 then default_epsilon else config.float_epsilon;
    max_datagram = if leb_ℤ config.max_datagram (pos 0) then pos 1200 else config.max_datagram;
  };
  has_transport = has_transport;
  catalog = none;
  last = [];
}

-- Whether a new catalog keeps what was sent last.
abbrev pub same_outputs : Option Catalog → Catalog → List CachedScalar → Bool
same_outputs none catalog last = false
same_outputs (some previous) catalog last =
    previous.hash == catalog.hash && length last == length catalog.outputs

unfoldable pub set_catalog : Option Catalog → ParameterSender → ParameterSender
set_catalog none s = record s { catalog = none; last = [] }
set_catalog (some catalog) s = record s {
  catalog = some catalog;
  last =
      if same_outputs s.catalog catalog s.last
      then s.last
      else replicate (length catalog.outputs) no_scalar;
}

unfoldable pub reset_change_detection : ParameterSender → ParameterSender
reset_change_detection s = record s {
  last = map (λ (entry : CachedScalar). record entry { valid = false }) s.last;
}

-- What a call of Send changes: what was sent last, and the wire.
pub record Progress : Type 0 where
  pub last : List CachedScalar
  pub wire : Wire

-- An error stops the call; what was sent before stays sent and stored.
abbrev pub Outcome : Type 0
Outcome = Progress × Option SenderError

unfoldable pub commit : ℕ → ScalarValue → List CachedScalar → List CachedScalar
commit index value last = set last index (record { value = value; valid = true })

-- The bundle that is built, and the values in it.
pub record Batch : Type 0 where
  pub progress : Progress
  pub buffer : Bytes
  pub pending : List (ℕ × ScalarValue)

-- `accepts n packet` says whether the transport takes the packet at its call number `n`.
module _ (fl : Arithmetic) (cv : Conversions) (accepts : ℕ → Bytes → Bool) (config : SenderConfig)
    (source : ValueSource) where
  unfoldable pub changed : List CachedScalar → ℕ → ScalarValue → Bool
  changed last index value =
      let entry = get_or last index no_scalar in
      not entry.valid || not (scalar_equal fl entry.value value config.float_epsilon)

  -- The wire, and whether the packet was taken.
  unfoldable pub transmit : Bytes → Wire → Wire × Bool
  transmit packet w =
      if accepts w.attempts packet
      then (record { sent = w.sent ++ (packet ∷ []); attempts = suc w.attempts }, true)
      else (record w { attempts = suc w.attempts }, false)

  -- One message alone, stored when it was taken.
  unfoldable pub send_message : OutputBinding → ℕ → ScalarValue → Progress → Outcome
  send_message output index value p = elim (append_scalar_message [] output.address value) [
    | err e ↦ (p, some e)
    | ok packet ↦
        let (w, taken) = transmit packet p.wire in
        if taken
        then (record { last = commit index value p.last; wire = w }, none)
        else (record p { wire = w }, some transport_failed)
  ]

  unfoldable pub standalone_output : OutputBinding → ℕ → Progress → Outcome
  standalone_output output index p = elim (evaluate_output fl cv output source) [
    | err e ↦ (p, some e)
    | ok none ↦ (p, none)
    | ok (some value) ↦
        if not (changed p.last index value) then (p, none) else send_message output index value p
  ]

  unfoldable pub send_standalone : List OutputBinding → ℕ → Progress → Outcome
  send_standalone [] index p = (p, none)
  send_standalone (output ∷ outputs) index p = elim ((standalone_output output index p).1) [
    | some e ↦ ((standalone_output output index p).0, some e)
    | none ↦ send_standalone outputs (suc index) (standalone_output output index p).0
  ]

  unfoldable pub commit_all : List (ℕ × ScalarValue) → List CachedScalar → List CachedScalar
  commit_all [] last = last
  commit_all ((index, value) ∷ rest) last = commit_all rest (commit index value last)

  unfoldable pub flush_bundle : Batch → Batch × Option SenderError
  flush_bundle b =
      if is_empty_bundle b.buffer
      then (b, none)
      else (let (w, taken) = transmit b.buffer b.progress.wire in
          if taken
          then (
            record {
              progress = record { last = commit_all b.pending b.progress.last; wire = w };
              buffer = empty_bundle;
              pending = [];
            },
            none,
          )
          else (record b { progress = record b.progress { wire = w } }, some transport_failed))

  abbrev pub with_progress : Batch → Outcome → Batch × Option SenderError
  with_progress b (p, e) = (record b { progress = p }, e)

  -- The value in the bundle, or alone where no bundle has room for it.
  unfoldable pub append_or_send :
      OutputBinding → ℕ → ScalarValue → Batch → Batch × Option SenderError
  append_or_send output index value b =
      elim (append_scalar config.max_datagram b.buffer output.address value) [
        | err e ↦ (b, some e)
        | ok (buffer, true) ↦
            (record b { buffer = buffer; pending = b.pending ++ ((index, value) ∷ []) }, none)
        | ok (buffer, false) ↦ with_progress b (send_message output index value b.progress)
      ]

  -- A bundle without room is sent first, if it is not empty.
  unfoldable pub batch_value : OutputBinding → ℕ → ScalarValue → Batch → Batch × Option SenderError
  batch_value output index value b =
      elim (append_scalar config.max_datagram b.buffer output.address value) [
        | err e ↦ (b, some e)
        | ok (buffer, true) ↦ append_or_send output index value b
        | ok (buffer, false) ↦ elim ((flush_bundle b).1) [
          | some e ↦ ((flush_bundle b).0, some e)
          | none ↦ append_or_send output index value (flush_bundle b).0
        ]
      ]

  unfoldable pub batch_output : OutputBinding → ℕ → Batch → Batch × Option SenderError
  batch_output output index b = elim (evaluate_output fl cv output source) [
    | err e ↦ (b, some e)
    | ok none ↦ (b, none)
    | ok (some value) ↦
        if not (changed b.progress.last index value)
        then (b, none)
        else batch_value output index value b
  ]

  unfoldable pub batch_outputs : List OutputBinding → ℕ → Batch → Batch × Option SenderError
  batch_outputs [] index b = flush_bundle b
  batch_outputs (output ∷ outputs) index b = elim ((batch_output output index b).1) [
    | some e ↦ ((batch_output output index b).0, some e)
    | none ↦ batch_outputs outputs (suc index) (batch_output output index b).0
  ]

  unfoldable pub send_bundle : List OutputBinding → Progress → Outcome
  send_bundle outputs p =
      let (b, e) =
        batch_outputs outputs 0 (record { progress = p; buffer = empty_bundle; pending = [] }) in
      (b.progress, e)

-- `Send` of a source that is there.
unfoldable pub send :
    Arithmetic
    → Conversions
    → (ℕ → Bytes → Bool)
    → ValueSource
    → ParameterSender
    → Wire
    → ParameterSender × Wire × Option SenderError
send fl cv accepts source s w = elim (s.catalog) [
  | none ↦ (s, w, none)
  | some catalog ↦
      if not s.has_transport
      then (s, w, some no_transport)
      else (let (p, e) =
            (if s.config.use_bundles
              then send_bundle fl cv accepts s.config source catalog.outputs
                  (record { last = s.last; wire = w })
              else send_standalone fl cv accepts s.config source catalog.outputs 0
                  (record { last = s.last; wire = w })) in
          (record s { last = p.last }, p.wire, e))
]

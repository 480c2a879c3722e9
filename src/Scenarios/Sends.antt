-- ===== src/Scenarios/Sends.antt =====
-- The theorems on the OSC sender at a catalog with a float and a bool.
use vrcft_go.Base.{
  ◌%◌, ok, Option, none, ◌==◌, if◌then◌else◌, Bool-cases, inl, inr, arith, ◌≡◌, refl, true, false,
  [], ◌∷◌, some, All, length, pos, ltb_ℤ, Bytes,
}
use vrcft_go.Floats.{Arithmetic, zero32, one32, le32, lt32, rank32, is_nan32, finite32, abs32}
use vrcft_go.Osc.Values.{valid_address, has_prefix, contains_nul, put_uint32}
use vrcft_go.Osc.Padding.{write_padded_string, pad}
use vrcft_go.Osc.Encode.{marshal_message}
use vrcft_go.Osc.Decode.{max_int32}
use vrcft_go.Sender.Scalar.{
  ScalarValue, float_scalar, scalar_float32, scalar_true, type_tag, scalar_equal,
}
use vrcft_go.Sender.Builder.{
  SenderError, append_scalar_message, append_scalar, scalar_message_size, padded_string_size,
  put_size,
}
use vrcft_go.Sender.Outputs.{
  OutputBinding, ValueSource, Conversions, output_direct_float, output_direct_bool, evaluate_output,
  float_output, scalar_from_float, scalar_from_bool, clamp_output, clamp_between,
}
use vrcft_go.Sender.Send.{
  Wire, ParameterSender, new_parameter_sender, set_catalog, send, send_bundle, batch_outputs,
  batch_output, batch_value, append_or_send, flush_bundle, transmit, changed, commit_all, commit,
  send_message,
}
use vrcft_go.Sender.Messages.{
  message_of, bytes_of, append_scalar_message-marshal_message, scalar_message_size-length,
}
use vrcft_go.Sender.Delivery.{Delivered, send-Delivered}
use vrcft_go.Sender.Repeats.{send_repeat}
use vrcft_go.Scenarios.Data.{first_operand}

abbrev address : Bytes
address = b'/' ∷ b'a' ∷ []

abbrev conversions : Conversions
conversions = record { round_int32 = λ v. pos 0; floor_uint32 = λ v. 0; of_uint32 = λ n. zero32 }

abbrev float_binding : OutputBinding
float_binding = record {
  parameter = 3;
  address = address;
  operation = output_direct_float;
  wire_kind = scalar_float32;
  weight = 0;
  quantize_max = 0;
  range = record { lowest = zero32; highest = one32 };
  has_range = true;
  cache_index = 0;
}

abbrev bool_binding : OutputBinding
bool_binding = record float_binding {
  parameter = 4;
  operation = output_direct_bool;
  wire_kind = scalar_true;
}

abbrev values : ValueSource
values = record { float = λ id. (one32, true); bool = λ id. (true, true) }

abbrev ready : ParameterSender
ready = set_catalog (some (record { hash = 1; outputs = float_binding ∷ bool_binding ∷ [] })) (
    new_parameter_sender true
      (record { float_epsilon = zero32; max_datagram = pos 32; use_bundles = true }))

ready_limit : ltb_ℤ (pos max_int32) ready.config.max_datagram ≡ false
unfolding set_catalog new_parameter_sender
ready_limit = refl

send-Delivered_example :
    All
      (Delivered ready.config.max_datagram)
      (send first_operand conversions
        (λ n packet. true)
        values
        ready
        (record { sent = []; attempts = 0 })).1.sent
send-Delivered_example =
    send-Delivered first_operand conversions (λ n packet. true) values ready ready_limit

-- The second message has no room behind the first, which goes out before it.
two_datagrams :
    length
      (send first_operand conversions
        (λ n packet. true)
        values
        ready
        (record { sent = []; attempts = 0 })).1.sent
    ≡ 2
unfolding send send_bundle batch_outputs batch_output batch_value append_or_send flush_bundle
    transmit changed commit_all commit send_message evaluate_output float_output scalar_from_float
    scalar_from_bool clamp_output clamp_between set_catalog new_parameter_sender append_scalar
    scalar_message_size padded_string_size append_scalar_message put_size put_uint32 valid_address
    has_prefix contains_nul type_tag write_padded_string pad scalar_equal le32 lt32 rank32 is_nan32
    finite32 abs32
two_datagrams = refl

append_scalar_message-marshal_message_example :
    bytes_of (append_scalar_message [] address (float_scalar one32))
    ≡ bytes_of (marshal_message (message_of address (float_scalar one32)))
append_scalar_message-marshal_message_example =
    append_scalar_message-marshal_message address (float_scalar one32)

-- The difference of a number and itself is zero.
abbrev exact : Arithmetic
exact = record first_operand { sub32 = λ a b. if a == b then zero32 else a }

scalar_equal_self : (v : ScalarValue) → scalar_equal exact v v ready.config.float_epsilon ≡ true
unfolding scalar_equal set_catalog new_parameter_sender le32 lt32 rank32 is_nan32 abs32
scalar_equal_self v =
    let kinds : (v.kind == v.kind) ≡ true = ground arith in
    let bits : (v.bits == v.bits) ≡ true = ground arith in
    elim (Bool-cases (v.kind == scalar_float32)) [
      | inl float ↦ rw (kinds, float, bits) refl
      | inr other ↦ rw (kinds, other, bits) refl
    ]

abbrev first : ParameterSender × Wire × Option SenderError
first = send exact conversions (λ n packet. true) values ready (record { sent = []; attempts = 0 })

first_succeeds : first.2 ≡ none
unfolding send send_bundle batch_outputs batch_output batch_value append_or_send flush_bundle
    transmit changed commit_all commit send_message evaluate_output float_output scalar_from_float
    scalar_from_bool clamp_output clamp_between set_catalog new_parameter_sender append_scalar
    scalar_message_size padded_string_size append_scalar_message put_size put_uint32 valid_address
    has_prefix contains_nul type_tag write_padded_string pad scalar_equal le32 lt32 rank32 is_nan32
    finite32 abs32
first_succeeds = refl

ready_catalog :
    ready.catalog ≡ some (record { hash = 1; outputs = float_binding ∷ bool_binding ∷ [] })
unfolding set_catalog
ready_catalog = refl

ready_size : length ready.last ≡ 2
unfolding set_catalog new_parameter_sender
ready_size = refl

send_repeat_example :
    send exact conversions (λ n packet. true) values first.0 first.1 ≡ (first.0, first.1, none)
send_repeat_example =
    send_repeat exact conversions (λ n packet. true) values ready
      (record { sent = []; attempts = 0 })
      (record { hash = 1; outputs = float_binding ∷ bool_binding ∷ [] }) ready_limit ready_catalog
      ready_size (λ v h. scalar_equal_self v, (λ v h. scalar_equal_self v, tt)) first_succeeds

abbrev float_bytes : Bytes
float_bytes = 47 ∷ 97 ∷ 0 ∷ 0 ∷ 44 ∷ 102 ∷ 0 ∷ 0 ∷ 63 ∷ 128 ∷ 0 ∷ 0 ∷ []

float_built : append_scalar_message [] address (float_scalar one32) ≡ ok float_bytes
unfolding append_scalar_message valid_address has_prefix contains_nul type_tag write_padded_string
    pad put_uint32
float_built = refl

scalar_message_size-length_example :
    (scalar_message_size address (float_scalar one32) ≡ ok (length float_bytes))
    × (length float_bytes % 4 ≡ 0)
scalar_message_size-length_example =
    scalar_message_size-length address float_bytes (float_scalar one32) float_built

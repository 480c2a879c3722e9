-- ===== src/Sender/Builder.antt =====
-- internal/osc/builder.go: messages and bundles built at the end of a buffer.
use vrcft_go.Base.{
  ℕ, ◌+◌, ◌-◌, ◌/◌, ◌*◌, Bool, true, false, not, ◌||◌, [], ◌∷◌, ◌++◌, ◌==◌, if◌then◌else◌, length,
  take, drop, Result, ok, ◌>>=◌, ◌>>◌, fail_if, ℤ, pos, ltb_ℤ, Bytes,
}
use vrcft_go.Osc.Values.{valid_address, put_uint32}
use vrcft_go.Osc.Padding.{write_padded_string}
use vrcft_go.Osc.Decode.{bundle_mark}
use vrcft_go.Sender.Scalar.{ScalarValue, scalar_float32, scalar_int32, type_tag}

pub data SenderError : Type 0 where
  invalid_address unsupported_type transport_failed no_transport : SenderError

abbrev pub immediate_bundle_header_size : ℕ
immediate_bundle_header_size = 16

-- `appendPaddedString` is the loop of `writePaddedString`.
unfoldable pub append_scalar_message : Bytes → Bytes → ScalarValue → Result SenderError Bytes
append_scalar_message buffer address value = do
  fail_if (not (valid_address address)) invalid_address
  fail_if (type_tag value == 0) unsupported_type
  ok (
      (write_padded_string buffer address ++ (b',' ∷ type_tag value ∷ 0 ∷ 0 ∷ []))
      ++ (if value.kind == scalar_float32 || value.kind == scalar_int32
          then put_uint32 value.bits
          else []))

-- `(len(value) + 4) &^ 3`.
unfoldable pub padded_string_size : Bytes → ℕ
padded_string_size value = (length value + 4) / 4 * 4

unfoldable pub scalar_message_size : Bytes → ScalarValue → Result SenderError ℕ
unfolding padded_string_size
scalar_message_size address value = do
  fail_if (not (valid_address address)) invalid_address
  fail_if (type_tag value == 0) unsupported_type
  ok (
      padded_string_size address
      + 4
      + (if value.kind == scalar_float32 || value.kind == scalar_int32 then 4 else 0))

-- The buffer after a reset: `#bundle` and the immediate time.
abbrev pub empty_bundle : Bytes
empty_bundle = bundle_mark ++ (0 ∷ 0 ∷ 0 ∷ 0 ∷ 0 ∷ 0 ∷ 0 ∷ 1 ∷ [])

abbrev pub is_empty_bundle : Bytes → Bool
is_empty_bundle buffer = length buffer == immediate_bundle_header_size

-- `PutUint32` at `offset`, of the number of bytes behind the four bytes there.
unfoldable pub put_size : ℕ → Bytes → Bytes
put_size offset buffer =
    take offset buffer ++ (put_uint32 (length buffer - (offset + 4)) ++ drop (offset + 4) buffer)

-- The buffer and whether the message was appended. The message is built behind the place of its size, which
-- is written afterwards.
unfoldable pub append_scalar : ℤ → Bytes → Bytes → ScalarValue → Result SenderError (Bytes × Bool)
append_scalar max_datagram buffer address value = do
  message_size ← scalar_message_size address value
  if ltb_ℤ max_datagram (pos (length buffer + 4 + message_size)) then ok (buffer, false) else (do
    extended ← append_scalar_message (buffer ++ (0 ∷ 0 ∷ 0 ∷ 0 ∷ [])) address value
    ok (put_size (length buffer) extended, true))

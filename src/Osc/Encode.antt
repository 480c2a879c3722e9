-- ===== src/Osc/Encode.antt =====
-- pkg/osc/packet.go: MarshalMessage.
use vrcft_go.Base.{
  ℕ, List, [], ◌∷◌, ◌++◌, ◌==◌, if◌then◌else◌, Result, ok, err, ◌>>=◌, ◌>>◌, fail_if, not, Bytes,
}
use vrcft_go.Osc.Values.{
  OscError, unsupported_type, invalid_address, invalid_argument, Value, Message, value_int32,
  value_float32, value_string, value_bool, contains_nul, valid_address, uint32_of, put_uint32,
}
use vrcft_go.Osc.Padding.{write_padded_string}

-- The type tag of one argument, or why it has none.
unfoldable pub tag_of : Value → Result OscError ℕ
tag_of v =
    if v.kind == value_int32
    then ok b'i'
    else if v.kind == value_float32
    then ok b'f'
    else if v.kind == value_string
    then (if contains_nul v.str then err invalid_argument else ok b's')
    else if v.kind == value_bool
    then ok (if v.bool then b'T' else b'F')
    else err unsupported_type

unfoldable pub tags_of : List Value → Result OscError Bytes
tags_of [] = ok []
tags_of (v ∷ vs) = do tag ← tag_of v; tags ← tags_of vs; ok (tag ∷ tags)

-- T and F have no bytes behind the tags.
unfoldable pub write_arg : Value → Bytes → Bytes
write_arg v out =
    if v.kind == value_int32
    then out ++ put_uint32 (uint32_of v.i32)
    else if v.kind == value_float32
    then out ++ put_uint32 v.f32
    else if v.kind == value_string
    then write_padded_string out v.str
    else out

unfoldable pub write_args : List Value → Bytes → Bytes
write_args [] out = out
write_args (v ∷ vs) out = write_args vs (write_arg v out)

unfoldable pub marshal_message : Message → Result OscError Bytes
marshal_message m = do
  fail_if (not (valid_address m.address)) invalid_address
  tags ← tags_of m.args
  ok (write_args m.args (write_padded_string (write_padded_string [] m.address) (b',' ∷ tags)))

-- ===== src/Osc/Decode.antt =====
-- pkg/osc/packet.go: UnmarshalPacket and MarshalBundle.
use vrcft_go.Base.{
  ℕ, zero, suc, ◌+◌, ◌-◌, ◌*◌, ◌/◌, ◌%◌, ◌^◌, true, false, not, ◌||◌, List, [], ◌∷◌, ◌++◌, ltb,
  ◌==◌, if◌then◌else◌, length, take, drop, Result, ok, err, ◌>>=◌, ◌>>◌, fail_if, ℤ, pos, negsuc,
  ◌+ℤ◌, bit_or, Bytes,
}
use vrcft_go.Osc.Values.{
  OscError, malformed_packet, unsupported_type, Value, int32, float32, string, bool_value, Message,
  Bundle, valid_address, has_prefix, int32_of, uint32_at, put_uint32, put_uint64,
}
use vrcft_go.Osc.Padding.{read_padded_string}

-- One argument by its tag, and the offset behind it.
unfoldable pub read_arg : ℕ → Bytes → ℕ → Result OscError (Value × ℕ)
read_arg tag packet offset =
    if tag == b'i'
    then (if ltb (length packet - offset) 4
        then err malformed_packet
        else ok (int32 (int32_of (uint32_at packet offset)), offset + 4))
    else if tag == b'f'
    then (if ltb (length packet - offset) 4
        then err malformed_packet
        else ok (float32 (uint32_at packet offset), offset + 4))
    else if tag == b's'
    then (do (value, next) ← read_padded_string packet offset; ok (string value, next))
    else if tag == b'T'
    then ok (bool_value true, offset)
    else if tag == b'F'
    then ok (bool_value false, offset)
    else err unsupported_type

-- The loop over the tags. Go takes them rune by rune: a rune of several bytes is no tag, nor is its first byte.
unfoldable pub read_args : Bytes → Bytes → ℕ → List Value → Result OscError (List Value × ℕ)
read_args [] packet offset args = ok (args, offset)
read_args (tag ∷ tags) packet offset args = do
  (value, next) ← read_arg tag packet offset
  read_args tags packet next (args ++ (value ∷ []))

-- What the tags begin with.
unfoldable pub read_tags : Bytes → Bytes → ℕ → Result OscError (List Value × ℕ)
read_tags [] packet offset = err malformed_packet
read_tags (comma ∷ tags) packet offset =
    if comma == b',' then read_args tags packet offset [] else err malformed_packet

unfoldable pub unmarshal_message : Bytes → Result OscError (Message × ℕ)
unmarshal_message packet = do
  (address, offset) ← read_padded_string packet 0
  fail_if (not (valid_address address)) malformed_packet
  (tags, offset) ← read_padded_string packet offset
  (args, offset) ← read_tags tags packet offset
  ok (record { address = address; args = args }, offset)

-- `#bundle` and a zero.
abbrev pub bundle_mark : Bytes
bundle_mark = b'#' ∷ b'b' ∷ b'u' ∷ b'n' ∷ b'd' ∷ b'l' ∷ b'e' ∷ 0 ∷ []

abbrev pub max_bundle_depth : ℕ
max_bundle_depth = 32

-- The size before an element, if the element is in the packet.
unfoldable pub element_size : Bytes → ℕ → Result OscError ℕ
element_size packet offset = elim (int32_of (uint32_at packet offset)) [
  | pos size ↦
      if size == 0 || ltb (length packet - (offset + 4)) size then err malformed_packet else ok size
  | negsuc _ ↦ err malformed_packet
]

-- The loop over a bundle's elements, with fuel for its rounds: each takes five bytes or more.
unfoldable pub read_elements :
    (Bytes → Result OscError (List Message))
    → ℕ
    → Bytes
    → ℕ
    → List Message
    → Result OscError (List Message)
read_elements decode zero packet offset messages = err malformed_packet
read_elements decode (suc fuel) packet offset messages = elim (ltb offset (length packet)) [
  | false ↦ ok messages
  | true ↦ do
    fail_if (ltb (length packet) (offset + 4)) malformed_packet
    size ← element_size packet offset
    decoded ← decode (take size (drop (offset + 4) packet))
    read_elements decode fuel packet (offset + 4 + size) (messages ++ decoded)
]

unfoldable pub unmarshal_bundle :
    (Bytes → Result OscError (List Message)) → Bytes → Result OscError (List Message)
unmarshal_bundle decode packet =
    if ltb (length packet) 16 || not (has_prefix packet bundle_mark)
    then err malformed_packet
    else read_elements decode (length packet) packet 16 []

unfoldable pub one_message : Bytes → Result OscError (List Message)
one_message packet = do
  (message, consumed) ← unmarshal_message packet
  fail_if (not (consumed == length packet)) malformed_packet
  ok (message ∷ [])

-- `unmarshalPacket` with the depths that are left: `maxBundleDepth + 1 - depth`.
unfoldable pub unmarshal_packet_at : ℕ → Bytes → Result OscError (List Message)
unmarshal_packet_at zero packet = err malformed_packet
unmarshal_packet_at (suc levels) packet =
    if ltb (length packet) 4
    then err malformed_packet
    else if has_prefix packet bundle_mark
    then unmarshal_bundle (unmarshal_packet_at levels) packet
    else one_message packet

unfoldable pub unmarshal_packet : Bytes → Result OscError (List Message)
unmarshal_packet packet = unmarshal_packet_at (suc max_bundle_depth) packet

abbrev pub max_int32 : ℕ
max_int32 = 2147483647

unfoldable pub write_elements : List Bytes → Bytes → Result OscError Bytes
write_elements [] out = ok out
write_elements (element ∷ rest) out = do
  fail_if (length element == 0 || ltb max_int32 (length element)) malformed_packet
  _ ← unmarshal_packet_at max_bundle_depth element
  write_elements rest ((out ++ put_uint32 (length element)) ++ element)

unfoldable pub marshal_bundle : Bundle → Result OscError Bytes
marshal_bundle b =
    write_elements b.elements (bundle_mark ++ put_uint64 (if b.timetag == 0 then 1 else b.timetag))

abbrev uint64_of : ℤ → ℕ
uint64_of (pos n) = n % 2 ^ 64
uint64_of (negsuc n) = 2 ^ 64 - 1 - n % 2 ^ 64

-- The OSC time of a wall clock's seconds since 1970 and nanoseconds.
unfoldable pub ntp_time : ℤ → ℕ → ℕ
ntp_time unix nanosecond =
    bit_or (uint64_of (unix +ℤ pos 2_208_988_800) * 2 ^ 32 % 2 ^ 64)
      (nanosecond * 2 ^ 32 / 1_000_000_000)

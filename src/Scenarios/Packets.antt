-- ===== src/Scenarios/Packets.antt =====
-- The theorems on OSC packets at a message with one argument of each kind, alone and in a bundle.
use vrcft_go.Base.{◌≡◌, refl, true, List, [], ◌∷◌, ok, negsuc, arith, Bytes}
use vrcft_go.Floats.{one32}
use vrcft_go.Osc.Values.{
  int32, float32, string, bool_value, Message, Bundle, valid_address, contains_nul, has_prefix,
  put_uint32, put_uint64, uint32_at,
}
use vrcft_go.Osc.Padding.{
  write_padded_string, pad, read_padded_string, read_terminated, align, index_nul, all_zero,
}
use vrcft_go.Osc.Encode.{marshal_message, tags_of, tag_of, write_args, write_arg}
use vrcft_go.Osc.Decode.{
  unmarshal_packet, unmarshal_packet_at, marshal_bundle, write_elements, one_message,
  unmarshal_message, read_tags, read_args, read_arg,
}
use vrcft_go.Osc.Messages.{as_decoded, unmarshal_packet-marshal_message}
use vrcft_go.Osc.Elements.{decode_all}
use vrcft_go.Osc.Bundles.{unmarshal_packet-marshal_bundle}

abbrev message : Message
message = record {
  address = b'/' ∷ b'a' ∷ [];
  args = int32 (negsuc 1) ∷ float32 one32 ∷ string (b'x' ∷ []) ∷ bool_value true ∷ [];
}

abbrev message_bytes : Bytes
message_bytes =
    47 ∷ 97 ∷ 0 ∷ 0 ∷ 44 ∷ 105 ∷ 102 ∷ 115 ∷ 84 ∷ 0 ∷ 0 ∷ 0 ∷ 255 ∷ 255 ∷ 255 ∷ 254 ∷ 63 ∷ 128 ∷ 0
    ∷ 0 ∷ 120 ∷ 0 ∷ 0 ∷ 0 ∷ []

abbrev bundle : Bundle
bundle = record { timetag = 0; elements = message_bytes ∷ message_bytes ∷ [] }

abbrev bundle_bytes : Bytes
bundle_bytes =
    35 ∷ 98 ∷ 117 ∷ 110 ∷ 100 ∷ 108 ∷ 101 ∷ 0 ∷ 0 ∷ 0 ∷ 0 ∷ 0 ∷ 0 ∷ 0 ∷ 0 ∷ 1 ∷ 0 ∷ 0 ∷ 0 ∷ 24 ∷ 47
    ∷ 97 ∷ 0 ∷ 0 ∷ 44 ∷ 105 ∷ 102 ∷ 115 ∷ 84 ∷ 0 ∷ 0 ∷ 0 ∷ 255 ∷ 255 ∷ 255 ∷ 254 ∷ 63 ∷ 128 ∷ 0 ∷ 0
    ∷ 120 ∷ 0 ∷ 0 ∷ 0 ∷ 0 ∷ 0 ∷ 0 ∷ 24 ∷ 47 ∷ 97 ∷ 0 ∷ 0 ∷ 44 ∷ 105 ∷ 102 ∷ 115 ∷ 84 ∷ 0 ∷ 0 ∷ 0
    ∷ 255 ∷ 255 ∷ 255 ∷ 254 ∷ 63 ∷ 128 ∷ 0 ∷ 0 ∷ 120 ∷ 0 ∷ 0 ∷ 0 ∷ []

message_encodes : marshal_message message ≡ ok message_bytes
unfolding marshal_message valid_address has_prefix contains_nul tags_of tag_of write_padded_string
    pad write_args write_arg put_uint32
message_encodes = refl

unmarshal_packet-marshal_message_example :
    unmarshal_packet_at 3 message_bytes ≡ ok (as_decoded message ∷ [])
unmarshal_packet-marshal_message_example =
    unmarshal_packet-marshal_message 2 message message_bytes message_encodes (omega arith)

bundle_encodes : marshal_bundle bundle ≡ ok bundle_bytes
unfolding marshal_bundle write_elements unmarshal_packet_at has_prefix one_message unmarshal_message
    read_padded_string read_terminated align index_nul all_zero valid_address contains_nul read_tags
    read_args read_arg uint32_at put_uint32 put_uint64
bundle_encodes = refl

unmarshal_packet-marshal_bundle_example :
    (messages : List Message) × (decode_all bundle.elements ≡ ok messages)
    × (unmarshal_packet bundle_bytes ≡ ok messages)
unmarshal_packet-marshal_bundle_example =
    unmarshal_packet-marshal_bundle bundle bundle_bytes bundle_encodes

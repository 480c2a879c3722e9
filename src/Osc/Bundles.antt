-- ===== src/Osc/Bundles.antt =====
-- pkg/osc/packet.go: UnmarshalPacket takes what MarshalBundle gives, and its loops end.
use vrcft_go.Base.{
  ℕ, suc, ◌+◌, ◌≡◌, refl, ap, subst, ◌∙◌, All, true, false, List, [], ◌++◌, ltb, ◌==◌,
  if◌then◌else◌, length, length-append, ok, Bytes, arith,
}
use vrcft_go.Osc.Values.{Message, Bundle, has_prefix, put_uint64}
use vrcft_go.Osc.Elements.{
  wire, decode_all, Sized, write_elements-wire, read_elements-wire, length-wire,
}
use vrcft_go.Osc.Decode.{
  read_elements, unmarshal_bundle, unmarshal_packet_at, unmarshal_packet, bundle_mark,
  max_bundle_depth, marshal_bundle,
}

length-put_uint64 : (v : ℕ) → length (put_uint64 v) ≡ 8
unfolding put_uint64
length-put_uint64 v = refl

has_prefix-bundle_mark : (rest : Bytes) → has_prefix (bundle_mark ++ rest) bundle_mark ≡ true
unfolding has_prefix
has_prefix-bundle_mark rest = refl

unmarshal_packet_at_bundle :
    (levels : ℕ) (bytes : Bytes)
    → ltb (length bytes) 4 ≡ false
    → ltb (length bytes) 16 ≡ false
    → has_prefix bytes bundle_mark ≡ true
    → unmarshal_packet_at (suc levels) bytes
      ≡ read_elements (unmarshal_packet_at levels) (length bytes) bytes 16 []
unfolding unmarshal_packet_at unmarshal_bundle
unmarshal_packet_at_bundle levels bytes long header mark = rw (long, mark, header) refl

-- Elements behind the header are decoded, whatever the time tag.
pub unmarshal_packet-wire :
    (tag : Bytes) (es : List Bytes) (messages : List Message)
    → length tag ≡ 8
    → All Sized es
    → decode_all es ≡ ok messages
    → unmarshal_packet ((bundle_mark ++ tag) ++ wire es) ≡ ok messages
unfolding unmarshal_packet
unmarshal_packet-wire tag es messages t all d =
    let bytes = (bundle_mark ++ tag) ++ wire es in
    let front : length (bundle_mark ++ tag) ≡ 16 = omega (arith, length-append bundle_mark tag) in
    let size : length bytes ≡ 16 + length (wire es) =
      omega (arith, length-append (bundle_mark ++ tag) (wire es)) in
    let long : ltb (length bytes) 4 ≡ false = ground arith in
    let header : ltb (length bytes) 16 ≡ false = ground arith in
    let wired =
      read_elements-wire (length bytes) es (bundle_mark ++ tag) [] messages
        (omega (arith, length-wire es)) all d in
    unmarshal_packet_at_bundle max_bundle_depth bytes long header
      (has_prefix-bundle_mark (tag ++ wire es))
    ∙ subst
        (λ n.
          read_elements (unmarshal_packet_at max_bundle_depth) (length bytes) bytes n []
          ≡ ok messages)
        front wired

-- A bundle that MarshalBundle encodes is decoded to the messages of its elements, in their order, each
-- element as it decodes inside a bundle; all of them do decode.
pub unmarshal_packet-marshal_bundle :
    (b : Bundle) (bytes : Bytes)
    → marshal_bundle b ≡ ok bytes
    → (messages : List Message) × (decode_all b.elements ≡ ok messages)
      × (unmarshal_packet bytes ≡ ok messages)
unfolding marshal_bundle
unmarshal_packet-marshal_bundle b bytes h =
    let tag = put_uint64 (if b.timetag == 0 then 1 else b.timetag) in
    let (shape, all, messages, d) = write_elements-wire b.elements (bundle_mark ++ tag) bytes h in
    (
      messages,
      d,
      ap unmarshal_packet shape
          ∙ unmarshal_packet-wire tag b.elements messages
              (length-put_uint64 (if b.timetag == 0 then 1 else b.timetag)) all d,
    )

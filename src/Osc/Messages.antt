-- ===== src/Osc/Messages.antt =====
-- pkg/osc/packet.go: UnmarshalPacket takes what MarshalMessage gives.
use mathlib.Core.List.{append_assoc, append-nil}
use vrcft_go.Base.{
  ℕ, suc, ◌≤◌, ◌≡◌, refl, sym, ap, subst, ◌∙◌, true, false, not, List, [], ◌∷◌, ◌++◌, map, ltb,
  ◌==◌, length, length-append, ok, >>=_inv, fail_if_inv, ok_inj, Bytes, arith, All,
}
use vrcft_go.Osc.Values.{Value, Message, contains_nul, has_prefix, valid_address}
use vrcft_go.Osc.Padding.{write_padded_string, read_padded_string}
use vrcft_go.Osc.Aligned.{
  read-write_padded_string, write_padded_string-extends, length-write_padded_string,
  write_padded_string-begins,
}
use vrcft_go.Osc.Encode.{tag_of, tags_of, write_args, marshal_message}
use vrcft_go.Osc.RoundTrip.{used, InRange, write_args-extends, read_args-write_args}
use vrcft_go.Osc.Decode.{
  read_tags, unmarshal_message, one_message, unmarshal_packet_at, bundle_mark,
}

tag_of-ne-zero : (v : Value) (tag : ℕ) → tag_of v ≡ ok tag → (tag == 0) ≡ false
unfolding tag_of
tag_of-ne-zero v tag h = ground arith

contains_nul-tags :
    (vs : List Value) (tags : Bytes) → tags_of vs ≡ ok tags → contains_nul tags ≡ false
unfolding tags_of contains_nul
contains_nul-tags [] tags h = rw (← ok_inj [] tags h) refl
contains_nul-tags (v ∷ vs) tags h =
    let (tag, e, k) = >>=_inv (tag_of v) _ _ h in
    let (more, d, j) = >>=_inv (tags_of vs) _ _ k in
    rw (← ok_inj (tag ∷ more) tags j, tag_of-ne-zero v tag e) (contains_nul-tags vs more d)

comma_clean : (tags : Bytes) → contains_nul tags ≡ false → contains_nul (b',' ∷ tags) ≡ false
unfolding contains_nul
comma_clean tags h = h

address_clean : (a : Bytes) → valid_address a ≡ true → contains_nul a ≡ false
unfolding valid_address
address_clean a h = ground arith

-- The message that is decoded: each value with only the field of its kind.
abbrev pub as_decoded : Message → Message
as_decoded m = record { address = m.address; args = map used m.args }

module _ (m : Message) (tags rest : Bytes) where
  abbrev named : Bytes
  named = write_padded_string [] m.address

  abbrev tagged : Bytes
  tagged = write_padded_string named (b',' ∷ tags)

  abbrev packet : Bytes
  packet = write_args m.args tagged ++ rest

  unmarshal_message-packet :
      valid_address m.address ≡ true
      → tags_of m.args ≡ ok tags
      → All InRange m.args
      → unmarshal_message packet ≡ ok (as_decoded m, length (write_args m.args tagged))
  unfolding unmarshal_message read_tags
  unmarshal_message-packet v t r =
      let (after_tags, e) = write_args-extends m.args tagged in
      let (after_name, d) = write_padded_string-extends named (b',' ∷ tags) in
      let second : read_padded_string packet (length named) ≡ ok (b',' ∷ tags, length tagged) =
        rw (e, append_assoc tagged after_tags rest)
          (read-write_padded_string named (b',' ∷ tags) (after_tags ++ rest)
            (comma_clean tags (contains_nul-tags m.args tags t))) in
      let shape : packet ≡ named ++ ((after_name ++ after_tags) ++ rest) =
        ap (λ b. b ++ rest)
          (e ∙ ap (λ b. b ++ after_tags) d ∙ append_assoc named after_name after_tags)
        ∙ append_assoc named (after_name ++ after_tags) rest in
      let first : read_padded_string packet 0 ≡ ok (m.address, length named) = rw shape (
        read-write_padded_string [] m.address ((after_name ++ after_tags) ++ rest)
          (address_clean m.address v)) in
      rw (first, v, second, read_args-write_args m.args tags tagged rest [] t r) refl

marshal_message_inv :
    (m : Message) (bytes : Bytes)
    → marshal_message m ≡ ok bytes
    → (valid_address m.address ≡ true)
      × (tags : Bytes) × (tags_of m.args ≡ ok tags)
      × (write_args m.args (write_padded_string (write_padded_string [] m.address) (b',' ∷ tags))
          ≡ bytes)
unfolding marshal_message
marshal_message_inv m bytes h =
    let (v, k) = fail_if_inv (not (valid_address m.address)) _ _ bytes h in
    let (tags, t, j) = >>=_inv (tags_of m.args) _ _ k in (ground arith, tags, t, ok_inj _ _ j)

slash_first :
    (address : Bytes) (tail : Bytes)
    → valid_address address ≡ true
    → has_prefix (address ++ tail) bundle_mark ≡ false
unfolding valid_address has_prefix
slash_first [] tail h = ground arith
slash_first (c ∷ address) tail h = ground arith

-- A message that is encoded takes four bytes or more, is no bundle, and is decoded whole.
decodes_whole :
    (m : Message) (bytes : Bytes)
    → marshal_message m ≡ ok bytes
    → All InRange m.args
    → (unmarshal_message bytes ≡ ok (as_decoded m, length bytes))
      × (has_prefix bytes bundle_mark ≡ false)
      × (4 ≤ length bytes)
decodes_whole m bytes h r =
    let (v, tags, t, e) = marshal_message_inv m bytes h in
    let (after_tags, f) = write_args-extends m.args (tagged m tags []) in
    let (after_name, d) = write_padded_string-extends (named m tags []) (b',' ∷ tags) in
    let (behind, b) = write_padded_string-begins m.address in
    let shape : bytes ≡ named m tags [] ++ (after_name ++ after_tags) =
      sym e
      ∙ f
      ∙ ap (λ b. b ++ after_tags) d
      ∙ append_assoc (named m tags []) after_name after_tags in
    let start : bytes ≡ m.address ++ (behind ++ (after_name ++ after_tags)) =
      shape ∙ ap (λ b. b ++ (after_name ++ after_tags)) b ∙ append_assoc m.address behind _ in
    let whole : packet m tags [] ≡ bytes = append-nil _ ∙ e in
    (
      subst (λ p. unmarshal_message p ≡ ok (as_decoded m, length bytes)) whole
          (unmarshal_message-packet m tags [] v t r ∙ ap (λ p. ok (as_decoded m, length p)) e),
      subst (λ p. has_prefix p bundle_mark ≡ false) (sym start) (slash_first m.address _ v),
      subst (λ p. 4 ≤ length p) (sym shape)
          (omega (
            arith,
            length-append (named m tags []) (after_name ++ after_tags),
            length-write_padded_string m.address,
          )),
    )

-- What MarshalMessage gives is decoded, at every depth of bundles that is allowed, to the message
-- with the same address and the same arguments, each with only the field of its kind, where the
-- arguments' numbers are an int32's and a float32's.
pub unmarshal_packet-marshal_message :
    (levels : ℕ) (m : Message) (bytes : Bytes)
    → marshal_message m ≡ ok bytes
    → All InRange m.args
    → unmarshal_packet_at (suc levels) bytes ≡ ok (as_decoded m ∷ [])
unfolding unmarshal_packet_at one_message
unmarshal_packet-marshal_message levels m bytes h r =
    let (decoded, mark, long) = decodes_whole m bytes h r in
    let enough : ltb (length bytes) 4 ≡ false = ground arith in
    let full : (length bytes == length bytes) ≡ true = ground arith in
    rw (enough, mark, decoded, full) refl

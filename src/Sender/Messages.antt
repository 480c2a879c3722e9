-- ===== src/Sender/Messages.antt =====
-- internal/osc/builder.go: the messages that are built are those that pkg/osc encodes.
use mathlib.Core.List.{append_assoc, append-nil}
use vrcft_go.Base.{
  ℕ, ◌+◌, ◌-◌, ◌%◌, ◌^◌, ◌<◌, ◌≡◌, refl, sym, ap, subst, ◌∙◌, true, false, not, ◌||◌, [], ◌∷◌, ◌++◌,
  Option, none, some, ◌==◌, if◌then◌else◌, length, length-append, replicate, Result, ok, err, ◌>>=◌,
  fail_if_inv, ok_inj, pos, Bytes, arith, Bool-cases, inl, inr,
}
use vrcft_go.Floats.{zero32}
use vrcft_go.Osc.Values.{
  OscError, Value, Message, int32, float32, bool_value, valid_address, put_uint32, uint32_of,
  int32_of,
}
use vrcft_go.Osc.Padding.{write_padded_string, pad, align}
use vrcft_go.Osc.Aligned.{align-bounds, length-pad, pad_lem, zeros}
use vrcft_go.Osc.Encode.{tag_of, tags_of, write_arg, write_args, marshal_message}
use vrcft_go.Sender.Scalar.{
  ScalarValue, scalar_float32, scalar_int32, scalar_false, scalar_true, type_tag,
}
use vrcft_go.Sender.Builder.{append_scalar_message, scalar_message_size, padded_string_size}

-- The argument that a scalar stands for.
abbrev pub argument : ScalarValue → Value
argument v =
    if v.kind == scalar_float32
    then float32 (v.bits % 2 ^ 32)
    else if v.kind == scalar_int32
    then int32 (int32_of (v.bits % 2 ^ 32))
    else if v.kind == scalar_false
    then bool_value false
    else if v.kind == scalar_true
    then bool_value true
    else record { kind = 0; i32 = pos 0; f32 = zero32; str = []; bool = false }

abbrev pub message_of : Bytes → ScalarValue → Message
message_of address v = record { address = address; args = argument v ∷ [] }

-- The bytes, without the kind of the error.
abbrev pub bytes_of {ℓ} : {E : Type ℓ} → Result E Bytes → Option Bytes
bytes_of (ok bytes) = some bytes
bytes_of (err e) = none

pub length-write_padded_string_mod :
    (out value : Bytes) → length (write_padded_string out value) % 4 ≡ 0
unfolding write_padded_string
length-write_padded_string_mod out value = omega (
  arith,
  length-pad 3 ((out ++ value) ++ (0 ∷ [])),
  align-bounds (length ((out ++ value) ++ (0 ∷ []))),
)

align-shift : (l m : ℕ) → l % 4 ≡ 0 → align 3 (l + m) ≡ l + align 3 m
unfolding align
align-shift l m h = ground arith

-- Behind a buffer of whole words a padded string is the one that stands alone.
pub write_padded_string-behind :
    (out value : Bytes)
    → length out % 4 ≡ 0
    → write_padded_string out value ≡ out ++ write_padded_string [] value
unfolding write_padded_string
write_padded_string-behind out value h =
    let alone = value ++ (0 ∷ []) in
    let whole = (out ++ value) ++ (0 ∷ []) in
    let same : whole ≡ out ++ alone = append_assoc out value (0 ∷ []) in
    let size : length whole ≡ length out + length alone =
      ap length same ∙ length-append out alone in
    let fill : align 3 (length whole) - length whole ≡ align 3 (length alone) - length alone =
      rw size (rw (align-shift (length out) (length alone) h) (omega arith)) in
    pad_lem 3 whole
    ∙ ap (λ k. whole ++ replicate k 0) fill
    ∙ ap (λ t. t ++ zeros 3 alone) same
    ∙ append_assoc out alone (zeros 3 alone)
    ∙ ap (λ t. out ++ t) (sym (pad_lem 3 alone))

-- A tag between a comma and two zeros is a padded string of its own.
tag_word :
    (out : Bytes) (tag : ℕ)
    → length out % 4 ≡ 0
    → write_padded_string out (b',' ∷ tag ∷ []) ≡ out ++ (b',' ∷ tag ∷ 0 ∷ 0 ∷ [])
unfolding write_padded_string pad
tag_word out tag h = write_padded_string-behind out (b',' ∷ tag ∷ []) h

put_uint32-mod : (v : ℕ) → put_uint32 (v % 2 ^ 32) ≡ put_uint32 v
unfolding put_uint32
put_uint32-mod v = ground arith

uint32_of-int32_of : (u : ℕ) → u < 2 ^ 32 → uint32_of (int32_of u) ≡ u
uint32_of-int32_of u h = ground arith

-- The bytes behind the tags.
abbrev payload : ScalarValue → Bytes
payload v = if v.kind == scalar_float32 || v.kind == scalar_int32 then put_uint32 v.bits else []

write_arg-argument : (v : ScalarValue) (out : Bytes) → write_arg (argument v) out ≡ out ++ payload v
unfolding write_arg
write_arg-argument v out = elim (Bool-cases (v.kind == scalar_float32)) [
  | inl a ↦ rw a (ap (λ t. out ++ t) (put_uint32-mod v.bits))
  | inr a ↦ rw a (elim (Bool-cases (v.kind == scalar_int32)) [
    | inl b ↦ rw b (
        ap (λ t. out ++ put_uint32 t) (uint32_of-int32_of (v.bits % 2 ^ 32) (omega arith))
        ∙ ap (λ t. out ++ t) (put_uint32-mod v.bits))
    | inr b ↦ rw b (elim (Bool-cases (v.kind == scalar_false)) [
      | inl c ↦ rw c (sym (append-nil out))
      | inr c ↦ rw c (elim (Bool-cases (v.kind == scalar_true)) [
        | inl d ↦ rw d (sym (append-nil out))
        | inr d ↦ rw d (sym (append-nil out))
      ])
    ])
  ])
]

tag_of-argument :
    (v : ScalarValue)
    → ((type_tag v == 0) ≡ true → tag_of (argument v) ≡ err OscError.unsupported_type)
      × ((type_tag v == 0) ≡ false → tag_of (argument v) ≡ ok (type_tag v))
unfolding tag_of type_tag
tag_of-argument v = elim (Bool-cases (v.kind == scalar_float32)) [
  | inl a ↦ rw a (λ h. ground arith, λ h. refl)
  | inr a ↦ rw a (elim (Bool-cases (v.kind == scalar_int32)) [
    | inl b ↦ rw b (λ h. ground arith, λ h. refl)
    | inr b ↦ rw b (elim (Bool-cases (v.kind == scalar_false)) [
      | inl c ↦ rw c (λ h. ground arith, λ h. refl)
      | inr c ↦ rw c (elim (Bool-cases (v.kind == scalar_true)) [
        | inl d ↦ rw d (λ h. ground arith, λ h. refl)
        | inr d ↦ rw d (λ h. refl, λ h. ground arith)
      ])
    ])
  ])
]

-- For every address and every scalar, what the builder writes into an empty buffer is what pkg/osc's
-- MarshalMessage encodes for the message with that address and the one argument of the scalar's kind, and the
-- builder fails exactly when that fails.
pub append_scalar_message-marshal_message :
    (address : Bytes) (v : ScalarValue)
    → bytes_of (append_scalar_message [] address v)
      ≡ bytes_of (marshal_message (message_of address v))
unfolding append_scalar_message marshal_message tags_of write_args
append_scalar_message-marshal_message address v = elim (Bool-cases (valid_address address)) [
  | inr bad ↦ rw bad refl
  | inl good ↦ rw good (elim (Bool-cases (type_tag v == 0)) [
    | inl none_such ↦ rw (none_such, (tag_of-argument v).0 none_such) refl
    | inr tagged ↦
        let named = write_padded_string [] address in
        let words = tag_word named (type_tag v) (length-write_padded_string_mod [] address) in
        rw (tagged, (tag_of-argument v).1 tagged)
          (ap some (
            ap (λ t. t ++ payload v) (sym words)
            ∙ sym (write_arg-argument v (write_padded_string named (b',' ∷ type_tag v ∷ [])))))
  ])
]

-- Behind a buffer of whole words the builder appends what it writes alone.
pub append_scalar_message-behind :
    (buffer address : Bytes) (v : ScalarValue)
    → length buffer % 4 ≡ 0
    → append_scalar_message buffer address v
      ≡ (append_scalar_message [] address v >>= λ m. ok (buffer ++ m))
unfolding append_scalar_message
append_scalar_message-behind buffer address v h = elim (Bool-cases (valid_address address)) [
  | inr bad ↦ rw bad refl
  | inl good ↦ rw good (elim (Bool-cases (type_tag v == 0)) [
    | inl none_such ↦ rw none_such refl
    | inr tagged ↦
        let tag = b',' ∷ type_tag v ∷ 0 ∷ 0 ∷ [] in
        rw (tagged, write_padded_string-behind buffer address h)
          (ap ok (
            ap (λ t. t ++ payload v) (append_assoc buffer (write_padded_string [] address) tag)
            ∙ append_assoc buffer (write_padded_string [] address ++ tag) (payload v)))
  ])
]

length-padded :
    (address : Bytes) → length (write_padded_string [] address) ≡ padded_string_size address
unfolding write_padded_string padded_string_size align
length-padded address =
    length-pad 3 (address ++ (0 ∷ [])) ∙ ground (arith, length-append address (0 ∷ []))

length-payload :
    (v : ScalarValue)
    → length (payload v) ≡ (if v.kind == scalar_float32 || v.kind == scalar_int32 then 4 else 0)
unfolding put_uint32
length-payload v = elim (Bool-cases (v.kind == scalar_float32 || v.kind == scalar_int32)) [
  | inl a ↦ rw a refl
  | inr a ↦ rw a refl
]

-- Where the builder writes a message into an empty buffer, the size that is computed before is the length of
-- what is written, which is a multiple of four.
pub scalar_message_size-length :
    (address m : Bytes) (v : ScalarValue)
    → append_scalar_message [] address v ≡ ok m
    → (scalar_message_size address v ≡ ok (length m)) × (length m % 4 ≡ 0)
unfolding append_scalar_message scalar_message_size
scalar_message_size-length address m v h =
    let (good, k) = fail_if_inv (not (valid_address address)) _ _ m h in
    let (tagged, j) = fail_if_inv (type_tag v == 0) _ _ m k in
    let e = ok_inj _ m j in
    let named = write_padded_string [] address in
    let tag = b',' ∷ type_tag v ∷ 0 ∷ 0 ∷ [] in
    let size : length ((named ++ tag) ++ payload v)
        ≡ padded_string_size address
          + 4
          + (if v.kind == scalar_float32 || v.kind == scalar_int32 then 4 else 0) =
      omega (
        arith,
        length-append (named ++ tag) (payload v),
        length-append named tag,
        length-padded address,
        length-payload v,
      ) in
    (
      rw (good, tagged) (ap ok (sym size ∙ ap length e)),
      subst (λ t. length t % 4 ≡ 0) e (subst (λ n. n % 4 ≡ 0) (sym size) (ground arith)),
    )

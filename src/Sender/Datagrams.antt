-- ===== src/Sender/Datagrams.antt =====
-- internal/osc/sender.go: every datagram that is sent can be decoded, and has a place in its limit.
use mathlib.Core.List.{append_assoc, append-nil}
use vrcft_go.Base.{
  ℕ, suc, ◌+◌, ◌-◌, ◌%◌, ◌^◌, ◌≤◌, ◌<◌, ◌≡◌, refl, sym, ap, subst, ◌∙◌, Bool, true, false, not,
  List, [], ◌∷◌, ◌++◌, some, ◌==◌, if◌then◌else◌, All, length, length-append, take, drop,
  take-append, drop-append, Result, ok, err, >>=_inv, ok_inj, fail_if_inv, ℤ, pos, negsuc, ltb_ℤ,
  Bytes, arith, Bool-cases, inl, inr,
}
use vrcft_go.Osc.Values.{Message, InInt32, valid_address, put_uint32, int32_of}
use vrcft_go.Osc.RoundTrip.{InRange, length-put_uint32}
use vrcft_go.Osc.Encode.{marshal_message}
use vrcft_go.Osc.Decode.{unmarshal_packet_at, max_bundle_depth, max_int32}
use vrcft_go.Osc.Messages.{as_decoded, unmarshal_packet-marshal_message}
use vrcft_go.Osc.Elements.{wire, decode_all, Sized}
use vrcft_go.Sender.Scalar.{
  ScalarValue, type_tag, scalar_float32, scalar_int32, scalar_false, scalar_true,
}
use vrcft_go.Sender.Builder.{
  SenderError, append_scalar_message, scalar_message_size, put_size, append_scalar, empty_bundle,
  is_empty_bundle,
}
use vrcft_go.Sender.Messages.{
  message_of, argument, bytes_of, append_scalar_message-marshal_message,
  append_scalar_message-behind, scalar_message_size-length,
}

bytes_of_inv : {E : Type 0} → (r : Result E Bytes) (m : Bytes) → some m ≡ bytes_of r → r ≡ ok m
bytes_of_inv (ok bytes) m h = ground arith
bytes_of_inv (err e) m h = ground arith

encoded :
    (address m : Bytes) (v : ScalarValue)
    → append_scalar_message [] address v ≡ ok m
    → marshal_message (message_of address v) ≡ ok m
encoded address m v h =
    bytes_of_inv (marshal_message (message_of address v)) m
      (sym (ap bytes_of h) ∙ append_scalar_message-marshal_message address v)

int32_of-InInt32 : (u : ℕ) → u < 2 ^ 32 → InInt32 (int32_of u)
int32_of-InInt32 u h = ground arith

argument-InRange : (v : ScalarValue) → InRange (argument v)
argument-InRange v = elim (Bool-cases (v.kind == scalar_float32)) [
  | inl a ↦ rw a (omega arith, omega arith)
  | inr a ↦ rw a (elim (Bool-cases (v.kind == scalar_int32)) [
    | inl b ↦ rw b (int32_of-InInt32 (v.bits % 2 ^ 32) (omega arith), omega arith)
    | inr b ↦ rw b (elim (Bool-cases (v.kind == scalar_false)) [
      | inl c ↦ rw c (omega arith, omega arith)
      | inr c ↦ rw c (elim (Bool-cases (v.kind == scalar_true)) [
        | inl d ↦ rw d (omega arith, omega arith)
        | inr d ↦ rw d (omega arith, omega arith)
      ])
    ])
  ])
]

-- A message that was built alone decodes, alone and inside a bundle.
pub decodes :
    (levels : ℕ) (address m : Bytes) (v : ScalarValue)
    → append_scalar_message [] address v ≡ ok m
    → unmarshal_packet_at (suc levels) m ≡ ok (as_decoded (message_of address v) ∷ [])
decodes levels address m v h =
    unmarshal_packet-marshal_message levels (message_of address v) m (encoded address m v h)
      (argument-InRange v, tt)

pub All-snoc :
    (P : Bytes → Type 0) (xs : List Bytes) (x : Bytes) → All P xs → P x → All P (xs ++ (x ∷ []))
All-snoc P [] x a p = (p, tt)
All-snoc P (y ∷ xs) x (b, a) p = (b, All-snoc P xs x a p)

wire-append :
    (es : List Bytes) (e : Bytes) → wire (es ++ (e ∷ [])) ≡ wire es ++ (put_uint32 (length e) ++ e)
wire-append [] e = ap (λ t. put_uint32 (length e) ++ t) (append-nil e)
wire-append (k ∷ es) e =
    ap (λ t. put_uint32 (length k) ++ (k ++ t)) (wire-append es e)
    ∙ ap (λ t. put_uint32 (length k) ++ t) (sym (append_assoc k (wire es) _))
    ∙ sym (append_assoc (put_uint32 (length k)) (k ++ wire es) _)

decode_all-append :
    (es : List Bytes) (e : Bytes) (ms ks : List Message)
    → decode_all es ≡ ok ms
    → unmarshal_packet_at max_bundle_depth e ≡ ok ks
    → decode_all (es ++ (e ∷ [])) ≡ ok (ms ++ ks)
decode_all-append [] e ms ks h k = rw (k, ← ok_inj [] ms h) (ap ok (append-nil ks))
decode_all-append (x ∷ es) e ms ks h k =
    let (a, first, j) = >>=_inv (unmarshal_packet_at max_bundle_depth x) _ _ h in
    let (b, rest, i) = >>=_inv (decode_all es) _ _ j in
    rw (first, decode_all-append es e b ks rest k, ← ok_inj (a ++ b) ms i)
      (ap ok (sym (append_assoc a b ks)))

-- The size is written into its place.
put_size-behind :
    (buffer m : Bytes)
    → put_size (length buffer) ((buffer ++ (0 ∷ 0 ∷ 0 ∷ 0 ∷ [])) ++ m)
      ≡ buffer ++ (put_uint32 (length m) ++ m)
unfolding put_size
put_size-behind buffer m =
    let place = 0 ∷ 0 ∷ 0 ∷ 0 ∷ [] in
    let whole = (buffer ++ place) ++ m in
    let size : length whole ≡ length buffer + 4 + length m =
      omega (arith, length-append (buffer ++ place) m, length-append buffer place) in
    let front : take (length buffer) whole ≡ buffer =
      ap (take (length buffer)) (append_assoc buffer place m) ∙ take-append buffer (place ++ m) in
    let back : drop (length buffer + 4) whole ≡ m =
      ap (λ n. drop n whole) (sym (length-append buffer place)) ∙ drop-append (buffer ++ place) m in
    let behind : length whole - (length buffer + 4) ≡ length m = omega arith in
    rw (front, back, behind) refl

size-bounds :
    (address : Bytes) (v : ScalarValue) (n : ℕ) → scalar_message_size address v ≡ ok n → 4 ≤ n
unfolding scalar_message_size
size-bounds address v n h =
    let (good, k) = fail_if_inv (not (valid_address address)) _ _ n h in
    let (tagged, j) = fail_if_inv (type_tag v == 0) _ _ n k in
    subst (λ t. 4 ≤ t) (ok_inj _ n j) (omega arith)

-- A buffer with the elements that are in it, which decode.
abbrev pub Building : Bytes → Type 0
Building buffer =
    (es : List Bytes) × (ms : List Message) × (buffer ≡ empty_bundle ++ wire es)
    × All Sized es
    × (decode_all es ≡ ok ms)
    × (length buffer % 4 ≡ 0)

abbrev pub Fits : ℤ → Bytes → Type 0
Fits max_datagram packet = ltb_ℤ max_datagram (pos (length packet)) ≡ false

short_enough :
    (limit : ℤ) (n : ℕ)
    → ltb_ℤ (pos max_int32) limit ≡ false
    → ltb_ℤ limit (pos n) ≡ false
    → n ≤ max_int32
short_enough (pos l) n h k = ground arith
short_enough (negsuc l) n h k = ground arith

size_of-built :
    (address m : Bytes) (v : ScalarValue) (n : ℕ)
    → append_scalar_message [] address v ≡ ok m
    → scalar_message_size address v ≡ ok n
    → (n ≡ length m) × (length m % 4 ≡ 0)
size_of-built address m v n h k =
    let (size, words) = scalar_message_size-length address m v h in
    (ok_inj n (length m) (sym k ∙ size), words)

-- A message that is appended is one more element.
Building-append :
    (buffer address m : Bytes) (v : ScalarValue)
    → Building buffer
    → append_scalar_message [] address v ≡ ok m
    → 4 ≤ length m
    → length m ≤ max_int32
    → length m % 4 ≡ 0
    → Building (buffer ++ (put_uint32 (length m) ++ m))
Building-append buffer address m v (es, ms, shape, sized, decoded, words) h long short whole =
    let one = as_decoded (message_of address v) ∷ [] in
    (
      es ++ (m ∷ []),
      ms ++ one,
      ap (λ b. b ++ (put_uint32 (length m) ++ m)) shape
          ∙ append_assoc empty_bundle (wire es) _
          ∙ ap (λ w. empty_bundle ++ w) (sym (wire-append es m)),
      All-snoc Sized es m sized (omega arith, short),
      decode_all-append es m ms one decoded (decodes 31 address m v h),
      (let size : length (buffer ++ (put_uint32 (length m) ++ m)) ≡ length buffer + (4 + length m) =
            omega (
              arith,
              length-append buffer (put_uint32 (length m) ++ m),
              length-append (put_uint32 (length m)) m,
              length-put_uint32 (length m),
            ) in
          subst (λ n. n % 4 ≡ 0) (sym size) (ground (arith, words, whole))),
    )

room_inv :
    (full : Bool) (buffer built : Bytes) (r : Result SenderError (Bytes × Bool))
    → (if full then ok (buffer, false) else r) ≡ ok (built, true)
    → (full ≡ false) × (r ≡ ok (built, true))
room_inv true buffer built r h = ground arith
room_inv false buffer built r h = (refl, h)

-- What an append that succeeds has written.
append_scalar_inv :
    (max_datagram : ℤ) (buffer address built : Bytes) (v : ScalarValue)
    → length buffer % 4 ≡ 0
    → append_scalar max_datagram buffer address v ≡ ok (built, true)
    → (m : Bytes) × (append_scalar_message [] address v ≡ ok m)
      × (scalar_message_size address v ≡ ok (length m))
      × (length m % 4 ≡ 0)
      × (ltb_ℤ max_datagram (pos (length buffer + 4 + length m)) ≡ false)
      × (built ≡ buffer ++ (put_uint32 (length m) ++ m))
unfolding append_scalar
append_scalar_inv max_datagram buffer address built v words h =
    let place = buffer ++ (0 ∷ 0 ∷ 0 ∷ 0 ∷ []) in
    let (n, size, k) = >>=_inv (scalar_message_size address v) _ _ h in
    let (room, j) = room_inv (ltb_ℤ max_datagram (pos (length buffer + 4 + n))) buffer built _ k in
    let (extended, e, i) = >>=_inv (append_scalar_message place address v) _ _ j in
    let whole : length place % 4 ≡ 0 =
      ground (arith, length-append buffer (0 ∷ 0 ∷ 0 ∷ 0 ∷ []), words) in
    let behind = sym (append_scalar_message-behind place address v whole) ∙ e in
    let (m, alone, q) = >>=_inv (append_scalar_message [] address v) _ _ behind in
    let (same, whole_m) = size_of-built address m v n alone size in
    (
      m,
      alone,
      rw (← same) size,
      whole_m,
      rw (← same) room,
      sym (ap (λ (p : Bytes × Bool). p.0) (ok_inj _ _ i))
          ∙ ap (put_size (length buffer)) (sym (ok_inj _ _ q))
          ∙ put_size-behind buffer m,
    )

-- An append that succeeds appends one whole element, stays within the limit, and leaves more than a header.
pub append_scalar-Building :
    (max_datagram : ℤ) (buffer address built : Bytes) (v : ScalarValue)
    → ltb_ℤ (pos max_int32) max_datagram ≡ false
    → Building buffer
    → append_scalar max_datagram buffer address v ≡ ok (built, true)
    → Building built × Fits max_datagram built × (is_empty_bundle built ≡ false)
append_scalar-Building max_datagram buffer address built v limit b h =
    let (es, ms, s, sized, d, words) = b in
    let (m, alone, size, whole, room, shape) =
      append_scalar_inv max_datagram buffer address built v words h in
    let total : length (buffer ++ (put_uint32 (length m) ++ m)) ≡ length buffer + 4 + length m =
      omega (
        arith,
        length-append buffer (put_uint32 (length m) ++ m),
        length-append (put_uint32 (length m)) m,
        length-put_uint32 (length m),
      ) in
    let short = short_enough max_datagram (length buffer + 4 + length m) limit room in
    rw shape (
      Building-append buffer address m v b alone (size-bounds address v (length m) size)
          (omega arith) whole,
      subst (λ n. ltb_ℤ max_datagram (pos n) ≡ false) (sym total) room,
      (let long : 16 ≤ length buffer =
            subst (λ n. 16 ≤ n) (sym (ap length s ∙ length-append empty_bundle (wire es)))
              (omega arith) in
          ground arith),
    )

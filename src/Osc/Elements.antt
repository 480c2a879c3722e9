-- ===== src/Osc/Elements.antt =====
-- pkg/osc/packet.go: the loop over a bundle's elements reads what MarshalBundle writes.
use mathlib.Core.List.{append_assoc, append-nil}
use vrcft_go.Base.{
  ℕ, zero, suc, ◌+◌, ◌-◌, ◌≤◌, ◌<◌, ◌≡◌, refl, sym, ap, subst, ◌∙◌, true, false, ◌||◌, List, [],
  ◌∷◌, ◌++◌, ltb, ◌==◌, length, length-append, take, drop, take-append, drop-append, Result, ok,
  ◌>>=◌, >>=_inv, fail_if_inv, ok_inj, pos, Bytes, arith, All,
}
use vrcft_go.Osc.Values.{OscError, Message, int32_of, put_uint32, uint32_at}
use vrcft_go.Osc.RoundTrip.{uint32_at-put_uint32, length-put_uint32}
use vrcft_go.Osc.Decode.{
  element_size, read_elements, unmarshal_packet_at, max_bundle_depth, max_int32, write_elements,
}

-- The elements one behind the other, each behind its size.
abbrev pub wire : List Bytes → Bytes
wire [] = []
wire (e ∷ es) = put_uint32 (length e) ++ (e ++ wire es)

-- Every element decoded inside a bundle, in their order.
abbrev pub decode_all : List Bytes → Result OscError (List Message)
decode_all [] = ok []
decode_all (e ∷ es) = do
  decoded ← unmarshal_packet_at max_bundle_depth e
  rest ← decode_all es
  ok (decoded ++ rest)

-- The sizes that an element may have.
abbrev pub Sized : Bytes → Type 0
Sized e = (0 < length e) × (length e ≤ max_int32)

pub write_elements-wire :
    (es : List Bytes) (out bytes : Bytes)
    → write_elements es out ≡ ok bytes
    → (bytes ≡ out ++ wire es)
      × All Sized es
      × (messages : List Message) × (decode_all es ≡ ok messages)
unfolding write_elements
write_elements-wire [] out bytes h = (sym (ok_inj out bytes h) ∙ sym (append-nil out), tt, [], refl)
write_elements-wire (e ∷ es) out bytes h =
    let (sized, k) = fail_if_inv (length e == 0 || ltb max_int32 (length e)) _ _ bytes h in
    let (decoded, d, j) = >>=_inv (unmarshal_packet_at max_bundle_depth e) _ _ k in
    let (shape, all, messages, m) =
      write_elements-wire es ((out ++ put_uint32 (length e)) ++ e) bytes j in
    (
      shape
          ∙ append_assoc (out ++ put_uint32 (length e)) e (wire es)
          ∙ append_assoc out (put_uint32 (length e)) (e ++ wire es),
      ((ground arith, ground arith), all),
      decoded ++ messages,
      rw (d, m) refl,
    )

element_size-wire :
    (pre e rest : Bytes)
    → Sized e
    → element_size (pre ++ (put_uint32 (length e) ++ (e ++ rest))) (length pre) ≡ ok (length e)
unfolding element_size
element_size-wire pre e rest (some_bytes, few_bytes) =
    let value : uint32_at (pre ++ (put_uint32 (length e) ++ (e ++ rest))) (length pre) ≡ length e =
      subst (λ p. uint32_at p (length pre) ≡ length e)
        (append_assoc pre (put_uint32 (length e)) (e ++ rest))
        (uint32_at-put_uint32 pre (e ++ rest) (length e) (omega arith)) in
    let positive : int32_of (length e) ≡ pos (length e) = ground arith in
    let whole : ltb (length (pre ++ (put_uint32 (length e) ++ (e ++ rest))) - (length pre + 4))
          (length e)
        ≡ false =
      ground (
        arith,
        length-append pre (put_uint32 (length e) ++ (e ++ rest)),
        length-append (put_uint32 (length e)) (e ++ rest),
        length-append e rest,
        length-put_uint32 (length e),
      ) in
    let some_size : (length e == 0) ≡ false = ground arith in
    rw (value, element_size) (rw (positive, some_size, whole) refl)

element-wire :
    (pre e rest : Bytes)
    → take (length e) (drop (length pre + 4) (pre ++ (put_uint32 (length e) ++ (e ++ rest)))) ≡ e
element-wire pre e rest =
    let front = pre ++ put_uint32 (length e) in
    let behind : length front ≡ length pre + 4 =
      omega (arith, length-append pre (put_uint32 (length e)), length-put_uint32 (length e)) in
    rw
      (
        ← behind,
        ← append_assoc pre (put_uint32 (length e)) (e ++ rest),
        drop-append front (e ++ rest),
      )
      (take-append e rest)

-- One round of the loop, at an element that decodes.
read_elements-step :
    (fuel : ℕ) (pre e rest : Bytes) (acc decoded : List Message)
    → Sized e
    → unmarshal_packet_at max_bundle_depth e ≡ ok decoded
    → read_elements
        (unmarshal_packet_at max_bundle_depth)
        (suc fuel)
        (pre ++ (put_uint32 (length e) ++ (e ++ rest)))
        (length pre)
        acc
      ≡ read_elements
          (unmarshal_packet_at max_bundle_depth)
          fuel
          (pre ++ (put_uint32 (length e) ++ (e ++ rest)))
          (length pre + 4 + length e)
          (acc ++ decoded)
unfolding read_elements
read_elements-step fuel pre e rest acc decoded s d =
    let packet = pre ++ (put_uint32 (length e) ++ (e ++ rest)) in
    let size : length packet ≡ length pre + 4 + length e + length rest = omega (
      arith,
      length-append pre (put_uint32 (length e) ++ (e ++ rest)),
      length-append (put_uint32 (length e)) (e ++ rest),
      length-append e rest,
      length-put_uint32 (length e),
    ) in
    let inside : ltb (length pre) (length packet) ≡ true = ground arith in
    let size_inside : ltb (length packet) (length pre + 4) ≡ false = ground arith in
    rw (inside, read_elements)
      (rw (size_inside, element_size-wire pre e rest s, element-wire pre e rest, d) refl)

pub read_elements-wire :
    (fuel : ℕ) (es : List Bytes) (pre : Bytes) (acc messages : List Message)
    → length es < fuel
    → All Sized es
    → decode_all es ≡ ok messages
    → read_elements (unmarshal_packet_at max_bundle_depth) fuel (pre ++ wire es) (length pre) acc
      ≡ ok (acc ++ messages)
unfolding read_elements
read_elements-wire zero es pre acc messages f s d = absurd (omega arith)
read_elements-wire (suc fuel) [] pre acc messages f s d =
    let done : ltb (length pre) (length (pre ++ [])) ≡ false =
      ground (arith, length-append pre []) in
    rw (done, read_elements) (rw (← ok_inj [] messages d) (ap ok (sym (append-nil acc))))
read_elements-wire (suc fuel) (e ∷ es) pre acc messages f (s, all) d =
    let (decoded, e_ok, k) = >>=_inv (unmarshal_packet_at max_bundle_depth e) _ _ d in
    let (rest, es_ok, j) = >>=_inv (decode_all es) _ _ k in
    let next = (pre ++ put_uint32 (length e)) ++ e in
    let behind : length next ≡ length pre + 4 + length e = omega (
      arith,
      length-append (pre ++ put_uint32 (length e)) e,
      length-append pre (put_uint32 (length e)),
      length-put_uint32 (length e),
    ) in
    let shape : next ++ wire es ≡ pre ++ wire (e ∷ es) =
      append_assoc (pre ++ put_uint32 (length e)) e (wire es)
      ∙ append_assoc pre (put_uint32 (length e)) (e ++ wire es) in
    read_elements-step fuel pre e (wire es) acc decoded s e_ok
    ∙ subst
        (λ n.
          read_elements (unmarshal_packet_at max_bundle_depth) fuel (pre ++ wire (e ∷ es)) n
            (acc ++ decoded)
          ≡ ok ((acc ++ decoded) ++ rest))
        behind
        (subst
          (λ p.
            read_elements (unmarshal_packet_at max_bundle_depth) fuel p (length next)
              (acc ++ decoded)
            ≡ ok ((acc ++ decoded) ++ rest))
          shape (read_elements-wire fuel es next (acc ++ decoded) rest (omega arith) all es_ok))
    ∙ ap ok
        (append_assoc acc decoded rest ∙ ap (λ t. acc ++ t) (ok_inj (decoded ++ rest) messages j))

pub length-wire : (es : List Bytes) → length es ≤ length (wire es)
length-wire [] = omega arith
length-wire (e ∷ es) = omega (
  arith,
  length-wire es,
  length-append (put_uint32 (length e)) (e ++ wire es),
  length-append e (wire es),
  length-put_uint32 (length e),
)

-- ===== src/Osc/RoundTrip.antt =====
-- pkg/osc/packet.go: a message is decoded as it was encoded.
use mathlib.Core.List.{append_assoc, append-nil}
use vrcft_go.Base.{
  ℕ, ◌-◌, ◌/◌, ◌%◌, ◌^◌, ◌<◌, ◌≡◌, refl, sym, ap, ◌∙◌, true, false, List, [], ◌∷◌, ◌++◌, map, ltb,
  ◌==◌, if◌then◌else◌, length, length-append, get_or-append, get_or-behind, ok, >>=_inv, ok_inj, ℤ,
  pos, negsuc, Bytes, arith, Bool-cases, inl, inr, All,
}
use vrcft_go.Osc.Values.{
  Value, int32, float32, string, bool_value, contains_nul, uint32_of, int32_of, InInt32, put_uint32,
  uint32_at, value_int32, value_float32, value_string,
}
use vrcft_go.Osc.Aligned.{read-write_padded_string, write_padded_string-extends}
use vrcft_go.Osc.Encode.{tag_of, tags_of, write_arg, write_args}
use vrcft_go.Osc.Decode.{read_arg, read_args}

-- The value with only the field of its kind.
abbrev pub used : Value → Value
used v =
    if v.kind == value_int32
    then int32 v.i32
    else if v.kind == value_float32
    then float32 v.f32
    else if v.kind == value_string
    then string v.str
    else bool_value v.bool

-- The numbers are those of an int32 and of a float32.
abbrev pub InRange : Value → Type 0
InRange v = InInt32 v.i32 × (v.f32 < 2 ^ 32)

int32_of-uint32_of : (z : ℤ) → InInt32 z → int32_of (uint32_of z) ≡ z
int32_of-uint32_of (pos n) h = ground arith
int32_of-uint32_of (negsuc n) h = ground arith

uint32_of-bound : (z : ℤ) → uint32_of z < 2 ^ 32
uint32_of-bound (pos n) = omega arith
uint32_of-bound (negsuc n) = omega arith

pub uint32_at-put_uint32 :
    (pre rest : Bytes) (v : ℕ)
    → v < 2 ^ 32
    → uint32_at ((pre ++ put_uint32 v) ++ rest) (length pre) ≡ v
unfolding uint32_at put_uint32
uint32_at-put_uint32 pre rest v h = rw (append_assoc pre (put_uint32 v) rest) (
    omega (
      arith,
      get_or-behind pre ((v / 2 ^ 16 % 256) ∷ (v / 2 ^ 8 % 256) ∷ (v % 256) ∷ rest)
          (v / 2 ^ 24 % 256) 0,
      get_or-append pre (put_uint32 v ++ rest) 1 0,
      get_or-append pre (put_uint32 v ++ rest) 2 0,
      get_or-append pre (put_uint32 v ++ rest) 3 0,
    ))

pub length-put_uint32 : (v : ℕ) → length (put_uint32 v) ≡ 4
unfolding put_uint32
length-put_uint32 v = refl

pub four_left :
    (pre four rest : Bytes)
    → length four ≡ 4
    → ltb (length ((pre ++ four) ++ rest) - length pre) 4 ≡ false
four_left pre four rest h = ground (arith, length-append (pre ++ four) rest, length-append pre four)

module _ (v : Value) (out rest : Bytes) (tag : ℕ) (tagged : tag_of v ≡ ok tag)
    (range : InRange v) where
  abbrev Reads : Type 0
  Reads =
      read_arg tag (write_arg v out ++ rest) (length out) ≡ ok (used v, length (write_arg v out))

  reads_int32 : (v.kind == value_int32) ≡ true → Reads
  unfolding read_arg write_arg tag_of
  reads_int32 a =
      let t : tag ≡ b'i' = ground arith in
      rw
        (
          t,
          a,
          four_left out (put_uint32 (uint32_of v.i32)) rest (length-put_uint32 (uint32_of v.i32)),
          uint32_at-put_uint32 out rest (uint32_of v.i32) (uint32_of-bound v.i32),
          int32_of-uint32_of v.i32 range.0,
          length-append out (put_uint32 (uint32_of v.i32)),
          length-put_uint32 (uint32_of v.i32),
        )
        refl

  reads_float32 : (v.kind == value_int32) ≡ false → (v.kind == value_float32) ≡ true → Reads
  unfolding read_arg write_arg tag_of
  reads_float32 n a =
      let t : tag ≡ b'f' = ground arith in
      rw
        (
          t,
          n,
          a,
          four_left out (put_uint32 v.f32) rest (length-put_uint32 v.f32),
          uint32_at-put_uint32 out rest v.f32 range.1,
          length-append out (put_uint32 v.f32),
          length-put_uint32 v.f32,
        )
        refl

  reads_string :
      (v.kind == value_int32) ≡ false
      → (v.kind == value_float32) ≡ false
      → (v.kind == value_string) ≡ true
      → Reads
  unfolding read_arg write_arg tag_of
  reads_string n m a =
      let t : (tag ≡ b's') × (contains_nul v.str ≡ false) = ground arith in
      rw (t.0, n, m, a, read-write_padded_string out v.str rest t.1) refl

  reads_bool :
      (v.kind == value_int32) ≡ false
      → (v.kind == value_float32) ≡ false
      → (v.kind == value_string) ≡ false
      → Reads
  unfolding read_arg write_arg tag_of
  reads_bool n m l = elim (Bool-cases v.bool) [
    | inl b ↦ let t : tag ≡ b'T' = ground arith in rw (t, n, m, l, b) refl
    | inr b ↦ let t : tag ≡ b'F' = ground arith in rw (t, n, m, l, b) refl
  ]

  read_arg-write_arg : Reads
  read_arg-write_arg = elim (Bool-cases (v.kind == value_int32)) [
    | inl a ↦ reads_int32 a
    | inr n ↦ elim (Bool-cases (v.kind == value_float32)) [
      | inl a ↦ reads_float32 n a
      | inr m ↦ elim (Bool-cases (v.kind == value_string)) [
        | inl a ↦ reads_string n m a
        | inr l ↦ reads_bool n m l
      ]
    ]
  ]

write_arg-extends : (v : Value) (out : Bytes) → (tail : Bytes) × (write_arg v out ≡ out ++ tail)
unfolding write_arg
write_arg-extends v out = elim (Bool-cases (v.kind == value_int32)) [
  | inl a ↦ (put_uint32 (uint32_of v.i32), rw a refl)
  | inr n ↦ elim (Bool-cases (v.kind == value_float32)) [
    | inl a ↦ (put_uint32 v.f32, rw (n, a) refl)
    | inr m ↦ elim (Bool-cases (v.kind == value_string)) [
      | inl a ↦ let (tail, e) = write_padded_string-extends out v.str in (tail, rw (n, m, a) e)
      | inr l ↦ ([], rw (n, m, l) (sym (append-nil out)))
    ]
  ]
]

pub write_args-extends :
    (vs : List Value) (out : Bytes) → (tail : Bytes) × (write_args vs out ≡ out ++ tail)
unfolding write_args
write_args-extends [] out = ([], sym (append-nil out))
write_args-extends (v ∷ vs) out =
    let (first, e) = write_arg-extends v out in
    let (tail, d) = write_args-extends vs (write_arg v out) in
    (first ++ tail, d ∙ ap (λ t. t ++ tail) e ∙ append_assoc out first tail)

pub read_args-write_args :
    (vs : List Value) (tags out rest : Bytes) (acc : List Value)
    → tags_of vs ≡ ok tags
    → All InRange vs
    → read_args tags (write_args vs out ++ rest) (length out) acc
      ≡ ok (acc ++ map used vs, length (write_args vs out))
unfolding read_args write_args tags_of
read_args-write_args [] tags out rest acc h r =
    rw (← ok_inj [] tags h) (ap (λ l. ok (l, length out)) (sym (append-nil acc)))
read_args-write_args (v ∷ vs) tags out rest acc h r =
    let (tag, e, k) = >>=_inv (tag_of v) _ _ h in
    let (more, d, j) = >>=_inv (tags_of vs) _ _ k in
    let (tail, f) = write_args-extends vs (write_arg v out) in
    let here : read_arg tag (write_args vs (write_arg v out) ++ rest) (length out)
        ≡ ok (used v, length (write_arg v out)) =
      rw (f, append_assoc (write_arg v out) tail rest)
        (read_arg-write_arg v out (tail ++ rest) tag e r.0) in
    rw (← ok_inj (tag ∷ more) tags j, here)
      (read_args-write_args vs more (write_arg v out) rest (acc ++ (used v ∷ [])) d r.1
        ∙ ap (λ l. ok (l, length (write_args vs (write_arg v out))))
            (append_assoc acc (used v ∷ []) (map used vs)))
